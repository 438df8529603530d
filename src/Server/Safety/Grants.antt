-- ===== src/Server/Safety/Grants.antt =====
-- What a positive answer of the server is worth to the client that receives it.
use red_lease.Prelude.{
  ℕ, ◌+◌, ◌*◌, ◌≤◌, ◌<◌, ◌≡◌, ap, true, Bool, Option, none, some, arith, ◌||◌, ◌==◌,
}
use red_lease.Protocol.{Response, millisecond}
use red_lease.Protocol.LeaseStatus
use red_lease.Server.Shard.{Entry, LeaseId, id_eq, lookup}
use red_lease.Server.Shard.Expire.{live}
use red_lease.Server.State.{Server, Operation, acquire, effective_ttl_ms}
use red_lease.Server.State.Inv.{ServerInv}
use red_lease.Server.State.Steps.{
  owned, busy, nothing, granted, entry_of, remaining-le, remaining-le-maximum,
}
use red_lease.Server.State.Acquire.{Acquired, acquire-Acquired, refused, accepted, limited}
use red_lease.Server.State.Renew.{Renewed, stale, renewed, renewed_deadline}
use red_lease.Server.Safety.{Holds}

-- The statuses that a client takes for an acquired lease.
abbrev pub acquired_status : ℕ → Bool
acquired_status status = status == LeaseStatus.ok || status == LeaseStatus.already_owned

valid_entry : (now : ℕ) (x : Option Entry) (e : Entry) → live now x ≡ some e → now < e.deadline
valid_entry now none e h = absurd (ground arith)
valid_entry now (some w) e h = ground arith

id_eq_refl : (a : LeaseId) → id_eq a a ≡ true
id_eq_refl a = ground arith

-- What acquire has done, from its result.
pub acquire_known :
    (s t : Server) (i : ℕ) (op : Operation) (now : ℕ) (r : Response)
    → ServerInv s
    → i < s.config.shard_count
    → acquire s i op now ≡ some (r, t)
    → Acquired s i op now r t
acquire_known s t i op now r inv hi ran =
    let (q, u, e, done) = acquire-Acquired s i op now inv hi in
    let same_response : q ≡ r = ground (arith, ran, e) in
    let same_server : u ≡ t = ground (arith, ran, e) in rw (same_response, same_server) at done

module _ (s t : Server) (i : ℕ) (op : Operation) (now : ℕ) (r : Response) where
  -- A success with a positive TTL is worth that TTL.
  pub Acquired-Holds :
      Acquired s i op now r t
      → acquired_status r.status ≡ true
      → 0 < r.ttl_ms
      → Holds t now i op.key op.lease_id (now + r.ttl_ms * millisecond)
  Acquired-Holds (refused (owned e see own a eq)) good pos =
      let told = ap (λ (x : Response). x.ttl_ms) a in
      let valid = valid_entry now (lookup (s.shards i) op.key) e see in
      record {
        entry = e;
        seen = rw eq see;
        owner = own;
        lasts = rw told (remaining-le e.deadline now s.config.max_ttl (omega arith));
      }
  Acquired-Holds (refused (busy e see own a eq)) good pos = absurd (ground arith)
  Acquired-Holds (accepted (nothing see z a turn)) good pos = absurd (ground arith)
  Acquired-Holds (accepted (granted see z a turn)) good pos =
      let told = ap (λ (x : Response). x.ttl_ms) a in
      record {
        entry = entry_of op now (effective_ttl_ms s op);
        seen = ground (arith, turn.here op.key);
        owner = id_eq_refl op.lease_id;
        lasts = rw told (omega arith);
      }
  Acquired-Holds (limited see z a turn l all) good pos = absurd (ground arith)

  -- After a renew that answers OK the server holds the lease of the operation for the TTL it
  -- answered.
  pub Renewed-Holds :
      Renewed s i op now r t
      → r.status ≡ LeaseStatus.ok
      → Holds t now i op.key op.lease_id (now + r.ttl_ms * millisecond)
  Renewed-Holds (stale other a turn) good = absurd (ground arith)
  Renewed-Holds (renewed e see own a turn) good =
      let told = ap (λ (x : Response). x.ttl_ms) a in
      let valid = valid_entry now (lookup (s.shards i) op.key) e see in
      let high = renewed_deadline s op now e in
      record {
        entry = record { id = e.id; deadline = high };
        seen = ground (arith, turn.here op.key);
        owner = own;
        lasts = rw told (remaining-le high now s.config.max_ttl (omega arith));
      }

  -- No answer of acquire carries a TTL above the configured maximum.
  pub Acquired-bound : Acquired s i op now r t → r.ttl_ms ≤ s.config.max_ttl
  Acquired-bound (refused (owned e see own a eq)) =
      rw (ap (λ (x : Response). x.ttl_ms) a) (remaining-le-maximum e.deadline now s.config.max_ttl)
  Acquired-bound (refused (busy e see own a eq)) =
      rw (ap (λ (x : Response). x.ttl_ms) a) (omega arith)
  Acquired-bound (accepted (nothing see z a turn)) =
      rw (ap (λ (x : Response). x.ttl_ms) a) (omega arith)
  Acquired-bound (accepted (granted see z a turn)) =
      rw (ap (λ (x : Response). x.ttl_ms) a) (omega arith)
  Acquired-bound (limited see z a turn l all) = rw (ap (λ (x : Response). x.ttl_ms) a) (omega arith)

-- On a server with the invariant and a shard in range: when acquire answers with a success status
-- and a positive TTL, the server that it returns holds the key for the lease of the operation
-- until that TTL after the instant of the operation, and the TTL is at most the configured
-- maximum.
pub acquire-Holds :
    (s t : Server) (i : ℕ) (op : Operation) (now : ℕ) (r : Response)
    → ServerInv s
    → i < s.config.shard_count
    → acquire s i op now ≡ some (r, t)
    → acquired_status r.status ≡ true
    → 0 < r.ttl_ms
    → Holds t now i op.key op.lease_id (now + r.ttl_ms * millisecond)
      × (r.ttl_ms ≤ s.config.max_ttl)
acquire-Holds s t i op now r inv hi ran good pos =
    let done = acquire_known s t i op now r inv hi ran in
    (Acquired-Holds s t i op now r done good pos, Acquired-bound s t i op now r done)
