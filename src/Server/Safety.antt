-- ===== src/Server/Safety.antt =====
-- What the operations of server/state.go promise to the holder of a lease.
pub mod Protect
pub mod Grants
pub mod Served
pub mod History
use red_lease.Prelude.{
  ℕ, ◌+◌, ◌*◌, ◌≤◌, ◌<◌, ◌≡◌, refl, ◌≢◌, true, false, Bool, Option, none, some, arith, ltb, ◌&&◌,
  if◌then◌else◌, ◌==◌,
}
use red_lease.Server.Shard.{Entry, LeaseId, id_eq, lookup}
use red_lease.Server.Shard.Expire.{live}
use red_lease.Server.State.{Server, Operation, OperationKind, release_kind}
use red_lease.Server.State.Inv.{view}

-- At `now` the server grants the key to the lease, until `until` at least.
pub record Holds (s : Server) (now i k : ℕ) (id : LeaseId) (until : ℕ) : Type 0 where
  pub entry : Entry
  pub seen : view s now i k ≡ some entry
  pub owner : id_eq entry.id id ≡ true
  pub lasts : until ≤ entry.deadline

-- An operation that gives the lease up.
abbrev pub Releases : Operation → ℕ → LeaseId → Type 0
Releases op k id = (op.kind ≡ release_kind) × (op.key ≡ k) × (id_eq op.lease_id id ≡ true)

live_later :
    (now later : ℕ) (e : Option Entry) → now ≤ later → live later (live now e) ≡ live later e
live_later now later none le = refl
live_later now later (some e) le = ground arith

-- Time alone does not end a lease before its time.
pub Holds-later :
    {s : Server} {now i k : ℕ} {id : LeaseId} {until : ℕ} (later : ℕ)
    → now ≤ later
    → later < until
    → Holds s now i k id until
    → Holds s later i k id until
Holds-later {s} {now} {i} {k} {id} {until} later le lt h = record {
  entry = h.entry;
  seen = ground (arith, live_later now later (lookup (s.shards i) k) le, h.seen, h.lasts);
  owner = h.owner;
  lasts = h.lasts;
}

-- No two leases hold one key.
pub Holds-exclusive :
    {s : Server} {now i k : ℕ} {a b : LeaseId} {u w : ℕ}
    → Holds s now i k a u
    → Holds s now i k b w
    → id_eq a b ≡ true
Holds-exclusive h g = ground (arith, h.seen, g.seen, h.owner, g.owner)

pub Holds-weaken :
    {s : Server} {now i k : ℕ} {id : LeaseId} {until : ℕ} (sooner : ℕ)
    → sooner ≤ until
    → Holds s now i k id until
    → Holds s now i k id sooner
Holds-weaken sooner le h = record {
  entry = h.entry;
  seen = h.seen;
  owner = h.owner;
  lasts = omega (arith, h.lasts);
}
