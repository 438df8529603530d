-- ===== src/Server/State/Steps.antt =====
-- acquireLocked of server/state.go: one attempt under the shard's mutex.
use red_lease.Prelude.{
  ℕ, ◌+◌, ◌*◌, ◌≤◌, ◌<◌, ◌≡◌, refl, ap, ◌≢◌, true, false, Bool, Option, none, some, arith, ◌==◌,
  if◌then◌else◌, update, ℕ_discrete, ltb, leb, inl, inr, Option-cases, Bool-cases,
}
use red_lease.Protocol.{Response, millisecond}
use red_lease.Protocol.LeaseStatus
use red_lease.Server.Shard.{Shard, Entry, id_eq, lookup, add_lease}
use red_lease.Server.Shard.Add.{add_lease-Added}
use red_lease.Server.Shard.Expire.{live}
use red_lease.Server.Shard.Remove.{remove_lease-Dropped}
use red_lease.Server.State.{
  Server, Config, Operation, reserve_key, remaining_ttl_ms, acquire_response, grant, acquire_found,
  acquire_locked,
}
use red_lease.Server.State.Inv.{ServerInv, Turn, Turn-idle, Turn-after, view, put-Turn, release-put}

abbrev pub entry_of : Operation → ℕ → ℕ → Entry
entry_of op now ttl_ms = record { id = op.lease_id; deadline = now + ttl_ms * millisecond }

-- A reported remainder lies within the lease and within the configured maximum.
pub remaining-le :
    (deadline now maximum : ℕ)
    → now ≤ deadline
    → now + remaining_ttl_ms deadline now maximum * millisecond ≤ deadline
unfolding remaining_ttl_ms
remaining-le deadline now maximum le = omega arith

pub remaining-le-maximum :
    (deadline now maximum : ℕ) → remaining_ttl_ms deadline now maximum ≤ maximum
unfolding remaining_ttl_ms
remaining-le-maximum deadline now maximum = omega arith

-- Acquire found a lease that is valid, so nothing changed.
pub data Found (s : Server) (i : ℕ) (op : Operation) (now : ℕ) (r : Response) (t : Server)
    : Type 0 where
  owned :
      (e : Entry)
      → view s now i op.key ≡ some e
      → id_eq e.id op.lease_id ≡ true
      → r
        ≡ acquire_response op.request_id LeaseStatus.already_owned
            (remaining_ttl_ms e.deadline now s.config.max_ttl)
      → t ≡ s
      → Found s i op now r t
  busy :
      (e : Entry)
      → view s now i op.key ≡ some e
      → id_eq e.id op.lease_id ≡ false
      → r ≡ acquire_response op.request_id LeaseStatus.busy 0
      → t ≡ s
      → Found s i op now r t

-- Acquire found no valid lease, and there was no question of capacity or there was room.
pub data Granted (s : Server) (i : ℕ) (op : Operation) (now ttl_ms : ℕ) (r : Response) (t : Server)
    : Type 0 where
  nothing :
      view s now i op.key ≡ none
      → ttl_ms ≡ 0
      → r ≡ acquire_response op.request_id LeaseStatus.ok 0
      → Turn s now i op.key none t
      → Granted s i op now ttl_ms r t
  granted :
      view s now i op.key ≡ none
      → 0 < ttl_ms
      → r ≡ acquire_response op.request_id LeaseStatus.ok ttl_ms
      → Turn s now i op.key (some (entry_of op now ttl_ms)) t
      → Granted s i op now ttl_ms r t

-- The three ways in which one attempt ends.
pub data Attempt (s : Server) (i : ℕ) (op : Operation) (now ttl_ms : ℕ)
    (r : Option ((Response × Bool) × Server)) : Type 0 where
  found :
      (a : Response) (t : Server)
      → r ≡ some ((a, false), t)
      → Found s i op now a t
      → Attempt s i op now ttl_ms r
  served :
      (a : Response) (t : Server)
      → r ≡ some ((a, false), t)
      → Granted s i op now ttl_ms a t
      → Attempt s i op now ttl_ms r
  full :
      (a : Response) (t : Server)
      → r ≡ some ((a, true), t)
      → view s now i op.key ≡ none
      → 0 < ttl_ms
      → t.config.max_keys ≤ t.keys
      → Turn s now i op.key none t
      → (lookup (s.shards i) op.key ≡ none → t ≡ s)
      → Attempt s i op now ttl_ms r

pub vacant : (s : Shard) (k : ℕ) → lookup s k ≡ none → s.leases k ≡ none
vacant s k e = ground arith

module _ (s : Server) (i : ℕ) (op : Operation) (now ttl_ms : ℕ) (v : ServerInv s)
    (hi : i < s.config.shard_count) where
  granted-Turn :
      lookup (s.shards i) op.key ≡ none
      → 0 < ttl_ms
      → s.keys < s.config.max_keys
      → Turn s now i op.key (some (entry_of op now ttl_ms)) (record s {
        shards =
            update s.shards i
              (add_lease (s.shards i) op.key op.lease_id (now + ttl_ms * millisecond));
        keys = s.keys + 1;
      })
  granted-Turn none_there pos room =
      let a =
        add_lease-Added (s.shards i) op.key op.lease_id (now + ttl_ms * millisecond) (v.sound i hi)
          (vacant (s.shards i) op.key none_there) in
      put-Turn s now i op.key _ (s.keys + 1) _ v hi a.inv (omega (arith, a.size)) (omega arith)
        (λ j. ground (arith, a.table j))

  pub grant-Attempt :
      lookup (s.shards i) op.key ≡ none → Attempt s i op now ttl_ms (some (grant s i op now ttl_ms))
  unfolding grant reserve_key
  grant-Attempt none_there = elim (ℕ_discrete ttl_ms 0) [
    | yes e ↦
        served (acquire_response op.request_id LeaseStatus.ok 0) s (ground arith)
          (nothing (ground arith) e refl (Turn-idle s now i op.key none v (ground arith)))
    | no ne ↦ elim (Bool-cases (leb s.config.max_keys s.keys)) [
      | inl e ↦
          full (record { request_id = 0; operation = 0; status = 0; ttl_ms = 0 }) s (ground arith)
            (ground arith) (omega arith) (ground arith)
            (Turn-idle s now i op.key none v (ground arith)) (λ _. refl)
      | inr e ↦
          served (acquire_response op.request_id LeaseStatus.ok ttl_ms)
            (record s {
              shards =
                  update s.shards i
                    (add_lease (s.shards i) op.key op.lease_id (now + ttl_ms * millisecond));
              keys = s.keys + 1;
            })
            (ground arith)
            (granted (ground arith) (omega arith) refl
              (granted-Turn none_there (omega arith) (ground arith)))
    ]
  ]

-- An expired lease of the key was cleared away first.
after-Attempt :
    (s u : Server) (i : ℕ) (op : Operation) (now ttl_ms : ℕ)
    (r : Option ((Response × Bool) × Server))
    → view s now i op.key ≡ none
    → lookup (s.shards i) op.key ≢ none
    → Turn s now i op.key none u
    → Attempt u i op now ttl_ms r
    → Attempt s i op now ttl_ms r
after-Attempt s u i op now ttl_ms r none_seen held a (found b t e (owned w see _ _ _)) =
    absurd (clash (a.here op.key) see)
  where
    clash :
        view u now i op.key ≡ (if op.key == op.key then none else view s now i op.key)
        → view u now i op.key ≡ some w
        → ⊥
    clash p q = ground arith
after-Attempt s u i op now ttl_ms r none_seen held a (found b t e (busy w see _ _ _)) =
    absurd (clash (a.here op.key) see)
  where
    clash :
        view u now i op.key ≡ (if op.key == op.key then none else view s now i op.key)
        → view u now i op.key ≡ some w
        → ⊥
    clash p q = ground arith
after-Attempt s u i op now ttl_ms r none_seen held a (served b t e (nothing see z q turn)) =
    served b t e (nothing none_seen z q (Turn-after (rw none_seen a) turn))
after-Attempt s u i op now ttl_ms r none_seen held a (served b t e (granted see pos q turn)) =
    served b t e (granted none_seen pos q (Turn-after (rw none_seen a) turn))
after-Attempt s u i op now ttl_ms r none_seen held a (full b t e see pos lim turn same) =
    full b t e none_seen pos lim (Turn-after (rw none_seen a) turn) (λ free. absurd (held free))

-- An attempt answers in one of the three ways, and does not panic.
module _ (s : Server) (i : ℕ) (op : Operation) (now ttl_ms : ℕ) (v : ServerInv s)
    (hi : i < s.config.shard_count) where
  abbrev at : ℕ → Entry
  at p = record { id = (s.shards i).id p; deadline = (s.shards i).deadline p }

  found-Attempt :
      (p : ℕ)
      → (s.shards i).leases op.key ≡ some p
      → Attempt s i op now ttl_ms (acquire_found s i p op now ttl_ms)
  unfolding acquire_found
  found-Attempt p here = elim (Bool-cases (ltb now ((s.shards i).deadline p))) [
    | inl valid ↦ elim (Bool-cases (id_eq ((s.shards i).id p) op.lease_id)) [
      | inl same ↦
          found _ s (rw (valid, same))
            (owned (at p) (rw (here, lookup) (rw (valid, live))) same refl refl)
      | inr other ↦
          found _ s (rw (valid, other))
            (busy (at p) (rw (here, lookup) (rw (valid, live))) other refl refl)
    ]
    | inr expired ↦
        let (t, removed, d) = remove_lease-Dropped (s.shards i) op.key p (v.sound i hi) here in
        let (u, released, turn, gone) = release-put s now i op.key t v hi d in
        rw (expired, removed, released)
          (after-Attempt s u i op now ttl_ms _ (rw (here, lookup) (rw (expired, live)))
            (λ free. ground arith) turn
            (grant-Attempt u i op now ttl_ms turn.inv
              (omega (arith, ap (λ (c : Config). c.shard_count) turn.config)) gone))
  ]

  pub locked-Attempt : Attempt s i op now ttl_ms (acquire_locked s i op now ttl_ms)
  unfolding acquire_locked
  locked-Attempt = elim (Option-cases ((s.shards i).leases op.key)) [
    | inl missing ↦
        rw (missing, acquire_locked) (grant-Attempt s i op now ttl_ms v hi (rw (missing, lookup)))
    | inr (p, here) ↦ rw (here, acquire_locked) (found-Attempt p here)
  ]
