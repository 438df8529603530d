-- ===== src/Client/Connection/Account/Submit.antt =====
-- How submitForOperation of client/replica_conn.go changes the account.
use red_lease.Prelude.{
  ℕ, ◌+◌, ◌≡◌, ◌≢◌, refl, ap, sym, ◌∙◌, arith, List, [], ◌∷◌, Option, none, some, Bool-cases,
  Option-cases, inl, inr, ℕ_discrete,
}
use red_lease.Wire.{OutboundRequest}
use red_lease.Client.Connection.{
  ReplicaConn, ConnError, send_queue_full, delete, pending_shard_index, set_pending, try_enqueue,
  submit_for_operation, submit_pending, req_queue_capacity,
}
use red_lease.Client.Connection.Pending.{same, entries, entries-delete-same, entries-delete-other}
use red_lease.Client.Connection.Account.{Ledger, times, accept, held_at, Account, Moved-Account}
use red_lease.Client.Connection.Account.Moves.{set-Moved}

module _ (s : Ledger) (inv : Account s) where
  -- What a submission leads to, where it does not panic.
  abbrev pub Answered : ℕ → Option (Option ConnError × ReplicaConn) → Type 0
  Answered k none = Unit
  Answered k (some (e, c)) =
      Account (record { conn = c; accepted = accept e k s.accepted; results = s.results })

  module _ (k : ℕ) (fresh : times s.accepted k ≡ 0) where
    absent : (j : ℕ) → held_at s.conn j k ≡ 0
    absent j = elim (ℕ_discrete j (pending_shard_index k)) [
      | yes at ↦ omega (arith, inv.count k, ap (λ i. held_at s.conn i k) at)
      | no ne ↦ inv.alone j k ne
    ]

    settled :
        (pending : List (ℕ × ℕ))
        → entries pending k ≡ 0
        → (j : ℕ) → entries (delete pending k) j ≡ entries pending j
    settled pending none_left j = elim (ℕ_discrete k j) [
      | yes at ↦ ground (arith, at, none_left, entries-delete-same pending k)
      | no ne ↦ entries-delete-other pending k j ne
    ]

    module _ (operation : ℕ) (pending : List (ℕ × ℕ))
        (e : (s.conn.shards (pending_shard_index k)).pending ≡ some pending) where
      -- The connection with an entry for the new request.
      abbrev with_entry : ReplicaConn
      with_entry =
          set_pending s.conn (pending_shard_index k) (some ((k, operation) ∷ delete pending k))

      same_shard : (j : ℕ) → pending_shard_index k ≢ pending_shard_index j → k ≢ j
      same_shard j ne at = ne (ap pending_shard_index at)

      held-entry :
          (i j : ℕ)
          → i ≡ pending_shard_index k
          → held_at with_entry i j ≡ same k j + held_at s.conn i j
      held-entry i j at =
          let left = absent (pending_shard_index k) in
          let old = settled pending (ground (arith, left, e)) j in
          ground (arith, old, e, ap (λ n. held_at s.conn n j) at)

      held-other :
          (i j : ℕ) → i ≢ pending_shard_index k → held_at with_entry i j ≡ held_at s.conn i j
      held-other i j ne = ground arith

      entered :
          (queue : List OutboundRequest)
          → Answered k (some (none, record (with_entry) { req_queue = queue }))
      entered queue = record {
        count = λ j. elim (ℕ_discrete (pending_shard_index j) (pending_shard_index k)) [
          | yes at ↦ omega (arith, held-entry (pending_shard_index j) j at, inv.count j)
          | no ne ↦
              let other = same_shard j (λ x. ne (sym x)) in
              ground (arith, held-other (pending_shard_index j) j ne, inv.count j, other)
        ];
        once = λ j. elim (ℕ_discrete k j) [
          | yes at ↦ ground (arith, fresh, at)
          | no ne ↦ ground (arith, inv.once j)
        ];
        alone = λ i j ne. elim (ℕ_discrete i (pending_shard_index k)) [
          | yes at ↦
              let other = same_shard j (λ x. ne (at ∙ x)) in
              ground (arith, held-entry i j at, inv.alone i j ne, other)
          | no away ↦ held-other i j away ∙ inv.alone i j ne
        ];
        is_open = λ h i. elim (ℕ_discrete i (pending_shard_index k)) [
          | yes at ↦ ((k, operation) ∷ delete pending k, ground (arith, at))
          | no ne ↦ let (xs, f) = inv.is_open h i in (xs, ground (arith, f))
        ];
      }

      -- No entry for the request that the full queue refused.
      refused : Answered k (
          some (
            some send_queue_full,
            set_pending s.conn (pending_shard_index k) (some (delete pending k)),
          ))
      refused = Moved-Account s _ [] inv (
          set-Moved s inv s.conn (pending_shard_index k) (some (delete pending k)) []
            ((λ j. refl), refl)
            (λ j.
              ground
                (arith, e, settled pending (ground (arith, absent (pending_shard_index k), e)) j))
            (λ h. (delete pending k, refl)))

  submit-Answered :
      (request : OutboundRequest) (operation : ℕ) (pending : Option (List (ℕ × ℕ)))
      → (s.conn.shards (pending_shard_index request.request_id)).pending ≡ pending
      → times s.accepted request.request_id ≡ 0
      → Answered request.request_id (submit_pending s.conn request operation pending)
  unfolding submit_pending
  submit-Answered request operation none e fresh = tt
  submit-Answered request operation (some pending) e fresh =
      elim (Option-cases (try_enqueue req_queue_capacity s.conn.req_queue request)) [
        | inl full ↦
            rw (full, submit_pending) (refused request.request_id fresh operation pending e)
        | inr (queue, room) ↦
            rw (room, submit_pending) (entered request.request_id fresh operation pending e queue)
      ]

  pub submit_for_operation-Answered :
      (caller : Option ℕ) (request : OutboundRequest) (operation : ℕ)
      → times s.accepted request.request_id ≡ 0
      → Answered request.request_id (submit_for_operation caller s.conn request operation)
  unfolding submit_for_operation
  submit_for_operation-Answered (some e) request operation fresh = inv
  submit_for_operation-Answered none request operation fresh = elim (Bool-cases s.conn.cancelled) [
    | inl done ↦ simp (done, submit_for_operation) inv
    | inr going ↦
        simp (going, submit_for_operation)
          (submit-Answered request operation
            (s.conn.shards (pending_shard_index request.request_id)).pending refl fresh)
  ]
