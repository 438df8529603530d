-- ===== src/Client/Connection/Account/Moves.antt =====
-- How completing and failing requests of client/connection_generation.go changes the account.
use red_lease.Prelude.{
  ℕ, ◌+◌, ◌≤◌, ◌≡◌, refl, ap, sym, ◌∙◌, arith, true, false, List, [], Option, none, some,
  Option-cases, inl, inr, ℕ_discrete,
}
use red_lease.Client.Connection.{
  ReplicaConn, ConnResult, Delivery, lookup, delete, pending_shard_index, set_pending,
  complete_in_shard, fail_shard,
}
use red_lease.Client.Connection.Pending.{
  held, sent, entries-delete-same, entries-delete-other, lookup-some, sent-deliveries,
}
use red_lease.Client.Connection.Account.{Ledger, held_at, Account, Moved, unmoved}

module _ (s : Ledger) (inv : Account s) where
  pub few : (i k : ℕ) → held_at s.conn i k ≤ 1
  few i k = elim (ℕ_discrete i (pending_shard_index k)) [
    | yes at ↦ omega (arith, at, inv.count k, inv.once k, ap (λ j. held_at s.conn j k) at)
    | no ne ↦ omega (arith, inv.alone i k ne)
  ]

  -- A change that at most queues a response or a request.
  abbrev pub Alike : ReplicaConn → Type 0
  Alike c =
      ((j : ℕ) → (c.shards j).pending ≡ (s.conn.shards j).pending)
      × (c.cancelled ≡ s.conn.cancelled)

  pub Alike-Moved : (c : ReplicaConn) → Alike c → Moved s.conn c []
  Alike-Moved c (equal, go) =
      unmoved s.conn c equal (λ h j. let (xs, e) = inv.is_open (sym go ∙ h) j in (xs, equal j ∙ e))

  -- The map of one shard gives up the entries whose results are sent.
  pub set-Moved :
      (c : ReplicaConn) (i : ℕ) (new : Option (List (ℕ × ℕ))) (ds : List Delivery)
      → Alike c
      → ((k : ℕ) → sent ds k + held new k ≡ held_at s.conn i k)
      → (c.cancelled ≡ false → (xs : List (ℕ × ℕ)) × (new ≡ some xs))
      → Moved s.conn (set_pending c i new) ds
  set-Moved c i new ds (equal, go) given stays = record {
    kept = λ k. elim (ℕ_discrete (pending_shard_index k) i) [
      | yes at ↦ ground (arith, given k, ap (λ j. held_at s.conn j k) at)
      | no ne ↦ ground (
        arith,
        given k,
        inv.alone i k (λ e. ne (sym e)),
        ap (λ x. held x k) (equal (pending_shard_index k)),
      )
    ];
    fewer = λ j k. elim (ℕ_discrete j i) [
      | yes at ↦ ground (arith, given k, ap (λ j. held_at s.conn j k) at)
      | no ne ↦ ground (arith, ap (λ x. held x k) (equal j))
    ];
    is_open = λ h j. elim (ℕ_discrete j i) [
      | yes at ↦ let (xs, e) = stays h in (xs, ground (arith, at, e))
      | no ne ↦ let (xs, e) = inv.is_open (sym go ∙ h) j in (xs, ground (arith, equal j ∙ e))
    ];
  }

  pub complete-Moved :
      (c : ReplicaConn) (i k : ℕ) (result : ConnResult) (pending : Option (List (ℕ × ℕ)))
      → (s.conn.shards i).pending ≡ pending
      → Alike c
      → let r = complete_in_shard c i k result pending in Moved s.conn r.0 r.1
  unfolding complete_in_shard
  complete-Moved c i k result none e alike = Alike-Moved c alike
  complete-Moved c i k result (some pending) e alike = elim (Option-cases (lookup pending k)) [
    | inl missing ↦ rw (missing, complete_in_shard) (Alike-Moved c alike)
    | inr (d, found) ↦
        let there = lookup-some pending k d found in
        let one = few i k in
        let gone = entries-delete-same pending k in
        rw (found, complete_in_shard)
          (set-Moved c i (some (delete pending k)) _ alike
            (λ j. elim (ℕ_discrete k j) [
              | yes at ↦ ground (arith, e, there, one, gone)
              | no ne ↦ ground (arith, e, entries-delete-other pending k j ne)
            ])
            (λ h. (delete pending k, refl)))
  ]

  pub fail-Moved :
      (i : ℕ) (result : ConnResult) (pending : Option (List (ℕ × ℕ)))
      → (s.conn.shards i).pending ≡ pending
      → s.conn.cancelled ≡ true
      → let r = fail_shard s.conn result i pending in Moved s.conn r.0 r.1
  unfolding fail_shard
  fail-Moved i result none e done =
      set-Moved s.conn i none [] ((λ j. refl), refl) (λ k. ground (arith, e))
        (λ h. absurd (ground (arith, done)))
  fail-Moved i result (some pending) e done =
      set-Moved s.conn i none _ ((λ j. refl), refl)
        (λ k. ground (arith, e, sent-deliveries s.conn result pending k))
        (λ h. absurd (ground (arith, done)))
