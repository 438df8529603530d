-- ===== src/Client/Quorum/Possible.antt =====
-- acquireQuorumStillPossible of client/acquire.go: giving up loses no quorum.
use red_lease.Prelude.{
  ℕ, suc, ◌+◌, ◌-◌, ◌*◌, ◌≤◌, ◌<◌, ◌≡◌, refl, Bool, true, false, some, List, [], ◌∷◌, arith, dec_lt,
  inl, inr,
}
use red_lease.Client.Quorum.{
  successes, usable, acquire_quorum_still_possible, best_acquire_quorum, parameters, size,
  candidate_valid_until, safety_margin_ms,
}
use red_lease.Client.Quorum.Select.{count_from, support, Best, best_acquire_quorum-Best}
use red_lease.Protocol.{millisecond, max_ttl_ms}

-- What the collected answers may still become: a success stays, and at most `n` other replicas answer.
pub data Completes : ℕ → List ℕ → List Bool → List ℕ → List Bool → Type 0 where
  done : {n : ℕ} → Completes n [] [] [] []
  kept :
      {n : ℕ} {cs ds : List ℕ} {olds bs : List Bool} (c : ℕ)
      → Completes n cs olds ds bs
      → Completes n (c ∷ cs) (true ∷ olds) (c ∷ ds) (true ∷ bs)
  silent :
      {n : ℕ} {cs ds : List ℕ} {olds bs : List Bool} (c d : ℕ)
      → Completes n cs olds ds bs
      → Completes n (c ∷ cs) (false ∷ olds) (d ∷ ds) (false ∷ bs)
  answered :
      {n : ℕ} {cs ds : List ℕ} {olds bs : List Bool} (c d : ℕ)
      → Completes n cs olds ds bs
      → Completes (suc n) (c ∷ cs) (false ∷ olds) (d ∷ ds) (true ∷ bs)

support-usable :
    (now : ℕ) (cs : List ℕ) (bs : List Bool) → support (suc now) cs bs ≡ usable now cs bs
unfolding successes usable count_from
support-usable now [] bs = refl
support-usable now (c ∷ cs) [] = refl
support-usable now (c ∷ cs) (true ∷ bs) = ground (arith, support-usable now cs bs)
support-usable now (c ∷ cs) (false ∷ bs) = ground (arith, support-usable now cs bs)

usable-Completes :
    {n : ℕ} {cs ds : List ℕ} {olds bs : List Bool} (now : ℕ)
    → Completes n cs olds ds bs
    → usable now ds bs ≤ usable now cs olds + n
unfolding usable
usable-Completes now done = omega arith
usable-Completes now (kept c r) = ground (arith, usable-Completes now r)
usable-Completes now (silent c d r) = ground (arith, usable-Completes now r)
usable-Completes now (answered c d r) = ground (arith, usable-Completes now r)

fewer : (now u : ℕ) (xs : List ℕ) → now < u → count_from u xs ≤ count_from (suc now) xs
unfolding count_from
fewer now u [] lt = omega arith
fewer now u (x ∷ xs) lt = ground (arith, fewer now u xs lt)

-- When the test whether a quorum is still possible says no, no completion of the answers by at
-- most the remaining replicas yields a quorum that is valid after the present instant.
pub still_possible_sound :
    (cs ds : List ℕ) (olds bs : List Bool) (remaining now quorum_size t : ℕ)
    → 0 < quorum_size
    → acquire_quorum_still_possible cs olds remaining now quorum_size ≡ false
    → Completes remaining cs olds ds bs
    → best_acquire_quorum ds bs quorum_size ≡ some t
    → t ≤ now
unfolding acquire_quorum_still_possible
still_possible_sound cs ds olds bs remaining now quorum_size t pos e later chosen =
    elim (best_acquire_quorum-Best ds bs quorum_size pos) [
      | inl (missing, few) ↦ absurd (ground (arith, chosen))
      | inr (u, found, best) ↦
          let same : t ≡ u = ground (arith, chosen) in
          let few : support (suc now) ds bs < quorum_size =
            ground (arith, support-usable now ds bs, usable-Completes now later) in
          rw same (bounded u best few)
    ]
  where
    bounded : (u : ℕ) → Best ds bs quorum_size u → support (suc now) ds bs < quorum_size → u ≤ now
    bounded u b few = elim (dec_lt now u) [
      | yes late ↦ absurd (omega (arith, fewer now u (successes ds bs) late, b.backed))
      | no early ↦ omega arith
    ]

-- In every supported quorum configuration a quorum is positive, no larger than the number of
-- servers, and more than half of it.
pub quorums_meet :
    (q : ℕ)
    → (parameters q).2 ≡ true
    → ((parameters q).0 < 2 * size q) × (0 < size q) × (size q ≤ (parameters q).0)
unfolding parameters size
quorums_meet q e = ground arith

-- The instant to which a client trusts an answer lies between the start of its operation and the
-- end of the granted TTL, and at most the protocol maximum less the safety margin after the start.
pub candidate_bounds :
    (start ttl_ms : ℕ)
    → (start ≤ candidate_valid_until start ttl_ms)
      × (candidate_valid_until start ttl_ms ≤ start + ttl_ms * millisecond)
      × (candidate_valid_until start ttl_ms ≤ start + (max_ttl_ms - safety_margin_ms) * millisecond)
unfolding candidate_valid_until
candidate_bounds start ttl_ms = ground arith
