-- ===== src/Client/Responses/Abort.antt =====
-- abort of client/replica_responses.go ends with every request answered.
use red_lease.Prelude.{
  ℕ, zero, suc, ◌+◌, ◌≤◌, ◌<◌, ◌≡◌, ◌≢◌, refl, ap, sym, ◌∙◌, arith, false, List, [], ◌∷◌, ◌==◌,
  if◌then◌else◌, ℕ_discrete, Bool-cases, ==-false, inl, inr, some,
}
use red_lease.Client.Connection.{ReplicaResponse, ConnError, broken}
use red_lease.Client.Responses.{
  Responses, Replicas, no_wait, complete_at, complete_all, drain, abort, release,
}
use red_lease.Client.Responses.Held.{active-some, active-find, Held}
use red_lease.Client.Responses.Moves.{complete_at-Held, left, receive-left, left-Held}

module _ {S : Type 0} (net : Replicas S) (n : ℕ) where
  -- No request of the first `m` replicas is still pending.
  abbrev Answered : ℕ → S → Responses → Type 0
  Answered m s r =
      (j : ℕ)
      → j < m
      → (r.waits j).request_id ≢ 0
      → net.is_pending s j (r.waits j).request_id ≡ false

  answered-more :
      (j : ℕ) (e : ConnError) (s : S) (r : Responses)
      → Held net n s r
      → Answered j s r
      → let k = (r.waits j).request_id in
        let t = if k == 0 then (s, r) else complete_at net j k (broken e) (s, r) in
        Held net n t.0 t.1 × Answered (suc j) t.0 t.1
  unfolding complete_at
  answered-more j e s r inv before = elim (ℕ_discrete (r.waits j).request_id 0) [
    | yes free ↦ simp free (
      inv,
      λ i lt own. elim (ℕ_discrete i j) [
        | yes same ↦ absurd (own (ap (λ m. (r.waits m).request_id) same ∙ free))
        | no other ↦ before i (omega (arith, lt, other)) own
      ],
    )
    | no own ↦
        let k = (r.waits j).request_id in
        let test = ==-false k 0 own in
        simp test (
          complete_at-Held net n j (broken e) s r inv own,
          λ i lt own_i. elim (ℕ_discrete i j) [
            | yes same ↦ rw same (net.no_more s j k (broken e))
            | no other ↦
                net.others s j k (broken e) i (r.waits i).request_id (inl other)
                ∙ before i (omega (arith, lt, other)) own_i
          ],
        )
  ]

  complete_all-Answered :
      (m j : ℕ) (e : ConnError) (s : S) (r : Responses)
      → Held net n s r
      → Answered j s r
      → let t = complete_all net e j m (s, r) in Held net n t.0 t.1 × Answered (j + m) t.0 t.1
  unfolding complete_all
  complete_all-Answered zero j e s r inv before = (inv, λ i lt. before i (omega (arith, lt)))
  complete_all-Answered (suc m) j e s r inv before =
      let (now_inv, more) = answered-more j e s r inv before in
      let (last, all) = complete_all-Answered m (suc j) e _ _ now_inv more in
      (last, λ i lt. all i (omega (arith, lt)))

  -- Something is in the channel when a request remains and none is pending.
  something :
      (s : S) (r : Responses) → Held net n s r → Answered n s r → 1 ≤ r.remaining → r.results ≢ []
  something s r inv all le e =
      let (j, lt, own) = active-find r.waits n (omega (arith, le, inv.counted)) in
      let there = inv.each j own in let gone = all j lt own in ground (arith, there, gone, e)

  left-Answered :
      (s : S) (r : Responses) (x : ReplicaResponse) (rest : List ReplicaResponse)
      (inv : Held net n s r) (at : r.results ≡ x ∷ rest)
      → Answered n s r
      → Answered n s (left net n s r inv x rest at)
  left-Answered s r x rest inv at all j lt own = elim (ℕ_discrete j x.replica) [
    | yes same ↦ absurd (ground (arith, own, same))
    | no other ↦ let e = all j lt (λ z. ground (arith, own, other, z)) in ground (arith, e, other)
  ]

  drain-ends :
      (m : ℕ) (rs : List ReplicaResponse) (s : S) (r : Responses)
      → Held net n s r
      → Answered n s r
      → r.remaining ≡ m
      → r.results ≡ rs
      → (q : Responses) × (drain m r ≡ some q) × Held net n s q × (q.remaining ≡ 0)
  unfolding drain
  drain-ends zero rs s r inv all e at = (r, refl, inv, e)
  drain-ends (suc m) [] s r inv all e at = absurd (something s r inv all (omega (arith, e)) at)
  drain-ends (suc m) (x ∷ rest) s r inv all e at =
      rw (receive-left net n s r inv x rest at, drain)
        (drain-ends m rest s (left net n s r inv x rest at) (left-Held net n s r inv x rest at)
          (left-Answered s r x rest inv at all) (omega (arith, e)) refl)

  channel_empty :
      (s : S) (r : Responses) (rs : List ReplicaResponse)
      → Held net n s r
      → r.remaining ≡ 0
      → r.results ≡ rs
      → r.results ≡ []
  channel_empty s r [] inv e at = at
  channel_empty s r (x ∷ rest) inv e at =
      let (ne, known) = inv.known x.replica x.request_id (ground (arith, at)) in
      let own : (r.waits x.replica).request_id ≢ 0 = λ z. ne (sym known ∙ z) in
      absurd (
        omega
          (arith, e, inv.counted, active-some r.waits n x.replica (inv.inside x.replica own) own))

  timer_stopped : (s : S) (r : Responses) → Held net n s r → r.remaining ≡ 0 → r.timer ≡ false
  timer_stopped s r inv e = elim (Bool-cases r.timer) [
    | inl t ↦ absurd (omega (arith, e, inv.timed t))
    | inr f ↦ f
  ]

  -- When no request remains, release does not panic.
  release-total :
      (s : S) (r : Responses)
      → Held net n s r
      → r.remaining ≡ 0
      → (q : Responses) × (release r ≡ some q) × (q.results ≡ [])
  unfolding release
  release-total s r inv e =
      let none_left = channel_empty s r r.results inv e refl in
      let stopped = timer_stopped s r inv e in
      (record r { waits = λ j. no_wait }, ground (arith, e, none_left, stopped), none_left)

  -- For a call whose every request is pending or has its result in the channel, and nothing else
  -- is there: abort does not panic and never waits for a result that does not come; it ends with
  -- no request remaining and an empty channel, and release then does not panic.
  pub abort-ends :
      (e : ConnError) (s : S) (r : Responses)
      → Held net n s r
      → (t : S) × (q : Responses) × (freed : Responses) × (abort net n e (s, r) ≡ some (t, q))
        × (q.remaining ≡ 0)
        × (q.results ≡ [])
        × (release q ≡ some freed)
  unfolding abort
  abort-ends e s r inv =
      let (held, all) = complete_all-Answered n 0 e s r inv (λ j lt. absurd (omega arith)) in
      let (t, p) = complete_all net e 0 n (s, r) in
      let (q, drained, end_held, zero_left) =
        drain-ends p.remaining p.results t p held (λ j lt. all j (omega (arith, lt))) refl refl in
      let (freed, is, none_left) = release-total t q end_held zero_left in
      (
        t,
        q,
        freed,
        rw (drained, abort) refl,
        zero_left,
        channel_empty t q q.results end_held zero_left refl,
        is,
      )
