-- ===== src/Client/Responses/Next.antt =====
-- A pass of next of client/replica_responses.go.
use red_lease.Prelude.{
  ℕ, zero, suc, ◌≤◌, ◌≡◌, ◌≢◌, refl, ap, sym, ◌∙◌, arith, Bool, true, false, not, ◌&&◌, List, [],
  ◌∷◌, ◌==◌, Bool-cases, inl, inr, some, leb,
}
use red_lease.Client.Connection.{ReplicaResponse, broken, deadline_exceeded}
use red_lease.Client.Responses.{
  Responses, Replicas, complete_at, expire_from, NextEvent, result_ready, caller_done,
  lifecycle_done, timeout, NextPass, response_received, caller_canceled, lifecycle_canceled, again,
  take_result, next_pass,
}
use red_lease.Client.Responses.Held.{one, arrived, active-some, Held}
use red_lease.Client.Responses.Moves.{complete_at-Held, left, receive-left, left-Held}

module _ {S : Type 0} (net : Replicas S) (n : ℕ) where
  -- Something that the call waits for is in the channel.
  abbrev Ready : Responses → Type 0
  Ready r =
      (j : ℕ) × ((r.waits j).request_id ≢ 0) × (1 ≤ arrived r.results j (r.waits j).request_id)

  expired_at :
      (j : ℕ) (s : S) (r : Responses)
      → Held net n s r
      → (r.waits j).request_id ≢ 0
      → Ready (complete_at net j (r.waits j).request_id (broken deadline_exceeded) (s, r)).1
  unfolding complete_at
  expired_at j s r inv own =
      let k = (r.waits j).request_id in
      let held = complete_at-Held net n j (broken deadline_exceeded) s r inv own in
      let there = held.each j own in
      let gone = net.no_more s j k (broken deadline_exceeded) in
      (j, own, omega (arith, there, ap one gone))

  expire_from-Held :
      (now j m : ℕ) (s : S) (r : Responses) (expired : Bool)
      → Held net n s r
      → (expired ≡ true → Ready r)
      → let t = expire_from net now j m (s, r) expired in
        Held net n t.1.0 t.1.1
        × (t.0 ≡ true → Ready t.1.1)
        × (t.1.1.remaining ≡ r.remaining)
        × (t.1.1.waits ≡ r.waits)
  unfolding expire_from
  expire_from-Held now j zero s r expired inv ready = (inv, ready, refl, refl)
  expire_from-Held now j (suc m) s r expired inv ready =
      let wait = r.waits j in
      elim (Bool-cases (not (wait.request_id == 0) && leb wait.response_expiry now)) [
        | inl late ↦
            let own : (r.waits j).request_id ≢ 0 = ground (arith, late) in
            simp late (
              expire_from-Held now (suc j) m _ _ true
                (complete_at-Held net n j (broken deadline_exceeded) s r inv own)
                (λ e. expired_at j s r inv own))
        | inr early ↦ simp early (expire_from-Held now (suc j) m s r expired inv ready)
      ]

  -- What a pass leaves: a result is that of a request of the call, which is no longer awaited.
  pub data Passed (r : Responses) : NextPass → Responses → Type 0 where
    passed_result :
        (x : ReplicaResponse) (q : Responses)
        → (x.request_id ≢ 0)
        → (r.waits x.replica).request_id ≡ x.request_id
        → (q.waits x.replica).request_id ≡ 0
        → r.remaining ≡ suc q.remaining
        → Passed r (response_received x) q
    passed_caller :
        (q : Responses) → q.remaining ≡ r.remaining → q.waits ≡ r.waits → Passed r caller_canceled q
    passed_lifecycle :
        (q : Responses)
        → q.remaining ≡ r.remaining
        → q.waits ≡ r.waits
        → Passed r lifecycle_canceled q
    passed_again :
        (q : Responses) → q.remaining ≡ r.remaining → q.waits ≡ r.waits → Passed r again q

  Passed-waits :
      (r m : Responses)
      → m.remaining ≡ r.remaining
      → m.waits ≡ r.waits
      → (p : NextPass) (q : Responses) → Passed m p q
      → Passed r p q
  Passed-waits r m a b o t (passed_result x q nz known gone less) =
      passed_result x q nz (ap (λ w. (w x.replica).request_id) (sym b) ∙ known) gone (sym a ∙ less)
  Passed-waits r m a b o t (passed_caller q c d) = passed_caller q (c ∙ a) (d ∙ b)
  Passed-waits r m a b o t (passed_lifecycle q c d) = passed_lifecycle q (c ∙ a) (d ∙ b)
  Passed-waits r m a b o t (passed_again q c d) = passed_again q (c ∙ a) (d ∙ b)

  take_result-Passed :
      (s : S) (r : Responses) (rs : List ReplicaResponse)
      → Held net n s r
      → r.results ≡ rs
      → rs ≢ []
      → (p : NextPass) × (q : Responses) × (take_result (s, r) ≡ some (p, (s, q)))
        × Held net n s q
        × Passed r p q
  unfolding take_result
  take_result-Passed s r [] inv at ne = absurd (ne refl)
  take_result-Passed s r (x ∷ rest) inv at ne =
      let q = left net n s r inv x rest at in
      let (nz, known) = inv.known x.replica x.request_id (ground (arith, at)) in
      let own : (r.waits x.replica).request_id ≢ 0 = λ z. nz (sym known ∙ z) in
      let held = left-Held net n s r inv x rest at in
      let waits_left = active-some r.waits n x.replica (inv.inside x.replica own) own in
      (
        response_received x,
        q,
        rw (receive-left net n s r inv x rest at, take_result) refl,
        held,
        passed_result x q nz known (ground arith) (omega (arith, inv.counted, waits_left)),
      )

  -- For such a call and any event, where a result is only received from a channel that holds one:
  -- a pass of next does not panic and, after a timeout, does not wait for a result that does not
  -- come; it keeps the call such, and a result that it gives is that of a request of the call,
  -- which is no longer awaited.
  pub next_pass-total :
      (s : S) (r : Responses) (e : NextEvent)
      → Held net n s r
      → (e ≡ result_ready → r.results ≢ [])
      → (p : NextPass) × (t : S) × (q : Responses) × (next_pass net n (s, r) e ≡ some (p, (t, q)))
        × Held net n t q
        × Passed r p q
  unfolding next_pass
  next_pass-total s r result_ready inv there =
      let (p, q, e, held, passed) = take_result-Passed s r r.results inv refl (there refl) in
      (p, s, q, e, held, passed)
  next_pass-total s r caller_done inv there =
      (caller_canceled, s, r, refl, inv, passed_caller r refl refl)
  next_pass-total s r lifecycle_done inv there =
      (lifecycle_canceled, s, r, refl, inv, passed_lifecycle r refl refl)
  next_pass-total s r (timeout now) inv there =
      let (held, ready, same, still) =
        expire_from-Held now 0 n s r false inv (λ e. absurd (ground (arith, e))) in
      let t = expire_from net now 0 n (s, r) false in
      elim (Bool-cases t.0) [
        | inl late ↦
            let (j, own, there) = ready late in
            let (p, q, e, after, passed) =
              take_result-Passed t.1.0 t.1.1 t.1.1.results held refl
                (λ z. ground (arith, there, z)) in
            (p, t.1.0, q, simp late e, after, Passed-waits r t.1.1 same still p q passed)
        | inr early ↦ (again, t.1.0, t.1.1, simp early refl, held, passed_again t.1.1 same still)
      ]
