-- ===== src/Client/Connection/Account/Total.antt =====
-- Every step keeps the account, and a closed connection has answered every request.
use red_lease.Prelude.{
  ℕ, zero, suc, ◌+◌, ◌<◌, ◌≡◌, refl, ap, ◌∙◌, subst, arith, true, List, [], ◌∷◌, ◌++◌, Option, none,
  some, Bool-cases, Option-cases, inl, inr,
}
use red_lease.Protocol.{Response}
use red_lease.Wire.{OutboundRequest}
use red_lease.Client.Connection.{
  ReplicaConn, ConnError, ConnResult, pending_shard_count, pending_shard_index, try_enqueue,
  submit_no_response, submit_for_operation, submit_pending, complete, receive_response,
  complete_responses, next_outbound, fail_shard, cancel, new_replica_conn, fail_from, fail_pending,
  close_conn, broken, replica_closed, req_queue_capacity, response_queue_capacity,
}
use red_lease.Client.Connection.Pending.{held, sent, sent-append}
use red_lease.Client.Connection.Account.{
  Ledger, times, Step, submits, releases, completes, receives, works, sends, cancels, fails,
  held_at, Account, Reach, start, next, Moved, Moved-Account,
}
use red_lease.Client.Connection.Account.Moves.{Alike, Alike-Moved, complete-Moved, fail-Moved}
use red_lease.Client.Connection.Account.Submit.{Answered, submit_for_operation-Answered}

module _ (s : Ledger) (inv : Account s) where
  queued : (c : ReplicaConn) → Alike s inv c → Account (record s { conn = c })
  queued c alike = Moved-Account s c [] inv (Alike-Moved s inv c alike)

  release-Alike : (request : OutboundRequest) → Alike s inv (submit_no_response s.conn request).1
  unfolding submit_no_response
  release-Alike request = elim (Bool-cases s.conn.cancelled) [
    | inl done ↦ simp (done, submit_no_response) ((λ j. refl), refl)
    | inr going ↦ elim (Option-cases (try_enqueue req_queue_capacity s.conn.req_queue request)) [
      | inl full ↦ simp (going, full, submit_no_response) ((λ j. refl), refl)
      | inr (queue, room) ↦ simp (going, room, submit_no_response) ((λ j. refl), refl)
    ]
  ]

  abbrev Received : Option ReplicaConn → Type 0
  Received none = Unit
  Received (some c) = Alike s inv c

  receive-Alike : (response : Response) → Received (receive_response s.conn response)
  unfolding receive_response
  receive-Alike response =
      elim (Option-cases (
        try_enqueue response_queue_capacity
          (s.conn.shards (pending_shard_index response.request_id)).responses response)) [
            | inl full ↦ rw (full, receive_response) tt
            | inr (queue, room) ↦ rw (room, receive_response) ((λ j. ground arith), refl)
          ]

  work-Moved :
      (i : ℕ) (responses : List Response)
      → let r = complete_responses s.conn i responses in Moved s.conn r.0 r.1
  unfolding complete_responses
  work-Moved i [] = Alike-Moved s inv s.conn ((λ j. refl), refl)
  work-Moved i (response ∷ rest) =
      complete-Moved s inv _ i response.request_id _ _ refl ((λ j. ground arith), refl)

  send-Alike : (queue : List OutboundRequest) → Alike s inv (next_outbound s.conn queue).1
  unfolding next_outbound
  send-Alike [] = ((λ j. refl), refl)
  send-Alike (request ∷ rest) = ((λ j. refl), refl)

  pub step-Account : (t : Ledger) → Step s t → Account t
  unfolding complete
  step-Account t (submits caller request operation e c fresh r) =
      subst (Answered s inv request.request_id) r
        (submit_for_operation-Answered s inv caller request operation fresh)
  step-Account t (releases request) = queued _ (release-Alike request)
  step-Account t (completes request_id result) =
      Moved-Account s _ _ inv
        (complete-Moved s inv s.conn _ request_id result _ refl ((λ j. refl), refl))
  step-Account t (receives response c r) = queued c (subst Received r (receive-Alike response))
  step-Account t (works i) = Moved-Account s _ _ inv (work-Moved i (s.conn.shards i).responses)
  step-Account t sends = queued _ (send-Alike s.conn.req_queue)
  step-Account t cancels = record {
    count = inv.count;
    once = inv.once;
    alone = inv.alone;
    is_open = λ h. absurd (ground (arith, h));
  }
  step-Account t (fails i result done) =
      Moved-Account s _ _ inv (fail-Moved s inv i result _ refl done)

-- In any such interleaving every identifier was accepted at most once, the results sent for it and
-- its pending entries add up to that, entries stand in no other shard than its own, and the maps
-- are there as long as the context is not done.
pub Reach-Account : (index : ℕ) (s : Ledger) → Reach index s → Account s
unfolding new_replica_conn
Reach-Account index s start = record {
  count = λ k. refl;
  once = λ k. omega arith;
  alone = λ i k ne. refl;
  is_open = λ h i. ([], refl);
}
Reach-Account index s (next r step) = step-Account _ (Reach-Account index _ r) s step

submit_pending-total :
    (c : ReplicaConn) (request : OutboundRequest) (operation : ℕ) (pending : List (ℕ × ℕ))
    → (r : Option ConnError × ReplicaConn) × (submit_pending c request operation (some pending)
        ≡ some r)
unfolding submit_pending
submit_pending-total c request operation pending =
    elim (Option-cases (try_enqueue req_queue_capacity c.req_queue request)) [
      | inl full ↦ rw (full, submit_pending) (_, refl)
      | inr (queue, room) ↦ rw (room, submit_pending) (_, refl)
    ]

-- After any such interleaving, also at and after the end of the connection, submitForOperation
-- does not write to a map that is gone.
pub submit-total :
    (index : ℕ) (s : Ledger)
    → Reach index s
    → (caller : Option ℕ) (request : OutboundRequest) (operation : ℕ)
    → (r : Option ConnError × ReplicaConn) × (submit_for_operation caller s.conn request operation
        ≡ some r)
unfolding submit_for_operation
submit-total index s reach (some e) request operation = (_, refl)
submit-total index s reach none request operation = elim (Bool-cases s.conn.cancelled) [
  | inl done ↦ simp (done, submit_for_operation) (_, refl)
  | inr going ↦
      let i = pending_shard_index request.request_id in
      let (xs, e) = (Reach-Account index s reach).is_open going i in
      simp (going, submit_for_operation) (rw e (submit_pending-total s.conn request operation xs))
]

-- The shards before `i` have no map any more.
abbrev Failed : ℕ → ReplicaConn → Type 0
Failed i c = (j : ℕ) → j < i → (c.shards j).pending ≡ none

fail_shard-Failed :
    (c : ReplicaConn) (result : ConnResult) (i : ℕ) (pending : Option (List (ℕ × ℕ)))
    → Failed i c
    → Failed (suc i) (fail_shard c result i pending).0
      × ((fail_shard c result i pending).0.cancelled ≡ c.cancelled)
unfolding fail_shard
fail_shard-Failed c result i none before = ((λ j lt. ground (arith, before j)), refl)
fail_shard-Failed c result i (some pending) before = ((λ j lt. ground (arith, before j)), refl)

fail_from-Failed :
    (result : ConnResult) (n i : ℕ) (s : Ledger)
    → Account s
    → s.conn.cancelled ≡ true
    → Failed i s.conn
    → let r = fail_from result i n s.conn in
      Failed (i + n) r.0
      × ((k : ℕ)
          → sent r.1 k + held_at r.0 (pending_shard_index k) k
            ≡ held_at s.conn (pending_shard_index k) k)
unfolding fail_from fail_shard
fail_from-Failed result zero i s inv done before =
    ((λ j lt. before j (omega arith)), λ k. omega arith)
fail_from-Failed result (suc n) i s inv done before =
    let pending = (s.conn.shards i).pending in
    let here = fail_shard s.conn result i pending in
    let moved = fail-Moved s inv i result pending refl done in
    let (failed, same_context) = fail_shard-Failed s.conn result i pending before in
    let (rest, later) =
      fail_from-Failed result n (suc i) (record s { conn = here.0; results = here.1 ++ s.results })
        (Moved-Account s here.0 here.1 inv moved) (same_context ∙ done) failed in
    (
      (λ j lt. rest j (omega (arith, lt))),
      λ k. omega (
        arith,
        later k,
        moved.kept k,
        sent-append here.1 (fail_from result (suc i) n here.0).1 k,
      ),
    )

-- For a connection reached by any interleaving of its callers, workers and end, in which no
-- request identifier is used twice: when it is closed, every accepted request has had exactly one
-- result, every other none, no shard has a map of pending requests, and the queue is empty.
pub close_conn-answers :
    (index : ℕ) (s : Ledger)
    → Reach index s
    → let r = close_conn s.conn in
      ((k : ℕ) → sent (r.1 ++ s.results) k ≡ times s.accepted k)
      × ((i : ℕ) → i < pending_shard_count → (r.0.shards i).pending ≡ none)
      × (r.0.req_queue ≡ [])
unfolding close_conn fail_pending pending_shard_index
close_conn-answers index s reach =
    let inv = step-Account s (Reach-Account index s reach) _ cancels in
    let (none_left, moved) =
      fail_from-Failed (broken replica_closed) pending_shard_count 0
        (record s { conn = cancel s.conn }) inv refl (λ j lt. absurd (omega arith)) in
    (
      (λ k.
          let shard = pending_shard_index k in
          let gone = ap (λ x. held x k) (none_left shard (omega arith)) in
          omega (
            arith,
            moved k,
            gone,
            inv.count k,
            sent-append (fail_pending replica_closed (cancel s.conn)).1 s.results k,
          )),
      (λ i lt. none_left i lt),
      refl,
    )
