-- ===== src/Tests/Answers.antt =====
-- The results of a call, client/replica_responses.go, over the connections of client/replica_conn.go.
use red_lease.Prelude.{ℕ, ◌≡◌, refl, arith, [], Option, none, some, update, true}
use red_lease.Wire.{OutboundRequest}
use red_lease.Client.Connection.{
  ReplicaConn, ConnError, context_error, new_replica_conn, submit_for_operation, lookup,
}
use red_lease.Client.Responses.{
  Responses, no_responses, register, abort, release, next_pass, NextPass, timeout,
}
use red_lease.Client.Responses.Held.{Held}
use red_lease.Client.Responses.Moves.{register-Held}
use red_lease.Client.Responses.Abort.{abort-ends}
use red_lease.Client.Responses.Next.{Passed, next_pass-total}
use red_lease.Client.Responses.Conns.{
  Conns, connections, changed, changed-index, submit-Held, waits_here,
}

abbrev question : OutboundRequest
question = record {
  request_id = 5;
  key = 7;
  sequence = 1;
  ttl_ms = 1000;
  client_id = 1;
  boot_id = 2;
  operation = 1;
}

abbrev taken_by : Option (Option ConnError × ReplicaConn) → ReplicaConn
taken_by none = new_replica_conn 0
taken_by (some (e, c)) = c

new_replica_conn-index : (j : ℕ) → (new_replica_conn j).index ≡ j
unfolding new_replica_conn
new_replica_conn-index j = refl

-- Three replicas, and the first one with the question.
abbrev nobody_asked : Conns
nobody_asked = (new_replica_conn, new_replica_conn-index)

no_responses-Held : Held (connections 9) 3 nobody_asked no_responses
no_responses-Held = record {
  inside = λ j own. absurd (ground (arith, own));
  each = λ j own. absurd (ground (arith, own));
  known = λ j k le. absurd (omega (arith, le));
  counted = refl;
  timed = λ e. absurd (ground (arith, e));
}

abbrev first_conn : ReplicaConn
first_conn = taken_by (submit_for_operation none (new_replica_conn 0) question 9)

first_conn-taken :
    submit_for_operation none (new_replica_conn 0) question 9 ≡ some (none, first_conn)
unfolding submit_for_operation new_replica_conn
first_conn-taken = refl

submit-Held_example :
    (t : Conns) × (t.0 ≡ update nobody_asked.0 0 first_conn)
    × Held (connections 9) 3 t (register no_responses 0 5 1000)
submit-Held_example =
    submit-Held 9 3 nobody_asked no_responses 0 1000 none question first_conn no_responses-Held
      (omega arith) refl (λ e. omega (arith, e)) first_conn-taken

first_conn-index : first_conn.index ≡ (new_replica_conn 0).index
unfolding submit_for_operation new_replica_conn
first_conn-index = refl

abbrev one_asked : Conns
one_asked = (
  changed 9 nobody_asked 0 first_conn,
  changed-index 9 nobody_asked 0 first_conn first_conn-index,
)

abbrev one_wait : Responses
one_wait = register no_responses 0 5 1000

first_conn-waits : waits_here 9 first_conn 5 ≡ true
unfolding submit_for_operation new_replica_conn lookup
first_conn-waits = refl

one_wait-Held : Held (connections 9) 3 one_asked one_wait
one_wait-Held =
    register-Held (connections 9) 3 nobody_asked one_asked no_responses 0 5 1000 no_responses-Held
      (omega arith) refl (λ e. omega (arith, e)) first_conn-waits
      (λ i h other. ground (arith, other))

abort-ends_example :
    (t : Conns) × (q : Responses) × (freed : Responses) × (abort
        (connections 9)
        3
        (context_error 1)
        (one_asked, one_wait)
      ≡ some (t, q))
    × (q.remaining ≡ 0)
    × (q.results ≡ [])
    × (release q ≡ some freed)
abort-ends_example = abort-ends (connections 9) 3 (context_error 1) one_asked one_wait one_wait-Held

next_pass-total_example :
    (p : NextPass) × (t : Conns) × (q : Responses) × (next_pass
        (connections 9)
        3
        (one_asked, one_wait)
        (timeout 1000)
      ≡ some (p, (t, q)))
    × Held (connections 9) 3 t q
    × Passed (connections 9) 3 one_wait p q
next_pass-total_example =
    next_pass-total (connections 9) 3 one_asked one_wait (timeout 1000) one_wait-Held
      (λ e. absurd (ground (arith, e)))
