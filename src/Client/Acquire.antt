-- ===== src/Client/Acquire.antt =====
-- client/acquire.go. The requests are sent in the order of the replicas, and the answers are read in
-- the order in which they come.
pub mod Pass
pub mod Ends
use red_lease.Prelude.{
  ℕ, zero, suc, ◌+◌, ◌-◌, ◌<◌, ◌≡◌, Bool, true, false, List, [], ◌∷◌, ◌++◌, Option, none, some, ltb,
  leb, ◌==◌, ◌&&◌, if◌then◌else◌, length, set_at, map,
}
use red_lease.Protocol.{Response}
use red_lease.Protocol.LeaseStatus
use red_lease.Protocol.ClientOperation
use red_lease.Client.Quorum.{
  parameters, size, candidate_valid_until, is_successful_acquire, best_acquire_quorum,
}
use red_lease.Client.Lease.{Lease, new_lease, mark_confirmed, start_background_healing}
use red_lease.Client.Collect.{
  Failure, CallResult, failed, answered, Clock, Wait, response_received, caller_canceled,
  lifecycle_canceled, Collected, Progress, collecting, decided, confirmed, note_failure,
  start_collecting, unless_hopeless, quorum_decision, submit_failures, client_closed,
  wrong_operation, Command, send_acquire, send_release, abort, collect_rest, start_healing,
  send_all,
}

-- The lease of a success, entered.
pub enter_success : ℕ → Collected → ℕ → Response → Clock → Collected
enter_success start s replica response clock =
    let candidate = candidate_valid_until start response.ttl_ms in
    record s {
      successful = set_at s.successful replica true;
      candidates = set_at s.candidates replica candidate;
      lease =
          if ltb clock.now candidate
          then mark_confirmed s.lease replica candidate clock.marked
          else s.lease;
    }

pub acquire_answered : ℕ → ℕ → Collected → ℕ → Response → Clock → Progress
unfolding enter_success
acquire_answered quorum_size start s replica response clock =
    elim (response.operation == ClientOperation.acquire) [
      | false ↦
          unless_hopeless quorum_size
            (record s { first_failure = note_failure s.first_failure wrong_operation }) clock
      | true ↦ elim (is_successful_acquire response.status) [
        | true ↦
            let t = enter_success start s replica response clock in
            quorum_decision quorum_size t clock
              (best_acquire_quorum t.candidates t.successful quorum_size)
        | false ↦ elim (response.status == LeaseStatus.key_limit_reached) [
          | true ↦ unless_hopeless quorum_size (record s { key_limit_seen = true }) clock
          | false ↦ unless_hopeless quorum_size s clock
        ]
      ]
    ]

-- One pass of the loop.
unfoldable pub acquire_pass : ℕ → ℕ → Collected → Wait → Progress
unfolding acquire_answered
acquire_pass quorum_size start s (response_received replica (failed e) clock) =
    unless_hopeless quorum_size
      (record s { received = s.received + 1; first_failure = note_failure s.first_failure e }) clock
acquire_pass quorum_size start s (response_received replica (answered response) clock) =
    acquire_answered quorum_size start (record s { received = s.received + 1 }) replica response
      clock
acquire_pass quorum_size start s (caller_canceled e) = decided (record s { first_failure = some e })
acquire_pass quorum_size start s lifecycle_canceled =
    decided (record s { first_failure = some client_closed })

-- The loop, with the instant to which a quorum is valid, if it found one. It waits for ever, `none`,
-- when the events end too early.
unfoldable pub acquire_loop : ℕ → ℕ → Collected → List Wait → Option (Collected × Option ℕ)
unfolding acquire_pass
acquire_loop quorum_size start s [] =
    if ltb s.received s.lease.server_count then none else some (s, none)
acquire_loop quorum_size start s (w ∷ ws) = elim (ltb s.received s.lease.server_count) [
  | false ↦ some (s, none)
  | true ↦ elim (acquire_pass quorum_size start s w) [
    | collecting t ↦ acquire_loop quorum_size start t ws
    | decided t ↦ some (t, none)
    | confirmed t valid_until ↦ some (t, some valid_until)
  ]
]

pub data AcquireResult : Type 0 where
  acquired : Lease → AcquireResult
  not_acquired : (cause : Option Failure) (key_limit_reached : Bool) → AcquireResult

-- The end of an Acquire that established no quorum. Its lease, which is not valid, needs no healing.
pub give_up : ℕ → Option Failure → Bool → AcquireResult × List Command
unfolding send_all
give_up server_count cause key_limit_seen =
    (not_acquired cause key_limit_seen, abort ∷ send_all send_release 0 server_count)

-- The end of an Acquire that did. Every replica whose request failed or was answered is received, so
-- the others are outstanding.
pub hand_over : Collected → ℕ → ℕ → AcquireResult × List Command
hand_over s valid_until healing_now =
    let lease = record (s.lease) { valid_until = valid_until } in
    if ltb s.received lease.server_count
    then (acquired lease, collect_rest ∷ [])
    else let (healed, started) = start_background_healing lease healing_now in
      (acquired healed, if started then start_healing ∷ [] else [])

pub acquire_result : ℕ → Collected × Option ℕ → AcquireResult × List Command
unfolding give_up hand_over
acquire_result healing_now (s, some valid_until) = hand_over s valid_until healing_now
acquire_result healing_now (s, none) = give_up s.lease.server_count s.first_failure s.key_limit_seen

-- What one call reads from its surroundings: the results of submit for the replicas, the context before
-- and after, the events, and the clocks. `sequence` is the next one of the client.
pub record AcquireCall : Type 0 where
  pub sequence : ℕ
  pub key : ℕ
  pub ttl_ms : ℕ
  pub operation_start : ℕ
  pub cancelled_before : Option Failure
  pub submits : List (Option Failure)
  pub cancelled_after : Option Failure
  pub waits : List Wait
  pub healing_now : ℕ

-- The call once its requests are sent.
pub acquire_sent : ℕ → AcquireCall → Lease → Option (AcquireResult × List Command)
unfolding acquire_result submit_failures
acquire_sent quorum_size call lease =
    let (received, first_failure) = submit_failures call.submits in
    elim call.cancelled_after [
      | some e ↦ some (give_up lease.server_count (some e) false)
      | none ↦
          elim (acquire_loop quorum_size call.operation_start
            (start_collecting lease received first_failure) call.waits) [
              | none ↦ none
              | some end ↦ some (acquire_result call.healing_now end)
            ]
    ]

-- The client has as many replicas as its quorum configuration has servers: Config.Validate. The
-- recording of the latency is left out.
unfoldable pub acquire : ℕ → AcquireCall → Option (AcquireResult × List Command)
unfolding acquire_sent
acquire quorum call = elim call.cancelled_before [
  | some e ↦ some (not_acquired (some e) false, [])
  | none ↦
      let n = (parameters quorum).0 in
      elim (acquire_sent (size quorum) call
        (new_lease n call.sequence call.key call.ttl_ms call.operation_start)) [
          | none ↦ none
          | some (result, commands) ↦ some (result, send_all send_acquire 0 n ++ commands)
        ]
]

-- collectRemainingAcquireResults: the answers that come later are confirmed, no more.
unfoldable pub collect_remaining : ℕ → Lease → List Wait → Lease
collect_remaining start lease [] = lease
collect_remaining start lease (response_received replica (failed e) clock ∷ ws) =
    collect_remaining start lease ws
collect_remaining start lease (response_received replica (answered response) clock ∷ ws) =
    let candidate = candidate_valid_until start response.ttl_ms in
    collect_remaining start
      (if response.operation == ClientOperation.acquire
          && is_successful_acquire response.status
          && ltb clock.now candidate
        then mark_confirmed lease replica candidate clock.marked
        else lease)
      ws
collect_remaining start lease (caller_canceled e ∷ ws) = lease
collect_remaining start lease (lifecycle_canceled ∷ ws) = lease
