-- ===== src/Client/Renew.antt =====
-- client/renew.go.
pub mod Pass
pub mod Parts
pub mod Ends
use red_lease.Prelude.{
  ℕ, zero, suc, ◌+◌, ◌-◌, ◌<◌, ◌≡◌, Bool, true, false, ◌&&◌, List, [], ◌∷◌, ◌++◌, Option, none,
  some, ltb, leb, ◌==◌, if◌then◌else◌, length, set_at, max,
}
use red_lease.Protocol.{Response}
use red_lease.Protocol.LeaseStatus
use red_lease.Protocol.ClientOperation
use red_lease.Client.Quorum.{
  size, candidate_valid_until, is_successful_acquire, best_acquire_quorum,
}
use red_lease.Client.Lease.{
  Lease, is_lease_active, mark_confirmed, clear_confirmed, start_background_healing,
}
use red_lease.Client.Collect.{
  Failure, CallResult, failed, answered, Clock, Wait, response_received, caller_canceled,
  lifecycle_canceled, Collected, Progress, collecting, decided, confirmed, note_failure,
  start_collecting, unless_hopeless, quorum_decision, submit_failures, already_released,
  wrong_operation, Command, send_renew, collect_rest, start_healing, send_all,
}

-- An answer is confirmed or, when it is over, no longer confirmed.
pub confirm_or_clear : Lease → ℕ → ℕ → Clock → Lease
confirm_or_clear lease replica candidate clock =
    if ltb clock.now candidate
    then mark_confirmed lease replica candidate clock.marked
    else clear_confirmed lease replica

pub enter_renewal : ℕ → Collected → ℕ → Response → Clock → Collected
unfolding confirm_or_clear
enter_renewal start s replica response clock =
    let candidate = candidate_valid_until start response.ttl_ms in
    record s {
      successful = set_at s.successful replica true;
      candidates = set_at s.candidates replica candidate;
      lease = confirm_or_clear s.lease replica candidate clock;
    }

pub renew_answered : ℕ → ℕ → Collected → ℕ → Response → Clock → Progress
unfolding enter_renewal
renew_answered quorum_size start s replica response clock =
    let cleared = clear_confirmed s.lease replica in
    elim (response.operation == ClientOperation.renew) [
      | false ↦
          unless_hopeless quorum_size
            (record s {
              lease = cleared;
              first_failure = note_failure s.first_failure wrong_operation;
            })
            clock
      | true ↦ elim (response.status == LeaseStatus.ok) [
        | false ↦ unless_hopeless quorum_size (record s { lease = cleared }) clock
        | true ↦
            let t = enter_renewal start s replica response clock in
            quorum_decision quorum_size t clock
              (best_acquire_quorum t.candidates t.successful quorum_size)
      ]
    ]

-- One pass of the loop.
unfoldable pub renew_pass : ℕ → ℕ → Collected → Wait → Progress
unfolding renew_answered
renew_pass quorum_size start s (response_received replica (failed e) clock) =
    unless_hopeless quorum_size
      (record s {
        received = s.received + 1;
        lease = clear_confirmed s.lease replica;
        first_failure = note_failure s.first_failure e;
      })
      clock
renew_pass quorum_size start s (response_received replica (answered response) clock) =
    renew_answered quorum_size start (record s { received = s.received + 1 }) replica response clock
renew_pass quorum_size start s (caller_canceled e) = decided (record s { first_failure = some e })
renew_pass quorum_size start s lifecycle_canceled =
    decided (record s { first_failure = some already_released })

unfoldable pub renew_loop : ℕ → ℕ → Collected → List Wait → Option (Collected × Option ℕ)
unfolding renew_pass
renew_loop quorum_size start s [] =
    if ltb s.received s.lease.server_count then none else some (s, none)
renew_loop quorum_size start s (w ∷ ws) = elim (ltb s.received s.lease.server_count) [
  | false ↦ some (s, none)
  | true ↦ elim (renew_pass quorum_size start s w) [
    | collecting t ↦ renew_loop quorum_size start t ws
    | decided t ↦ some (t, none)
    | confirmed t valid_until ↦ some (t, some valid_until)
  ]
]

-- `none` is a nil error.
pub data RenewResult : Type 0 where
  renewed : RenewResult
  not_renewed : Option Failure → RenewResult

-- The replicas from `r` on whose request failed are no longer confirmed.
pub clear_failed : ℕ → List (Option Failure) → Lease → Lease
clear_failed r [] lease = lease
clear_failed r (none ∷ rest) lease = clear_failed (suc r) rest lease
clear_failed r (some e ∷ rest) lease = clear_failed (suc r) rest (clear_confirmed lease r)

-- The outstanding answers are left to a goroutine; when there are none, healing may start.
pub leave : ℕ → Lease → ℕ → Lease × List Command
leave received lease healing_now =
    if ltb received lease.server_count
    then (lease, collect_rest ∷ [])
    else let (healed, started) = start_background_healing lease healing_now in
      (healed, if started then start_healing ∷ [] else [])

pub record RenewCall : Type 0 where
  pub ttl_ms : ℕ
  pub operation_start : ℕ
  pub submits : List (Option Failure)
  pub cancelled_after : Option Failure
  pub waits : List Wait
  pub healing_now : ℕ

pub renew_result : ℕ → Collected × Option ℕ → RenewResult × Lease × List Command
unfolding leave
renew_result healing_now (s, some valid_until) =
    let lease =
      if ltb s.lease.valid_until valid_until
      then record (s.lease) { valid_until = valid_until }
      else s.lease in
    let (left, commands) = leave s.received lease healing_now in (renewed, left, commands)
renew_result healing_now (s, none) =
    let (left, commands) = leave s.received s.lease healing_now in
    (not_renewed s.first_failure, left, commands)

-- The call once its requests are sent.
pub renew_sent : ℕ → RenewCall → Lease → Option (RenewResult × Lease × List Command)
unfolding renew_result clear_failed
renew_sent quorum_size call lease =
    let (received, first_failure) = submit_failures call.submits in
    let cleared = clear_failed 0 call.submits lease in
    elim call.cancelled_after [
      | some e ↦
          let (left, commands) = leave received cleared call.healing_now in
          some (not_renewed (some e), left, commands)
      | none ↦
          elim (renew_loop quorum_size call.operation_start
            (start_collecting cleared received first_failure) call.waits) [
              | none ↦ none
              | some end ↦ some (renew_result call.healing_now end)
            ]
    ]

unfoldable pub renew : ℕ → Lease → RenewCall → Option (RenewResult × Lease × List Command)
unfolding renew_sent
renew quorum lease call = elim (is_lease_active lease) [
  | false ↦ some (not_renewed (some already_released), lease, [])
  | true ↦ elim (renew_sent (size quorum) call (record lease { now = call.operation_start })) [
    | none ↦ none
    | some (result, after, commands) ↦
        some (result, after, send_all send_renew 0 lease.server_count ++ commands)
  ]
]

-- collectRemainingRenewResults.
unfoldable pub collect_remaining_renewals : ℕ → Lease → List Wait → Lease
unfolding confirm_or_clear
collect_remaining_renewals start lease [] = lease
collect_remaining_renewals start lease (response_received replica (failed e) clock ∷ ws) =
    collect_remaining_renewals start (clear_confirmed lease replica) ws
collect_remaining_renewals start lease (response_received replica (answered response) clock ∷ ws) =
    collect_remaining_renewals start
      (if response.operation == ClientOperation.renew && response.status == LeaseStatus.ok
        then confirm_or_clear lease replica (candidate_valid_until start response.ttl_ms) clock
        else clear_confirmed lease replica)
      ws
collect_remaining_renewals start lease (caller_canceled e ∷ ws) = lease
collect_remaining_renewals start lease (lifecycle_canceled ∷ ws) = lease
