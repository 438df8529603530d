-- ===== src/Client1of1.antt =====
-- client1of1/lease.go: the leases of a client with one server. Instants are as in the client package. The
-- errors are those of the surroundings: the caller's context, the closed client, or the connection.
pub mod Outcome
pub mod Connection
use red_lease.Prelude.{
  ℕ, ◌+◌, ◌-◌, ◌*◌, ◌/◌, ◌≡◌, Bool, true, false, ◌&&◌, ◌||◌, Option, none, some, ltb, leb, ◌==◌,
  if◌then◌else◌,
}
use red_lease.Protocol.{Response, millisecond, max_ttl_ms}
use red_lease.Protocol.LeaseStatus
use red_lease.Protocol.ClientOperation

abbrev pub safety_margin_ms : ℕ
safety_margin_ms = 100

pub data Lifecycle : Type 0 where
  lease_active lease_released : Lifecycle

pub data Failure : Type 0 where
  caller_done client_closed wrong_operation key_limit_reached already_released : Failure
  connection_failed : ℕ → Failure

pub record Lease : Type 0 where
  pub sequence : ℕ
  pub key : ℕ
  pub now : ℕ
  pub lifecycle : Lifecycle
  pub valid_until : ℕ

abbrev pub is_active : Lease → Bool
is_active l = elim l.lifecycle [ lease_active ↦ true | lease_released ↦ false ]

unfoldable pub candidate_valid_until : ℕ → ℕ → ℕ
candidate_valid_until operation_start ttl_ms =
    if leb ttl_ms safety_margin_ms || ltb max_ttl_ms ttl_ms
    then operation_start
    else operation_start + (ttl_ms - safety_margin_ms) * millisecond

-- What submit and awaitResponse give.
pub data Reply : Type 0 where
  failed : Failure → Reply
  answered : Response → Reply

-- What one call reads: its start, the context before and after the answer, the answer, and the clock
-- after it.
pub record Call : Type 0 where
  pub start : ℕ
  pub cancelled_before : Option Failure
  pub reply : Reply
  pub cancelled_after : Option Failure
  pub now : ℕ

-- `none` for the error stands for nil.
abbrev pub Accepted : Type 0
Accepted = (Bool × Option Failure) × Lease

abbrev pub is_success : ℕ → Bool
is_success status = status == LeaseStatus.ok || status == LeaseStatus.already_owned

pub accept_acquire_response : Lease → Call → Response → Accepted
unfolding candidate_valid_until
accept_acquire_response l call response =
    let valid_until = candidate_valid_until l.now response.ttl_ms in
    elim call.cancelled_after [
      | some e ↦ ((false, some e), l)
      | none ↦
          if response.operation == ClientOperation.acquire
          then if is_success response.status
            then if ltb call.now valid_until
              then ((true, none), record l { valid_until = valid_until })
              else ((false, none), l)
            else if response.status == LeaseStatus.key_limit_reached
            then ((false, some key_limit_reached), l)
            else ((false, none), l)
          else ((false, some wrong_operation), l)
    ]

pub accept_renew_response : Lease → Call → Response → Accepted
unfolding candidate_valid_until
accept_renew_response l call response =
    let valid_until = candidate_valid_until l.now response.ttl_ms in
    elim call.cancelled_after [
      | some e ↦ ((false, some e), l)
      | none ↦
          if response.operation == ClientOperation.renew
          then if response.status == LeaseStatus.ok && ltb call.now valid_until
            then (
              (true, none),
              if ltb l.valid_until valid_until then record l { valid_until = valid_until } else l,
            )
            else ((false, none), l)
          else ((false, some wrong_operation), l)
    ]

-- The lease, or the error under which it was not acquired, and whether a Release was queued.
pub data AcquireResult : Type 0 where
  acquired : Lease → AcquireResult
  not_acquired : (cause : Option Failure) (releases : Bool) → AcquireResult

pub conclude : Accepted → AcquireResult
conclude ((true, none), l) = acquired l
conclude ((true, some e), l) = not_acquired (some e) true
conclude ((false, cause), l) = not_acquired cause true

unfoldable pub acquire : ℕ → ℕ → Call → AcquireResult
unfolding accept_acquire_response conclude
acquire sequence key call =
    let lease : Lease = record {
      sequence = sequence;
      key = key;
      now = call.start;
      lifecycle = lease_active;
      valid_until = 0;
    } in
    elim call.cancelled_before [
      | some e ↦ not_acquired (some e) false
      | none ↦ elim call.reply [
        | failed e ↦ not_acquired (some e) true
        | answered response ↦ conclude (accept_acquire_response lease call response)
      ]
    ]

-- `none` stands for a nil error, and `some cause` for ErrNotRenewed.
pub renew_error : Bool × Option Failure → Option (Option Failure)
renew_error (true, none) = none
renew_error (false, cause) = some cause
renew_error (true, some e) = some (some e)

unfoldable pub renew : Lease → Call → Option (Option Failure) × Lease
unfolding accept_renew_response renew_error
renew l call = elim (is_active l) [
  | false ↦ (some (some already_released), l)
  | true ↦
      let begun = record l { now = call.start } in
      elim call.reply [
        | failed e ↦ (some (some e), begun)
        | answered response ↦
            let (outcome, after) = accept_renew_response begun call response in
            (renew_error outcome, after)
      ]
]

-- With whether a Release was queued.
unfoldable pub release : Lease → Lease × Bool
release l =
    if is_active l
    then (record l { lifecycle = lease_released; valid_until = 0 }, true)
    else (l, false)

pub remaining_ttl_ms : Lease → ℕ → ℕ
remaining_ttl_ms l now = if is_active l then (l.valid_until - now) / millisecond else 0
