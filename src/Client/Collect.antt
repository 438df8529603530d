-- ===== src/Client/Collect.antt =====
-- What client/acquire.go and client/renew.go share: the answers of the replicas as they come in.
pub mod Known
pub mod Sound
use red_lease.Prelude.{
  ℕ, zero, suc, ◌+◌, ◌-◌, ◌<◌, ◌≡◌, Bool, true, false, List, [], ◌∷◌, Option, none, some, ltb, leb,
  if◌then◌else◌, length, set_at, replicate,
}
use red_lease.Protocol.{Response}
use red_lease.Client.Quorum.{acquire_quorum_still_possible}
use red_lease.Client.Lease.{Lease}

-- An error of the caller's context, of the closed client, of the released lease, of the request to a
-- replica, or of an answer to another kind of request.
pub data Failure : Type 0 where
  caller_done client_closed already_released wrong_operation : Failure
  request_failed : ℕ → Failure

-- connectionCallResult
pub data CallResult : Type 0 where
  failed : Failure → CallResult
  answered : Response → CallResult

-- What one pass of the loop reads: the event of responses.next and the result of the cancellation
-- check. `now` is the clock after the answer, `marked` that in markConfirmed, and `later` that of the
-- test whether a quorum is still possible.
pub record Clock : Type 0 where
  pub now : ℕ
  pub marked : ℕ
  pub later : ℕ
  pub cancelled : Option Failure

pub data Wait : Type 0 where
  response_received : ℕ → CallResult → Clock → Wait
  caller_canceled : Failure → Wait
  lifecycle_canceled : Wait

pub record Collected : Type 0 where
  pub received : ℕ
  pub candidates : List ℕ
  pub successful : List Bool
  pub first_failure : Option Failure
  pub key_limit_seen : Bool
  pub lease : Lease

-- The loop goes on, ends without a quorum, or has found one that is valid to the given instant.
pub data Progress : Type 0 where
  collecting : Collected → Progress
  decided : Collected → Progress
  confirmed : Collected → ℕ → Progress

abbrev pub note_failure : Option Failure → Failure → Option Failure
note_failure none e = some e
note_failure (some first) e = some first

unfoldable pub start_collecting : Lease → ℕ → Option Failure → Collected
start_collecting lease received first_failure = record {
  received = received;
  candidates = replicate lease.server_count 0;
  successful = replicate lease.server_count false;
  first_failure = first_failure;
  key_limit_seen = false;
  lease = lease;
}

-- The end of a pass that found no quorum.
unfoldable pub unless_hopeless : ℕ → Collected → Clock → Progress
unless_hopeless quorum_size s clock =
    elim (acquire_quorum_still_possible s.candidates s.successful
      (s.lease.server_count - s.received) clock.later quorum_size) [
        | true ↦ collecting s
        | false ↦ decided s
      ]

-- What follows the choice of a quorum: it counts when it is still valid, and the caller has not given up.
unfoldable pub quorum_decision : ℕ → Collected → Clock → Option ℕ → Progress
unfolding unless_hopeless
quorum_decision quorum_size s clock none = unless_hopeless quorum_size s clock
quorum_decision quorum_size s clock (some valid_until) = elim (ltb clock.now valid_until) [
  | false ↦ unless_hopeless quorum_size s clock
  | true ↦ elim clock.cancelled [
    | some e ↦ decided (record s { first_failure = some e })
    | none ↦ confirmed s valid_until
  ]
]

-- The results of submit, replica by replica: how many failed, and the first error.
unfoldable pub submit_failures : List (Option Failure) → ℕ × Option Failure
submit_failures [] = (0, none)
submit_failures (none ∷ rest) = submit_failures rest
submit_failures (some e ∷ rest) = let (n, first) = submit_failures rest in (suc n, some e)

-- What the client does besides computing: it sends a request to a replica, gives up the requests that
-- are outstanding, leaves them to a goroutine of its own, or starts the healing of the lease.
pub data Command : Type 0 where
  send_acquire send_renew send_release : ℕ → Command
  abort collect_rest start_healing : Command

-- The requests to `n` replicas from `r` on: releaseAll of client/release.go, and the requests of Acquire
-- and Renew.
unfoldable pub send_all : (ℕ → Command) → ℕ → ℕ → List Command
send_all send r zero = []
send_all send r (suc n) = send r ∷ send_all send (suc r) n
