-- ===== src/Client/Ready.antt =====
-- WaitReady of client/client.go: it waits until enough replicas are connected.
pub mod Wakes
use red_lease.Prelude.{
  ℕ, zero, suc, ◌+◌, ◌≤◌, ◌≡◌, Bool, true, false, List, [], ◌∷◌, Option, none, some, leb,
  if◌then◌else◌,
}
use red_lease.Client.Connection.Manage.{ConnState, readiness}

pub data ReadyError : Type 0 where
  caller_failed : ℕ → ReadyError
  client_closed : ReadyError

-- What the select takes: the end of a context, or a channel that was closed.
pub data ReadyEvent : Type 0 where
  caller_over : ℕ → ReadyEvent
  client_over state_changed : ReadyEvent

-- What one pass reads: the contexts at its start, the replicas, and the event that ends its wait.
pub record ReadyPass : Type 0 where
  pub caller : Option ℕ
  pub cancelled : Bool
  pub states : ℕ → ConnState
  pub event : ReadyEvent

abbrev pub is_ready : Bool → ℕ
is_ready true = 1
is_ready false = 0

-- The replicas below `n` that are connected.
unfoldable pub ready_count : (ℕ → ConnState) → ℕ → ℕ
ready_count states zero = 0
ready_count states (suc n) = is_ready (readiness (states n)).0 + ready_count states n

abbrev pub after_wait : ReadyEvent → Option (Option ReadyError) → Option (Option ReadyError)
after_wait (caller_over e) later = some (some (caller_failed e))
after_wait client_over later = some (some client_closed)
after_wait state_changed later = later

abbrev pub counted_pass :
    ℕ → ℕ → ReadyPass → Option (Option ReadyError) → Option (Option ReadyError)
counted_pass n quorum p later =
    if p.cancelled
    then some (some client_closed)
    else if leb quorum (ready_count p.states n)
    then some none
    else after_wait p.event later

abbrev pub ready_pass :
    ℕ → ℕ → ReadyPass → Option ℕ → Option (Option ReadyError) → Option (Option ReadyError)
ready_pass n quorum p (some e) later = some (some (caller_failed e))
ready_pass n quorum p none later = counted_pass n quorum p later

-- WaitReady over its passes, with `n` replicas; `none` still waits.
unfoldable pub wait_ready : ℕ → ℕ → List ReadyPass → Option (Option ReadyError)
wait_ready n quorum [] = none
wait_ready n quorum (p ∷ rest) =
    let later = wait_ready n quorum rest in ready_pass n quorum p p.caller later
