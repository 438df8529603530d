-- ===== src/Client/Healing.antt =====
-- client/healing.go: the rounds in which a lease is placed on the replicas that do not have it.
pub mod Lifetime
use red_lease.Prelude.{
  ℕ, zero, suc, ◌+◌, ◌≤◌, ◌≡◌, Bool, true, false, ◌&&◌, ◌||◌, not, List, [], ◌∷◌, Option, none,
  some, ltb, leb, ◌==◌, if◌then◌else◌, length, map,
}
use red_lease.Protocol.ClientOperation
use red_lease.Client.Quorum.{candidate_valid_until, is_successful_acquire}
use red_lease.Client.Lease.{
  Lease, is_lease_active, mark_confirmed, release_lease, healing_needed, healing_targets,
  start_background_healing, finish_background_healing,
}
use red_lease.Client.Collect.{
  Failure, CallResult, failed, answered, Clock, Wait, response_received, caller_canceled,
  lifecycle_canceled, Command, send_acquire,
}
use red_lease.Client.Acquire.{collect_remaining}
use red_lease.Client.Renew.{RenewCall, RenewResult, renew, collect_remaining_renewals}

-- The answers to the requests of a round, and how many of them were confirmed.
pub heal_answers : ℕ → Lease → ℕ → List Wait → Lease × ℕ
heal_answers start l count [] = (l, count)
heal_answers start l count (response_received replica (failed e) clock ∷ ws) =
    heal_answers start l count ws
heal_answers start l count (response_received replica (answered response) clock ∷ ws) =
    let candidate = candidate_valid_until start response.ttl_ms in
    let good =
      response.operation == ClientOperation.acquire
      && is_successful_acquire response.status
      && ltb clock.now candidate in
    heal_answers start (if good then mark_confirmed l replica candidate clock.marked else l)
      (if good then suc count else count) ws
heal_answers start l count (caller_canceled e ∷ ws) = (l, count)
heal_answers start l count (lifecycle_canceled ∷ ws) = (l, count)

-- `now` is the clock at the start; the answers count from the last Acquire or Renew on.
unfoldable pub heal_replicas : Lease → ℕ → List ℕ → List Wait → (Lease × ℕ) × List Command
unfolding heal_answers
heal_replicas l now replicas ws =
    if not (is_lease_active l) || leb l.valid_until now
    then ((l, 0), [])
    else (heal_answers l.now l 0 ws, map send_acquire replicas)

-- What one round of backgroundHeal reads: the clocks of its two checks and of its batch, whether the
-- wait for the retry was not cut short, and the answers.
pub record Round : Type 0 where
  pub checked : ℕ
  pub retried : Bool
  pub targeted : ℕ
  pub begun : ℕ
  pub waits : List Wait

-- The lease after a round, and the number of the next attempt; `none` when the task ends.
unfoldable pub heal_round : Lease → ℕ → Round → Lease × Option ℕ
unfolding heal_replicas
heal_round l attempt r = elim (healing_needed l r.checked && r.retried) [
  | false ↦ (l, none)
  | true ↦ elim (healing_targets l r.targeted) [
    | none ↦ (l, none)
    | some [] ↦ (l, some (suc attempt))
    | some (target ∷ targets) ↦
        let (healed, count) = (heal_replicas l r.begun (target ∷ targets) r.waits).0 in
        (healed, some (if ltb 0 count then 0 else suc attempt))
  ]
]

-- What happens to a lease once Acquire has handed it out.
pub data LeaseStep (quorum : ℕ) (l : Lease) (t : Lease) : Type 0 where
  renewal :
      (call : RenewCall) (result : RenewResult) (commands : List Command)
      → length call.submits ≡ l.server_count
      → l.server_count ≤ length call.waits
      → renew quorum l call ≡ some (result, t, commands)
      → LeaseStep quorum l t
  late_answers :
      (start : ℕ) (ws : List Wait) → t ≡ collect_remaining start l ws → LeaseStep quorum l t
  late_renewals :
      (start : ℕ) (ws : List Wait)
      → t ≡ collect_remaining_renewals start l ws
      → LeaseStep quorum l t
  healing_starts : (now : ℕ) → t ≡ (start_background_healing l now).0 → LeaseStep quorum l t
  healing_round : (attempt : ℕ) (r : Round) → t ≡ (heal_round l attempt r).0 → LeaseStep quorum l t
  healing_ends : (now : ℕ) → t ≡ (finish_background_healing l now).0 → LeaseStep quorum l t
  released : t ≡ (release_lease l).0 → LeaseStep quorum l t

pub data Lives (quorum : ℕ) (l : Lease) : Lease → Type 0 where
  still : Lives quorum l l
  then_step : {t u : Lease} → Lives quorum l t → LeaseStep quorum t u → Lives quorum l u
