-- ===== src/Client/Healing/Lifetime.antt =====
-- How the validity of a lease changes over its life.
use red_lease.Prelude.{
  ℕ, suc, ◌≤◌, ◌≡◌, refl, sym, ap, ◌∙◌, Bool, true, false, ◌&&◌, ◌||◌, not, List, [], ◌∷◌, Option,
  none, some, ltb, leb, if◌then◌else◌, length, arith, Bool-cases, inl, inr,
}
use red_lease.Client.Lease.{
  Lease, Lifecycle, lease_active, lease_released, is_lease_active, release_lease, healing_needed,
  healing_targets, start_background_healing, finish_background_healing, lease_remaining_ttl_ms,
}
use red_lease.Client.Collect.{
  failed, answered, Wait, response_received, caller_canceled, lifecycle_canceled, Command,
}
use red_lease.Client.Collect.Sound.{Fresh, Fresh-refl, Fresh-trans, mark-Fresh}
use red_lease.Client.Acquire.{collect_remaining}
use red_lease.Client.Renew.{RenewCall, RenewResult, renew, collect_remaining_renewals}
use red_lease.Client.Renew.Pass.{clear-Fresh, confirm_or_clear-Fresh}
use red_lease.Client.Renew.Ends.{renew-Renewal}
use red_lease.Client.Renew.Parts.{Renewal, refused, kept, extended}
use red_lease.Client.Healing.{
  heal_answers, heal_replicas, Round, heal_round, LeaseStep, renewal, late_answers, late_renewals,
  healing_starts, healing_round, healing_ends, released, Lives, still, then_step,
}

choose-Fresh : {l m : Lease} (b : Bool) → Fresh l m → Fresh l (if b then m else l)
choose-Fresh true f = f
choose-Fresh {l} false f = Fresh-refl l

remaining-Fresh : (start : ℕ) (ws : List Wait) (l : Lease) → Fresh l (collect_remaining start l ws)
unfolding collect_remaining
remaining-Fresh start [] l = Fresh-refl l
remaining-Fresh start (response_received r (failed e) clock ∷ ws) l = remaining-Fresh start ws l
remaining-Fresh start (response_received r (answered response) clock ∷ ws) l =
    Fresh-trans (choose-Fresh _ (mark-Fresh l r _ clock.marked)) (remaining-Fresh start ws _)
remaining-Fresh start (caller_canceled e ∷ ws) l = Fresh-refl l
remaining-Fresh start (lifecycle_canceled ∷ ws) l = Fresh-refl l

either-Fresh : {l m k : Lease} (b : Bool) → Fresh l m → Fresh l k → Fresh l (if b then m else k)
either-Fresh true f g = f
either-Fresh false f g = g

renewals-Fresh :
    (start : ℕ) (ws : List Wait) (l : Lease) → Fresh l (collect_remaining_renewals start l ws)
unfolding collect_remaining_renewals
renewals-Fresh start [] l = Fresh-refl l
renewals-Fresh start (response_received r (failed e) clock ∷ ws) l =
    Fresh-trans (clear-Fresh l r) (renewals-Fresh start ws _)
renewals-Fresh start (response_received r (answered response) clock ∷ ws) l =
    Fresh-trans (either-Fresh _ (confirm_or_clear-Fresh l r _ clock) (clear-Fresh l r))
      (renewals-Fresh start ws _)
renewals-Fresh start (caller_canceled e ∷ ws) l = Fresh-refl l
renewals-Fresh start (lifecycle_canceled ∷ ws) l = Fresh-refl l

answers-Fresh :
    (start : ℕ) (ws : List Wait) (l : Lease) (n : ℕ) → Fresh l (heal_answers start l n ws).0
unfolding heal_answers
answers-Fresh start [] l n = Fresh-refl l
answers-Fresh start (response_received r (failed e) clock ∷ ws) l n = answers-Fresh start ws l n
answers-Fresh start (response_received r (answered response) clock ∷ ws) l n =
    Fresh-trans (choose-Fresh _ (mark-Fresh l r _ clock.marked)) (answers-Fresh start ws _ _)
answers-Fresh start (caller_canceled e ∷ ws) l n = Fresh-refl l
answers-Fresh start (lifecycle_canceled ∷ ws) l n = Fresh-refl l

replicas-Fresh :
    (l : Lease) (now : ℕ) (rs : List ℕ) (ws : List Wait) → Fresh l (heal_replicas l now rs ws).0.0
unfolding heal_replicas
replicas-Fresh l now rs ws = elim (Bool-cases (not (is_lease_active l) || leb l.valid_until now)) [
  | inl over ↦ rw (over, heal_replicas) (Fresh-refl l)
  | inr on ↦ rw (on, heal_replicas) (answers-Fresh l.now ws l 0)
]

targets-Fresh :
    (l : Lease) (attempt : ℕ) (r : Round) (targets : Option (List ℕ))
    → Fresh l
        (elim targets as (λ _. Lease × Option ℕ) [
          | none ↦ (l, none)
          | some [] ↦ (l, some (suc attempt))
          | some (target ∷ rest) ↦
              let (healed, count) = (heal_replicas l r.begun (target ∷ rest) r.waits).0 in
              (healed, some (if ltb 0 count then 0 else suc attempt))
        ]).0
targets-Fresh l attempt r none = Fresh-refl l
targets-Fresh l attempt r (some []) = Fresh-refl l
targets-Fresh l attempt r (some (t ∷ ts)) = replicas-Fresh l r.begun (t ∷ ts) r.waits

-- A round never changes the validity.
round-Fresh : (l : Lease) (attempt : ℕ) (r : Round) → Fresh l (heal_round l attempt r).0
unfolding heal_round
round-Fresh l attempt r = elim (Bool-cases (healing_needed l r.checked && r.retried)) [
  | inr stop ↦ rw (stop, heal_round) (Fresh-refl l)
  | inl go ↦ rw (go, heal_round) (targets-Fresh l attempt r (healing_targets l r.targeted))
]

-- What a lease keeps for ever. Its validity only grows until it is released, and then it is gone.
pub record Lasting (l t : Lease) : Type 0 where
  pub sequence : t.sequence ≡ l.sequence
  pub key : t.key ≡ l.key
  pub grows :
      is_lease_active t ≡ true → (is_lease_active l ≡ true) × (l.valid_until ≤ t.valid_until)

active_as :
    (l t : Lease) → t.lifecycle ≡ l.lifecycle → is_lease_active t ≡ true → is_lease_active l ≡ true
active_as l t e on =
    sym (
      ap (λ (c : Lifecycle). elim c as (λ _. Bool) [ lease_active ↦ true | lease_released ↦ false ])
        e)
    ∙ on

Fresh-Lasting : (l t : Lease) → Fresh l t → Lasting l t
Fresh-Lasting l t f = record {
  sequence = f.sequence;
  key = f.key;
  grows = λ e. (active_as l t f.active e, omega (arith, f.valid));
}

marked-Lasting : (l : Lease) (b : Bool) → Lasting l (record l { healing = b })
marked-Lasting l b =
    Fresh-Lasting l (record l { healing = b })
      (record { sequence = refl; key = refl; count = refl; active = refl; valid = refl })

same-Lasting : (l : Lease) → Lasting l l
same-Lasting l = Fresh-Lasting l l (Fresh-refl l)

release-Lasting : (l : Lease) → Lasting l (release_lease l).0
unfolding release_lease
release-Lasting l = elim (Bool-cases (is_lease_active l)) [
  | inr off ↦ rw (off, release_lease) (same-Lasting l)
  | inl on ↦
      rw (on, release_lease)
        (record { sequence = refl; key = refl; grows = λ e. absurd (ground arith) })
]

start-Lasting : (l : Lease) (now : ℕ) → Lasting l (start_background_healing l now).0
unfolding start_background_healing
start-Lasting l now = elim (Bool-cases (l.healing || not (healing_needed l now))) [
  | inl well ↦ rw (well, start_background_healing) (same-Lasting l)
  | inr sick ↦ rw (sick, start_background_healing) (marked-Lasting l true)
]

finish-Lasting : (l : Lease) (now : ℕ) → Lasting l (finish_background_healing l now).0
unfolding finish_background_healing
finish-Lasting l now = marked-Lasting l (healing_needed l now)

Renewal-Lasting :
    (quorum : ℕ) (call : RenewCall) (l t : Lease) (result : RenewResult) (commands : List Command)
    → Renewal quorum call l result t commands
    → Lasting l t
Renewal-Lasting quorum call l t result commands (refused off) = same-Lasting l
Renewal-Lasting quorum call l t result commands (kept cause after rest c e left) =
    Fresh-Lasting l after
      (record { sequence = c.sequence; key = c.key; count = c.count; active = c.active; valid = e })
Renewal-Lasting quorum call l t result commands (extended after rest x left) = record {
  sequence = x.same.sequence;
  key = x.same.key;
  grows = λ e. (active_as l after x.same.active e, omega (arith, x.longest));
}

renew-Lasting :
    (quorum : ℕ) (call : RenewCall) (l t : Lease) (result : RenewResult) (commands : List Command)
    → length call.submits ≡ l.server_count
    → l.server_count ≤ length call.waits
    → renew quorum l call ≡ some (result, t, commands)
    → Lasting l t
renew-Lasting quorum call l t result commands submitted enough ran =
    let (q, u, cs, done, x) = renew-Renewal quorum l call submitted enough in
    let same : u ≡ t = ground (arith, done, ran) in
    rw same at (Renewal-Lasting quorum call l u q cs x)

step-Lasting : (quorum : ℕ) (l t : Lease) → LeaseStep quorum l t → Lasting l t
step-Lasting quorum l t (renewal call result commands submitted enough ran) =
    renew-Lasting quorum call l t result commands submitted enough ran
step-Lasting quorum l t (late_answers start ws e) =
    rw e (Fresh-Lasting l _ (remaining-Fresh start ws l))
step-Lasting quorum l t (late_renewals start ws e) =
    rw e (Fresh-Lasting l _ (renewals-Fresh start ws l))
step-Lasting quorum l t (healing_starts now e) = rw e (start-Lasting l now)
step-Lasting quorum l t (healing_round attempt r e) =
    rw e (Fresh-Lasting l _ (round-Fresh l attempt r))
step-Lasting quorum l t (healing_ends now e) = rw e (finish-Lasting l now)
step-Lasting quorum l t (released e) = rw e (release-Lasting l)

-- Through every sequence of renewals, late answers, healing rounds and releases a lease keeps its
-- key and sequence, its validity does not shrink while it is active, and a released lease is never
-- active again.
pub Lives-Lasting : (quorum : ℕ) (l t : Lease) → Lives quorum l t → Lasting l t
Lives-Lasting quorum l t still = same-Lasting l
Lives-Lasting quorum l t (then_step {t = m} lives step) =
    let a = Lives-Lasting quorum l m lives in
    let b = step-Lasting quorum m t step in
    record {
      sequence = b.sequence ∙ a.sequence;
      key = b.key ∙ a.key;
      grows =
          λ e. let (on, le) = b.grows e in let (first, less) = a.grows on in (first, omega arith);
    }

-- After a release the remaining time of a lease is 0 at every instant, whatever late answers,
-- healing rounds and renewals follow.
pub released_for_good :
    (quorum : ℕ) (l t : Lease) (now : ℕ)
    → Lives quorum (release_lease l).0 t
    → lease_remaining_ttl_ms t now ≡ 0
unfolding lease_remaining_ttl_ms release_lease
released_for_good quorum l t now lives = elim (Bool-cases (is_lease_active t)) [
  | inr over ↦ rw (over, lease_remaining_ttl_ms) refl
  | inl on ↦
      absurd (ground (arith, ((Lives-Lasting quorum (release_lease l).0 t lives).grows on).0))
]
