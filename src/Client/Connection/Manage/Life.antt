-- ===== src/Client/Connection/Manage/Life.antt =====
-- The life of the generations of client/replica_conn.go, and its end.
use red_lease.Prelude.{
  ℕ, suc, ◌≤◌, ◌≡◌, refl, ap, sym, ◌∙◌, subst, arith, true, false, List, ◌∷◌, Option, none, some,
  Bool-cases, Option-cases, inl, inr,
}
use red_lease.Client.Connection.Manage.{
  ConnState, Phase, opening, serving, pausing, stopped, Managed, Event, generation_done, fails,
  opens, finishes, elapses, gives_up, manage, established, publish, clear, mark_closed,
  notify_state_change, is_generation, readiness, fresh, new_managed, Enabled, ManageStep, advances,
  ends, marks, Manages, here, followed,
}

-- All the generations that were opened are closed again, but the one that is served.
abbrev pub Balanced : Phase → List ℕ → List ℕ → Type 0
Balanced (serving g) opened shut = opened ≡ g ∷ shut
Balanced (opening attempt) opened shut = opened ≡ shut
Balanced (pausing attempt) opened shut = opened ≡ shut
Balanced stopped opened shut = opened ≡ shut

abbrev pub served : Phase → Option ℕ
served (serving g) = some g
served (opening attempt) = none
served (pausing attempt) = none
served stopped = none

pub record Sound (w : Managed) : Type 0 where
  pub balanced : Balanced w.phase w.opened w.shut
  pub shown : w.state.closed ≡ false → w.state.generation ≡ served w.phase
  pub hidden : w.state.closed ≡ true → w.state.generation ≡ none
  pub cancelled_first : w.state.closed ≡ true → w.cancelled ≡ true

-- Nothing that readiness tells changes without a new channel.
pub record Woken (m n : ConnState) : Type 0 where
  pub later : m.changed ≤ n.changed
  pub same : m.changed ≡ n.changed → (m.generation ≡ n.generation) × (m.closed ≡ n.closed)

Woken-trans : (a b c : ConnState) → Woken a b → Woken b c → Woken a c
Woken-trans a b c h k = record {
  later = omega (arith, h.later, k.later);
  same = λ e.
      let (g, i) = h.same (omega (arith, e, h.later, k.later)) in
      let (f, j) = k.same (omega (arith, e, h.later, k.later)) in (g ∙ f, i ∙ j);
}

Woken-refl : (a : ConnState) → Woken a a
Woken-refl a = record { later = omega arith; same = λ e. (refl, refl) }

Woken-notify : (a b : ConnState) → b.changed ≡ a.changed → Woken a (notify_state_change b)
unfolding notify_state_change
Woken-notify a b e = record { later = omega arith; same = λ f. absurd (omega arith) }

Woken-clear : (m : ConnState) (g : ℕ) → Woken m (clear m g)
unfolding clear
Woken-clear m g = elim (Bool-cases (is_generation m.generation g)) [
  | inl t ↦ simp (t, clear) (Woken-notify m (record m { generation = none }) refl)
  | inr f ↦ simp (f, clear) (Woken-refl m)
]

module _ (w : Managed) (sound : Sound w) where
  abbrev Goes : Managed → Type 0
  Goes v = Sound v × Woken w.state v.state

  balance : (p : Phase) → w.phase ≡ p → Balanced p w.opened w.shut
  balance p at = subst (λ q. Balanced q w.opened w.shut) at sound.balanced

  -- A generation that publish refuses, as the connection is closed.
  refused :
      (attempt g : ℕ)
      → w.phase ≡ opening attempt
      → w.state.closed ≡ true
      → Sound (record w { phase = stopped; opened = g ∷ w.opened; shut = g ∷ w.shut })
  refused attempt g at closed = record {
    balanced = ap (λ l. g ∷ l) (balance (opening attempt) at);
    shown = λ e. absurd (ground (arith, e, closed));
    hidden = sound.hidden;
    cancelled_first = sound.cancelled_first;
  }

  serve : (attempt g : ℕ) → w.phase ≡ opening attempt → Goes (established w g (publish w.state g))
  unfolding established publish notify_state_change
  serve attempt g at = elim (Bool-cases w.state.closed) [
    | inl closed ↦ simp (closed, publish) (refused attempt g at closed, Woken-refl w.state)
    | inr live ↦
        simp (live, publish)
          (
            record {
              balanced = ap (λ l. g ∷ l) (balance (opening attempt) at);
              shown = λ e. refl;
              hidden = λ e. absurd (ground (arith, e, live));
              cancelled_first = λ e. absurd (ground (arith, e, live));
            },
            record { later = omega arith; same = λ f. absurd (omega arith) },
          )
  ]

  cleared :
      (g : ℕ)
      → w.phase ≡ serving g
      → ((clear w.state g).closed ≡ w.state.closed) × ((clear w.state g).generation ≡ none)
  unfolding clear notify_state_change is_generation
  cleared g at = elim (Bool-cases (is_generation w.state.generation g)) [
    | inl own ↦ simp (own, clear) (refl, refl)
    | inr other ↦
        simp (other, clear)
          (
            refl,
            elim (Bool-cases w.state.closed) [
              | inl closed ↦ sound.hidden closed
              | inr live ↦
                  let e : w.state.generation ≡ some g = sound.shown live ∙ ap served at in
                  absurd (ground (arith, e, other))
            ],
          )
  ]

  leave : (g : ℕ) → w.phase ≡ serving g → Goes (manage w (serving g) generation_done)
  unfolding manage
  leave g at =
      let (closed, gone) = cleared g at in
      (
        record {
          balanced = elim (Bool-cases w.cancelled) [
            | inl done ↦ simp done (balance (serving g) at)
            | inr going ↦ simp going (balance (serving g) at)
          ];
          shown = λ e. elim (Bool-cases w.cancelled) [
            | inl done ↦ simp done gone
            | inr going ↦ simp going gone
          ];
          hidden = λ e. gone;
          cancelled_first = λ e. sound.cancelled_first (sym closed ∙ e);
        },
        Woken-clear w.state g,
      )

  -- A step between two waits without a generation.
  between :
      (p : Phase)
      → served w.phase ≡ none
      → served p ≡ none
      → Balanced p w.opened w.shut
      → Goes (record w { phase = p })
  between p a b even = (
    record {
      balanced = even;
      shown = λ e. sound.shown e ∙ a ∙ sym b;
      hidden = sound.hidden;
      cancelled_first = sound.cancelled_first;
    },
    Woken-refl w.state,
  )

  manage-Goes :
      (p : Phase) (e : Event) → w.phase ≡ p → Enabled w.cancelled p e → Goes (manage w p e)
  unfolding manage
  manage-Goes p e at (fails attempt) = between (pausing attempt) (ap served at) refl (balance p at)
  manage-Goes p e at (opens attempt) = serve attempt (fresh w.opened) at
  manage-Goes p e at (finishes g) = leave g at
  manage-Goes p e at (elapses attempt h) =
      between (opening (suc attempt)) (ap served at) refl (balance p at)
  manage-Goes p e at (gives_up attempt h) = between stopped (ap served at) refl (balance p at)

  step-Goes : (v : Managed) → ManageStep w v → Goes v
  unfolding mark_closed notify_state_change
  step-Goes v (advances e h) = manage-Goes w.phase e refl h
  step-Goes v ends = (
    record {
      balanced = sound.balanced;
      shown = sound.shown;
      hidden = sound.hidden;
      cancelled_first = λ e. refl;
    },
    Woken-refl w.state,
  )
  step-Goes v (marks done) = (
    record {
      balanced = sound.balanced;
      shown = λ e. absurd (ground (arith, e));
      hidden = λ e. refl;
      cancelled_first = λ e. done;
    },
    record { later = omega arith; same = λ f. absurd (omega arith) },
  )

-- From a sound state, in any sequence of steps of manage and of Close: all opened generations but
-- the one served are closed again, in order; readers see exactly the generation that is served
-- while the connection is not closed, and none afterwards; the connection is only closed when its
-- context is done; and whatever readiness tells changes only together with the channel that wakes
-- its readers.
pub manage-Sound : (w v : Managed) → Sound w → Manages w v → Sound v × Woken w.state v.state
manage-Sound w v sound here = (sound, Woken-refl w.state)
manage-Sound w v sound (followed {v = u} rest step) =
    let (mid, woke) = manage-Sound w u sound rest in
    let (last, more) = step-Goes u mid v step in
    (last, Woken-trans w.state u.state v.state woke more)

pub new_managed-Sound : Sound new_managed
new_managed-Sound = record {
  balanced = refl;
  shown = λ e. refl;
  hidden = λ e. refl;
  cancelled_first = λ e. absurd (ground (arith, e));
}

served-serving : (p : Phase) (g : ℕ) → served p ≡ some g → p ≡ serving g
served-serving (serving h) g e = ground (arith, e)
served-serving (opening attempt) g e = absurd (ground (arith, e))
served-serving (pausing attempt) g e = absurd (ground (arith, e))
served-serving stopped g e = absurd (ground (arith, e))

ready-live :
    (m : ConnState)
    → (readiness m).0 ≡ true
    → (m.closed ≡ false) × ((g : ℕ) × (m.generation ≡ some g))
unfolding readiness
ready-live m ready = elim (Option-cases m.generation) [
  | inl e ↦ absurd (ground (arith, e, ready))
  | inr (g, e) ↦ (ground (arith, e, ready), (g, e))
]

-- What readiness calls ready is a generation that manage serves and that nobody has closed.
pub ready-serves :
    (w : Managed)
    → Manages new_managed w
    → (readiness w.state).0 ≡ true
    → (g : ℕ) × (w.phase ≡ serving g) × (w.opened ≡ g ∷ w.shut)
unfolding readiness
ready-serves w runs ready =
    let (sound, woken) = manage-Sound new_managed w new_managed-Sound runs in
    let (live, (g, e)) = ready-live w.state ready in
    let at : w.phase ≡ serving g = served-serving w.phase g (sym (sound.shown live) ∙ e) in
    (g, at, balance w sound (serving g) at)
