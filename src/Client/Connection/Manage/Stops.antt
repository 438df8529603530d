-- ===== src/Client/Connection/Manage/Stops.antt =====
-- How manage of client/replica_conn.go ends after Close.
use red_lease.Prelude.{
  ℕ, ◌+◌, ◌≤◌, ◌<◌, ◌≡◌, refl, arith, true, List, [], ◌∷◌, length, Bool-cases, inl, inr, ◌⊎◌,
}
use red_lease.Client.Connection.Manage.{
  Phase, opening, serving, pausing, stopped, Managed, Event, open_failed, generation_done,
  wait_cancelled, fails, opens, finishes, elapses, gives_up, manage, established, publish, Enabled,
}

-- The steps of manage one after the other.
abbrev pub run : Managed → List Event → Managed
run w [] = w
run w (e ∷ rest) = run (manage w w.phase e) rest

abbrev pub Proceeds : Managed → List Event → Type 0
Proceeds w [] = Unit
Proceeds w (e ∷ rest) = Enabled w.cancelled w.phase e × Proceeds (manage w w.phase e) rest

abbrev left : Phase → ℕ
left (opening attempt) = 2
left (serving g) = 1
left (pausing attempt) = 1
left stopped = 0

module _ (w : Managed) (done : w.cancelled ≡ true) where
  shrinks :
      (p : Phase) (e : Event)
      → Enabled w.cancelled p e
      → (left (manage w p e).phase < left p) × ((manage w p e).cancelled ≡ true)
  unfolding manage established publish
  shrinks p e (fails attempt) = (omega arith, done)
  shrinks p e (opens attempt) = elim (Bool-cases w.state.closed) [
    | inl closed ↦ simp (closed, publish) (omega arith, done)
    | inr live ↦ simp (live, publish) (omega arith, done)
  ]
  shrinks p e (finishes g) = simp done (omega arith, refl)
  shrinks p e (elapses attempt h) = absurd (ground (arith, h, done))
  shrinks p e (gives_up attempt h) = (omega arith, done)

left-stops :
    (w : Managed) (es : List Event)
    → w.cancelled ≡ true
    → Proceeds w es
    → (length es + left (run w es).phase ≤ left w.phase)
left-stops w [] done h = omega arith
left-stops w (e ∷ rest) done (h, more) =
    let (less, still) = shrinks w done w.phase e h in
    omega (arith, less, left-stops (manage w w.phase e) rest still more)

waits_or_stopped : (p : Phase) → (p ≡ stopped) ⊎ ((e : Event) × Enabled true p e)
waits_or_stopped (opening attempt) = inr (open_failed, fails attempt)
waits_or_stopped (serving g) = inr (generation_done, finishes g)
waits_or_stopped (pausing attempt) = inr (wait_cancelled, gives_up attempt refl)
waits_or_stopped stopped = inl refl

left-le : (p : Phase) → left p ≤ 2
left-le (opening attempt) = omega arith
left-le (serving g) = omega arith
left-le (pausing attempt) = omega arith
left-le stopped = omega arith

-- Once the context is done manage makes at most two more steps, in whatever way each of its waits
-- ends, where waitBeforeRetry then ends with false; and it has returned or a wait of it can still
-- end.
pub manage-stops :
    (w : Managed) (es : List Event)
    → w.cancelled ≡ true
    → Proceeds w es
    → (length es ≤ 2)
      × ((run w es).phase ≡ stopped ⊎ ((e : Event) × Enabled true (run w es).phase e))
manage-stops w es done h =
    (omega (arith, left-stops w es done h, left-le w.phase), waits_or_stopped (run w es).phase)
