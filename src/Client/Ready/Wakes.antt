-- ===== src/Client/Ready/Wakes.antt =====
-- WaitReady of client/client.go returns with a quorum, and does not sleep through one.
use red_lease.Prelude.{
  ℕ, zero, suc, ◌≤◌, ◌<◌, ◌≡◌, ap, ◌∙◌, arith, Bool, false, not, List, [], ◌∷◌, none, some, leb,
  Bool-cases, Option-cases, inl, inr, dec_lt,
}
use red_lease.Client.Connection.Manage.{ConnState, readiness, Managed, Manages, new_managed}
use red_lease.Client.Connection.Manage.Life.{Woken, manage-Sound, new_managed-Sound}
use red_lease.Client.Ready.{
  ReadyPass, ReadyEvent, caller_over, client_over, state_changed, is_ready, ready_count, after_wait,
  wait_ready,
}

-- A pass that found a quorum connected while neither context was done.
pub data Found (n quorum : ℕ) : List ReadyPass → Type 0 where
  found_here :
      (p : ReadyPass) (rest : List ReadyPass)
      → p.caller ≡ none
      → p.cancelled ≡ false
      → quorum ≤ ready_count p.states n
      → Found n quorum (p ∷ rest)
  found_later :
      (p : ReadyPass) (rest : List ReadyPass) → Found n quorum rest → Found n quorum (p ∷ rest)

-- When WaitReady returns without an error, one of its passes found the quorum.
pub wait_ready-Found :
    (n quorum : ℕ) (ps : List ReadyPass) → wait_ready n quorum ps ≡ some none → Found n quorum ps
unfolding wait_ready
wait_ready-Found n quorum [] e = absurd (ground (arith, e))
wait_ready-Found n quorum (p ∷ rest) e = elim (Option-cases p.caller) [
  | inr (x, over) ↦ absurd (ground (arith, e, over))
  | inl going ↦ elim (Bool-cases p.cancelled) [
    | inl done ↦ absurd (ground (arith, e, going, done))
    | inr live ↦ elim (Bool-cases (leb quorum (ready_count p.states n))) [
      | inl enough ↦ found_here p rest going live (ground (arith, enough))
      | inr few ↦
          found_later p rest
            (wait_ready-Found n quorum rest (go p.event (ground (arith, e, going, live, few))))
    ]
  ]
]
  where
    go :
        (v : ReadyEvent)
        → after_wait v (wait_ready n quorum rest) ≡ some none
        → wait_ready n quorum rest ≡ some none
    go (caller_over x) h = absurd (ground (arith, h))
    go client_over h = absurd (ground (arith, h))
    go state_changed h = h

same_readiness :
    (a b : ConnState)
    → a.generation ≡ b.generation
    → a.closed ≡ b.closed
    → (readiness a).0 ≡ (readiness b).0
unfolding readiness
same_readiness a b e f =
    ap (λ g. elim g as (λ x. Bool) [ none ↦ false | some h ↦ not a.closed ]) e
    ∙ ap (λ c. elim b.generation as (λ x. Bool) [ none ↦ false | some h ↦ not c ]) f

wakes :
    (before after : ℕ → ConnState) (n : ℕ)
    → ((j : ℕ) → Woken (before j) (after j))
    → ready_count before n < ready_count after n
    → (j : ℕ) × (j < n) × ((before j).changed < (after j).changed)
unfolding ready_count
wakes before after zero woken lt = absurd (omega arith)
wakes before after (suc n) woken lt = elim (dec_lt (before n).changed (after n).changed) [
  | yes fires ↦ (n, omega arith, fires)
  | no silent ↦
      let (same, closed) = (woken n).same (omega (arith, silent, (woken n).later)) in
      let equal = ap is_ready (same_readiness (before n) (after n) same closed) in
      let (j, inside, fires) = wakes before after n woken (omega (arith, lt, equal)) in
      (j, omega (arith, inside), fires)
]

-- For replicas whose connections make any steps from their start: when more of them are ready than
-- when WaitReady counted, then the channel of one of them, which WaitReady took at the count, is
-- closed, so its wait ends.
pub ready_count-wakes :
    (before after : ℕ → Managed) (n : ℕ)
    → ((j : ℕ) → Manages new_managed (before j))
    → ((j : ℕ) → Manages (before j) (after j))
    → ready_count (λ j. (before j).state) n < ready_count (λ j. (after j).state) n
    → (j : ℕ) × (j < n) × ((before j).state.changed < (after j).state.changed)
ready_count-wakes before after n reached runs lt =
    wakes (λ j. (before j).state) (λ j. (after j).state) n
      (λ j.
        let (sound, woken) = manage-Sound new_managed (before j) new_managed-Sound (reached j) in
        (manage-Sound (before j) (after j) sound (runs j)).1)
      lt
