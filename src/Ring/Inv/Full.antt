-- ===== src/Ring/Inv/Full.antt =====
-- When a ring is full, and when it is not.
use red_lease.Prelude.{ℕ, ◌+◌, ◌%◌, ◌≤◌, ◌<◌, ◌≡◌, ap, sym, ◌∙◌, arith, inl, inr, ◌⊎◌, dec_lt}
use red_lease.Ring.{Ring, Producer, Consumer, slot}
use red_lease.Ring.Slots.{slot_again}
use red_lease.Ring.Inv.{low, lag, RingInv}

lag-le : (c : Consumer) → lag c ≤ 1
lag-le c = ground arith

module _ {A : Type 0} (q : Ring A) (ps : ℕ → Producer A) (c : Consumer) (log : ℕ → A)
    (inv : RingInv q ps c log) where
  abbrev first : ℕ
  first = low q.head c

  first-slot :
      first < q.tail → (q.sequence (slot q first) ≡ first) ⊎ (q.sequence (slot q first) ≡ first + 1)
  first-slot lt = elim (dec_lt first q.head) [
    | yes over ↦ inr (inv.done first (omega arith) over)
    | no at ↦
        let here : first ≡ q.head = omega (arith, inv.passed, lag-le c) in
        elim (inv.filled first (omega arith) lt) [ inl f ↦ inr f | inr (f, o) ↦ inl f ]
  ]

  -- Who finds the sequence of the tail there finds its slot free.
  pub sees_room : q.sequence (slot q q.tail) ≡ q.tail → q.tail < first + q.capacity
  sees_room e = elim (dec_lt q.tail (first + q.capacity)) [
    | yes lt ↦ lt
    | no full ↦
        let end : q.tail ≡ first + q.capacity = omega (arith, inv.room) in
        let same : q.sequence (slot q first) ≡ q.tail =
          sym (
            ap q.sequence (
              ap (λ x. x % q.capacity) end ∙ slot_again q.capacity first (omega (arith, inv.wide))))
          ∙ e in
        elim (first-slot (omega (arith, inv.wide))) [
          | inl f ↦ absurd (omega (arith, inv.wide))
          | inr f ↦ absurd (omega (arith, inv.wide))
        ]
  ]

  -- Who finds an older sequence at a tail that it loaded finds the ring full.
  pub refused_when_full :
      (p : ℕ)
      → p ≤ q.tail
      → q.sequence (slot q p) < p
      → (p ≡ q.tail) × (q.tail ≡ first + q.capacity)
  refused_when_full p le lt = elim (dec_lt p q.tail) [
    | yes before ↦ absurd (older before)
    | no last ↦
        let at : p ≡ q.tail = omega arith in
        (
          at,
          elim (dec_lt q.tail (first + q.capacity)) [
            | yes room ↦ absurd (omega (arith, inv.free p (omega arith) (omega arith)))
            | no full ↦ omega (arith, inv.room)
          ],
        )
  ]
    where
      older : p < q.tail → ⊥
      older before = elim (dec_lt p first) [
        | yes past ↦ omega (arith, inv.past p past)
        | no inside ↦ elim (dec_lt p q.head) [
          | yes over ↦ omega (arith, inv.done p (omega arith) over)
          | no here ↦ elim (inv.filled p (omega arith) before) [
            | inl f ↦ omega arith
            | inr (f, o) ↦ omega arith
          ]
        ]
      ]
