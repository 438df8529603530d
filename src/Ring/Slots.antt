-- ===== src/Ring/Slots.antt =====
-- Two positions less than the capacity apart have two slots.
use native.Mathlib.Nat.{div-add-mod', add-mod_right}
use red_lease.Prelude.{
  ℕ, ◌+◌, ◌-◌, ◌*◌, ◌/◌, ◌%◌, ◌≤◌, ◌<◌, ◌≡◌, ◌≢◌, ap, sym, arith, leb, Bool-cases, inl, inr,
}

more_times : (a k n : ℕ) → (a + k) * n ≡ a * n + k * n
more_times a k n = grind arith

times_le : (a b n : ℕ) → a ≤ b → a * n ≤ b * n
times_le a b n le =
    let split : b ≡ a + (b - a) = omega arith in
    omega (arith, ap (λ x. x * n) split, more_times a (b - a) n)

apart : (a b r n : ℕ) → a * n + r < b * n + r → b * n + r < a * n + r + n → ⊥
apart a b r n lt near = elim (Bool-cases (leb b a)) [
  | inl le ↦ omega (arith, times_le b a n (ground arith))
  | inr gt ↦ omega (arith, times_le (a + 1) b n (ground arith), more_times a 1 n)
]

pub slots_differ : (n p q : ℕ) → p < q → q < p + n → p % n ≢ q % n
slots_differ n p q lt near e =
    apart (p / n) (q / n) (p % n) n (omega (arith, div-add-mod' p n, div-add-mod' q n))
      (omega (arith, div-add-mod' p n, div-add-mod' q n))

-- The same for two positions of a window that is no longer than the capacity.
pub same_slot :
    (n low p q : ℕ) → low ≤ p → p < low + n → low ≤ q → q < low + n → p % n ≡ q % n → p ≡ q
same_slot n low p q a b c d e = elim (Bool-cases (leb p q)) [
  | inl le ↦ elim (Bool-cases (leb q p)) [
    | inl ge ↦ ground arith
    | inr lt ↦ absurd (slots_differ n p q (ground arith) (omega arith) e)
  ]
  | inr gt ↦ absurd (slots_differ n q p (ground arith) (omega arith) (sym e))
]

-- The slot of a position comes round after the capacity.
pub slot_again : (n p : ℕ) → 0 < n → (p + n) % n ≡ p % n
slot_again n p pos = add-mod_right p n
