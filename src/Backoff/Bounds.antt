-- ===== src/Backoff/Bounds.antt =====
-- The delays of internal/backoff/backoff.go grow by powers of two up to the maximum.
use red_lease.Prelude.{
  ℕ, zero, suc, ◌*◌, ◌/◌, ◌^◌, ◌≤◌, ◌≡◌, ap, sym, ◌∙◌, ◌||◌, not, min, ltb, leb, ◌==◌, arith,
  Bool-cases, inl, inr, ◌⊎◌,
}
use native.Mathlib.Nat.{pow-succ', mul_assoc}
use red_lease.Backoff.{
  Exponential, Scaled, negative, nonnegative, double, base_delay, clamp, duration,
}

doubled : (b n : ℕ) → b * 2 ^ suc n ≡ (b * 2) * 2 ^ n
doubled b n = ap (λ x. b * x) (pow-succ' 2 n) ∙ sym (mul_assoc b 2 (2 ^ n))

grows : (b n : ℕ) → b ≤ b * 2 ^ n
grows b zero = omega arith
grows b (suc n) = omega (arith, doubled b n, grows (b * 2) n)

double-min :
    (maximum attempt base : ℕ)
    → base ≤ maximum
    → double maximum attempt base ≡ min (base * 2 ^ attempt) maximum
unfolding double
double-min maximum zero base le = omega arith
double-min maximum (suc n) base le =
    elim (Bool-cases (leb maximum base || ltb (maximum / 2) base)) [
      | inl high ↦
          let far : maximum ≤ base * 2 ^ suc n =
            ground (arith, doubled base n, grows (base * 2) n) in
          rw (high, double) (omega arith)
      | inr low ↦
          rw (low, double)
            (double-min maximum n (base * 2) (ground arith)
              ∙ ap (λ x. min x maximum) (sym (doubled base n)))
    ]

-- The loop over the attempts gives the initial delay times two to the power of the attempt, capped
-- by the maximum.
pub base_delay-min :
    (b : Exponential) (attempt : ℕ) → base_delay b attempt ≡ min (b.initial * 2 ^ attempt) b.maximum
unfolding base_delay
base_delay-min b attempt =
    double-min b.maximum attempt (min b.initial b.maximum) (omega arith)
    ∙ capped (elim (Bool-cases (leb b.initial b.maximum)) [
      | inl x ↦ inl (ground arith)
      | inr x ↦ inr (ground arith)
    ])
  where
    capped :
        (b.initial ≤ b.maximum) ⊎ (b.maximum ≤ b.initial)
        → min (min b.initial b.maximum * 2 ^ attempt) b.maximum
          ≡ min (b.initial * 2 ^ attempt) b.maximum
    capped (inl le) = ap (λ x. min (x * 2 ^ attempt) b.maximum) (omega arith)
    capped (inr ge) =
        ap (λ x. min (x * 2 ^ attempt) b.maximum) {x = min b.initial b.maximum} {y = b.maximum}
          (omega arith)
        ∙ omega (arith, grows b.maximum attempt, grows b.initial attempt)

-- No delay is longer than the maximum, whatever the random factor.
pub duration-le :
    (scaled : ℕ → Scaled) (b : Exponential) (attempt : ℕ) → duration scaled b attempt ≤ b.maximum
unfolding duration
duration-le scaled b attempt = elim (Bool-cases (not b.has_jitter || base_delay b attempt == 0)) [
  | inl plain ↦ rw (plain, duration) (omega (arith, base_delay-min b attempt))
  | inr jitter ↦ rw (jitter, duration) (clamped (scaled (base_delay b attempt)))
]
  where
    clamped : (s : Scaled) → clamp b.maximum s ≤ b.maximum
    clamped negative = omega arith
    clamped (nonnegative d) = ground arith
