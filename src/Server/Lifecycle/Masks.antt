-- ===== src/Server/Lifecycle/Masks.antt =====
-- The test of Config.Validate in server/server.go for a power of two: n & (n - 1) == 0.
use Prim.Native.Nat.{bit_and, digits, bit_and-bitwise}
use native.Mathlib.Nat.{two-pow-succ}
use red_lease.Prelude.{
  ℕ, zero, suc, ◌-◌, ◌/◌, ◌%◌, ◌^◌, ◌≤◌, ◌<◌, ◌≡◌, min, refl, ap, sym, ◌∙◌, arith, ℕ_discrete,
}

-- The conjunction of two numbers, with a unit of fuel for each digit.
abbrev masked : ℕ → ℕ → ℕ → ℕ
masked fuel a b = digits (λ c. zero) min fuel a b

masked_self : (fuel a : ℕ) → a ≤ fuel → masked fuel a a ≡ a
masked_self zero a le = omega arith
masked_self (suc fuel) zero le = refl
masked_self (suc fuel) (suc a) le = omega (arith, masked_self fuel (suc a / 2) (omega (arith, le)))

-- An odd number is left as it is but for its last digit, so only 1 passes; an even one passes with its half.
masked-power : (fuel a : ℕ) → suc a ≤ fuel → masked fuel (suc a) a ≡ 0 → (k : ℕ) × (suc a ≡ 2 ^ k)
masked-power zero a le e = absurd (omega arith)
masked-power (suc fuel) a le e = elim (ℕ_discrete (suc a % 2) 0) [
  | yes even ↦
      let half : suc a / 2 ≡ suc (a / 2) = omega (arith, even) in
      let rest : masked fuel (suc (a / 2)) (a / 2) ≡ 0 =
        ap (λ h. masked fuel h (a / 2)) (sym half) ∙ omega (arith, e) in
      let (k, is) = masked-power fuel (a / 2) (omega (arith, le, even)) rest in
      (suc k, omega (arith, is, even, two-pow-succ k))
  | no odd ↦
      let half : a / 2 ≡ suc a / 2 = omega (arith, odd) in
      let rest : masked fuel (suc a / 2) (suc a / 2) ≡ 0 =
        ap (λ h. masked fuel (suc a / 2) h) (sym half) ∙ omega (arith, e) in
      (0, omega (arith, odd, rest, masked_self fuel (suc a / 2) (omega (arith, le))))
]

masked_zero : (fuel b : ℕ) → masked fuel 0 b ≡ 0
masked_zero zero b = refl
masked_zero (suc fuel) b = refl

power-masked : (k fuel a : ℕ) → suc a ≡ 2 ^ k → suc a ≤ fuel → masked fuel (suc a) a ≡ 0
power-masked k zero a is le = absurd (omega arith)
power-masked zero (suc fuel) a is le =
    let half : suc a / 2 ≡ 0 = omega (arith, is) in
    let same : masked fuel (suc a / 2) (a / 2) ≡ 0 =
      ap (λ h. masked fuel h (a / 2)) half ∙ masked_zero fuel (a / 2) in
    omega (arith, same, is)
power-masked (suc k) (suc fuel) a is le =
    let half : suc a / 2 ≡ suc (a / 2) = omega (arith, is, two-pow-succ k) in
    let rest =
      power-masked k fuel (a / 2) (omega (arith, is, two-pow-succ k))
        (omega (arith, le, is, two-pow-succ k)) in
    let same : masked fuel (suc a / 2) (a / 2) ≡ 0 = ap (λ h. masked fuel h (a / 2)) half ∙ rest in
    omega (arith, same, is, two-pow-succ k)

abbrev pub IsPower : ℕ → Type 0
IsPower n = (k : ℕ) × (n ≡ 2 ^ k)

pub bit_and-IsPower : (n : ℕ) → 0 < n → bit_and n (n - 1) ≡ 0 → IsPower n
bit_and-IsPower zero pos e = absurd (omega arith)
bit_and-IsPower (suc a) pos e =
    let less : suc a - 1 ≡ a = omega arith in
    masked-power (suc a) a (omega arith)
      (sym (bit_and-bitwise (suc a) a) ∙ sym (ap (bit_and (suc a)) less) ∙ e)

pub IsPower-bit_and : (n : ℕ) → IsPower n → bit_and n (n - 1) ≡ 0
IsPower-bit_and zero (k, is) = refl
IsPower-bit_and (suc a) (k, is) =
    let less : suc a - 1 ≡ a = omega arith in
    ap (bit_and (suc a)) less
    ∙ bit_and-bitwise (suc a) a
    ∙ power-masked k (suc a) a is (omega arith)
