-- ===== src/Metrics/Buckets.antt =====
-- Which durations fall into a bucket of internal/clientmetrics/recorder.go.
use native.Mathlib.Nat.{two-pow-succ}
use red_lease.Prelude.{
  ℕ, zero, suc, ◌+◌, ◌-◌, ◌/◌, ◌^◌, ◌≤◌, ◌<◌, ◌≡◌, ap, arith, leb, ℕ_discrete, Bool-cases, inl, inr,
}
use red_lease.Metrics.{
  bits_len, acquire_latency_bucket, acquire_latency_bucket_count, first_bucket_exponent,
  upper_bound,
}

pow-positive : (n : ℕ) → 1 ≤ 2 ^ n
pow-positive zero = omega arith
pow-positive (suc n) = omega (arith, pow-positive n, two-pow-succ n)

pow-le : (a b : ℕ) → 2 ^ a ≤ 2 ^ (a + b)
pow-le a zero = let e : a + 0 ≡ a = omega arith in omega (arith, ap (λ n. 2 ^ n) e)
pow-le a (suc b) =
    let e : a + suc b ≡ suc (a + b) = omega arith in
    omega (arith, pow-le a b, two-pow-succ (a + b), ap (λ n. 2 ^ n) e)

-- The length in bits is at most `n` exactly below 2^n.
pub bits_len-le : (fuel x n : ℕ) → x < 2 ^ fuel → x < 2 ^ n → bits_len fuel x ≤ n
unfolding bits_len
bits_len-le zero x n lt le = omega arith
bits_len-le (suc fuel) x zero lt le = ground arith
bits_len-le (suc fuel) x (suc n) lt le = elim (ℕ_discrete x 0) [
  | yes none_set ↦ ground arith
  | no some_set ↦
      let rest =
        bits_len-le fuel (x / 2) n (omega (arith, lt, two-pow-succ fuel))
          (omega (arith, le, two-pow-succ n)) in
      ground (arith, rest)
]

pub bits_len-lt : (fuel x n : ℕ) → x < 2 ^ fuel → bits_len fuel x ≤ n → x < 2 ^ n
unfolding bits_len
bits_len-lt zero x n lt le = omega (arith, lt, pow-positive n)
bits_len-lt (suc fuel) x zero lt le = ground arith
bits_len-lt (suc fuel) x (suc n) lt le = elim (ℕ_discrete x 0) [
  | yes none_set ↦ omega (arith, pow-positive (suc n))
  | no some_set ↦
      let half =
        bits_len-lt fuel (x / 2) n (omega (arith, lt, two-pow-succ fuel)) (ground (arith, le)) in
      omega (arith, half, two-pow-succ n)
]

pub bucket-le :
    (elapsed b : ℕ)
    → elapsed < 2 ^ 63
    → b < acquire_latency_bucket_count
    → elapsed ≤ upper_bound b
    → acquire_latency_bucket elapsed ≤ b
unfolding acquire_latency_bucket upper_bound
bucket-le elapsed b small lt le = elim (Bool-cases (leb elapsed (2 ^ first_bucket_exponent))) [
  | inl first ↦ rw (first, acquire_latency_bucket) (omega arith)
  | inr later ↦
      let bits =
        bits_len-le 64 (elapsed - 1) (first_bucket_exponent + b) (omega (arith, small))
          (ground (arith, le, later)) in
      rw (later, acquire_latency_bucket) (omega (arith, bits))
]

pub bucket-bound :
    (elapsed b : ℕ)
    → elapsed < 2 ^ 63
    → b < acquire_latency_bucket_count
    → acquire_latency_bucket elapsed ≤ b
    → elapsed ≤ upper_bound b
unfolding acquire_latency_bucket upper_bound
bucket-bound elapsed b small lt le = elim (Bool-cases (leb elapsed (2 ^ first_bucket_exponent))) [
  | inl first ↦ ground (arith, first, pow-le first_bucket_exponent b)
  | inr later ↦
      let bits : bits_len 64 (elapsed - 1) - first_bucket_exponent ≤ b =
        ground (arith, le, later, lt) in
      let below =
        bits_len-lt 64 (elapsed - 1) (first_bucket_exponent + b) (omega (arith, small))
          (omega (arith, bits)) in
      omega (arith, below)
]

pub bucket-max : (elapsed : ℕ) → acquire_latency_bucket elapsed ≤ acquire_latency_bucket_count
unfolding acquire_latency_bucket
bucket-max elapsed = ground arith
