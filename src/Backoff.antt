-- ===== src/Backoff.antt =====
-- internal/backoff/backoff.go. Durations are nanoseconds; none of the policies in use has a negative one.
-- The random factor in floating point is a parameter: what the scaled delay comes to.
pub mod Bounds
use red_lease.Prelude.{
  ℕ, zero, suc, ◌+◌, ◌*◌, ◌/◌, ◌≡◌, Bool, true, false, ltb, leb, ◌==◌, ◌||◌, not, min,
  if◌then◌else◌,
}
use red_lease.Protocol.{millisecond}

pub record Exponential : Type 0 where
  pub initial : ℕ
  pub maximum : ℕ
  pub has_jitter : Bool

-- `Default`
abbrev pub default_backoff : Exponential
default_backoff = record {
  initial = 50 * millisecond;
  maximum = 2_000 * millisecond;
  has_jitter = true;
}

-- The conversion of the scaled delay, which is negative for a factor below 0.
pub data Scaled : Type 0 where
  negative : Scaled
  nonnegative : ℕ → Scaled

-- The loop over the attempts.
pub double : ℕ → ℕ → ℕ → ℕ
double maximum zero base = base
double maximum (suc attempt) base = elim (leb maximum base || ltb (maximum / 2) base) [
  | true ↦ maximum
  | false ↦ double maximum attempt (base * 2)
]

pub base_delay : Exponential → ℕ → ℕ
unfolding double
base_delay b attempt = double b.maximum attempt (min b.initial b.maximum)

pub clamp : ℕ → Scaled → ℕ
clamp maximum negative = 0
clamp maximum (nonnegative delay) = if ltb maximum delay then maximum else delay

unfoldable pub duration : (ℕ → Scaled) → Exponential → ℕ → ℕ
unfolding base_delay clamp
duration scaled b attempt =
    let base = base_delay b attempt in
    if not b.has_jitter || base == 0 then base else clamp b.maximum (scaled base)
