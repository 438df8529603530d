-- ===== src/Protocol.antt =====
-- internal/protocol/message.go, and the enumerations of fbs/redlease/v1/redlease.fbs that the
-- hand-written code uses. An enumeration is a byte on the wire, so its values are numbers.
pub mod LeaseStatus
pub mod ClientOperation
use red_lease.Prelude.{ℕ}

-- The maximum lease TTL, in milliseconds.
abbrev pub max_ttl_ms : ℕ
max_ttl_ms = 5_000

-- time.Millisecond. Instants and durations are nanoseconds of the monotonic clock.
abbrev pub millisecond : ℕ
millisecond = 1_000_000

pub record Response : Type 0 where
  pub request_id : ℕ
  pub operation : ℕ
  pub status : ℕ
  pub ttl_ms : ℕ
