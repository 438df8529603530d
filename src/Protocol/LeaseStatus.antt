-- ===== src/Protocol/LeaseStatus.antt =====
-- enum LeaseStatus of fbs/redlease/v1/redlease.fbs.
use red_lease.Prelude.{ℕ}

abbrev pub ok : ℕ
ok = 0

abbrev pub already_owned : ℕ
already_owned = 1

abbrev pub busy : ℕ
busy = 2

abbrev pub stale : ℕ
stale = 3

abbrev pub not_ready : ℕ
not_ready = 4

abbrev pub key_limit_reached : ℕ
key_limit_reached = 5
