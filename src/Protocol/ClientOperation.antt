-- ===== src/Protocol/ClientOperation.antt =====
-- enum ClientOperation of fbs/redlease/v1/redlease.fbs; ServerResult has the same numbers.
use red_lease.Prelude.{ℕ}

abbrev pub none : ℕ
none = 0

abbrev pub acquire : ℕ
acquire = 1

abbrev pub renew : ℕ
renew = 2

abbrev pub release : ℕ
release = 3

abbrev pub get_ttl : ℕ
get_ttl = 4
