-- ===== src/Tests/Singles.antt =====
-- A lease of a client with one server, and the delays between its attempts to connect.
use red_lease.Prelude.{ℕ, ◌*◌, ◌/◌, none}
use red_lease.Protocol.LeaseStatus
use red_lease.Protocol.ClientOperation
use red_lease.Client1of1.{Lease, lease_active, Call, answered, acquire, renew}
use red_lease.Client1of1.Outcome.{AcquireEnds, acquire-AcquireEnds, RenewEnds, renew-RenewEnds}
use red_lease.Backoff.{Scaled, nonnegative}

abbrev granting : Call
granting = record {
  start = 1_000;
  cancelled_before = none;
  reply = answered (record {
    request_id = 1;
    operation = ClientOperation.acquire;
    status = LeaseStatus.ok;
    ttl_ms = 2_000;
  });
  cancelled_after = none;
  now = 2_000;
}

acquire-AcquireEnds_example : AcquireEnds 1 5 granting (acquire 1 5 granting)
acquire-AcquireEnds_example = acquire-AcquireEnds 1 5 granting

abbrev lease : Lease
lease = record {
  sequence = 1;
  key = 5;
  now = 1_000;
  lifecycle = lease_active;
  valid_until = 1_900_001_000;
}

abbrev renewing : Call
renewing = record {
  start = 1_000_000_000;
  cancelled_before = none;
  reply = answered (record {
    request_id = 2;
    operation = ClientOperation.renew;
    status = LeaseStatus.ok;
    ttl_ms = 3_000;
  });
  cancelled_after = none;
  now = 1_100_000_000;
}

renew-RenewEnds_example : RenewEnds lease renewing (renew lease renewing).0 (renew lease renewing).1
renew-RenewEnds_example = renew-RenewEnds lease renewing

-- A factor of one and a fifth.
abbrev longer : ℕ → Scaled
longer base = nonnegative (base * 12 / 10)
