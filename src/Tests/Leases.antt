-- ===== src/Tests/Leases.antt =====
-- A lease of a client of three servers.
use red_lease.Prelude.{ℕ, ◌≡◌, refl, List, [], ◌∷◌, none, some, false, arith}
use red_lease.Protocol.LeaseStatus
use red_lease.Protocol.ClientOperation
use red_lease.Client.Quorum.{quorum2_of3, parameters}
use red_lease.Client.Lease.{Lease, lease_active, release_lease, lease_remaining_ttl_ms}
use red_lease.Client.Collect.{
  Clock, Wait, response_received, answered, failed, request_failed, caller_done, Command,
}
use red_lease.Client.Acquire.{AcquireCall, AcquireResult, acquire}
use red_lease.Client.Acquire.Ends.{Ends, acquire-Ends}
use red_lease.Client.Renew.{RenewCall, RenewResult, renew}
use red_lease.Client.Renew.Ends.{renew-Renewal}
use red_lease.Client.Renew.Parts.{Renewal}
use red_lease.Client.Healing.{still, then_step, released}
use red_lease.Client.Healing.Lifetime.{Lasting, Lives-Lasting, released_for_good}

abbrev clock : ℕ → Clock
clock now = record { now = now; marked = now; later = now; cancelled = none }

abbrev granted : ℕ → ℕ → Wait
granted r ttl_ms =
    response_received r
      (answered (record {
        request_id = r;
        operation = ClientOperation.acquire;
        status = LeaseStatus.ok;
        ttl_ms = ttl_ms;
      }))
      (clock 2_000)

-- Two replicas grant the lease, and a third one is not reached.
abbrev call : AcquireCall
call = record {
  sequence = 1;
  key = 5;
  ttl_ms = 3_000;
  operation_start = 1_000;
  cancelled_before = none;
  submits = none ∷ none ∷ none ∷ [];
  cancelled_after = none;
  waits =
      granted 0 3_000
      ∷ response_received 1 (failed (request_failed 1)) (clock 2_000)
      ∷ granted 2 2_000
      ∷ [];
  healing_now = 3_000;
}

-- The lease is valid as long as the shorter of the two grants.
acquire-Ends_example :
    (result : AcquireResult) × (commands : List Command) × (acquire quorum2_of3 call
      ≡ some (result, commands))
    × Ends quorum2_of3 call result commands
unfolding parameters
acquire-Ends_example = acquire-Ends quorum2_of3 call refl (omega arith)

abbrev lease : Lease
lease = record {
  server_count = 3;
  sequence = 1;
  key = 5;
  requested_ttl_ms = 3_000;
  now = 1_000;
  lifecycle = lease_active;
  valid_until = 1_900_001_000;
  confirmed_until = λ r. 0;
  healing = false;
}

abbrev renewed_answer : ℕ → Wait
renewed_answer r =
    response_received r
      (answered (record {
        request_id = r;
        operation = ClientOperation.renew;
        status = LeaseStatus.ok;
        ttl_ms = 3_000;
      }))
      (clock 600_000_000)

abbrev renewing : RenewCall
renewing = record {
  ttl_ms = 3_000;
  operation_start = 500_000_000;
  submits = none ∷ some caller_done ∷ none ∷ [];
  cancelled_after = none;
  waits = renewed_answer 0 ∷ renewed_answer 2 ∷ renewed_answer 1 ∷ [];
  healing_now = 600_000_000;
}

renew-Renewal_example :
    (result : RenewResult) × (after : Lease) × (commands : List Command) × (renew quorum2_of3 lease
        renewing
      ≡ some (result, after, commands))
    × Renewal quorum2_of3 renewing lease result after commands
renew-Renewal_example = renew-Renewal quorum2_of3 lease renewing refl (omega arith)

Lives-Lasting_example : Lasting lease (release_lease lease).0
Lives-Lasting_example =
    Lives-Lasting quorum2_of3 lease (release_lease lease).0 (then_step still (released refl))

released_for_good_example : lease_remaining_ttl_ms (release_lease lease).0 1_000 ≡ 0
released_for_good_example = released_for_good quorum2_of3 lease (release_lease lease).0 1_000 still
