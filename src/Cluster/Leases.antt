-- ===== src/Cluster/Leases.antt =====
-- The leases that client/acquire.go hands out exclude each other.
use red_lease.Prelude.{ℕ, ◌≤◌, ◌<◌, ◌≡◌, ap, true, some, List, length, arith, subst}
use red_lease.Protocol.ClientOperation
use red_lease.Server.Shard.{LeaseId, id_eq}
use red_lease.Server.State.{Server}
use red_lease.Client.Quorum.{parameters, is_successful_acquire}
use red_lease.Client.Lease.{Lease}
use red_lease.Client.Collect.{Command}
use red_lease.Client.Collect.Known.{Backed}
use red_lease.Client.Acquire.{AcquireCall, AcquireResult, acquired, not_acquired, acquire}
use red_lease.Client.Acquire.Ends.{
  Established, Ends, cancelled_early, gave_up, left_rest, healed, complete, acquire-Ends,
}
use red_lease.Cluster.{Answered}
use red_lease.Cluster.Exclusion.{Trusts, mutual_exclusion}

-- The network: a success that the call heard from a replica is an answer of that replica to a request of
-- this lease, and no Release of the lease reached the replica since.
pub record Delivered (hash : ℕ → ℕ) (servers : ℕ → Server) (now : ℕ) (id : LeaseId)
    (call : AcquireCall) : Type 0 where
  pub answers :
      (r candidate : ℕ)
      → Backed ClientOperation.acquire is_successful_acquire call.operation_start call.waits r
          candidate
      → Answered hash (servers r) now call.key id call.operation_start candidate

-- A call that returned a lease, which is still valid.
pub record Owns (quorum now : ℕ) (call : AcquireCall) (lease : Lease) : Type 0 where
  pub submitted : length call.submits ≡ (parameters quorum).0
  pub enough : (parameters quorum).0 ≤ length call.waits
  pub commands : List Command
  pub returned : acquire quorum call ≡ some (acquired lease, commands)
  pub valid : now < lease.valid_until

lease_of : (fallback : Lease) → AcquireResult → Lease
lease_of fallback (acquired l) = l
lease_of fallback (not_acquired cause limit) = fallback

Ends-Established :
    (quorum : ℕ) (call : AcquireCall) (result : AcquireResult) (commands : List Command)
    (lease : Lease)
    → Ends quorum call result commands
    → result ≡ acquired lease
    → Established quorum call lease
unfolding lease_of
Ends-Established quorum call result commands lease (cancelled_early e c) same =
    absurd (ground arith)
Ends-Established quorum call result commands lease (gave_up cause limit why) same =
    absurd (ground arith)
Ends-Established quorum call result commands lease (left_rest l x) same =
    rw (ap (lease_of l) same) at x
Ends-Established quorum call result commands lease (healed l x) same =
    rw (ap (lease_of l) same) at x
Ends-Established quorum call result commands lease (complete l x) same =
    rw (ap (lease_of l) same) at x

Owns-Established :
    (quorum now : ℕ) (call : AcquireCall) (lease : Lease)
    → Owns quorum now call lease
    → Established quorum call lease
Owns-Established quorum now call lease o =
    let (result, commands, ran, x) = acquire-Ends quorum call o.submitted o.enough in
    Ends-Established quorum call result commands lease x (ground (arith, ran, o.returned))

Owns-Trusts :
    (hash : ℕ → ℕ) (servers : ℕ → Server) (quorum now : ℕ) (id : LeaseId) (call : AcquireCall)
    (lease : Lease)
    → Owns quorum now call lease
    → Delivered hash servers now id call
    → Trusts hash servers quorum now call.key id
Owns-Trusts hash servers quorum now id call lease o d =
    let x = Owns-Established quorum now call lease o in
    record {
      candidates = x.candidates;
      successful = x.successful;
      valid_until = lease.valid_until;
      start = call.operation_start;
      all = x.all;
      marks = x.marks;
      chosen = x.chosen;
      valid = o.valid;
      answers = λ r candidate c m. d.answers r candidate (x.answers r candidate c m);
    }

-- For a supported quorum configuration: when two calls of Acquire for one key returned leases that
-- are both valid at one time, and every success that the calls heard is an answer of the replica
-- as Delivered describes, then the two calls are of one lease identity.
pub leases_exclude :
    (hash : ℕ → ℕ) (servers : ℕ → Server) (quorum now : ℕ) (a b : LeaseId)
    (first second : AcquireCall) (l m : Lease)
    → (parameters quorum).2 ≡ true
    → first.key ≡ second.key
    → Owns quorum now first l
    → Owns quorum now second m
    → Delivered hash servers now a first
    → Delivered hash servers now b second
    → id_eq a b ≡ true
leases_exclude hash servers quorum now a b first second l m known same o p d e =
    mutual_exclusion hash servers quorum now second.key a b known
      (subst (λ k. Trusts hash servers quorum now k a) same
        (Owns-Trusts hash servers quorum now a first l o d))
      (Owns-Trusts hash servers quorum now b second m p e)
