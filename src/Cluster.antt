-- ===== src/Cluster.antt =====
-- The protocol as a whole: the servers of server/state.go and the validity rules of client/quorum.go and
-- client/acquire.go. All clocks show one time; a server of the cluster is not restarted.
pub mod Count
pub mod Exclusion
pub mod Leases
use red_lease.Prelude.{
  ℕ, ◌+◌, ◌≤◌, ◌<◌, ◌≡◌, true, Bool, Option, none, some, List, [], ◌∷◌, ltb, leb,
}
use red_lease.Protocol.{Response}
use red_lease.Server.Shard.{LeaseId}
use red_lease.Server.State.{Server, Operation, shard_index, acquire}
use red_lease.Server.State.Inv.{ServerInv}
use red_lease.Server.Safety.Grants.{acquired_status}
use red_lease.Server.Safety.History.{Event, During, last_at, Unreleased, run_history}
use red_lease.Client.Quorum.{candidate_valid_until}

-- How a replica came to the state `server`, in which the client that sent Acquire at `start` holds its
-- answer, and trusts it to `candidate`.
pub record Answered (hash : ℕ → ℕ) (server : Server) (now k : ℕ) (id : LeaseId)
    (start candidate : ℕ) : Type 0 where
  pub before : Server
  pub after : Server
  pub op : Operation
  pub at : ℕ
  pub response : Response
  pub inv : ServerInv before
  pub shards : 0 < before.config.shard_count
  pub names : op.key ≡ k
  pub owner : op.lease_id ≡ id
  pub sent : start ≤ at
  pub acquired : acquire before (shard_index hash before k) op at ≡ some (response, after)
  pub success : acquired_status response.status ≡ true
  pub trusted : candidate ≡ candidate_valid_until start response.ttl_ms
  pub events : List Event
  pub during : During at candidate events
  pub unreleased : Unreleased k id events
  pub reached : run_history hash after events ≡ some server
  pub present : last_at at events ≤ now
