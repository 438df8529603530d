-- ===== src/Client/Connection.antt =====
-- The requests of a connection to one replica: client/replica_conn.go and client/connection_generation.go.
-- A critical section of a shard's mutex, with the channel send right after it, is one step.
pub mod Pending
pub mod Account
pub mod Manage
use red_lease.Prelude.{
  ℕ, zero, suc, ◌+◌, ◌%◌, ◌≡◌, Bool, true, false, List, [], ◌∷◌, ◌++◌, Option, none, some, ltb,
  ◌==◌, if◌then◌else◌, length, update,
}
use red_lease.Protocol.{Response}
use red_lease.Wire.{OutboundRequest}

abbrev pub req_queue_capacity : ℕ
req_queue_capacity = 4096

abbrev pub pending_shard_count : ℕ
pending_shard_count = 16

abbrev pub response_queue_capacity : ℕ
response_queue_capacity = 512

-- An error of a context, that of a closed replica, a full queue, or an answer that came too late.
pub data ConnError : Type 0 where
  context_error : ℕ → ConnError
  replica_closed send_queue_full deadline_exceeded : ConnError

-- connectionCallResult
pub data ConnResult : Type 0 where
  received : Response → ConnResult
  broken : ConnError → ConnResult

pub record ReplicaResponse : Type 0 where
  pub replica : ℕ
  pub request_id : ℕ
  pub result : ConnResult

-- A map from request identifiers to channels; `none` is the nil map, and a channel is a number.
pub record PendingShard : Type 0 where
  pub pending : Option (List (ℕ × ℕ))
  pub responses : List Response

-- `cancelled` says that the context of the connection is done.
pub record ReplicaConn : Type 0 where
  pub index : ℕ
  pub cancelled : Bool
  pub req_queue : List OutboundRequest
  pub shards : ℕ → PendingShard

-- What is sent to a channel.
pub record Delivery : Type 0 where
  pub destination : ℕ
  pub response : ReplicaResponse

unfoldable pub lookup : List (ℕ × ℕ) → ℕ → Option ℕ
lookup [] k = none
lookup ((j, d) ∷ rest) k = if j == k then some d else lookup rest k

-- `delete(m, k)`
unfoldable pub delete : List (ℕ × ℕ) → ℕ → List (ℕ × ℕ)
delete [] k = []
delete ((j, d) ∷ rest) k = let others = delete rest k in if j == k then others else (j, d) ∷ others

unfoldable pub new_replica_conn : ℕ → ReplicaConn
new_replica_conn index = record {
  index = index;
  cancelled = false;
  req_queue = [];
  shards = λ i. record { pending = some []; responses = [] };
}

unfoldable pub pending_shard_index : ℕ → ℕ
pending_shard_index request_id = request_id % pending_shard_count

-- TryEnqueue on a queue of the given capacity.
unfoldable pub try_enqueue {ℓ} : {A : Type ℓ} → ℕ → List A → A → Option (List A)
try_enqueue capacity queue value =
    if ltb (length queue) capacity then some (queue ++ value ∷ []) else none

abbrev pub set_pending : ReplicaConn → ℕ → Option (List (ℕ × ℕ)) → ReplicaConn
set_pending c i pending = record c {
  shards = update c.shards i (record (c.shards i) { pending = pending });
}

unfoldable pub submit_no_response : ReplicaConn → OutboundRequest → Option ConnError × ReplicaConn
unfolding try_enqueue
submit_no_response c request =
    if c.cancelled
    then (some replica_closed, c)
    else elim (try_enqueue req_queue_capacity c.req_queue request) [
      | some queue ↦ (none, record c { req_queue = queue })
      | none ↦ (some send_queue_full, c)
    ]

-- `shard.pending[requestID] = operation` and what follows it, with the map of the shard.
unfoldable pub submit_pending :
    ReplicaConn
    → OutboundRequest
    → ℕ
    → Option (List (ℕ × ℕ))
    → Option (Option ConnError × ReplicaConn)
unfolding try_enqueue delete pending_shard_index
submit_pending c request operation none = none
submit_pending c request operation (some pending) =
    let i = pending_shard_index request.request_id in
    let removed = delete pending request.request_id in
    elim (try_enqueue req_queue_capacity c.req_queue request) [
      | some queue ↦ some (
        none,
        record (set_pending c i (some ((request.request_id, operation) ∷ removed))) {
          req_queue = queue;
        },
      )
      | none ↦ some (some send_queue_full, set_pending c i (some removed))
    ]

-- `none` is a panic, a write to a nil map; `caller` is the error of the caller's context.
unfoldable pub submit_for_operation :
    Option ℕ → ReplicaConn → OutboundRequest → ℕ → Option (Option ConnError × ReplicaConn)
unfolding submit_pending pending_shard_index
submit_for_operation (some e) c request operation = some (some (context_error e), c)
submit_for_operation none c request operation =
    if c.cancelled
    then some (some replica_closed, c)
    else submit_pending c request operation
        (c.shards (pending_shard_index request.request_id)).pending

-- The result of a request for the channel that waits for it.
unfoldable pub complete_in_shard :
    ReplicaConn → ℕ → ℕ → ConnResult → Option (List (ℕ × ℕ)) → ReplicaConn × List Delivery
unfolding lookup delete
complete_in_shard c i request_id result none = (c, [])
complete_in_shard c i request_id result (some pending) = elim (lookup pending request_id) [
  | none ↦ (c, [])
  | some destination ↦ (
    set_pending c i (some (delete pending request_id)),
    record {
      destination = destination;
      response = record { replica = c.index; request_id = request_id; result = result };
    }
        ∷ [],
  )
]

unfoldable pub complete : ReplicaConn → ℕ → ConnResult → ReplicaConn × List Delivery
unfolding complete_in_shard pending_shard_index
complete c request_id result =
    let i = pending_shard_index request_id in
    complete_in_shard c i request_id result (c.shards i).pending

-- receiveResponses, from a decoded response on: `none` waits for room.
unfoldable pub receive_response : ReplicaConn → Response → Option ReplicaConn
unfolding try_enqueue pending_shard_index
receive_response c response =
    let i = pending_shard_index response.request_id in
    elim (try_enqueue response_queue_capacity (c.shards i).responses response) [
      | none ↦ none
      | some queue ↦
          some (record c { shards = update c.shards i (record (c.shards i) { responses = queue }) })
    ]

-- One pass of completeResponses with the queue that it finds.
unfoldable pub complete_responses : ReplicaConn → ℕ → List Response → ReplicaConn × List Delivery
unfolding complete_in_shard
complete_responses c i [] = (c, [])
complete_responses c i (response ∷ rest) =
    complete_in_shard
      (record c { shards = update c.shards i (record (c.shards i) { responses = rest }) }) i
      response.request_id (received response) (c.shards i).pending

-- One request for the wire: the next one of sendRequests.
unfoldable pub next_outbound :
    ReplicaConn → List OutboundRequest → Option OutboundRequest × ReplicaConn
next_outbound c [] = (none, c)
next_outbound c (request ∷ rest) = (some request, record c { req_queue = rest })

unfoldable pub deliveries : ReplicaConn → ConnResult → List (ℕ × ℕ) → List Delivery
deliveries c result [] = []
deliveries c result ((k, d) ∷ rest) =
    record {
      destination = d;
      response = record { replica = c.index; request_id = k; result = result };
    }
    ∷ deliveries c result rest

-- failPending on one shard.
unfoldable pub fail_shard :
    ReplicaConn → ConnResult → ℕ → Option (List (ℕ × ℕ)) → ReplicaConn × List Delivery
unfolding deliveries
fail_shard c result i none = (set_pending c i none, [])
fail_shard c result i (some pending) = (set_pending c i none, deliveries c result pending)

-- `n` shards from `i` on.
unfoldable pub fail_from : ConnResult → ℕ → ℕ → ReplicaConn → ReplicaConn × List Delivery
unfolding fail_shard
fail_from result i zero c = (c, [])
fail_from result i (suc n) c =
    let here = fail_shard c result i (c.shards i).pending in
    let later = fail_from result (suc i) n here.0 in (later.0, here.1 ++ later.1)

unfoldable pub fail_pending : ConnError → ReplicaConn → ReplicaConn × List Delivery
unfolding fail_from
fail_pending error c = fail_from (broken error) 0 pending_shard_count c

abbrev pub cancel : ReplicaConn → ReplicaConn
cancel c = record c { cancelled = true }

-- Close on the requests: the context is cancelled, every request that is left fails, and the queue is
-- emptied by discardQueuedRequests.
unfoldable pub close_conn : ReplicaConn → ReplicaConn × List Delivery
unfolding fail_pending
close_conn c =
    let r = fail_pending replica_closed (cancel c) in (record (r.0) { req_queue = [] }, r.1)
