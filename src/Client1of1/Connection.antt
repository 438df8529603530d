-- ===== src/Client1of1/Connection.antt =====
-- The requests of client1of1/connection.go and the end of them in client1of1/client.go. A channel is a number,
-- the result `none` of a request is the nil channel, and a shard has the shape of one of the client with
-- several servers.
pub mod Same
pub mod Await
use red_lease.Prelude.{
  ℕ, zero, suc, ◌+◌, ◌%◌, ◌≡◌, Bool, true, false, List, [], ◌∷◌, ◌++◌, Option, none, some, ltb,
  ◌==◌, if◌then◌else◌, length, update,
}
use red_lease.Protocol.{Response}
use red_lease.Wire.{OutboundRequest}
use red_lease.Client.Connection.{
  ConnError, ConnResult, PendingShard, context_error, replica_closed, send_queue_full,
  deadline_exceeded, received, broken, lookup, delete, pending_shard_index, pending_shard_count,
  try_enqueue, req_queue_capacity, response_queue_capacity,
}

-- `cancelled` says that the context of the client is done.
pub record SingleConn : Type 0 where
  pub cancelled : Bool
  pub req_queue : List OutboundRequest
  pub shards : ℕ → PendingShard

abbrev pub with_pending : SingleConn → ℕ → Option (List (ℕ × ℕ)) → SingleConn
with_pending c i pending = record c {
  shards = update c.shards i (record (c.shards i) { pending = pending });
}

-- `shard.pending[requestID] = result`; `none` is a panic.
unfoldable pub put : Option (List (ℕ × ℕ)) → ℕ → ℕ → Option (List (ℕ × ℕ))
unfolding delete
put none k d = none
put (some m) k d = some ((k, d) ∷ delete m k)

unfoldable pub removed : Option (List (ℕ × ℕ)) → ℕ → Option (List (ℕ × ℕ))
unfolding delete
removed none k = none
removed (some m) k = some (delete m k)

-- enqueue from TryEnqueue on, with the map as it is then.
unfoldable pub enqueue_pending :
    SingleConn → OutboundRequest → Option (List (ℕ × ℕ)) → Option ConnError × SingleConn
unfolding try_enqueue removed pending_shard_index
enqueue_pending c request pending =
    let i = pending_shard_index request.request_id in
    elim (try_enqueue req_queue_capacity c.req_queue request) [
      | some queue ↦ (none, record (with_pending c i pending) { req_queue = queue })
      | none ↦ (some send_queue_full, with_pending c i (removed pending request.request_id))
    ]

unfoldable pub registered :
    SingleConn → OutboundRequest → Option (List (ℕ × ℕ)) → Option (Option ConnError × SingleConn)
unfolding enqueue_pending
registered c request none = none
registered c request (some m) = some (enqueue_pending c request (some m))

-- enqueue; `none` is a panic, a write to a nil map.
unfoldable pub enqueue :
    SingleConn → OutboundRequest → Option ℕ → Option (Option ConnError × SingleConn)
unfolding enqueue_pending registered put pending_shard_index
enqueue c request none =
    let pending = (c.shards (pending_shard_index request.request_id)).pending in
    if c.cancelled then some (some replica_closed, c) else some (enqueue_pending c request pending)
enqueue c request (some result) =
    let pending = (c.shards (pending_shard_index request.request_id)).pending in
    if c.cancelled
    then some (some replica_closed, c)
    else registered c request (put pending request.request_id result)

-- What comes into which channel.
unfoldable pub single_complete_in_shard :
    SingleConn → ℕ → ℕ → ConnResult → Option (List (ℕ × ℕ)) → SingleConn × List (ℕ × ConnResult)
unfolding lookup delete
single_complete_in_shard c i request_id result none = (c, [])
single_complete_in_shard c i request_id result (some m) = elim (lookup m request_id) [
  | none ↦ (c, [])
  | some d ↦ (with_pending c i (some (delete m request_id)), (d, result) ∷ [])
]

-- One pass of completeResponses.
unfoldable pub single_complete_responses :
    SingleConn → ℕ → List Response → SingleConn × List (ℕ × ConnResult)
unfolding single_complete_in_shard
single_complete_responses c i [] = (c, [])
single_complete_responses c i (response ∷ rest) =
    single_complete_in_shard
      (record c { shards = update c.shards i (record (c.shards i) { responses = rest }) }) i
      response.request_id (received response) (c.shards i).pending

-- receive, from a decoded response on: `none` waits for room.
unfoldable pub single_receive : SingleConn → Response → Option SingleConn
unfolding try_enqueue pending_shard_index
single_receive c response =
    let i = pending_shard_index response.request_id in
    elim (try_enqueue response_queue_capacity (c.shards i).responses response) [
      | none ↦ none
      | some queue ↦
          some (record c { shards = update c.shards i (record (c.shards i) { responses = queue }) })
    ]

unfoldable pub closed_results : List (ℕ × ℕ) → List (ℕ × ConnResult)
closed_results [] = []
closed_results ((k, d) ∷ rest) = (d, broken replica_closed) ∷ closed_results rest

-- Close on one shard.
unfoldable pub close_shard :
    SingleConn → ℕ → Option (List (ℕ × ℕ)) → SingleConn × List (ℕ × ConnResult)
unfolding closed_results
close_shard c i none = (with_pending c i none, [])
close_shard c i (some m) = (with_pending c i none, closed_results m)

-- What await selects: a result, the end of the caller's context, or the timeout.
pub data AwaitEvent : Type 0 where
  result_here timed_out : AwaitEvent
  caller_ended : ℕ → AwaitEvent

abbrev pub into : ℕ → List ConnResult → List (ℕ × ConnResult) → List ConnResult
into d channel [] = channel
into d channel ((e, result) ∷ rest) =
    let more = into d channel rest in if e == d then result ∷ more else more

-- `<-f.result`
abbrev pub taken : SingleConn → List ConnResult → Option (SingleConn × ConnResult)
taken c [] = none
taken c (result ∷ rest) = some (c, result)

unfoldable pub give_up_waiting :
    SingleConn → ℕ → ℕ → List ConnResult → ConnError → Option (SingleConn × ConnResult)
unfolding single_complete_in_shard pending_shard_index
give_up_waiting c request_id d channel e =
    let i = pending_shard_index request_id in
    let r = single_complete_in_shard c i request_id (broken e) (c.shards i).pending in
    taken r.0 (into d channel r.1)

-- await on the future of a request, whose channel is `d`; `none` waits for ever.
unfoldable pub await :
    SingleConn → ℕ → ℕ → List ConnResult → AwaitEvent → Option (SingleConn × ConnResult)
unfolding give_up_waiting
await c request_id d channel result_here = taken c channel
await c request_id d channel (caller_ended e) =
    give_up_waiting c request_id d channel (context_error e)
await c request_id d channel timed_out = give_up_waiting c request_id d channel deadline_exceeded
