-- ===== src/Client1of1/Connection/Same.antt =====
-- The requests of the client with one server go the way of those of the client with several.
use red_lease.Prelude.{
  ℕ, ◌≡◌, refl, ap, arith, Bool, true, false, List, [], ◌∷◌, Option, none, some, Option-cases, inl,
  inr, ℕ_discrete, if◌then◌else◌,
}
use red_lease.Wire.{OutboundRequest}
use red_lease.Client.Connection.{
  ReplicaConn, ConnError, ConnResult, Delivery, send_queue_full, delete, pending_shard_index,
  try_enqueue, req_queue_capacity, submit_for_operation, submit_pending, set_pending,
}
use red_lease.Client1of1.Connection.{SingleConn, enqueue, enqueue_pending, registered, put, removed}

-- The connection as that of the replica 0.
abbrev pub as_replica : SingleConn → ReplicaConn
as_replica c = record {
  index = 0;
  cancelled = c.cancelled;
  req_queue = c.req_queue;
  shards = c.shards;
}

abbrev pub told : List Delivery → List (ℕ × ConnResult)
told [] = []
told (d ∷ rest) = (d.destination, d.response.result) ∷ told rest

abbrev pub submitted_as :
    Option (Option ConnError × SingleConn) → Option (Option ConnError × ReplicaConn)
submitted_as none = none
submitted_as (some (e, c)) = some (e, as_replica c)

abbrev pub received_as : Option SingleConn → Option ReplicaConn
received_as none = none
received_as (some c) = some (as_replica c)

-- The same connection, and the same results in the same channels.
abbrev pub SameAs : SingleConn × List (ℕ × ConnResult) → ReplicaConn × List Delivery → Type 0
SameAs (c, rs) (d, ds) = (as_replica c ≡ d) × (rs ≡ told ds)

either :
    (b : Bool) (x y : Option (Option ConnError × SingleConn))
    (v w : Option (Option ConnError × ReplicaConn))
    → submitted_as x ≡ v
    → submitted_as y ≡ w
    → submitted_as (if b then x else y) ≡ (if b then v else w)
either true x y v w e f = e
either false x y v w e f = f

delete_twice : (m : List (ℕ × ℕ)) (k : ℕ) → delete (delete m k) k ≡ delete m k
unfolding delete
delete_twice [] k = refl
delete_twice ((i, d) ∷ rest) k = elim (ℕ_discrete i k) [
  | yes at ↦ ground (arith, at, delete_twice rest k)
  | no away ↦ ground (arith, away, delete_twice rest k)
]

delete_put : (m : List (ℕ × ℕ)) (k d : ℕ) → delete ((k, d) ∷ delete m k) k ≡ delete m k
unfolding delete
delete_put m k d = ground (arith, delete_twice m k)

module _ (c : SingleConn) where
  enqueue_as :
      (request : OutboundRequest) (d : ℕ) (pending : Option (List (ℕ × ℕ)))
      → submitted_as (registered c request (put pending request.request_id d))
        ≡ submit_pending (as_replica c) request d pending
  unfolding registered put enqueue_pending removed submit_pending delete
  enqueue_as request d none = refl
  enqueue_as request d (some m) =
      elim (Option-cases (try_enqueue req_queue_capacity c.req_queue request)) [
        | inl full ↦
            rw (full, enqueue_pending, submit_pending)
              (ap
                (λ l. some (
                  some send_queue_full,
                  set_pending (as_replica c) (pending_shard_index request.request_id) (some l),
                ))
                (delete_put m request.request_id d))
        | inr (queue, room) ↦ rw (room, enqueue_pending, submit_pending) refl
      ]

  pub enqueue-same :
      (request : OutboundRequest) (d : ℕ)
      → submitted_as (enqueue c request (some d))
        ≡ submit_for_operation none (as_replica c) request d
  unfolding enqueue submit_for_operation
  enqueue-same request d =
      either c.cancelled _ _ _ _ refl
        (enqueue_as request d (c.shards (pending_shard_index request.request_id)).pending)
