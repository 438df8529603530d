-- ===== src/Client/Responses/Conns.antt =====
-- The connections of client/replica_conn.go are what client/replica_responses.go relies on.
use red_lease.Prelude.{
  ℕ, ◌<◌, ◌≡◌, ◌≢◌, refl, subst, arith, Bool, true, false, List, [], ◌∷◌, ◌==◌, if◌then◌else◌,
  update, ℕ_discrete, Bool-cases, Option-cases, inl, inr, Option, none, some, ◌⊎◌,
}
use red_lease.Wire.{OutboundRequest}
use red_lease.Client.Connection.{
  ReplicaConn, ReplicaResponse, Delivery, ConnError, ConnResult, lookup, delete, complete,
  complete_in_shard, pending_shard_index, submit_for_operation, submit_pending, try_enqueue,
  req_queue_capacity,
}
use red_lease.Client.Responses.{Responses, Replicas, register}
use red_lease.Client.Responses.Held.{Held}
use red_lease.Client.Responses.Moves.{register-Held}

pub lookup-delete-same : (m : List (ℕ × ℕ)) (k : ℕ) → lookup (delete m k) k ≡ none
unfolding lookup delete
lookup-delete-same [] k = refl
lookup-delete-same ((i, d) ∷ rest) k = elim (ℕ_discrete i k) [
  | yes at ↦ ground (arith, at, lookup-delete-same rest k)
  | no away ↦ ground (arith, away, lookup-delete-same rest k)
]

pub lookup-delete-other : (m : List (ℕ × ℕ)) (k h : ℕ) → h ≢ k → lookup (delete m k) h ≡ lookup m h
unfolding lookup delete
lookup-delete-other [] k h ne = refl
lookup-delete-other ((i, d) ∷ rest) k h ne = elim (ℕ_discrete i k) [
  | yes at ↦ ground (arith, at, lookup-delete-other rest k h ne)
  | no away ↦ ground (arith, away, lookup-delete-other rest k h ne)
]

-- The connections of all replicas, each with its index.
abbrev pub Conns : Type 0
Conns = (conns : ℕ → ReplicaConn) × ((j : ℕ) → (conns j).index ≡ j)

module _ (destination : ℕ) where
  abbrev pub is_here : Option ℕ → Bool
  is_here none = false
  is_here (some d) = d == destination

  -- Whether the map of the shard has the request for the channel.
  abbrev pub is_in : Option (List (ℕ × ℕ)) → ℕ → Bool
  is_in none k = false
  is_in (some m) k = is_here (lookup m k)

  abbrev pub waits_here : ReplicaConn → ℕ → Bool
  waits_here c k = is_in (c.shards (pending_shard_index k)).pending k

  -- What comes into the channel.
  abbrev pub for_channel : List Delivery → List ReplicaResponse
  for_channel [] = []
  for_channel (d ∷ rest) =
      let others = for_channel rest in
      if d.destination == destination then d.response ∷ others else others

  module _ (c : ReplicaConn) (k : ℕ) (result : ConnResult) where
    abbrev pub Completed : ReplicaConn × List Delivery → Type 0
    Completed (d, ds) =
        (d.index ≡ c.index)
        × (for_channel ds ≡ (
            if waits_here c k
            then record { replica = c.index; request_id = k; result = result } ∷ []
            else []))
        × (waits_here d k ≡ false)
        × ((h : ℕ) → h ≢ k → waits_here d h ≡ waits_here c h)

    complete_in_shard-Completed :
        (pending : Option (List (ℕ × ℕ)))
        → (c.shards (pending_shard_index k)).pending ≡ pending
        → Completed (complete_in_shard c (pending_shard_index k) k result pending)
    unfolding complete_in_shard
    complete_in_shard-Completed none e = (refl, ground (arith, e), ground (arith, e), λ h ne. refl)
    complete_in_shard-Completed (some m) e = elim (Option-cases (lookup m k)) [
      | inl missing ↦
          rw (missing, complete_in_shard)
            (refl, ground (arith, e, missing), ground (arith, e, missing), λ h ne. refl)
      | inr (d, found) ↦
          rw (found, complete_in_shard)
            (
              refl,
              ground (arith, e, found),
              ground (arith, lookup-delete-same m k),
              λ h ne. elim (ℕ_discrete (pending_shard_index h) (pending_shard_index k)) [
                | yes same ↦ rw same (ground (arith, e, lookup-delete-other m k h ne))
                | no other ↦ ground (arith, other)
              ],
            )
    ]

    pub complete-Completed : Completed (complete c k result)
    unfolding complete
    complete-Completed = complete_in_shard-Completed (c.shards (pending_shard_index k)).pending refl

  -- complete on the connection of the replica `j`.
  abbrev pub changed : Conns → ℕ → ReplicaConn → ℕ → ReplicaConn
  changed s j c = update s.0 j c

  pub changed-index :
      (s : Conns) (j : ℕ) (c : ReplicaConn)
      → c.index ≡ (s.0 j).index
      → (i : ℕ) → (changed s j c i).index ≡ i
  changed-index s j c e i = elim (ℕ_discrete i j) [
    | yes at ↦ ground (arith, e, at, s.1 j)
    | no away ↦ ground (arith, s.1 i)
  ]

  abbrev pub complete_on : Conns → ℕ → ℕ → ConnResult → Conns × List ReplicaResponse
  complete_on s j k result =
      let r = complete (s.0 j) k result in
      (
        (changed s j r.0, changed-index s j r.0 (complete-Completed (s.0 j) k result).0),
        for_channel r.1,
      )

  module _ (s : Conns) (j k : ℕ) (result : ConnResult) where
    pub complete_on-sends : (complete_on s j k result).1 ≡ (
        if waits_here (s.0 j) k
        then record { replica = j; request_id = k; result = result } ∷ []
        else [])
    complete_on-sends =
        let (at, sends, gone, kept) = complete-Completed (s.0 j) k result in
        ground (arith, sends, s.1 j)

    pub complete_on-gone : waits_here ((complete_on s j k result).0.0 j) k ≡ false
    complete_on-gone =
        let (at, sends, gone, kept) = complete-Completed (s.0 j) k result in ground (arith, gone)

    pub complete_on-kept :
        (i h : ℕ)
        → (i ≢ j) ⊎ (h ≢ k)
        → waits_here ((complete_on s j k result).0.0 i) h ≡ waits_here (s.0 i) h
    complete_on-kept i h away =
        let (at, sends, gone, kept) = complete-Completed (s.0 j) k result in
        elim (ℕ_discrete i j) [
          | no other ↦ ground (arith, other)
          | yes same ↦ elim away [
            | inl other ↦ absurd (other same)
            | inr fresh ↦ ground (arith, same, kept h fresh)
          ]
        ]

  -- What the requests of a call rely on holds of the connections.
  abbrev pub connections : Replicas Conns
  connections = record {
    complete = complete_on;
    is_pending = λ s j k. waits_here (s.0 j) k;
    sends_once = complete_on-sends;
    no_more = complete_on-gone;
    others = complete_on-kept;
  }

  -- A request that a connection takes is pending for the channel.
  abbrev Waiting : ReplicaConn → ℕ → Option (Option ConnError × ReplicaConn) → Type 0
  Waiting c k none = Unit
  Waiting c k (some (some e, d)) = Unit
  Waiting c k (some (none, d)) = (waits_here d k ≡ true) × (d.index ≡ c.index)

  submit_pending-Waiting :
      (c : ReplicaConn) (request : OutboundRequest) (pending : Option (List (ℕ × ℕ)))
      → Waiting c request.request_id (submit_pending c request destination pending)
  unfolding submit_pending lookup
  submit_pending-Waiting c request none = tt
  submit_pending-Waiting c request (some m) =
      elim (Option-cases (try_enqueue req_queue_capacity c.req_queue request)) [
        | inl full ↦ rw (full, submit_pending) tt
        | inr (queue, room) ↦ rw (room, submit_pending) (ground arith, refl)
      ]

  submit-Waiting :
      (caller : Option ℕ) (c : ReplicaConn) (request : OutboundRequest)
      → Waiting c request.request_id (submit_for_operation caller c request destination)
  unfolding submit_for_operation
  submit-Waiting (some x) c request = tt
  submit-Waiting none c request = elim (Bool-cases c.cancelled) [
    | inl done ↦ simp (done, submit_for_operation) tt
    | inr going ↦
        simp (going, submit_for_operation)
          (submit_pending-Waiting c request
            (c.shards (pending_shard_index request.request_id)).pending)
  ]

  -- A request that a connection takes, for a replica that has none in the call and with an
  -- identifier other than 0, keeps every request of the call pending at its connection or answered
  -- in the channel.
  pub submit-Held :
      (n : ℕ) (s : Conns) (r : Responses) (j expiry : ℕ) (caller : Option ℕ)
      (request : OutboundRequest) (c : ReplicaConn)
      → Held connections n s r
      → j < n
      → (r.waits j).request_id ≡ 0
      → request.request_id ≢ 0
      → submit_for_operation caller (s.0 j) request destination ≡ some (none, c)
      → (t : Conns) × (t.0 ≡ update s.0 j c)
        × Held connections n t (register r j request.request_id expiry)
  submit-Held n s r j expiry caller request c inv lt free ne e =
      let (there, at) =
        subst (Waiting (s.0 j) request.request_id) e (submit-Waiting caller (s.0 j) request) in
      let t : Conns = (changed s j c, changed-index s j c at) in
      (
        t,
        refl,
        register-Held connections n s t r j request.request_id expiry inv lt free ne
            (ground (arith, there)) (λ i h other. ground (arith, other)),
      )
