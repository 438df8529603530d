-- ===== src/Wire/RoundTrip.antt =====
-- What one side encodes the other side decodes.
use red_lease.Prelude.{
  ℕ, ◌≤◌, ◌≡◌, refl, true, false, Option, none, some, ltb, leb, arith, Bool-cases, inl, inr, ◌⊎◌,
}
use red_lease.Protocol.{Response}
use red_lease.Protocol.LeaseStatus
use red_lease.Protocol.ClientOperation
use red_lease.Server.Shard.{LeaseId}
use red_lease.Server.State.{
  Server, Phase, quarantine, active, failed, closed, Operation, OperationKind, acquire_kind,
  renew_kind, release_kind,
}
use red_lease.Wire.{
  RequestTable, ResponseTable, encode_request, new_request, status_response, Handled, replied,
  dispatched, decode_request, asks, process_table, process_request, encode_response, decode_table,
  decode_response,
}

-- The operation that the client means. A Release carries no time to live.
abbrev pub meant : OperationKind → ℕ → ℕ → LeaseId → ℕ → Operation
meant kind request_id key id ttl_ms = record {
  request_id = request_id;
  kind = kind;
  key = key;
  lease_id = id;
  requested_ttl_ms = elim kind [ acquire_kind ↦ ttl_ms | renew_kind ↦ ttl_ms | release_kind ↦ 0 ];
}

-- What the server does with an operation that it received: it waits for the end of the quarantine.
abbrev pub received : Phase → Operation → Handled
received quarantine op = replied (status_response op LeaseStatus.not_ready)
received active op = dispatched op
received failed op = dispatched op
received closed op = dispatched op

decoded :
    (kind : OperationKind) (request_id key : ℕ) (id : LeaseId) (ttl_ms : ℕ)
    → decode_request (encode_request (new_request kind request_id key id ttl_ms))
      ≡ asks (meant kind request_id key id ttl_ms)
unfolding decode_request encode_request new_request
decoded acquire_kind request_id key id ttl_ms = refl
decoded renew_kind request_id key id ttl_ms = refl
decoded release_kind request_id key id ttl_ms = refl

by_phase :
    (p : Phase) (op : Operation)
    → elim p [ quarantine ↦ replied (status_response op LeaseStatus.not_ready) | _ ↦ dispatched op ]
      ≡ received p op
by_phase quarantine op = refl
by_phase active op = refl
by_phase failed op = refl
by_phase closed op = refl

module _ {Frame : Type 0} (finish : RequestTable → Frame) (parse : Frame → Option RequestTable)
    (reads : (t : RequestTable) → parse (finish t) ≡ some t) where
  -- For builders and readers of frames such that a frame built from a table is read as that table:
  -- a request that a client encodes for Acquire, Renew or Release is answered NOT_READY in the
  -- quarantine, and otherwise dispatched as the operation that the client means, when the queue
  -- takes it.
  pub request_round_trip :
      (s : Server) (kind : OperationKind) (request_id key : ℕ) (id : LeaseId) (ttl_ms : ℕ)
      → process_request parse s true
          (finish (encode_request (new_request kind request_id key id ttl_ms)))
        ≡ received s.phase (meant kind request_id key id ttl_ms)
  unfolding process_request process_table
  request_round_trip s kind request_id key id ttl_ms =
      rw (reads (encode_request (new_request kind request_id key id ttl_ms)), process_request)
        (rw (decoded kind request_id key id ttl_ms, process_table)
          (by_phase s.phase (meant kind request_id key id ttl_ms)))

-- What the server answers: a status and an operation of the protocol. An answer to Release has no time to
-- live, and one to GetTTL is OK.
pub record Answerable (r : Response) : Type 0 where
  pub status : r.status ≤ LeaseStatus.key_limit_reached
  pub least : ClientOperation.acquire ≤ r.operation
  pub most : r.operation ≤ ClientOperation.get_ttl
  pub no_ttl : r.operation ≡ ClientOperation.release → r.ttl_ms ≡ 0
  pub fine : r.operation ≡ ClientOperation.get_ttl → r.status ≡ LeaseStatus.ok

abbrev Encoded : Response → Type 0
Encoded r = (t : ResponseTable) × (encode_response r ≡ some t) × (decode_table t ≡ some r)

abbrev response : ℕ → ℕ → ℕ → ℕ → Response
response request_id operation status ttl_ms = record {
  request_id = request_id;
  operation = operation;
  status = status;
  ttl_ms = ttl_ms;
}

abbrev bare : ℕ → ℕ → ResponseTable
bare request_id result = record {
  request_id = request_id;
  result = result;
  acquire = none;
  renew = none;
  release = none;
  get_ttl = none;
}

in_range :
    (status : ℕ)
    → status ≤ LeaseStatus.key_limit_reached
    → (ltb LeaseStatus.key_limit_reached status ≡ false)
      × (leb status LeaseStatus.key_limit_reached ≡ true)
in_range status le = (ground arith, ground arith)

module _ (request_id status ttl_ms : ℕ) (le : status ≤ LeaseStatus.key_limit_reached) where
  Encoded-acquire : Encoded (response request_id ClientOperation.acquire status ttl_ms)
  unfolding encode_response decode_table
  Encoded-acquire = (
    record (bare request_id ClientOperation.acquire) { acquire = some (status, ttl_ms) },
    rw ((in_range status le).0, encode_response) refl,
    rw ((in_range status le).1, decode_table) refl,
  )

  Encoded-renew : Encoded (response request_id ClientOperation.renew status ttl_ms)
  unfolding encode_response decode_table
  Encoded-renew = (
    record (bare request_id ClientOperation.renew) { renew = some (status, ttl_ms) },
    rw ((in_range status le).0, encode_response) refl,
    rw ((in_range status le).1, decode_table) refl,
  )

  Encoded-release : Encoded (response request_id ClientOperation.release status 0)
  unfolding encode_response decode_table
  Encoded-release = (
    record (bare request_id ClientOperation.release) { release = some status },
    rw ((in_range status le).0, encode_response) refl,
    rw ((in_range status le).1, decode_table) refl,
  )

Encoded-get_ttl :
    (request_id ttl_ms : ℕ)
    → Encoded (response request_id ClientOperation.get_ttl LeaseStatus.ok ttl_ms)
unfolding encode_response decode_table
Encoded-get_ttl request_id ttl_ms =
    (record (bare request_id ClientOperation.get_ttl) { get_ttl = some ttl_ms }, refl, refl)

one_of_four : (o : ℕ) → 1 ≤ o → o ≤ 4 → ((o ≡ 1) ⊎ (o ≡ 2)) ⊎ ((o ≡ 3) ⊎ (o ≡ 4))
one_of_four o low high = elim (Bool-cases (leb o 2)) [
  | inl small ↦
      inl (elim (Bool-cases (leb o 1)) [ inl a ↦ inl (ground arith) | inr b ↦ inr (ground arith) ])
  | inr big ↦
      inr (elim (Bool-cases (leb o 3)) [ inl a ↦ inl (ground arith) | inr b ↦ inr (ground arith) ])
]

Encoded-fields : (q o s t : ℕ) → Answerable (response q o s t) → Encoded (response q o s t)
Encoded-fields q o s t v = elim (one_of_four o v.least v.most) [
  | inl (inl e) ↦ rw e (Encoded-acquire q s t v.status)
  | inl (inr e) ↦ rw e (Encoded-renew q s t v.status)
  | inr (inl e) ↦ rw (e, v.no_ttl e) (Encoded-release q s t v.status)
  | inr (inr e) ↦ rw (e, v.fine e) (Encoded-get_ttl q t)
]

module _ {Frame : Type 0} (finish : ResponseTable → Frame) (parse : Frame → Option ResponseTable)
    (reads : (t : ResponseTable) → parse (finish t) ≡ some t) where
  -- For builders and readers of frames such that a frame built from a table is read as that table:
  -- a response with a status and an operation of the protocol, without a time to live for Release
  -- and OK for GetTTL, is encoded without an error and decoded as the same response.
  pub response_round_trip :
      (r : Response)
      → Answerable r
      → (t : ResponseTable) × (encode_response r ≡ some t)
        × (decode_response parse (finish t) ≡ some r)
  unfolding decode_response
  response_round_trip r v =
      let (t, e, d) = Encoded-fields r.request_id r.operation r.status r.ttl_ms v in
      (t, e, rw (reads t, decode_response) d)
