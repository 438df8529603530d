-- ===== src/Wire.antt =====
-- What goes over a connection: encodeRequest of client/connection_generation.go, processRequest of
-- server/connection.go, encodeResponse of server/response.go and DecodeResponse of
-- internal/transport/client_codec.go. The generated builders and readers of frames are parameters: a
-- frame is built from a table, and read as a table or, when the reader panics, not at all. A table has the
-- fields of the schema; a field that was not added is `none`.
pub mod RoundTrip
pub mod Process
pub mod Answers
use red_lease.Prelude.{
  ℕ, zero, suc, ◌≤◌, ◌≡◌, Bool, true, false, ◌&&◌, ◌||◌, Option, none, some, ltb, leb, ◌==◌,
  if◌then◌else◌,
}
use red_lease.Protocol.{Response}
use red_lease.Protocol.LeaseStatus
use red_lease.Protocol.ClientOperation
use red_lease.Server.Shard.{LeaseId}
use red_lease.Server.State.{
  Server, Phase, quarantine, Operation, OperationKind, acquire_kind, renew_kind, release_kind,
  acquire_response, renew_response, release_response,
}

-- The struct of Acquire and Renew, and that of Release.
pub record LeaseBody : Type 0 where
  pub key : ℕ
  pub client_id : ℕ
  pub boot_id : ℕ
  pub lease_seq : ℕ
  pub requested_ttl_ms : ℕ

pub record ReleaseBody : Type 0 where
  pub key : ℕ
  pub client_id : ℕ
  pub boot_id : ℕ
  pub lease_seq : ℕ

pub record RequestTable : Type 0 where
  pub request_id : ℕ
  pub operation : ℕ
  pub acquire : Option LeaseBody
  pub renew : Option LeaseBody
  pub release : Option ReleaseBody

-- The structs of Acquire and Renew hold a status and a time to live.
pub record ResponseTable : Type 0 where
  pub request_id : ℕ
  pub result : ℕ
  pub acquire : Option (ℕ × ℕ)
  pub renew : Option (ℕ × ℕ)
  pub release : Option ℕ
  pub get_ttl : Option ℕ

-- outboundConnectionRequest
pub record OutboundRequest : Type 0 where
  pub request_id : ℕ
  pub key : ℕ
  pub sequence : ℕ
  pub ttl_ms : ℕ
  pub client_id : ℕ
  pub boot_id : ℕ
  pub operation : ℕ

abbrev pub lease_body : OutboundRequest → LeaseBody
lease_body r = record {
  key = r.key;
  client_id = r.client_id;
  boot_id = r.boot_id;
  lease_seq = r.sequence;
  requested_ttl_ms = r.ttl_ms;
}

unfoldable pub encode_request : OutboundRequest → RequestTable
encode_request r =
    let bare : RequestTable = record {
      request_id = r.request_id;
      operation = r.operation;
      acquire = none;
      renew = none;
      release = none;
    } in
    if r.operation == ClientOperation.acquire
    then record bare { acquire = some (lease_body r) }
    else if r.operation == ClientOperation.renew
    then record bare { renew = some (lease_body r) }
    else if r.operation == ClientOperation.release
    then record bare {
      release = some (record {
        key = r.key;
        client_id = r.client_id;
        boot_id = r.boot_id;
        lease_seq = r.sequence;
      });
    }
    else bare

-- newAcquireRequest, newRenewRequest and newReleaseRequest of the client.
unfoldable pub new_request : OperationKind → ℕ → ℕ → LeaseId → ℕ → OutboundRequest
new_request kind request_id key id ttl_ms = record {
  request_id = request_id;
  key = key;
  sequence = id.lease_seq;
  ttl_ms = elim kind [ acquire_kind ↦ ttl_ms | renew_kind ↦ ttl_ms | release_kind ↦ 0 ];
  client_id = id.client_id;
  boot_id = id.boot_id;
  operation = elim kind [
    | acquire_kind ↦ ClientOperation.acquire
    | renew_kind ↦ ClientOperation.renew
    | release_kind ↦ ClientOperation.release
  ];
}

abbrev pub lease_operation : OperationKind → ℕ → LeaseBody → Operation
lease_operation kind request_id b = record {
  request_id = request_id;
  kind = kind;
  key = b.key;
  lease_id = record { client_id = b.client_id; boot_id = b.boot_id; lease_seq = b.lease_seq };
  requested_ttl_ms = b.requested_ttl_ms;
}

unfoldable pub status_response : Operation → ℕ → Response
status_response op status = elim op.kind [
  | acquire_kind ↦ acquire_response op.request_id status 0
  | renew_kind ↦ renew_response op.request_id status 0
  | release_kind ↦ release_response op.request_id status
]

-- What the server makes of a request: an error that ends the connection, an answer, or an operation for
-- its shard. `canceled` is the end of the connection's context while a queue is full.
pub data Handled : Type 0 where
  malformed canceled : Handled
  replied : Response → Handled
  dispatched : Operation → Handled

pub data Decoded : Type 0 where
  bad : Decoded
  asks_ttl : Decoded
  asks : Operation → Decoded

pub decode_body : OperationKind → ℕ → Option LeaseBody → Decoded
decode_body kind request_id none = bad
decode_body kind request_id (some b) = asks (lease_operation kind request_id b)

pub decode_release : ℕ → Option ReleaseBody → Decoded
decode_release request_id none = bad
decode_release request_id (some b) = asks (
    lease_operation release_kind request_id (record {
      key = b.key;
      client_id = b.client_id;
      boot_id = b.boot_id;
      lease_seq = b.lease_seq;
      requested_ttl_ms = 0;
    }))

unfoldable pub decode_request : RequestTable → Decoded
unfolding decode_body decode_release
decode_request t =
    if t.operation == ClientOperation.acquire
    then decode_body acquire_kind t.request_id t.acquire
    else if t.operation == ClientOperation.renew
    then decode_body renew_kind t.request_id t.renew
    else if t.operation == ClientOperation.release
    then decode_release t.request_id t.release
    else if t.operation == ClientOperation.get_ttl
    then asks_ttl
    else bad

abbrev pub if_queued : Bool → Handled → Handled
if_queued true h = h
if_queued false h = canceled

-- `queued` says whether the queue took the response or the operation.
pub process_table : Server → Bool → RequestTable → Handled
unfolding decode_request status_response
process_table s queued t = elim (decode_request t) [
  | bad ↦ malformed
  | asks_ttl ↦ if_queued queued (
      replied (record {
        request_id = t.request_id;
        operation = ClientOperation.get_ttl;
        status = LeaseStatus.ok;
        ttl_ms = s.config.max_ttl;
      }))
  | asks op ↦ if_queued queued (elim s.phase [
    | quarantine ↦ replied (status_response op LeaseStatus.not_ready)
    | _ ↦ dispatched op
  ])
]

unfoldable pub process_request :
    {Frame : Type 0} → (Frame → Option RequestTable) → Server → Bool → Frame → Handled
unfolding process_table
process_request parse s queued frame = elim (parse frame) [
  | none ↦ malformed
  | some t ↦ process_table s queued t
]

-- `none` is the error.
unfoldable pub encode_response : Response → Option ResponseTable
encode_response r =
    let bare : ResponseTable = record {
      request_id = r.request_id;
      result = r.operation;
      acquire = none;
      renew = none;
      release = none;
      get_ttl = none;
    } in
    if ltb LeaseStatus.key_limit_reached r.status
      || (ltb r.operation ClientOperation.acquire || ltb ClientOperation.get_ttl r.operation)
    then none
    else some (
        if r.operation == ClientOperation.acquire
        then record bare { acquire = some (r.status, r.ttl_ms) }
        else if r.operation == ClientOperation.renew
        then record bare { renew = some (r.status, r.ttl_ms) }
        else if r.operation == ClientOperation.release
        then record bare { release = some r.status }
        else record bare { get_ttl = some r.ttl_ms })

-- The response of the fields that were found, if its status is one.
pub checked : ℕ → ℕ → Option (ℕ × ℕ) → Option Response
checked request_id operation none = none
checked request_id operation (some (status, ttl_ms)) =
    if leb status LeaseStatus.key_limit_reached
    then some (record {
      request_id = request_id;
      operation = operation;
      status = status;
      ttl_ms = ttl_ms;
    })
    else none

abbrev pub with_no_ttl : Option ℕ → Option (ℕ × ℕ)
with_no_ttl none = none
with_no_ttl (some status) = some (status, 0)

abbrev pub with_ok : Option ℕ → Option (ℕ × ℕ)
with_ok none = none
with_ok (some ttl_ms) = some (LeaseStatus.ok, ttl_ms)

-- `none` is the error. ServerResult has the numbers of ClientOperation.
unfoldable pub decode_table : ResponseTable → Option Response
unfolding checked
decode_table t =
    if t.result == ClientOperation.acquire
    then checked t.request_id ClientOperation.acquire t.acquire
    else if t.result == ClientOperation.renew
    then checked t.request_id ClientOperation.renew t.renew
    else if t.result == ClientOperation.release
    then checked t.request_id ClientOperation.release (with_no_ttl t.release)
    else if t.result == ClientOperation.get_ttl
    then checked t.request_id ClientOperation.get_ttl (with_ok t.get_ttl)
    else none

unfoldable pub decode_response :
    {Frame : Type 0} → (Frame → Option ResponseTable) → Frame → Option Response
unfolding decode_table
decode_response parse frame = elim (parse frame) [ none ↦ none | some t ↦ decode_table t ]
