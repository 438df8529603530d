-- ===== src/Wire/Process.antt =====
-- processRequest of server/connection.go in the quarantine.
use red_lease.Prelude.{ℕ, ◌≡◌, refl, Bool, true, false, Option, none, some, arith}
use red_lease.Protocol.{Response}
use red_lease.Protocol.LeaseStatus
use red_lease.Protocol.ClientOperation
use red_lease.Server.State.{
  Server, Phase, quarantine, active, failed, closed, Operation, OperationKind, acquire_kind,
  renew_kind, release_kind,
}
use red_lease.Wire.{
  RequestTable, Handled, malformed, canceled, replied, dispatched, Decoded, bad, asks_ttl, asks,
  decode_request, if_queued, process_table, process_request, status_response,
}

-- Nothing is dispatched: the request is an error, the connection has ended, or the answer is the
-- configured maximum or NOT_READY.
pub data Withheld (s : Server) : Handled → Type 0 where
  in_error : Withheld s malformed
  at_end : Withheld s canceled
  told_ttl :
      (r : Response)
      → r.ttl_ms ≡ s.config.max_ttl
      → r.operation ≡ ClientOperation.get_ttl
      → Withheld s (replied r)
  told_wait :
      (r : Response) → r.status ≡ LeaseStatus.not_ready → r.ttl_ms ≡ 0 → Withheld s (replied r)

not_ready_kind :
    (kind : OperationKind) (op : Operation)
    → op.kind ≡ kind
    → ((status_response op LeaseStatus.not_ready).status ≡ LeaseStatus.not_ready)
      × ((status_response op LeaseStatus.not_ready).ttl_ms ≡ 0)
unfolding status_response
not_ready_kind acquire_kind op e = rw (e, status_response) (refl, refl)
not_ready_kind renew_kind op e = rw (e, status_response) (refl, refl)
not_ready_kind release_kind op e = rw (e, status_response) (refl, refl)

wait_answer :
    (s : Server) (op : Operation) → Withheld s (replied (status_response op LeaseStatus.not_ready))
wait_answer s op =
    let (status, ttl) = not_ready_kind op.kind op refl in
    told_wait (status_response op LeaseStatus.not_ready) status ttl

queued-Withheld :
    (s : Server) (queued : Bool) (h : Handled) → Withheld s h → Withheld s (if_queued queued h)
queued-Withheld s true h w = w
queued-Withheld s false h w = at_end

phase-Withheld :
    (s : Server) (op : Operation) (p : Phase)
    → p ≡ quarantine
    → Withheld s (elim p [
      | quarantine ↦ replied (status_response op LeaseStatus.not_ready)
      | _ ↦ dispatched op
    ])
phase-Withheld s op quarantine e = wait_answer s op
phase-Withheld s op active e = absurd (ground arith)
phase-Withheld s op failed e = absurd (ground arith)
phase-Withheld s op closed e = absurd (ground arith)

decoded-Withheld :
    (s : Server) (queued : Bool) (request_id : ℕ) (d : Decoded)
    → s.phase ≡ quarantine
    → Withheld s (elim d [
      | bad ↦ malformed
      | asks_ttl ↦ if_queued queued (
          replied (record {
            request_id = request_id;
            operation = ClientOperation.get_ttl;
            status = LeaseStatus.ok;
            ttl_ms = s.config.max_ttl;
          }))
      | asks op ↦ if_queued queued (elim s.phase [
        | quarantine ↦ replied (status_response op LeaseStatus.not_ready)
        | _ ↦ dispatched op
      ])
    ])
decoded-Withheld s queued request_id bad e = in_error
decoded-Withheld s queued request_id asks_ttl e = queued-Withheld s queued _ (told_ttl _ refl refl)
decoded-Withheld s queued request_id (asks op) e =
    queued-Withheld s queued _ (phase-Withheld s op s.phase e)

table-Withheld :
    (s : Server) (queued : Bool) (t : RequestTable)
    → s.phase ≡ quarantine
    → Withheld s (process_table s queued t)
unfolding process_table
table-Withheld s queued t e = decoded-Withheld s queued t.request_id (decode_request t) e

-- In the quarantine no frame, whatever a reader makes of it, leads to an operation: the result is
-- an error, the end of the connection, the configured maximum for GetTTL, or NOT_READY without a
-- time to live.
pub process_request-Withheld :
    {Frame : Type 0} (parse : Frame → Option RequestTable) (s : Server) (queued : Bool)
    (frame : Frame)
    → s.phase ≡ quarantine
    → Withheld s (process_request parse s queued frame)
unfolding process_request
process_request-Withheld parse s queued frame e = by_table (parse frame)
  where
    by_table :
        (o : Option RequestTable)
        → Withheld s (elim o [ none ↦ malformed | some t ↦ process_table s queued t ])
    by_table none = in_error
    by_table (some t) = table-Withheld s queued t e
