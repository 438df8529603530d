-- ===== src/Tests/Wires.antt =====
-- Frames that are their tables.
use red_lease.Prelude.{◌≡◌, refl, some, true, arith}
use red_lease.Protocol.{Response}
use red_lease.Protocol.LeaseStatus
use red_lease.Server.State.{
  Server, Operation, run_operation, acquire_kind, release_kind, acquire_response,
}
use red_lease.Server.Lifecycle.{empty_server}
use red_lease.Wire.{
  RequestTable, ResponseTable, encode_request, new_request, process_request, encode_response,
  decode_response,
}
use red_lease.Wire.RoundTrip.{meant, received, Answerable, request_round_trip}
use red_lease.Wire.Answers.{answers_arrive}
use red_lease.Wire.Process.{Withheld, process_request-Withheld}
use red_lease.Tests.Servers.{small, fresh, fresh-Inv, alice}

request_round_trip_example :
    process_request
      (λ (t : RequestTable). some t)
      fresh
      true
      (encode_request (new_request release_kind 7 5 alice 3_000))
    ≡ received fresh.phase (meant release_kind 7 5 alice 3_000)
request_round_trip_example =
    request_round_trip {Frame = RequestTable} (λ t. t) (λ t. some t) (λ t. refl) fresh release_kind
      7 5 alice 3_000

abbrev answer : Response
answer = acquire_response 7 LeaseStatus.busy 0

answer-Answerable : Answerable answer
answer-Answerable = record {
  status = omega arith;
  least = omega arith;
  most = omega arith;
  no_ttl = λ e. refl;
  fine = λ e. absurd (omega arith);
}

process_request-Withheld_example : Withheld (empty_server small) (
    process_request
      (λ (t : RequestTable). some t)
      (empty_server small)
      true
      (encode_request (new_request acquire_kind 7 5 alice 3_000)))
process_request-Withheld_example =
    process_request-Withheld (λ (t : RequestTable). some t) (empty_server small) true
      (encode_request (new_request acquire_kind 7 5 alice 3_000)) refl

-- A Release of a lease that the server does not have.
abbrev unknown : Operation
unknown = record {
  request_id = 7;
  kind = release_kind;
  key = 5;
  lease_id = alice;
  requested_ttl_ms = 0;
}

answers_arrive_example :
    (r : Response) × (t : Server) × (u : ResponseTable) × (run_operation release_kind fresh 3
        unknown 1_000
      ≡ some (r, t))
    × (encode_response r ≡ some u)
    × (decode_response (λ (w : ResponseTable). some w) u ≡ some r)
    × (r.request_id ≡ 7)
answers_arrive_example =
    answers_arrive fresh 3 unknown 1_000 {Frame = ResponseTable} (λ w. w) (λ w. some w) (λ w. refl)
      fresh-Inv (omega arith)
