-- ===== src/Wire/Answers.antt =====
-- The answers of server/state.go reach the client as they are.
use red_lease.Prelude.{ℕ, ◌≤◌, ◌<◌, ◌≡◌, refl, Option, some, arith}
use red_lease.Protocol.{Response}
use red_lease.Protocol.LeaseStatus
use red_lease.Server.State.{
  Server, Operation, OperationKind, acquire_kind, renew_kind, release_kind, acquire_response,
  renew_response, release_response, run_operation,
}
use red_lease.Server.State.Inv.{ServerInv}
use red_lease.Server.State.Steps.{owned, busy, nothing, granted}
use red_lease.Server.State.Acquire.{Acquired, refused, accepted, limited, acquire-Acquired}
use red_lease.Server.State.Renew.{Renewed, stale, renewed, renew-Renewed}
use red_lease.Server.State.Release.{release-Released}
use red_lease.Wire.{ResponseTable, encode_response, decode_response}
use red_lease.Wire.RoundTrip.{Answerable, response_round_trip}

-- An answer that can be encoded, to the request that was asked.
abbrev Answer : Operation → Response → Type 0
Answer op r = Answerable r × (r.request_id ≡ op.request_id)

of_acquire :
    (op : Operation) (status ttl_ms : ℕ)
    → status ≤ LeaseStatus.key_limit_reached
    → Answer op (acquire_response op.request_id status ttl_ms)
of_acquire op status ttl_ms le = (
  record {
    status = le;
    least = omega arith;
    most = omega arith;
    no_ttl = λ e. absurd (omega arith);
    fine = λ e. absurd (omega arith);
  },
  refl,
)

of_renew :
    (op : Operation) (status ttl_ms : ℕ)
    → status ≤ LeaseStatus.key_limit_reached
    → Answer op (renew_response op.request_id status ttl_ms)
of_renew op status ttl_ms le = (
  record {
    status = le;
    least = omega arith;
    most = omega arith;
    no_ttl = λ e. absurd (omega arith);
    fine = λ e. absurd (omega arith);
  },
  refl,
)

of_release : (op : Operation) → Answer op (release_response op.request_id LeaseStatus.ok)
of_release op = (
  record {
    status = omega arith;
    least = omega arith;
    most = omega arith;
    no_ttl = λ e. refl;
    fine = λ e. refl;
  },
  refl,
)

module _ (s : Server) (i : ℕ) (op : Operation) (now : ℕ) where
  Acquired-Answer : (r : Response) (t : Server) → Acquired s i op now r t → Answer op r
  Acquired-Answer r t (refused (owned e see own a eq)) = rw a (of_acquire op _ _ (omega arith))
  Acquired-Answer r t (refused (busy e see own a eq)) = rw a (of_acquire op _ _ (omega arith))
  Acquired-Answer r t (accepted (nothing see z a turn)) = rw a (of_acquire op _ _ (omega arith))
  Acquired-Answer r t (accepted (granted see z a turn)) = rw a (of_acquire op _ _ (omega arith))
  Acquired-Answer r t (limited see z a turn l all) = rw a (of_acquire op _ _ (omega arith))

  Renewed-Answer : (r : Response) (t : Server) → Renewed s i op now r t → Answer op r
  Renewed-Answer r t (stale other a turn) = rw a (of_renew op _ _ (omega arith))
  Renewed-Answer r t (renewed e see own a turn) = rw a (of_renew op _ _ (omega arith))

  served-Answer :
      (kind : OperationKind)
      → ServerInv s
      → i < s.config.shard_count
      → (r : Response) × (t : Server) × (run_operation kind s i op now ≡ some (r, t)) × Answer op r
  unfolding run_operation
  served-Answer acquire_kind v hi =
      let (r, t, ran, x) = acquire-Acquired s i op now v hi in (r, t, ran, Acquired-Answer r t x)
  served-Answer renew_kind v hi =
      let (r, t, ran, x) = renew-Renewed s i op now v hi in (r, t, ran, Renewed-Answer r t x)
  served-Answer release_kind v hi =
      let (t, ran, x) = release-Released s i op now v hi in
      (release_response op.request_id LeaseStatus.ok, t, ran, of_release op)

  module _ {Frame : Type 0} (finish : ResponseTable → Frame) (parse : Frame → Option ResponseTable)
      (reads : (t : ResponseTable) → parse (finish t) ≡ some t) where
    -- For builders and readers of frames such that a frame built from a table is read as that
    -- table: on a server with the invariant and a shard in range every operation has an answer,
    -- which is encoded without an error, is decoded by the client as the same response, and names
    -- the request that was asked.
    pub answers_arrive :
        ServerInv s
        → i < s.config.shard_count
        → (r : Response) × (t : Server) × (u : ResponseTable) × (run_operation op.kind s i op now
            ≡ some (r, t))
          × (encode_response r ≡ some u)
          × (decode_response parse (finish u) ≡ some r)
          × (r.request_id ≡ op.request_id)
    answers_arrive v hi =
        let (r, t, ran, (fit, same)) = served-Answer op.kind v hi in
        let (u, e, d) = response_round_trip finish parse reads r fit in (r, t, u, ran, e, d, same)
