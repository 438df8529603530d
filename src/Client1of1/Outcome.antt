-- ===== src/Client1of1/Outcome.antt =====
-- How the calls of client1of1/lease.go end.
use red_lease.Prelude.{
  ℕ, ◌<◌, ◌≡◌, refl, max, Bool, true, false, ◌&&◌, Option, none, some, ltb, ltb→lt, ◌==◌,
  if◌then◌else◌, arith, Bool-cases, Option-cases, inl, inr,
}
use red_lease.Protocol.{Response}
use red_lease.Protocol.LeaseStatus
use red_lease.Protocol.ClientOperation
use red_lease.Client1of1.{
  Lease, lease_active, Failure, already_released, is_active, candidate_valid_until, Reply, failed,
  answered, Call, Accepted, is_success, accept_acquire_response, accept_renew_response,
  AcquireResult, acquired, not_acquired, conclude, acquire, renew_error, renew,
}

-- The answer of the server on which a validity rests: it came while the call was not cancelled, and
-- before the validity ended.
pub record Rests (operation : ℕ) (success : ℕ → Bool) (call : Call) (until : ℕ) : Type 0 where
  pub response : Response
  pub reply : call.reply ≡ answered response
  pub going : call.cancelled_after ≡ none
  pub asked : response.operation ≡ operation
  pub granted : success response.status ≡ true
  pub trusted : until ≡ candidate_valid_until call.start response.ttl_ms
  pub valid : call.now < until

pub data AcquireEnds (sequence key : ℕ) (call : Call) : AcquireResult → Type 0 where
  cancelled_early :
      (e : Failure)
      → call.cancelled_before ≡ some e
      → AcquireEnds sequence key call (not_acquired (some e) false)
  gave_up : (cause : Option Failure) → AcquireEnds sequence key call (not_acquired cause true)
  established :
      (l : Lease)
      → (l.sequence ≡ sequence) × (l.key ≡ key) × (is_active l ≡ true)
      → Rests ClientOperation.acquire is_success call l.valid_until
      → AcquireEnds sequence key call (acquired l)

module _ (sequence key : ℕ) (call : Call) where
  abbrev made : Lease
  made = record {
    sequence = sequence;
    key = key;
    now = call.start;
    lifecycle = lease_active;
    valid_until = 0;
  }

  accepted-Ends :
      (response : Response)
      → call.reply ≡ answered response
      → AcquireEnds sequence key call (conclude (accept_acquire_response made call response))
  unfolding accept_acquire_response conclude
  accepted-Ends response reply = elim (Option-cases call.cancelled_after) [
    | inr (e, c) ↦ simp (c, accept_acquire_response, conclude) (gave_up (some e))
    | inl c ↦ elim (Bool-cases (response.operation == ClientOperation.acquire)) [
      | inr other ↦ simp (c, other, accept_acquire_response, conclude) (gave_up _)
      | inl op ↦ elim (Bool-cases (is_success response.status)) [
        | inr bad ↦ elim (Bool-cases (response.status == LeaseStatus.key_limit_reached)) [
          | inl full ↦ simp (c, op, bad, full, accept_acquire_response, conclude) (gave_up _)
          | inr lost ↦ simp (c, op, bad, lost, accept_acquire_response, conclude) (gave_up _)
        ]
        | inl good ↦
            elim (Bool-cases (ltb call.now (candidate_valid_until call.start response.ttl_ms))) [
              | inr late ↦
                  simp (c, op, good, late, accept_acquire_response, conclude) (gave_up none)
              | inl valid ↦
                  simp (c, op, good, valid, accept_acquire_response, conclude)
                    (established _ (refl, refl, refl)
                      (record {
                        response = response;
                        reply = reply;
                        going = c;
                        asked = ground arith;
                        granted = good;
                        trusted = refl;
                        valid = ltb→lt _ _ valid;
                      }))
            ]
      ]
    ]
  ]

  replied-Ends :
      (reply : Reply)
      → call.reply ≡ reply
      → AcquireEnds sequence key call (elim reply [
        | failed e ↦ not_acquired (some e) true
        | answered response ↦ conclude (accept_acquire_response made call response)
      ])
  replied-Ends (failed e) same = gave_up (some e)
  replied-Ends (answered response) same = accepted-Ends response same

  -- Acquire with one server is cancelled before it sent anything, or gives up and queues a
  -- Release, or has a lease whose validity rests on a successful answer to this call that came
  -- before the validity ended and while the call was not cancelled.
  pub acquire-AcquireEnds : AcquireEnds sequence key call (acquire sequence key call)
  unfolding acquire
  acquire-AcquireEnds = elim (Option-cases call.cancelled_before) [
    | inr (e, c) ↦ simp (c, acquire) (cancelled_early e c)
    | inl c ↦ simp (c, acquire) (replied-Ends call.reply refl)
  ]

-- What a renewal leaves of the lease.
pub record Same (l t : Lease) : Type 0 where
  pub sequence : t.sequence ≡ l.sequence
  pub key : t.key ≡ l.key
  pub active : is_active t ≡ is_active l

pub data RenewEnds (l : Lease) (call : Call) : Option (Option Failure) → Lease → Type 0 where
  refused : is_active l ≡ false → RenewEnds l call (some (some already_released)) l
  kept :
      (cause : Option Failure) (t : Lease)
      → Same l t
      → t.valid_until ≡ l.valid_until
      → RenewEnds l call (some cause) t
  extended :
      (t : Lease) (until : ℕ)
      → Same l t
      → Rests ClientOperation.renew (λ status. status == LeaseStatus.ok) call until
      → t.valid_until ≡ max l.valid_until until
      → RenewEnds l call none t

abbrev Ending : Lease → Call → Option (Option Failure) × Lease → Type 0
Ending l call (error, t) = RenewEnds l call error t

module _ (l : Lease) (call : Call) where
  abbrev begun : Lease
  begun = record l { now = call.start }

  unchanged : Same l begun
  unchanged = record { sequence = refl; key = refl; active = refl }

  abbrev raised : ℕ → Lease
  raised until = if ltb l.valid_until until then record begun { valid_until = until } else begun

  abbrev concluded : Accepted → Option (Option Failure) × Lease
  concluded (outcome, after) = (renew_error outcome, after)

  accepted-Ending :
      (response : Response)
      → call.reply ≡ answered response
      → Ending l call (concluded (accept_renew_response begun call response))
  unfolding accept_renew_response renew_error
  accepted-Ending response reply =
      let until = candidate_valid_until call.start response.ttl_ms in
      elim (Option-cases call.cancelled_after) [
        | inr (e, c) ↦
            simp (c, accept_renew_response, renew_error) (kept (some e) begun unchanged refl)
        | inl c ↦ elim (Bool-cases (response.operation == ClientOperation.renew)) [
          | inr other ↦
              simp (c, other, accept_renew_response, renew_error) (kept _ begun unchanged refl)
          | inl op ↦ elim (Bool-cases (response.status == LeaseStatus.ok && ltb call.now until)) [
            | inr bad ↦
                simp (c, op, bad, accept_renew_response, renew_error)
                  (kept none begun unchanged refl)
            | inl good ↦
                simp (c, op, good, accept_renew_response, renew_error)
                  (extended (raised until) until
                    (record { sequence = ground arith; key = ground arith; active = ground arith })
                    (record {
                      response = response;
                      reply = reply;
                      going = c;
                      asked = ground arith;
                      granted = ground arith;
                      trusted = refl;
                      valid = ground arith;
                    })
                    (ground arith))
          ]
        ]
      ]

  reply-Ending :
      (reply : Reply)
      → call.reply ≡ reply
      → Ending l call (elim reply [
        | failed e ↦ (some (some e), begun)
        | answered response ↦ concluded (accept_renew_response begun call response)
      ])
  reply-Ending (failed e) same = kept (some e) begun unchanged refl
  reply-Ending (answered response) same = accepted-Ending response same

  -- Renew with one server is refused for a released lease, or fails and leaves the validity as it
  -- was, or succeeds with the later of the old validity and that of a successful answer to this
  -- call.
  pub renew-RenewEnds : RenewEnds l call (renew l call).0 (renew l call).1
  unfolding renew
  renew-RenewEnds = elim (Bool-cases (is_active l)) [
    | inr off ↦ rw (off, renew) (refused off)
    | inl on ↦ rw (on, renew) (reply-Ending call.reply refl)
  ]
