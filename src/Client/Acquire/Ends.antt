-- ===== src/Client/Acquire/Ends.antt =====
-- Acquire as a whole.
use red_lease.Prelude.{
  ℕ, ◌<◌, ◌≤◌, ◌≡◌, refl, ◌∙◌, Bool, true, false, not, ◌||◌, List, [], ◌∷◌, ◌++◌, Option, none,
  some, length, get_elem?, ltb, arith, Bool-cases, Option-cases, inl, inr,
}
use red_lease.Client.Quorum.{parameters, size, best_acquire_quorum, is_successful_acquire}
use red_lease.Protocol.ClientOperation
use red_lease.Client.Lease.{
  Lease, lease_active, new_lease, start_background_healing, healing_needed,
}
use red_lease.Client.Collect.{
  Failure, Clock, Collected, submit_failures, start_collecting, Command, send_acquire, send_release,
  abort, collect_rest, start_healing, send_all,
}
use red_lease.Client.Collect.Known.{Backed, start-Known}
use red_lease.Client.Acquire.{
  AcquireResult, acquired, not_acquired, give_up, hand_over, acquire_result, AcquireCall,
  acquire_sent, acquire,
}
use red_lease.Client.Collect.Sound.{Read, Limited, Fresh, Fresh-refl, Chosen, Ended}
use red_lease.Client.Acquire.Pass.{AcquireSupport, loop-Ended}

-- A quorum of the answers to this call is valid to the end of the lease, which was later than a clock
-- that the call read while it was not cancelled.
pub record Established (quorum : ℕ) (call : AcquireCall) (lease : Lease) : Type 0 where
  pub candidates : List ℕ
  pub successful : List Bool
  pub all : length candidates ≡ (parameters quorum).0
  pub marks : length successful ≡ (parameters quorum).0
  pub chosen : best_acquire_quorum candidates successful (size quorum) ≡ some lease.valid_until
  pub answers :
      (r candidate : ℕ)
      → get_elem? candidates r ≡ some candidate
      → get_elem? successful r ≡ some true
      → Backed ClientOperation.acquire is_successful_acquire call.operation_start call.waits r
          candidate
  pub clock : Clock
  pub read : Read clock call.waits
  pub valid : clock.now < lease.valid_until
  pub going : clock.cancelled ≡ none
  pub sequence : lease.sequence ≡ call.sequence
  pub key : lease.key ≡ call.key
  pub active : lease.lifecycle ≡ lease_active

abbrev requests : ℕ → List Command
requests quorum = send_all send_acquire 0 (parameters quorum).0

-- How a call ends: cancelled before it sent anything; without a lease, and with a Release to every
-- replica; or with a lease, and without a Release.
pub data Ends (quorum : ℕ) (call : AcquireCall) : AcquireResult → List Command → Type 0 where
  cancelled_early :
      (e : Failure)
      → call.cancelled_before ≡ some e
      → Ends quorum call (not_acquired (some e) false) []
  gave_up :
      (cause : Option Failure) (key_limit : Bool)
      → (key_limit ≡ true → Limited call.waits)
      → Ends quorum call
          (not_acquired cause key_limit)
          (requests quorum ++ (abort ∷ send_all send_release 0 (parameters quorum).0))
  left_rest :
      (lease : Lease)
      → Established quorum call lease
      → Ends quorum call (acquired lease) (requests quorum ++ (collect_rest ∷ []))
  healed :
      (lease : Lease)
      → Established quorum call lease
      → Ends quorum call (acquired lease) (requests quorum ++ (start_healing ∷ []))
  complete :
      (lease : Lease)
      → Established quorum call lease
      → Ends quorum call (acquired lease) (requests quorum ++ [])

abbrev SentEnds : ℕ → AcquireCall → AcquireResult × List Command → Type 0
SentEnds quorum call (result, commands) = Ends quorum call result (requests quorum ++ commands)

module _ (quorum : ℕ) (call : AcquireCall) where
  abbrev n : ℕ
  n = (parameters quorum).0

  abbrev made : Lease
  made = new_lease n call.sequence call.key call.ttl_ms call.operation_start

  established :
      (s : Collected) (until : ℕ) (lease : Lease)
      → Chosen
          (size quorum)
          n
          (AcquireSupport call.operation_start call.waits)
          made
          call.waits
          s
          until
      → Fresh (record (s.lease) { valid_until = until }) lease
      → Established quorum call lease
  unfolding new_lease
  established s until lease c f =
      let old = c.sound.lease in
      record {
        candidates = s.candidates;
        successful = s.successful;
        all = c.sound.known.all;
        marks = c.sound.known.marks;
        chosen = rw f.valid c.best;
        answers = c.sound.known.known;
        clock = c.clock;
        read = c.read;
        valid = rw f.valid c.valid;
        going = c.going;
        sequence = f.sequence ∙ old.sequence;
        key = f.key ∙ old.key;
        active = f.active ∙ old.active;
      }

  hand_over-Ends :
      (s : Collected) (until healing_now : ℕ)
      → Chosen
          (size quorum)
          n
          (AcquireSupport call.operation_start call.waits)
          made
          call.waits
          s
          until
      → SentEnds quorum call (hand_over s until healing_now)
  unfolding hand_over start_background_healing
  hand_over-Ends s until healing_now c =
      let lease : Lease = record (s.lease) { valid_until = until } in
      elim (Bool-cases (ltb s.received s.lease.server_count)) [
        | inl rest ↦
            rw (rest, hand_over) (left_rest lease (established s until lease c (Fresh-refl lease)))
        | inr all ↦ elim (Bool-cases (lease.healing || not (healing_needed lease healing_now))) [
          | inl well ↦
              rw (all, well, hand_over)
                (complete lease (established s until lease c (Fresh-refl lease)))
          | inr sick ↦
              rw (all, sick, hand_over)
                (healed (record lease { healing = true })
                  (established s until (record lease { healing = true }) c
                    (record {
                      sequence = refl;
                      key = refl;
                      count = refl;
                      active = refl;
                      valid = refl;
                    })))
        ]
      ]

  result-Ends :
      (now : ℕ) (s : Collected) (o : Option ℕ)
      → Ended
          (size quorum)
          n
          (AcquireSupport call.operation_start call.waits)
          made
          call.waits
          (s, o)
      → SentEnds quorum call (acquire_result now (s, o))
  unfolding acquire_result give_up
  result-Ends now s (some until) c = hand_over-Ends s until now c
  result-Ends now s none v = rw (v.known.size) (gave_up s.first_failure s.key_limit_seen v.limit)

  sent-Ends :
      length call.submits ≡ n
      → n ≤ length call.waits
      → (p : AcquireResult × List Command) × (acquire_sent (size quorum) call made ≡ some p)
        × SentEnds quorum call p
  unfolding acquire_sent start_collecting give_up new_lease
  sent-Ends submitted enough = elim (Option-cases call.cancelled_after) [
    | inr (e, c) ↦ (
      give_up n (some e) false,
      rw (c, acquire_sent),
      gave_up (some e) false (λ x. absurd (ground arith)),
    )
    | inl c ↦
        let (received, first) = submit_failures call.submits in
        let (s, o, ran, x) =
          loop-Ended (size quorum) call.operation_start n made call.waits
            (start_collecting made received first) call.waits
            (record { heard = λ r response h. h; read = λ clock h. h })
            (record {
              known = start-Known _ n made received first refl;
              lease = Fresh-refl made;
              limit = λ e. absurd (ground arith);
            })
            (omega arith) in
        (
          acquire_result call.healing_now (s, o),
          rw (c, acquire_sent) (rw (ran, acquire_sent)),
          result-Ends call.healing_now s o x,
        )
  ]

  abbrev CallEnds : Type 0
  CallEnds =
      (result : AcquireResult) × (commands : List Command) × (acquire quorum call
        ≡ some (result, commands))
      × Ends quorum call result commands

  sent-CallEnds :
      (p : AcquireResult × List Command)
      → call.cancelled_before ≡ none
      → acquire_sent (size quorum) call made ≡ some p
      → SentEnds quorum call p
      → CallEnds
  unfolding acquire
  sent-CallEnds (result, commands) c ran x =
      (result, requests quorum ++ commands, simp (c, ran, acquire) refl, x)

  -- An Acquire that has a result of submit for every replica and at least as many events as
  -- replicas returns. It was cancelled before it sent anything; or it gave up, after a request to
  -- every replica, with a Release to every replica, and reports the key limit only when a replica
  -- did; or it has the lease, sent no Release, and the end of its validity is the choice of a
  -- quorum among answers of this call, later than a clock that it read while not cancelled.
  pub acquire-Ends :
      length call.submits ≡ n
      → n ≤ length call.waits
      → (result : AcquireResult) × (commands : List Command) × (acquire quorum call
          ≡ some (result, commands))
        × Ends quorum call result commands
  unfolding acquire
  acquire-Ends submitted enough = elim (Option-cases call.cancelled_before) [
    | inr (e, c) ↦ (not_acquired (some e) false, [], rw (c, acquire) refl, cancelled_early e c)
    | inl c ↦ let (p, ran, x) = sent-Ends submitted enough in sent-CallEnds p c ran x
  ]
