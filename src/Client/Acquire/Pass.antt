-- ===== src/Client/Acquire/Pass.antt =====
-- One pass of the loop of Acquire, and the loop.
use red_lease.Prelude.{
  ℕ, ◌+◌, ◌≤◌, ◌≡◌, refl, ◌∙◌, true, List, [], ◌∷◌, Option, none, some, length, ltb, ltb-false,
  ◌==◌, arith, if◌then◌else◌, Bool-cases, inl, inr,
}
use red_lease.Protocol.{Response}
use red_lease.Protocol.LeaseStatus
use red_lease.Protocol.ClientOperation
use red_lease.Client.Quorum.{candidate_valid_until, is_successful_acquire, best_acquire_quorum}
use red_lease.Client.Lease.{Lease, mark_confirmed}
use red_lease.Client.Collect.{
  failed, answered, Clock, Wait, response_received, caller_canceled, lifecycle_canceled, Collected,
  Progress, collecting, decided, confirmed,
}
use red_lease.Client.Collect.Known.{Heard, here, Backed, entered-Known}
use red_lease.Client.Collect.Sound.{
  Read, first, Fresh, Fresh-refl, Fresh-trans, mark-Fresh, Sound, Passed, Part, Ended,
  hopeless-Passed, noted-Sound, decision-Passed, rest-Part,
}
use red_lease.Client.Acquire.{enter_success, acquire_answered, acquire_pass, acquire_loop}

-- What a candidate of Acquire rests on.
abbrev pub AcquireSupport : ℕ → List Wait → ℕ → ℕ → Type 0
AcquireSupport start all = Backed ClientOperation.acquire is_successful_acquire start all

module _ (quorum_size start n : ℕ) (l : Lease) (all : List Wait) where
  abbrev Support : ℕ → ℕ → Type 0
  Support = AcquireSupport start all

  abbrev AcquireSound : Collected → Type 0
  AcquireSound = Sound quorum_size n Support l all

  abbrev AcquirePassed : ℕ → Progress → Type 0
  AcquirePassed = Passed quorum_size n Support l all

  entered-Sound :
      (s : Collected) (r : ℕ) (response : Response) (clock : Clock)
      → AcquireSound s
      → Heard r response all
      → response.operation ≡ ClientOperation.acquire
      → is_successful_acquire response.status ≡ true
      → AcquireSound (enter_success start s r response clock)
  unfolding enter_success
  entered-Sound s r response clock v heard op good =
      let candidate = candidate_valid_until start response.ttl_ms in
      let marked : Fresh s.lease (enter_success start s r response clock).lease =
        marked_lease candidate in
      record {
        known =
            entered-Known Support n s (enter_success start s r response clock) r candidate v.known
              (record {
                response = response;
                heard = heard;
                asked = op;
                granted = good;
                trusted = refl;
              })
              refl refl (marked.count ∙ v.known.size);
        lease = Fresh-trans v.lease marked;
        limit = v.limit;
      }
    where
      marked_lease :
          (candidate : ℕ)
          → Fresh s.lease (
              if ltb clock.now candidate
              then mark_confirmed s.lease r candidate clock.marked
              else s.lease)
      marked_lease candidate = elim (Bool-cases (ltb clock.now candidate)) [
        | inl e ↦ rw e (mark-Fresh s.lease r candidate clock.marked)
        | inr e ↦ rw e (Fresh-refl s.lease)
      ]

  answered-Passed :
      (s : Collected) (r : ℕ) (response : Response) (clock : Clock)
      → AcquireSound s
      → Heard r response all
      → Read clock all
      → AcquirePassed s.received (acquire_answered quorum_size start s r response clock)
  unfolding acquire_answered enter_success
  answered-Passed s r response clock v heard read =
      elim (Bool-cases (response.operation == ClientOperation.acquire)) [
        | inr other ↦
            rw (other, acquire_answered)
              (hopeless-Passed quorum_size n Support l all _ clock
                (noted-Sound quorum_size n Support l all s _ v refl refl refl v.limit))
        | inl op ↦ elim (Bool-cases (is_successful_acquire response.status)) [
          | inl good ↦
              rw (op, good, acquire_answered)
                (decision-Passed quorum_size n Support l all
                  (enter_success start s r response clock) clock
                  (best_acquire_quorum (enter_success start s r response clock).candidates
                    (enter_success start s r response clock).successful quorum_size)
                  (entered-Sound s r response clock v heard (ground arith) good) read refl)
          | inr bad ↦ elim (Bool-cases (response.status == LeaseStatus.key_limit_reached)) [
            | inl full ↦
                rw (op, bad, full, acquire_answered)
                  (hopeless-Passed quorum_size n Support l all _ clock (
                    noted-Sound quorum_size n Support l all s _ v refl refl refl (λ e. record {
                      replica = r;
                      response = response;
                      heard = heard;
                      limited = ground arith;
                    })))
            | inr lost ↦
                rw (op, bad, lost, acquire_answered)
                  (hopeless-Passed quorum_size n Support l all s clock v)
          ]
        ]
      ]

  pass-Passed :
      (s : Collected) (w : Wait) (ws : List Wait)
      → Part quorum_size n Support l all (w ∷ ws)
      → AcquireSound s
      → AcquirePassed (s.received + 1) (acquire_pass quorum_size start s w)
  unfolding acquire_pass
  pass-Passed s (response_received r (failed e) clock) ws p v =
      hopeless-Passed quorum_size n Support l all _ clock
        (noted-Sound quorum_size n Support l all s _ v refl refl refl v.limit)
  pass-Passed s (response_received r (answered response) clock) ws p v =
      answered-Passed _ r response clock
        (noted-Sound quorum_size n Support l all s _ v refl refl refl v.limit)
        (p.heard r response here) (p.read clock first)
  pass-Passed s (caller_canceled e) ws p v =
      noted-Sound quorum_size n Support l all s _ v refl refl refl v.limit
  pass-Passed s lifecycle_canceled ws p v =
      noted-Sound quorum_size n Support l all s _ v refl refl refl v.limit

  abbrev pub LoopEnds : Option (Collected × Option ℕ) → Type 0
  LoopEnds result =
      (t : Collected) × (o : Option ℕ) × (result ≡ some (t, o))
      × Ended quorum_size n Support l all (t, o)

  -- The loop ends when every replica that is outstanding has an event.
  pub loop-Ended :
      (s : Collected) (ws : List Wait)
      → Part quorum_size n Support l all ws
      → AcquireSound s
      → n ≤ s.received + length ws
      → LoopEnds (acquire_loop quorum_size start s ws)
  unfolding acquire_loop
  loop-Ended s [] p v le = (
    s,
    none,
    rw (ltb-false s.received s.lease.server_count (omega (arith, v.known.size))) refl,
    v,
  )
  loop-Ended s (w ∷ ws) p v le = elim (Bool-cases (ltb s.received s.lease.server_count)) [
    | inr over ↦ (s, none, rw (over, acquire_loop) refl, v)
    | inl on ↦
        rw (on, acquire_loop)
          (after (λ t x h. loop-Ended t ws (rest-Part quorum_size n Support l all w ws p) x h)
            (acquire_pass quorum_size start s w) (pass-Passed s w ws p v))
  ]
    where
      after :
          ((t : Collected)
            → AcquireSound t
            → n ≤ t.received + length ws
            → LoopEnds (acquire_loop quorum_size start t ws))
          → (q : Progress) → AcquirePassed (s.received + 1) q
          → LoopEnds (elim q [
            | collecting t ↦ acquire_loop quorum_size start t ws
            | decided t ↦ some (t, none)
            | confirmed t valid_until ↦ some (t, some valid_until)
          ])
      after more (collecting t) (x, e) = more t x (omega arith)
      after more (decided t) x = (t, none, refl, x)
      after more (confirmed t until) x = (t, some until, refl, x)
