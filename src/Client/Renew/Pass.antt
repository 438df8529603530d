-- ===== src/Client/Renew/Pass.antt =====
-- One pass of the loop of Renew, and the loop.
use red_lease.Prelude.{
  ℕ, ◌+◌, ◌≤◌, ◌≡◌, refl, sym, ◌∙◌, Bool, true, List, [], ◌∷◌, Option, none, some, length, ltb,
  ltb-false, ◌==◌, arith, Bool-cases, inl, inr,
}
use red_lease.Protocol.{Response}
use red_lease.Protocol.LeaseStatus
use red_lease.Protocol.ClientOperation
use red_lease.Client.Quorum.{candidate_valid_until, best_acquire_quorum}
use red_lease.Client.Lease.{Lease, clear_confirmed}
use red_lease.Client.Collect.{
  failed, answered, Clock, Wait, response_received, caller_canceled, lifecycle_canceled, Collected,
  Progress, collecting, decided, confirmed,
}
use red_lease.Client.Collect.Known.{Heard, here, Backed, entered-Known, same-Known}
use red_lease.Client.Collect.Sound.{
  Read, first, Fresh, Fresh-refl, Fresh-trans, mark-Fresh, Sound, Passed, Part, Ended,
  hopeless-Passed, decision-Passed, rest-Part,
}
use red_lease.Client.Renew.{confirm_or_clear, enter_renewal, renew_answered, renew_pass, renew_loop}

-- A successful answer to Renew.
abbrev pub renew_success : ℕ → Bool
renew_success status = status == LeaseStatus.ok

-- What a candidate of Renew rests on.
abbrev pub RenewSupport : ℕ → List Wait → ℕ → ℕ → Type 0
RenewSupport start all = Backed ClientOperation.renew renew_success start all

pub clear-Fresh : (l : Lease) (r : ℕ) → Fresh l (clear_confirmed l r)
unfolding clear_confirmed
clear-Fresh l r = record {
  sequence = ground arith;
  key = ground arith;
  count = ground arith;
  active = ground arith;
  valid = ground arith;
}

pub confirm_or_clear-Fresh :
    (l : Lease) (r candidate : ℕ) (clock : Clock) → Fresh l (confirm_or_clear l r candidate clock)
unfolding confirm_or_clear
confirm_or_clear-Fresh l r candidate clock = elim (Bool-cases (ltb clock.now candidate)) [
  | inl e ↦ rw (e, confirm_or_clear) (mark-Fresh l r candidate clock.marked)
  | inr e ↦ rw (e, confirm_or_clear) (clear-Fresh l r)
]

module _ (quorum_size start n : ℕ) (l : Lease) (all : List Wait) where
  abbrev Support : ℕ → ℕ → Type 0
  Support = RenewSupport start all

  abbrev RenewSound : Collected → Type 0
  RenewSound = Sound quorum_size n Support l all

  abbrev RenewPassed : ℕ → Progress → Type 0
  RenewPassed = Passed quorum_size n Support l all

  -- Only the lists, what is confirmed, and the limit count.
  kept-Sound :
      (s t : Collected)
      → RenewSound s
      → t.candidates ≡ s.candidates
      → t.successful ≡ s.successful
      → t.key_limit_seen ≡ s.key_limit_seen
      → Fresh s.lease t.lease
      → RenewSound t
  kept-Sound s t v cs bs e f = record {
    known = same-Known Support n s t v.known cs bs (f.count ∙ v.known.size);
    lease = Fresh-trans v.lease f;
    limit = λ h. v.limit (sym e ∙ h);
  }

  entered-Sound :
      (s : Collected) (r : ℕ) (response : Response) (clock : Clock)
      → RenewSound s
      → Heard r response all
      → response.operation ≡ ClientOperation.renew
      → renew_success response.status ≡ true
      → RenewSound (enter_renewal start s r response clock)
  unfolding enter_renewal
  entered-Sound s r response clock v heard op good =
      let candidate = candidate_valid_until start response.ttl_ms in
      let f = confirm_or_clear-Fresh s.lease r candidate clock in
      record {
        known =
            entered-Known Support n s (enter_renewal start s r response clock) r candidate v.known
              (record {
                response = response;
                heard = heard;
                asked = op;
                granted = good;
                trusted = refl;
              })
              refl refl (f.count ∙ v.known.size);
        lease = Fresh-trans v.lease f;
        limit = v.limit;
      }

  answered-Passed :
      (s : Collected) (r : ℕ) (response : Response) (clock : Clock)
      → RenewSound s
      → Heard r response all
      → Read clock all
      → RenewPassed s.received (renew_answered quorum_size start s r response clock)
  unfolding renew_answered enter_renewal
  answered-Passed s r response clock v heard read =
      elim (Bool-cases (response.operation == ClientOperation.renew)) [
        | inr other ↦
            rw (other, renew_answered)
              (hopeless-Passed quorum_size n Support l all _ clock
                (kept-Sound s _ v refl refl refl (clear-Fresh s.lease r)))
        | inl op ↦ elim (Bool-cases (response.status == LeaseStatus.ok)) [
          | inr bad ↦
              rw (op, bad, renew_answered)
                (hopeless-Passed quorum_size n Support l all _ clock
                  (kept-Sound s _ v refl refl refl (clear-Fresh s.lease r)))
          | inl good ↦
              rw (op, good, renew_answered)
                (decision-Passed quorum_size n Support l all
                  (enter_renewal start s r response clock) clock
                  (best_acquire_quorum (enter_renewal start s r response clock).candidates
                    (enter_renewal start s r response clock).successful quorum_size)
                  (entered-Sound s r response clock v heard (ground arith) good) read refl)
        ]
      ]

  pass-Passed :
      (s : Collected) (w : Wait) (ws : List Wait)
      → Part quorum_size n Support l all (w ∷ ws)
      → RenewSound s
      → RenewPassed (s.received + 1) (renew_pass quorum_size start s w)
  unfolding renew_pass
  pass-Passed s (response_received r (failed e) clock) ws p v =
      hopeless-Passed quorum_size n Support l all _ clock
        (kept-Sound s _ v refl refl refl (clear-Fresh s.lease r))
  pass-Passed s (response_received r (answered response) clock) ws p v =
      answered-Passed _ r response clock (kept-Sound s _ v refl refl refl (Fresh-refl s.lease))
        (p.heard r response here) (p.read clock first)
  pass-Passed s (caller_canceled e) ws p v = kept-Sound s _ v refl refl refl (Fresh-refl s.lease)
  pass-Passed s lifecycle_canceled ws p v = kept-Sound s _ v refl refl refl (Fresh-refl s.lease)

  abbrev pub LoopEnds : Option (Collected × Option ℕ) → Type 0
  LoopEnds result =
      (t : Collected) × (o : Option ℕ) × (result ≡ some (t, o))
      × Ended quorum_size n Support l all (t, o)

  -- The loop ends when every replica that is outstanding has an event.
  pub loop-Ended :
      (s : Collected) (ws : List Wait)
      → Part quorum_size n Support l all ws
      → RenewSound s
      → n ≤ s.received + length ws
      → LoopEnds (renew_loop quorum_size start s ws)
  unfolding renew_loop
  loop-Ended s [] p v le = (
    s,
    none,
    rw (ltb-false s.received s.lease.server_count (omega (arith, v.known.size))) refl,
    v,
  )
  loop-Ended s (w ∷ ws) p v le = elim (Bool-cases (ltb s.received s.lease.server_count)) [
    | inr over ↦ (s, none, rw (over, renew_loop) refl, v)
    | inl on ↦
        rw (on, renew_loop)
          (after (λ t x h. loop-Ended t ws (rest-Part quorum_size n Support l all w ws p) x h)
            (renew_pass quorum_size start s w) (pass-Passed s w ws p v))
  ]
    where
      after :
          ((t : Collected)
            → RenewSound t
            → n ≤ t.received + length ws
            → LoopEnds (renew_loop quorum_size start t ws))
          → (q : Progress) → RenewPassed (s.received + 1) q
          → LoopEnds (elim q [
            | collecting t ↦ renew_loop quorum_size start t ws
            | decided t ↦ some (t, none)
            | confirmed t valid_until ↦ some (t, some valid_until)
          ])
      after more (collecting t) (x, e) = more t x (omega arith)
      after more (decided t) x = (t, none, refl, x)
      after more (confirmed t until) x = (t, some until, refl, x)
