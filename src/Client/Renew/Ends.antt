-- ===== src/Client/Renew/Ends.antt =====
-- Renew as a whole.
use red_lease.Prelude.{
  ℕ, ◌≤◌, ◌≡◌, refl, ap, ◌∙◌, max, true, List, [], ◌++◌, Option, none, some, length, arith,
  Bool-cases, Option-cases, inl, inr,
}
use red_lease.Client.Quorum.{size}
use red_lease.Client.Lease.{Lease, is_lease_active}
use red_lease.Client.Collect.{
  Failure, Collected, submit_failures, start_collecting, already_released, Command, send_renew,
  send_all,
}
use red_lease.Client.Collect.Known.{start-Known}
use red_lease.Client.Collect.Sound.{Fresh, Fresh-refl, Fresh-trans, Ended}
use red_lease.Client.Renew.{
  RenewResult, not_renewed, clear_failed, leave, RenewCall, renew_result, renew_sent, renew,
}
use red_lease.Client.Renew.Pass.{RenewSupport, loop-Ended}
use red_lease.Client.Renew.Parts.{
  Continued, Renewal, refused, kept, extended, clear_failed-Fresh, leave-Left, raised,
  raised-Continued, Continued-Fresh,
}

abbrev SentEnds : ℕ → RenewCall → Lease → RenewResult × Lease × List Command → Type 0
SentEnds quorum call lease (result, after, commands) =
    Renewal quorum call lease result after (send_all send_renew 0 lease.server_count ++ commands)

module _ (quorum : ℕ) (lease : Lease) (call : RenewCall) where
  abbrev begun : Lease
  begun = record lease { now = call.operation_start }

  begun-Continued : (m : Lease) → Fresh begun m → Continued lease m
  begun-Continued m f = record {
    sequence = f.sequence;
    key = f.key;
    count = f.count;
    active = f.active;
  }

  abbrev cleared : Lease
  cleared = clear_failed 0 call.submits begun

  failed-Ends :
      (cause : Option Failure) (received : ℕ) (m : Lease)
      → Fresh begun m
      → SentEnds quorum call lease (
        not_renewed cause,
        (leave received m call.healing_now).0,
        (leave received m call.healing_now).1,
      )
  failed-Ends cause received m f =
      let (g, left) = leave-Left received m call.healing_now in
      let h = Fresh-trans f g in kept cause _ _ (begun-Continued _ h) h.valid left

  result-Ends :
      (s : Collected) (o : Option ℕ)
      → Ended
          (size quorum)
          lease.server_count
          (RenewSupport call.operation_start call.waits)
          cleared
          call.waits
          (s, o)
      → SentEnds quorum call lease (renew_result call.healing_now (s, o))
  unfolding renew_result
  result-Ends s none v =
      failed-Ends s.first_failure s.received s.lease
        (Fresh-trans (clear_failed-Fresh 0 call.submits begun) v.lease)
  result-Ends s (some until) c =
      let (g, left) = leave-Left s.received (raised s.lease until) call.healing_now in
      let f = Fresh-trans (clear_failed-Fresh 0 call.submits begun) c.sound.lease in
      let (r, longest) = raised-Continued s.lease until in
      let h = Continued-Fresh r g in
      let old = begun-Continued s.lease f in
      extended _ _
        (record {
          same = record {
            sequence = h.sequence ∙ old.sequence;
            key = h.key ∙ old.key;
            count = h.count ∙ old.count;
            active = h.active ∙ old.active;
          };
          candidates = s.candidates;
          successful = s.successful;
          all = c.sound.known.all;
          marks = c.sound.known.marks;
          until = until;
          chosen = c.best;
          answers = c.sound.known.known;
          clock = c.clock;
          read = c.read;
          valid = c.valid;
          going = c.going;
          longest = g.valid ∙ (longest ∙ ap (λ v. max v until) f.valid);
        })
        left

  sent-Ends :
      length call.submits ≡ lease.server_count
      → lease.server_count ≤ length call.waits
      → (p : RenewResult × Lease × List Command) × (renew_sent (size quorum) call begun ≡ some p)
        × SentEnds quorum call lease p
  unfolding renew_sent start_collecting
  sent-Ends submitted enough = elim (Option-cases call.cancelled_after) [
    | inr (e, c) ↦ (
      _,
      rw (c, renew_sent) refl,
      failed-Ends (some e) (submit_failures call.submits).0 cleared
          (clear_failed-Fresh 0 call.submits begun),
    )
    | inl c ↦
        let (received, first) = submit_failures call.submits in
        let f = clear_failed-Fresh 0 call.submits begun in
        let (s, o, ran, x) =
          loop-Ended (size quorum) call.operation_start lease.server_count cleared call.waits
            (start_collecting cleared received first) call.waits
            (record { heard = λ r response h. h; read = λ clock h. h })
            (record {
              known = start-Known _ lease.server_count cleared received first f.count;
              lease = Fresh-refl cleared;
              limit = λ e. absurd (ground arith);
            })
            (omega arith) in
        (
          renew_result call.healing_now (s, o),
          rw (c, renew_sent) (rw (ran, renew_sent) refl),
          result-Ends s o x,
        )
  ]

  abbrev CallEnds : Type 0
  CallEnds =
      (result : RenewResult) × (after : Lease) × (commands : List Command) × (renew quorum lease
          call
        ≡ some (result, after, commands))
      × Renewal quorum call lease result after commands

  sent-CallEnds :
      (p : RenewResult × Lease × List Command)
      → is_lease_active lease ≡ true
      → renew_sent (size quorum) call begun ≡ some p
      → SentEnds quorum call lease p
      → CallEnds
  unfolding renew
  sent-CallEnds (result, after, commands) on ran x = (
    result,
    after,
    send_all send_renew 0 lease.server_count ++ commands,
    simp (on, ran, renew) refl,
    x,
  )

  -- A Renew that has a result of submit for every replica and at least as many events as replicas
  -- returns. It is refused for a released lease; or it fails and leaves the validity as it was; or
  -- it succeeds, and the validity is the later of the old one and the choice of a quorum among
  -- answers of this call, later than a clock that it read while not cancelled. It never sends a
  -- Release.
  pub renew-Renewal :
      length call.submits ≡ lease.server_count
      → lease.server_count ≤ length call.waits
      → (result : RenewResult) × (after : Lease) × (commands : List Command) × (renew quorum lease
            call
          ≡ some (result, after, commands))
        × Renewal quorum call lease result after commands
  unfolding renew
  renew-Renewal submitted enough = elim (Bool-cases (is_lease_active lease)) [
    | inr off ↦ (not_renewed (some already_released), lease, [], rw (off, renew) refl, refused off)
    | inl on ↦ let (p, ran, x) = sent-Ends submitted enough in sent-CallEnds p on ran x
  ]
