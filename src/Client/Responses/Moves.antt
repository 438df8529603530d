-- ===== src/Client/Responses/Moves.antt =====
-- What the steps of client/replica_responses.go do to the results of a call.
use red_lease.Prelude.{
  ℕ, ◌+◌, ◌-◌, ◌≤◌, ◌<◌, ◌≡◌, ◌≢◌, ap, sym, ◌∙◌, subst, arith, true, false, List, ◌∷◌, ◌==◌,
  if◌then◌else◌, update, ℕ_discrete, Bool-cases, inl, inr, some, ◌⊎◌, dec_lt,
}
use red_lease.Client.Connection.{ReplicaResponse, ConnResult}
use red_lease.Client.Responses.{
  Responses, Replicas, no_wait, register, stop_timer, consume, receive, complete_at,
}
use red_lease.Client.Responses.Held.{one, arrived, arrived-append, active-clear, active-set, Held}

module _ {S : Type 0} (net : Replicas S) (n : ℕ) where
  -- The results that completing a request sends.
  abbrev sent : S → ℕ → ℕ → ConnResult → ℕ → ℕ → ℕ
  sent s j k result i h = arrived (net.complete s j k result).1 i h

  sent_self :
      (s : S) (j k : ℕ) (result : ConnResult) → sent s j k result j k ≡ one (net.is_pending s j k)
  sent_self s j k result = elim (Bool-cases (net.is_pending s j k)) [
    | inl p ↦ rw (net.sends_once s j k result, p) (ground arith)
    | inr p ↦ rw (net.sends_once s j k result, p) (ground arith)
  ]

  sent_other :
      (s : S) (j k : ℕ) (result : ConnResult) (i h : ℕ)
      → (i ≢ j) ⊎ (h ≢ k)
      → sent s j k result i h ≡ 0
  sent_other s j k result i h away = elim (Bool-cases (net.is_pending s j k)) [
    | inl p ↦ rw (net.sends_once s j k result, p) (ground arith)
    | inr p ↦ rw (net.sends_once s j k result, p) (ground arith)
  ]

  -- Whoever completes the request of a replica, its result is sent once.
  pub complete_at-Held :
      (j : ℕ) (result : ConnResult) (s : S) (r : Responses)
      → Held net n s r
      → (r.waits j).request_id ≢ 0
      → let t = complete_at net j (r.waits j).request_id result (s, r) in Held net n t.0 t.1
  unfolding complete_at
  complete_at-Held j result s r inv ne =
      let k = (r.waits j).request_id in
      let ds = (net.complete s j k result).1 in
      record {
        inside = inv.inside;
        each = λ i own. elim (ℕ_discrete i j) [
          | yes same ↦
              let gone = net.no_more s j k result in
              rw same (
                omega (
                  arith,
                  arrived-append r.results ds j k,
                  sent_self s j k result,
                  inv.each j ne,
                  ap one gone,
                ))
          | no other ↦
              let h = (r.waits i).request_id in
              let kept = net.others s j k result i h (inl other) in
              omega (
                arith,
                arrived-append r.results ds i h,
                sent_other s j k result i h (inl other),
                inv.each i own,
                ap one kept,
              )
        ];
        known = λ i h le. elim (dec_lt 0 (arrived r.results i h)) [
          | yes old ↦ inv.known i h (omega (arith, old))
          | no new ↦ fresh i h (omega (arith, new, le, arrived-append r.results ds i h))
        ];
        counted = inv.counted;
        timed = inv.timed;
      }
    where
      fresh :
          (i h : ℕ)
          → 1 ≤ sent s j (r.waits j).request_id result i h
          → (h ≢ 0) × ((r.waits i).request_id ≡ h)
      fresh i h le = elim (ℕ_discrete i j) [
        | no away ↦
            absurd (omega (arith, le, sent_other s j (r.waits j).request_id result i h (inl away)))
        | yes same ↦ elim (ℕ_discrete h (r.waits j).request_id) [
          | no away ↦
              absurd
                (omega (arith, le, sent_other s j (r.waits j).request_id result i h (inr away)))
          | yes here ↦ ((λ z. ne (sym here ∙ z)), ap (λ m. (r.waits m).request_id) same ∙ sym here)
        ]
      ]

  module _ (s : S) (r : Responses) (inv : Held net n s r) (x : ReplicaResponse)
      (rest : List ReplicaResponse) (at : r.results ≡ x ∷ rest) where
    head-known : (x.request_id ≢ 0) × ((r.waits x.replica).request_id ≡ x.request_id)
    head-known = inv.known x.replica x.request_id (ground (arith, at))

    -- What consume leaves.
    abbrev pub left : Responses
    left = record {
      results = rest;
      waits = update r.waits x.replica no_wait;
      remaining = r.remaining - 1;
      timer = if r.remaining - 1 == 0 then false else r.timer;
    }

    pub receive-left : receive r r.results ≡ some (left, x)
    unfolding receive consume stop_timer
    receive-left = let same = head-known.1 in rw at (ground (arith, same))

    own_head : (r.waits x.replica).request_id ≢ 0
    own_head z = head-known.0 (sym head-known.1 ∙ z)

    inside_head : x.replica < n
    inside_head = inv.inside x.replica own_head

    -- The result of a request does not come twice.
    twice :
        (i h : ℕ) → i ≡ x.replica → h ≢ 0 → (r.waits i).request_id ≡ h → 1 ≤ arrived rest i h → ⊥
    twice i h same ne e le =
        let (ne_x, e_x) = head-known in
        let id : h ≡ x.request_id = sym e ∙ ap (λ m. (r.waits m).request_id) same ∙ e_x in
        let once = inv.each x.replica own_head in
        let again =
          subst (λ m. 1 ≤ arrived rest m x.request_id) same
            (subst (λ m. 1 ≤ arrived rest i m) id le) in
        let only =
          subst (λ m. one (net.is_pending s x.replica m) + arrived r.results x.replica m ≡ 1) e_x
            once in
        ground (arith, again, only, at)

    pub left-Held : Held net n s left
    left-Held = record {
      inside = λ j own. elim (ℕ_discrete j x.replica) [
        | yes same ↦ absurd (ground (arith, own, same))
        | no other ↦ inv.inside j (λ z. ground (arith, own, other, z))
      ];
      each = λ i own. elim (ℕ_discrete i x.replica) [
        | yes same ↦ absurd (ground (arith, own, same))
        | no other ↦
            let e = inv.each i (λ z. ground (arith, own, other, z)) in ground (arith, e, at, other)
      ];
      known = λ i h le.
          let (ne, e) = inv.known i h (ground (arith, at, le)) in
          (
            ne,
            elim (ℕ_discrete i x.replica) [
              | no other ↦ ground (arith, e, other)
              | yes same ↦ absurd (twice i h same ne e le)
            ],
          );
      counted = omega (arith, inv.counted, active-clear r.waits n x.replica inside_head own_head);
      timed = λ e. ground (arith, e);
    }

  -- A replica without a request takes one.
  pub register-Held :
      (s t : S) (r : Responses) (j k expiry : ℕ)
      → Held net n s r
      → j < n
      → (r.waits j).request_id ≡ 0
      → k ≢ 0
      → net.is_pending t j k ≡ true
      → ((i h : ℕ) → i ≢ j → net.is_pending t i h ≡ net.is_pending s i h)
      → Held net n t (register r j k expiry)
  unfolding register
  register-Held s t r j k expiry inv lt free ne there kept = record {
    inside = λ i own. elim (ℕ_discrete i j) [
      | yes same ↦ omega (arith, lt, same)
      | no other ↦ inv.inside i (λ z. ground (arith, own, other, z))
    ];
    each = λ i own. elim (ℕ_discrete i j) [
      | yes same ↦
          let none_yet : arrived r.results j k ≡ 0 = elim (dec_lt 0 (arrived r.results j k)) [
            | yes some_there ↦
                absurd (ground (arith, inv.known j k (omega (arith, some_there)), free, ne))
            | no none_there ↦ omega (arith, none_there)
          ] in
          ground (arith, same, there, none_yet)
      | no other ↦
          let e = inv.each i (λ z. ground (arith, own, other, z)) in
          let h = kept i (r.waits i).request_id other in ground (arith, e, h, other)
    ];
    known = λ i h le.
        let (nz, e) = inv.known i h le in
        (
          nz,
          elim (ℕ_discrete i j) [
            | yes same ↦ absurd (ground (arith, e, same, free, nz))
            | no other ↦ ground (arith, e, other)
          ],
        );
    counted = omega (
      arith,
      inv.counted,
      active-set r.waits n j (record { request_id = k; response_expiry = expiry }) lt free ne,
    );
    timed = λ e. omega arith;
  }
