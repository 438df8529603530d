-- ===== src/Ring/Inv/Produce.antt =====
-- Each step of a producer keeps the invariant of the ring.
use red_lease.Prelude.{ℕ, ◌+◌, ◌≤◌, ◌<◌, ◌≡◌, sym, arith, inl, inr, ℕ_discrete, update, none, some}
use red_lease.Ring.{Ring, Producer, idle, seen, claimed, written, Consumer, slot}
use red_lease.Ring.Slots.{same_slot}
use red_lease.Ring.Inv.{low, owner, sighted, noted, RingInv}

module _ {A : Type 0} (q : Ring A) (ps : ℕ → Producer A) (c : Consumer) (log : ℕ → A)
    (inv : RingInv q ps c log) (i : ℕ) where
  open inv use {owned, unique, saw, note, kept}

  -- Two positions that are claimed and not taken have two slots.
  apart :
      (r p : ℕ) → q.head ≤ r → r < q.tail → q.head ≤ p → p < q.tail → slot q r ≡ slot q p → r ≡ p
  apart r p a b d e s =
      same_slot q.capacity (low q.head c) r p (omega (arith, inv.passed)) (omega (arith, inv.room))
        (omega (arith, inv.passed)) (omega (arith, inv.room)) s

  -- Two positions of the window have two slots.
  any :
      (r p : ℕ)
      → low q.head c ≤ r
      → r < low q.head c + q.capacity
      → low q.head c ≤ p
      → p < low q.head c + q.capacity
      → slot q r ≡ slot q p
      → r ≡ p
  any r p a b d e s = same_slot q.capacity (low q.head c) r p a b d e s

  -- A step after which the ring is the same and the producer owns what it owned.
  pub quiet :
      (x y : Producer A)
      → ps i ≡ x
      → owner x ≡ none
      → owner y ≡ none
      → ((p : ℕ) → sighted y ≡ some p → p ≡ q.tail → q.tail < low q.head c + q.capacity)
      → ((p : ℕ) → noted y ≡ some p → p ≤ q.tail)
      → RingInv q (update ps i y) c log
  quiet x y e none_now none_then sees notes = record {
    wide = inv.wide;
    passed = inv.passed;
    order = inv.order;
    room = inv.room;
    free = inv.free;
    filled = λ p a b. elim (inv.filled p a b) [
      | inl r ↦ inl r
      | inr (r, (j, o)) ↦ inr (r, (j, ground arith))
    ];
    done = inv.done;
    owned = λ j p o. ground (arith, owned j p);
    unique = λ j k p o r. ground (arith, unique j k p);
    saw = λ j p o. ground (arith, saw j p, sees p);
    note = λ j p o. ground (arith, note j p, notes p);
    kept = λ j p v o r. ground (arith, kept j p v);
    shown = inv.shown;
    past = inv.past;
  }

  -- The position is claimed, and the log has its value.
  pub claim :
      (v : A) (p : ℕ)
      → ps i ≡ seen v p
      → q.tail ≡ p
      → RingInv (record q { tail = p + 1 }) (update ps i (claimed v p)) c (update log p v)
  claim v p e t =
      let space : p < low q.head c + q.capacity = omega (arith, saw i p (ground arith) (sym t)) in
      record {
        wide = inv.wide;
        passed = inv.passed;
        order = omega (arith, inv.order);
        room = omega arith;
        free = λ r a b. inv.free r (omega arith) b;
        filled = λ r a b. elim (ℕ_discrete r p) [
          | yes same ↦ inr (ground (arith, inv.free p), (i, ground arith))
          | no other ↦ elim (inv.filled r a (omega arith)) [
            | inl f ↦ inl f
            | inr (f, (j, o)) ↦ inr (f, (j, ground arith))
          ]
        ];
        done = inv.done;
        owned = λ j r o. ground (arith, owned j r, inv.free p, inv.order);
        unique = λ j k r o u. ground (arith, unique j k r, owned j r, owned k r);
        saw = λ j r o. ground (arith, note j r);
        note = λ j r o. ground (arith, note j r);
        kept = λ j r w o u. ground (arith, kept j r w);
        shown = λ r a b f. ground (arith, inv.shown r, inv.free p);
        past = inv.past;
      }

  pub write :
      (v : A) (p : ℕ)
      → ps i ≡ claimed v p
      → RingInv (record q { value = update q.value (slot q p) v }) (update ps i (written v p)) c log
  write v p e =
      let mine = owned i p (ground arith) in
      record {
        wide = inv.wide;
        passed = inv.passed;
        order = inv.order;
        room = inv.room;
        free = inv.free;
        filled = λ r a b. elim (inv.filled r a b) [
          | inl f ↦ inl f
          | inr (f, (j, o)) ↦ inr (f, (j, ground arith))
        ];
        done = inv.done;
        owned = λ j r o. ground (arith, owned j r);
        unique = λ j k r o u. ground (arith, unique j k r);
        saw = λ j r o. ground (arith, saw j r);
        note = λ j r o. ground (arith, note j r);
        kept = λ j r w o u. ground (arith, kept j r w, unique i j p, owned j r, apart r p);
        shown = λ r a b f. ground (arith, inv.shown r, apart r p);
        past = inv.past;
      }

  pub publish :
      (v : A) (p : ℕ)
      → ps i ≡ written v p
      → RingInv
          (record q { sequence = update q.sequence (slot q p) (p + 1) })
          (update ps i idle)
          c
          log
  publish v p e =
      let (low_p, high_p, here, is) = owned i p (ground arith) in
      record {
        wide = inv.wide;
        passed = inv.passed;
        order = inv.order;
        room = inv.room;
        free = λ r a b. ground (arith, inv.free r, any r p);
        filled = λ r a b. elim (ℕ_discrete r p) [
          | yes same ↦ inl (ground arith)
          | no other ↦ elim (inv.filled r a b) [
            | inl f ↦ inl (ground (arith, apart r p))
            | inr (f, (j, o)) ↦ inr (ground (arith, apart r p), (j, ground arith))
          ]
        ];
        done = λ r a b. ground (arith, inv.done r, any r p);
        owned = λ j r o. ground (arith, owned j r, unique i j p, apart r p);
        unique = λ j k r o u. ground (arith, unique j k r);
        saw = λ j r o. ground (arith, saw j r);
        note = λ j r o. ground (arith, note j r);
        kept = λ j r w o u. ground (arith, kept j r w);
        shown = λ r a b f. ground (arith, inv.shown r, apart r p, kept i p v);
        past = λ r a. ground (arith, inv.past r);
      }
