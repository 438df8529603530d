-- ===== src/Ring/Inv/Consume.antt =====
-- Each step of the consumer keeps the invariant of the ring.
use red_lease.Prelude.{ℕ, ◌+◌, ◌≤◌, ◌<◌, ◌≡◌, arith, inl, inr, ℕ_discrete, update}
use red_lease.Ring.{Ring, Producer, waiting, releasing, slot}
use red_lease.Ring.Slots.{same_slot, slot_again}
use red_lease.Ring.Inv.{RingInv}

module _ {A : Type 0} (q : Ring A) (ps : ℕ → Producer A) (log : ℕ → A) where
  module _ (inv : RingInv q ps waiting log) where
    open inv use {owned, unique, saw, note, kept}

    apart :
        (r p : ℕ)
        → q.head ≤ r
        → r < q.head + q.capacity
        → q.head ≤ p
        → p < q.head + q.capacity
        → slot q r ≡ slot q p
        → r ≡ p
    apart r p a b d e s = same_slot q.capacity q.head r p a b d e s

    -- The value is the one for the head, which is claimed.
    pub oldest :
        q.sequence (slot q q.head) ≡ q.head + 1
        → (q.head < q.tail) × (q.value (slot q q.head) ≡ log q.head)
    oldest e =
        let below : q.head < q.tail = ground (arith, inv.order, inv.wide, inv.free q.head) in
        (below, inv.shown q.head (omega arith) below e)

    pub pass :
        (blank : A)
        → q.sequence (slot q q.head) ≡ q.head + 1
        → RingInv
            (record q { value = update q.value (slot q q.head) blank; head = q.head + 1 })
            ps
            (releasing q.head)
            log
    pass blank e =
        let (below, is) = oldest e in
        record {
          wide = inv.wide;
          passed = omega arith;
          order = omega arith;
          room = inv.room;
          free = inv.free;
          filled = λ r a b. inv.filled r (omega arith) b;
          done = λ r a b. ground arith;
          owned = λ j r o. ground (arith, owned j r);
          unique = unique;
          saw = saw;
          note = note;
          kept = λ j r w o u. ground (arith, kept j r w, owned j r, inv.room, apart r q.head);
          shown = λ r a b f. ground (arith, inv.shown r, inv.room, apart r q.head);
          past = inv.past;
        }

  pub release :
      (p : ℕ)
      → RingInv q ps (releasing p) log
      → RingInv
          (record q { sequence = update q.sequence (slot q p) (p + q.capacity) })
          ps
          waiting
          log
  release p inv =
      let head_is : q.head ≡ p + 1 = omega (arith, inv.passed) in
      record {
        wide = inv.wide;
        passed = omega arith;
        order = inv.order;
        room = omega (arith, inv.room);
        free = λ r a b. elim (ℕ_discrete r (p + q.capacity)) [
          | yes same ↦ ground (arith, slot_again q.capacity p)
          | no other ↦ ground (arith, inv.free r, others r p)
        ];
        filled = λ r a b. elim (inv.filled r a b) [
          | inl f ↦ inl (ground (arith, others r p, inv.room))
          | inr (f, (j, o)) ↦ inr (ground (arith, others r p, inv.room), (j, o))
        ];
        done = λ r a b. absurd (omega arith);
        owned = λ j r o. ground (arith, inv.owned j r, others r p, inv.room);
        unique = inv.unique;
        saw = λ j r o t. omega (arith, inv.saw j r o t);
        note = inv.note;
        kept = inv.kept;
        shown = λ r a b f. ground (arith, inv.shown r, others r p, inv.room);
        past = λ r a. ground (arith, inv.past r, inv.wide);
      }
    where
      others :
          (r s : ℕ)
          → p ≤ r
          → r < p + q.capacity
          → p ≤ s
          → s < p + q.capacity
          → slot q r ≡ slot q s
          → r ≡ s
      others r s a b d e = same_slot q.capacity p r s a b d e
