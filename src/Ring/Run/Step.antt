-- ===== src/Ring/Run/Step.antt =====
-- One step of the ring, with what it enters and takes.
use red_lease.Prelude.{
  ℕ, ◌+◌, ◌≤◌, ◌<◌, ◌≡◌, refl, ap, arith, ◌==◌, ltb, inl, inr, update, Option, none, some, [], ◌∷◌,
  Bool-cases, length,
}
use red_lease.Ring.{
  word, word_add, Ring, Producer, idle, trying, loaded, seen, claimed, written, Consumer, waiting,
  releasing, slot, produce, try_start_dequeue, pass_head, release_slot, consume,
}
use red_lease.Ring.Inv.{low, owner, sighted, noted, RingInv}
use red_lease.Ring.Inv.Produce.{quiet, claim, write, publish}
use red_lease.Ring.Inv.Full.{sees_room}
use red_lease.Ring.Inv.Consume.{oldest, pass, release}
use red_lease.Ring.Run.{claims, listed, segment}

pub add-small : (a b : ℕ) → a + b < word → word_add a b ≡ a + b
unfolding word_add
add-small a b h = omega arith

module _ {A : Type 0} where
  -- What one step does to the log: it enters values at the tail and takes values at the head.
  pub record Logged (q t : Ring A) (log after : ℕ → A) (enters takes : Option A) : Type 0 where
    pub capacity : t.capacity ≡ q.capacity
    pub tail : t.tail ≡ q.tail + length (listed enters)
    pub entries : listed enters ≡ segment after q.tail (length (listed enters))
    pub old : (p : ℕ) → p < q.tail → after p ≡ log p
    pub head : t.head ≡ q.head + length (listed takes)
    pub takings : listed takes ≡ segment after q.head (length (listed takes))

  pub still :
      (q t : Ring A) (log : ℕ → A)
      → t.capacity ≡ q.capacity
      → t.tail ≡ q.tail
      → t.head ≡ q.head
      → Logged q t log log none none
  unfolding segment
  still q t log e f g = record {
    capacity = e;
    tail = omega arith;
    entries = refl;
    old = λ p lt. refl;
    head = omega arith;
    takings = refl;
  }

  module _ (q : Ring A) (ps : ℕ → Producer A) (c : Consumer) (log : ℕ → A)
      (inv : RingInv q ps c log) (small : q.tail + q.capacity + 1 < word) (i : ℕ) where
    abbrev pub Stepped : Producer A → Option A → Ring A × Producer A → Type 0
    Stepped x enters (t, y) =
        (after : ℕ → A) × RingInv t (update ps i y) c after × Logged q t log after enters none

    -- A step that only changes what the producer knows.
    learned :
        (x y : Producer A)
        → ps i ≡ x
        → owner x ≡ none
        → owner y ≡ none
        → ((p : ℕ) → sighted y ≡ some p → p ≡ q.tail → q.tail < low q.head c + q.capacity)
        → ((p : ℕ) → noted y ≡ some p → p ≤ q.tail)
        → Stepped x none (q, y)
    learned x y e a b s n =
        (log, quiet q ps c log inv i x y e a b s n, still q q log refl refl refl)

    claimed-Logged :
        (v : A) (p : ℕ)
        → q.tail ≡ p
        → Logged q (record q { tail = p + 1 }) log (update log p v) (some v) none
    unfolding segment
    claimed-Logged v p at = record {
      capacity = refl;
      tail = omega arith;
      entries = ground arith;
      old = λ r lt. ground arith;
      head = omega arith;
      takings = refl;
    }

    pub produce-Stepped : (x : Producer A) → ps i ≡ x → Stepped x (claims q x) (produce q x)
    unfolding produce claims segment
    produce-Stepped idle e =
        learned idle idle e refl refl (λ p h. ground arith) (λ p h. ground arith)
    produce-Stepped (trying v) e =
        learned (trying v) (loaded v q.tail) e refl refl (λ p h. ground arith) (λ p h. ground arith)
    produce-Stepped (loaded v p) e =
        let le : p ≤ q.tail = inv.note i p (ground arith) in
        elim (Bool-cases (q.sequence (slot q p) == p)) [
          | inl free ↦
              rw (free, produce)
                (learned (loaded v p) (seen v p) e refl refl
                  (λ r h t. sees_room q ps c log inv (ground arith)) (λ r h. ground arith))
          | inr taken ↦ elim (Bool-cases (ltb (q.sequence (slot q p)) p)) [
            | inl older ↦
                rw (taken, older, produce)
                  (learned (loaded v p) idle e refl refl (λ r h. ground arith)
                    (λ r h. ground arith))
            | inr newer ↦
                rw (taken, newer, produce)
                  (learned (loaded v p) (trying v) e refl refl (λ r h. ground arith)
                    (λ r h. ground arith))
          ]
        ]
    produce-Stepped (seen v p) e = elim (Bool-cases (q.tail == p)) [
      | inr lost ↦
          rw (lost, produce, claims)
            (learned (seen v p) (trying v) e refl refl (λ r h. ground arith) (λ r h. ground arith))
      | inl won ↦
          let at : q.tail ≡ p = ground arith in
          rw (won, produce, claims)
            (rw (add-small p 1 (omega arith))
              (update log p v, claim q ps c log inv i v p e at, claimed-Logged v p at))
    ]
    produce-Stepped (claimed v p) e =
        (log, write q ps c log inv i v p e, still q _ log refl refl refl)
    produce-Stepped (written v p) e =
        let (low_p, high_p, here, is) = inv.owned i p (ground arith) in
        let fits : p + 1 < word = omega arith in
        rw (add-small p 1 fits) (log, publish q ps c log inv i v p e, still q _ log refl refl refl)

  module _ (blank : A) (q : Ring A) (ps : ℕ → Producer A) (log : ℕ → A)
      (small : q.tail + q.capacity + 1 < word) where
    abbrev pub Consumed : (Ring A × Consumer) × Option A → Type 0
    Consumed ((t, d), o) = RingInv t ps d log × Logged q t log log none o

    passed-Logged :
        q.value (slot q q.head) ≡ log q.head
        → Logged q
            (record q { value = update q.value (slot q q.head) blank; head = q.head + 1 })
            log
            log
            none
            (some (q.value (slot q q.head)))
    unfolding segment
    passed-Logged e = record {
      capacity = refl;
      tail = omega arith;
      entries = refl;
      old = λ r lt. refl;
      head = omega arith;
      takings = ap (λ x. x ∷ []) e;
    }

    pub consume-Consumed : (c : Consumer) → RingInv q ps c log → Consumed (consume blank q c)
    unfolding consume try_start_dequeue pass_head release_slot
    consume-Consumed waiting inv =
        let fits : q.head + 1 < word = omega (arith, inv.order) in
        let one = add-small q.head 1 fits in
        elim (Bool-cases (q.sequence (slot q q.head) == word_add q.head 1)) [
          | inr empty ↦ rw (empty, consume, try_start_dequeue) (inv, still q q log refl refl refl)
          | inl ready ↦
              let here : q.sequence (slot q q.head) ≡ q.head + 1 = ground (arith, one) in
              rw (ready, consume, try_start_dequeue)
                (rw one (pass q ps log inv blank here, passed-Logged (oldest q ps log inv here).1))
        ]
    consume-Consumed (releasing p) inv =
        let fits : p + q.capacity < word = omega (arith, inv.passed, inv.order) in
        rw (add-small p q.capacity fits) (release q ps log p inv, still q _ log refl refl refl)
