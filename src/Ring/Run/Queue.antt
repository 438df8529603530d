-- ===== src/Ring/Run/Queue.antt =====
-- What the ring promises to its callers: a bounded queue, first in first out, in any interleaving.
use red_lease.Prelude.{
  ℕ, zero, suc, ◌+◌, ◌-◌, ◌≤◌, ◌<◌, ◌≡◌, refl, ap, sym, ◌∙◌, arith, some, List, [], ◌∷◌, ◌++◌,
  length, inl, inr, Bool-cases, ltb, ◌==◌,
}
use red_lease.Ring.{
  word, Ring, Producer, idle, trying, loaded, seen, claimed, written, waiting, World, Action,
  advance, act, produce, slot, try_start_dequeue,
}
use red_lease.Ring.Inv.{low, owner}
use red_lease.Ring.Inv.Full.{refused_when_full}
use red_lease.Ring.Run.{segment, Run, run, new_world}
use red_lease.Ring.Run.Step.{add-small}
use red_lease.Ring.Run.Fifo.{Ran, run-Ran, begin-WorldInv, segment-append, entries-few}

module _ {A : Type 0} (blank : A) (w : World A) (small : w.ring.head + 1 < word) where
  -- The oldest value is there for the consumer after at most two steps of its producer.
  abbrev Soon : Type 0
  Soon =
      (v : A) × (steps : List (Action A)) × (length steps ≤ 2)
      × (try_start_dequeue (run blank w steps).last.ring ≡ some v)

  ready : w.ring.sequence (slot w.ring w.ring.head) ≡ w.ring.head + 1 → Soon
  unfolding try_start_dequeue run
  ready here =
      let one = add-small w.ring.head 1 small in
      (w.ring.value (slot w.ring w.ring.head), [], omega arith, ground (arith, here, one))

  finish : (i : ℕ) (x : Producer A) → w.producers i ≡ x → owner x ≡ some w.ring.head → Soon
  unfolding try_start_dequeue run act produce
  finish i (claimed v p) e o =
      let one = add-small w.ring.head 1 small in
      (v, advance i ∷ advance i ∷ [], omega arith, rw e (ground (arith, o, one)))
  finish i (written v p) e o =
      let one = add-small w.ring.head 1 small in
      (
        w.ring.value (slot w.ring w.ring.head),
        advance i ∷ [],
        omega arith,
        rw e (ground (arith, o, one)),
      )
  finish i idle e o = absurd (ground (arith, o))
  finish i (trying v) e o = absurd (ground (arith, o))
  finish i (loaded v p) e o = absurd (ground (arith, o))
  finish i (seen v p) e o = absurd (ground (arith, o))

module _ {A : Type 0} (capacity : ℕ) (blank : A) (actions : List (Action A)) where
  -- The run of the actions on a new ring.
  abbrev pub reached : Run A
  reached = run blank (new_world capacity blank) actions

  abbrev ring : Ring A
  ring = reached.last.ring

  module _ (wide : 2 ≤ capacity) (small : capacity + length actions + 2 < word) where
    ran : Ran (new_world capacity blank) (λ p. blank) reached
    ran =
        run-Ran blank (new_world capacity blank) (λ p. blank) actions
          (begin-WorldInv capacity blank wide) (omega arith)

    length-segment : (log : ℕ → A) (a n : ℕ) → length (segment log a n) ≡ n
    unfolding segment
    length-segment log a zero = refl
    length-segment log a (suc n) = ground (arith, length-segment log (suc a) n)

    split :
        (log : ℕ → A) (xs ys : List A)
        → xs ≡ segment log 0 (length xs)
        → ys ≡ segment log 0 (length ys)
        → length ys ≤ length xs
        → xs ≡ ys ++ segment log (length ys) (length xs - length ys)
    split log xs ys e f le =
        let cut : length xs ≡ length ys + (length xs - length ys) = omega arith in
        let zero : 0 + length ys ≡ length ys = omega arith in
        e
        ∙ ap (segment log 0) cut
        ∙ segment-append log 0 (length ys) (length xs - length ys)
        ∙ ap (λ l. l ++ segment log (0 + length ys) (length xs - length ys)) (sym f)
        ∙ ap (λ a. ys ++ segment log a (length xs - length ys)) zero

    -- For a capacity of 2 or more and any interleaving of the steps of producers and the consumer
    -- that starts with a new ring and is shorter than 2^64 by more than the capacity and one: the
    -- values taken are the first ones entered, in the order in which their positions were claimed;
    -- as many others remain as the tail is past the head, and no more than the capacity.
    pub fifo :
        (rest : List A) × (reached.entries ≡ reached.taken ++ rest)
        × (length rest + ring.head ≡ ring.tail)
        × (length rest ≤ capacity)
    fifo =
        let log = ran.after in
        let few : length reached.taken ≤ length reached.entries =
          omega (arith, ran.tail, ran.head, ran.inv.order) in
        let long =
          length-segment log (length reached.taken)
            (length reached.entries - length reached.taken) in
        (
          segment log (length reached.taken) (length reached.entries - length reached.taken),
          split log reached.entries reached.taken ran.entries ran.takings few,
          omega (arith, ran.tail, ran.head, long, few),
          omega (arith, ran.tail, ran.head, long, ran.inv.room, ran.inv.passed, ran.capacity),
        )

    -- For a capacity of 2 or more and after any such interleaving: when a producer that loaded the
    -- tail is refused by its next step, then the tail has not moved since, and the claimed
    -- positions whose slots are not free again are as many as the capacity.
    pub enqueue-refused :
        (i : ℕ) (v : A) (p : ℕ)
        → reached.last.producers i ≡ loaded v p
        → (produce ring (loaded v p)).1 ≡ idle
        → (p ≡ ring.tail) × (ring.tail ≡ low ring.head reached.last.consumer + capacity)
    unfolding produce
    enqueue-refused i v p e r =
        let le : p ≤ ring.tail = ran.inv.note i p (ground (arith, e)) in
        elim (Bool-cases (ring.sequence (slot ring p) == p)) [
          | inl free ↦ absurd (ground (arith, r, free))
          | inr taken ↦ elim (Bool-cases (ltb (ring.sequence (slot ring p)) p)) [
            | inr newer ↦ absurd (ground (arith, r, taken, newer))
            | inl older ↦
                let (a, b) =
                  refused_when_full ring reached.last.producers reached.last.consumer ran.after
                    ran.inv p le (ground (arith, older)) in
                (a, omega (arith, b, ran.capacity))
          ]
        ]

    -- For a capacity of 2 or more and after any such interleaving: when the consumer waits and a
    -- position is claimed, then there are at most two further steps after which the next try of
    -- the consumer gets a value.
    pub dequeue-progress :
        reached.last.consumer ≡ waiting
        → ring.head < ring.tail
        → (v : A) × (steps : List (Action A)) × (length steps ≤ 2)
          × (try_start_dequeue (run blank reached.last steps).last.ring ≡ some v)
    dequeue-progress c lt =
        let few = entries-few blank (new_world capacity blank) actions in
        let fits : ring.head + 1 < word =
          omega (arith, ran.inv.room, ran.inv.order, ran.tail, few) in
        elim (ran.inv.filled ring.head (omega arith) lt) [
          | inl here ↦ ready blank reached.last fits here
          | inr (here, (i, o)) ↦ finish blank reached.last fits i (reached.last.producers i) refl o
        ]
