-- ===== src/Ring/Run/Fifo.antt =====
-- The ring is a bounded queue, first in first out.
use native.Mathlib.Nat.{mod-eq_of_lt}
use red_lease.Prelude.{
  ℕ, zero, suc, ◌+◌, ◌≤◌, ◌<◌, ◌≡◌, refl, ap, sym, ◌∙◌, arith, Option, none, List, [], ◌∷◌, ◌++◌,
  length, length-append, Option-cases, inl, inr,
}
use red_lease.Ring.{
  word, Producer, idle, trying, loaded, seen, claimed, written, World, Action, start, advance, take,
  begin, act,
}
use red_lease.Ring.Inv.{RingInv}
use red_lease.Ring.Inv.Produce.{quiet}
use red_lease.Ring.Run.{entered, listed, segment, Run, run, new_world}
use red_lease.Ring.Run.Step.{Logged, still, produce-Stepped, consume-Consumed}

module _ {A : Type 0} where
  abbrev pub WorldInv : World A → (ℕ → A) → Type 0
  WorldInv w log = RingInv w.ring w.producers w.consumer log

  pub segment-append :
      (log : ℕ → A) (a k m : ℕ) → segment log a (k + m) ≡ segment log a k ++ segment log (a + k) m
  unfolding segment
  segment-append log a zero m =
      let e : a + 0 ≡ a = omega arith in let f : 0 + m ≡ m = omega arith in rw (e, f) refl
  segment-append log a (suc k) m =
      let e : a + suc k ≡ suc a + k = omega arith in
      let f : suc k + m ≡ suc (k + m) = omega arith in
      rw (e, f) (ap (λ l. log a ∷ l) (segment-append log (suc a) k m))

  segment-agree :
      (f g : ℕ → A) (a n : ℕ) → ((p : ℕ) → p < a + n → f p ≡ g p) → segment f a n ≡ segment g a n
  unfolding segment
  segment-agree f g a zero h = refl
  segment-agree f g a (suc n) h =
      ground (arith, h a, segment-agree f g (suc a) n (λ p lt. h p (omega arith)))

  module _ (blank : A) (w : World A) (log : ℕ → A) (inv : WorldInv w log)
      (small : w.ring.tail + w.ring.capacity + 1 < word) where
    abbrev Acted : Option A → World A × Option A → Type 0
    Acted enters (v, o) =
        (after : ℕ → A) × WorldInv v after × Logged w.ring v.ring log after enters o

    begun : (i : ℕ) (v : A) (x : Producer A) → w.producers i ≡ x → Acted none (begin w i v x, none)
    unfolding begin
    begun i v idle e = (
      log,
      quiet w.ring w.producers w.consumer log inv i idle (trying v) e refl refl
          (λ p h. ground arith) (λ p h. ground arith),
      still w.ring w.ring log refl refl refl,
    )
    begun i v (trying u) e = (log, inv, still w.ring w.ring log refl refl refl)
    begun i v (loaded u p) e = (log, inv, still w.ring w.ring log refl refl refl)
    begun i v (seen u p) e = (log, inv, still w.ring w.ring log refl refl refl)
    begun i v (claimed u p) e = (log, inv, still w.ring w.ring log refl refl refl)
    begun i v (written u p) e = (log, inv, still w.ring w.ring log refl refl refl)

    act-Acted : (a : Action A) → Acted (entered w a) (act blank w a)
    unfolding act entered
    act-Acted (start i v) = begun i v (w.producers i) refl
    act-Acted (advance i) =
        produce-Stepped w.ring w.producers w.consumer log inv small i (w.producers i) refl
    act-Acted take =
        let (i, l) = consume-Consumed blank w.ring w.producers log small w.consumer inv in
        (log, i, l)

  -- What a run does to the log.
  pub record Ran (w : World A) (log : ℕ → A) (r : Run A) : Type 0 where
    pub after : ℕ → A
    pub inv : WorldInv r.last after
    pub capacity : r.last.ring.capacity ≡ w.ring.capacity
    pub tail : r.last.ring.tail ≡ w.ring.tail + length r.entries
    pub entries : r.entries ≡ segment after w.ring.tail (length r.entries)
    pub old : (p : ℕ) → p < w.ring.tail → after p ≡ log p
    pub head : r.last.ring.head ≡ w.ring.head + length r.taken
    pub takings : r.taken ≡ segment after w.ring.head (length r.taken)

  -- A stretch of the log followed by the next one.
  follow :
      (log after : ℕ → A) (a b : ℕ) (xs ys : List A)
      → xs ≡ segment log a (length xs)
      → ((p : ℕ) → p < a + length xs → after p ≡ log p)
      → b ≡ a + length xs
      → ys ≡ segment after b (length ys)
      → xs ++ ys ≡ segment after a (length (xs ++ ys))
  follow log after a b xs ys e old at f =
      let here = e ∙ sym (segment-agree after log a (length xs) old) in
      let both = length-append xs ys in
      ground (arith, here, both, segment-append after a (length xs) (length ys))

  -- One more step before a run.
  Ran-more :
      (w v : World A) (log mid : ℕ → A) (enters takes : Option A) (r : Run A)
      → WorldInv v mid
      → Logged w.ring v.ring log mid enters takes
      → Ran v mid r
      → Ran w log (record {
        last = r.last;
        entries = listed enters ++ r.entries;
        taken = listed takes ++ r.taken;
      })
  Ran-more w v log mid enters takes r inv l ran = record {
    after = ran.after;
    inv = ran.inv;
    capacity = ran.capacity ∙ l.capacity;
    tail = ground (arith, l.tail, ran.tail, length-append (listed enters) r.entries);
    entries =
        follow mid ran.after w.ring.tail v.ring.tail (listed enters) r.entries l.entries
          (λ p lt. ran.old p (omega (arith, lt, l.tail))) l.tail ran.entries;
    old = λ p lt. ran.old p (omega (arith, lt, l.tail)) ∙ l.old p lt;
    head = ground (arith, l.head, ran.head, length-append (listed takes) r.taken);
    takings =
        follow mid ran.after w.ring.head v.ring.head (listed takes) r.taken l.takings
          (λ p lt. ran.old p (omega (arith, lt, l.head, inv.order))) l.head ran.takings;
  }

  entered-few : (w : World A) (a : Action A) → length (listed (entered w a)) ≤ 1
  entered-few w a = elim (Option-cases (entered w a)) [
    | inl e ↦ ground (arith, e)
    | inr (v, e) ↦ ground (arith, e)
  ]

  pub entries-few :
      (blank : A) (w : World A) (actions : List (Action A))
      → length (run blank w actions).entries ≤ length actions
  unfolding run
  entries-few blank w [] = omega arith
  entries-few blank w (a ∷ rest) =
      let later = entries-few blank (act blank w a).0 rest in
      omega (
        arith,
        later,
        entered-few w a,
        length-append (listed (entered w a)) (run blank (act blank w a).0 rest).entries,
      )

  -- Any run keeps the invariant and appends to the log, as long as no position reaches the word's end.
  pub run-Ran :
      (blank : A) (w : World A) (log : ℕ → A) (actions : List (Action A))
      → WorldInv w log
      → w.ring.tail + w.ring.capacity + length actions < word
      → Ran w log (run blank w actions)
  unfolding run segment
  run-Ran blank w log [] inv small = record {
    after = log;
    inv = inv;
    capacity = refl;
    tail = omega arith;
    entries = refl;
    old = λ p lt. refl;
    head = omega arith;
    takings = refl;
  }
  run-Ran blank w log (a ∷ rest) inv small =
      let (mid, next, l) = act-Acted blank w log inv (omega (arith, small)) a in
      let few = entered-few w a in
      let fits : (act blank w a).0.ring.tail + (act blank w a).0.ring.capacity + length rest
          < word =
        omega (arith, small, few, l.tail, l.capacity) in
      Ran-more w (act blank w a).0 log mid (entered w a) (act blank w a).1
        (run blank (act blank w a).0 rest) next l
        (run-Ran blank (act blank w a).0 mid rest next fits)

  pub begin-WorldInv :
      (capacity : ℕ) (blank : A) → 2 ≤ capacity → WorldInv (new_world capacity blank) (λ p. blank)
  begin-WorldInv capacity blank wide = record {
    wide = wide;
    passed = omega arith;
    order = omega arith;
    room = omega arith;
    free = λ p low high. mod-eq_of_lt (omega (arith, high));
    filled = λ p low high. ground arith;
    done = λ p low high. ground arith;
    owned = λ i p h. ground arith;
    unique = λ i j p h k. ground arith;
    saw = λ i p h e. ground arith;
    note = λ i p h. ground arith;
    past = λ p lt. ground arith;
    kept = λ i p v h e. ground arith;
    shown = λ p low high e. ground arith;
  }
