-- ===== src/Ring.antt =====
-- ring of internal/mpscring/ring.go: producers claim positions and publish values, and one consumer takes
-- them. Every atomic access is a step of its own, together with the plain accesses before it, which no
-- other goroutine can see. The capacity is a power of two, so the mask of a position is its remainder.
pub mod Slots
pub mod Inv
pub mod Run
use red_lease.Prelude.{
  ℕ, zero, suc, ◌+◌, ◌-◌, ◌%◌, ◌^◌, ◌≡◌, Bool, true, false, List, [], ◌∷◌, ◌++◌, Option, none, some,
  ltb, ◌==◌, if◌then◌else◌, update,
}

abbrev pub word : ℕ
word = 2 ^ 64

-- Addition on uint64.
unfoldable pub word_add : ℕ → ℕ → ℕ
word_add a b = (a + b) % word

pub record Ring {ℓ} (A : Type ℓ) : Type ℓ where
  pub head : ℕ
  pub tail : ℕ
  pub sequence : ℕ → ℕ
  pub value : ℕ → A
  pub capacity : ℕ

-- Where a producer is in tryEnqueue, or in tryStartEnqueue and finishEnqueue: it has its value, has loaded
-- the tail, has seen that the slot is free, has claimed the position, or has written the value.
pub data Producer {ℓ} (A : Type ℓ) : Type ℓ where
  idle : Producer A
  trying : A → Producer A
  loaded seen claimed written : A → ℕ → Producer A

-- Where the consumer is: it has moved the head past the position, whose slot it releases next.
pub data Consumer : Type 0 where
  waiting : Consumer
  releasing : ℕ → Consumer

pub record World {ℓ} (A : Type ℓ) : Type ℓ where
  pub ring : Ring A
  pub producers : ℕ → Producer A
  pub consumer : Consumer

abbrev pub slot {ℓ} : {A : Type ℓ} → Ring A → ℕ → ℕ
slot q position = position % q.capacity

abbrev pub new_ring {ℓ} : {A : Type ℓ} → ℕ → A → Ring A
new_ring capacity blank = record {
  head = 0;
  tail = 0;
  sequence = λ index. index;
  value = λ index. blank;
  capacity = capacity;
}

-- tryEnqueue: the next step of a producer on the ring.
unfoldable pub produce {ℓ} : {A : Type ℓ} → Ring A → Producer A → Ring A × Producer A
unfolding word_add
produce q idle = (q, idle)
produce q (trying v) = (q, loaded v q.tail)
produce q (loaded v position) =
    let sequence = q.sequence (slot q position) in
    if sequence == position
    then (q, seen v position)
    else if ltb sequence position
    then (q, idle)
    else (q, trying v)
produce q (seen v position) =
    if q.tail == position
    then (record q { tail = word_add position 1 }, claimed v position)
    else (q, trying v)
produce q (claimed v position) =
    (record q { value = update q.value (slot q position) v }, written v position)
produce q (written v position) =
    (record q { sequence = update q.sequence (slot q position) (word_add position 1) }, idle)

-- tryStartDequeue: the oldest value, if it is published.
unfoldable pub try_start_dequeue {ℓ} : {A : Type ℓ} → Ring A → Option A
unfolding word_add
try_start_dequeue q =
    if q.sequence (slot q q.head) == word_add q.head 1 then some (q.value (slot q q.head)) else none

-- finishDequeue up to the store of the head.
unfoldable pub pass_head {ℓ} : {A : Type ℓ} → A → Ring A → Ring A
unfolding word_add
pass_head blank q = record q {
  value = update q.value (slot q q.head) blank;
  head = word_add q.head 1;
}

-- The last store of finishDequeue.
unfoldable pub release_slot {ℓ} : {A : Type ℓ} → Ring A → ℕ → Ring A
unfolding word_add
release_slot q position = record q {
  sequence = update q.sequence (slot q position) (word_add position q.capacity);
}

-- tryDequeue: the next step of the consumer, and the value that it takes.
unfoldable pub consume {ℓ} : {A : Type ℓ} → A → Ring A → Consumer → (Ring A × Consumer) × Option A
unfolding try_start_dequeue pass_head release_slot
consume blank q waiting = elim (try_start_dequeue q) [
  | none ↦ ((q, waiting), none)
  | some v ↦ ((pass_head blank q, releasing q.head), some v)
]
consume blank q (releasing position) = ((release_slot q position, waiting), none)

-- A goroutine calls tryEnqueue, a producer or the consumer makes its next step.
pub data Action {ℓ} (A : Type ℓ) : Type ℓ where
  start : ℕ → A → Action A
  advance : ℕ → Action A
  take : Action A

-- A producer that is not idle starts nothing.
unfoldable pub begin {ℓ} : {A : Type ℓ} → World A → ℕ → A → Producer A → World A
begin w i v idle = record w { producers = update w.producers i (trying v) }
begin w i v (trying u) = w
begin w i v (loaded u position) = w
begin w i v (seen u position) = w
begin w i v (claimed u position) = w
begin w i v (written u position) = w

unfoldable pub act {ℓ} : {A : Type ℓ} → A → World A → Action A → World A × Option A
unfolding produce consume begin
act blank w (start i v) = (begin w i v (w.producers i), none)
act blank w (advance i) =
    let r = produce w.ring (w.producers i) in
    (record w { ring = r.0; producers = update w.producers i r.1 }, none)
act blank w take =
    let r = consume blank w.ring w.consumer in (record w { ring = r.0.0; consumer = r.0.1 }, r.1)

-- `len` on the tail and the head that it loads, the tail first.
unfoldable pub ring_len : ℕ → ℕ → ℕ
ring_len tail head = (tail + word - head) % word
