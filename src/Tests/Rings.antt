-- ===== src/Tests/Rings.antt =====
-- The ring of internal/mpscring/ring.go at concrete interleavings.
use red_lease.Prelude.{ℕ, ◌+◌, ◌≤◌, ◌<◌, ◌≡◌, refl, some, arith, List, [], ◌∷◌, ◌++◌, length}
use red_lease.Ring.{
  idle, loaded, Action, start, advance, take, produce, try_start_dequeue, ring_len, waiting, act,
  begin, consume,
}
use red_lease.Ring.Inv.{low}
use red_lease.Ring.Run.{run, new_world}
use red_lease.Ring.Run.Queue.{reached, fifo, enqueue-refused, dequeue-progress}

-- All the steps of a producer that no other one disturbs.
abbrev enqueue : ℕ → ℕ → List (Action ℕ)
enqueue i v = start i v ∷ advance i ∷ advance i ∷ advance i ∷ advance i ∷ advance i ∷ []

-- Producer 1 loads the tail that producer 0 claims, and claims the next position before 0 publishes.
abbrev race : List (Action ℕ)
race =
    start 0 7
    ∷ start 1 8
    ∷ advance 0
    ∷ advance 1
    ∷ advance 0
    ∷ advance 1
    ∷ advance 0
    ∷ advance 1
    ∷ advance 1
    ∷ advance 1
    ∷ advance 1
    ∷ advance 1
    ∷ advance 1
    ∷ take
    ∷ []

-- The first value is not published, so nothing is taken yet.
race-nothing_taken : (run 0 (new_world 2 0) race).taken ≡ []
unfolding run act begin produce consume
race-nothing_taken = refl

-- Once it is, both come in the order of their claims.
race-taken :
    (run 0 (new_world 2 0) (race ++ advance 0 ∷ advance 0 ∷ take ∷ take ∷ take ∷ [])).taken
    ≡ 7 ∷ 8 ∷ []
unfolding run act begin produce consume
race-taken = refl

fifo_example :
    (rest : List ℕ) × ((reached 2 0 race).entries ≡ (reached 2 0 race).taken ++ rest)
    × (length rest + (reached 2 0 race).last.ring.head ≡ (reached 2 0 race).last.ring.tail)
    × (length rest ≤ 2)
fifo_example = fifo 2 0 race (omega arith) (omega arith)

-- A ring of two values, and a producer that has loaded its tail.
abbrev full : List (Action ℕ)
full = enqueue 0 7 ++ enqueue 0 8 ++ start 1 9 ∷ advance 1 ∷ []

full-loaded : (reached 2 0 full).last.producers 1 ≡ loaded 9 2
unfolding run act begin produce
full-loaded = refl

full-refused : (produce (reached 2 0 full).last.ring (loaded 9 2)).1 ≡ idle
unfolding run act begin produce
full-refused = refl

enqueue-refused_example :
    (2 ≡ (reached 2 0 full).last.ring.tail)
    × ((reached 2 0 full).last.ring.tail
        ≡ low (reached 2 0 full).last.ring.head (reached 2 0 full).last.consumer + 2)
enqueue-refused_example =
    enqueue-refused 2 0 full (omega arith) (omega arith) 1 9 2 full-loaded full-refused

race-waiting : (reached 2 0 race).last.consumer ≡ waiting
unfolding run act begin produce consume
race-waiting = refl

race-some : (reached 2 0 race).last.ring.head < (reached 2 0 race).last.ring.tail
unfolding run act begin produce consume
race-some = omega arith

dequeue-progress_example :
    (v : ℕ) × (steps : List (Action ℕ)) × (length steps ≤ 2)
    × (try_start_dequeue (run 0 (reached 2 0 race).last steps).last.ring ≡ some v)
dequeue-progress_example =
    dequeue-progress 2 0 race (omega arith) (omega arith) race-waiting race-some

-- The tail was loaded at 1; before the head is loaded, another value enters and two are taken.
len-huge : ring_len 1 2 ≡ 18446744073709551615
unfolding ring_len
len-huge = refl
