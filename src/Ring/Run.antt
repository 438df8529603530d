-- ===== src/Ring/Run.antt =====
-- Any interleaving of the steps of the producers and the consumer.
pub mod Step
pub mod Fifo
pub mod Queue
use red_lease.Prelude.{
  ℕ, zero, suc, ◌+◌, ◌-◌, ◌≡◌, Bool, true, false, List, [], ◌∷◌, ◌++◌, Option, none, some, ◌==◌,
  if◌then◌else◌,
}
use red_lease.Ring.{
  Ring, Producer, idle, trying, loaded, seen, claimed, written, waiting, World, new_ring, Action,
  start, advance, take, act,
}

abbrev pub new_world {ℓ} : {A : Type ℓ} → ℕ → A → World A
new_world capacity blank = record {
  ring = new_ring capacity blank;
  producers = λ i. idle;
  consumer = waiting;
}

-- The value whose position the next step of the producer claims.
unfoldable pub claims {ℓ} : {A : Type ℓ} → Ring A → Producer A → Option A
claims q (seen v position) = if q.tail == position then some v else none
claims q (idle) = none
claims q (trying v) = none
claims q (loaded v position) = none
claims q (claimed v position) = none
claims q (written v position) = none

unfoldable pub entered {ℓ} : {A : Type ℓ} → World A → Action A → Option A
unfolding claims
entered w (start i v) = none
entered w (advance i) = claims w.ring (w.producers i)
entered w take = none

abbrev pub listed {ℓ} : {A : Type ℓ} → Option A → List A
listed none = []
listed (some v) = v ∷ []

pub record Run {ℓ} (A : Type ℓ) : Type ℓ where
  pub last : World A
  pub entries : List A
  pub taken : List A

-- The values in the order in which their positions were claimed, and in that in which they were taken.
unfoldable pub run {ℓ} : {A : Type ℓ} → A → World A → List (Action A) → Run A
unfolding entered act
run blank w [] = record { last = w; entries = []; taken = [] }
run blank w (a ∷ rest) =
    let next = act blank w a in
    let r = run blank next.0 rest in
    record {
      last = r.last;
      entries = listed (entered w a) ++ r.entries;
      taken = listed next.1 ++ r.taken;
    }

-- `n` values of the log from `from` on.
unfoldable pub segment {ℓ} : {A : Type ℓ} → (ℕ → A) → ℕ → ℕ → List A
segment log from zero = []
segment log from (suc n) = log from ∷ segment log (suc from) n
