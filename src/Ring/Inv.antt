-- ===== src/Ring/Inv.antt =====
-- The invariant of the ring: which sequence each slot holds, who may write it, and which value it is for.
pub mod Produce
pub mod Consume
pub mod Full
use red_lease.Prelude.{ℕ, zero, suc, ◌+◌, ◌-◌, ◌%◌, ◌≤◌, ◌<◌, ◌≡◌, ◌⊎◌, Option, none, some}
use red_lease.Ring.{
  word, Ring, Producer, idle, trying, loaded, seen, claimed, written, Consumer, waiting, releasing,
  slot,
}

-- The first position whose slot is not free again.
abbrev pub low : ℕ → Consumer → ℕ
low head waiting = head
low head (releasing position) = position

-- How far the head is past it.
abbrev pub lag : Consumer → ℕ
lag waiting = 0
lag (releasing position) = 1

module _ {ℓ} {A : Type ℓ} where
  -- The position that the producer claimed and has not published.
  abbrev pub owner : Producer A → Option ℕ
  owner (claimed v p) = some p
  owner (written v p) = some p
  owner _ = none

  -- The position whose slot the producer saw free.
  abbrev pub sighted : Producer A → Option ℕ
  sighted (seen v p) = some p
  sighted _ = none

  -- The tail that the producer loaded.
  abbrev pub noted : Producer A → Option ℕ
  noted (loaded v p) = some p
  noted (seen v p) = some p
  noted _ = none

  abbrev pub meant : Producer A → Option A
  meant (claimed v p) = some v
  meant (written v p) = some v
  meant _ = none

  abbrev pub stored : Producer A → Option A
  stored (written v p) = some v
  stored _ = none

  -- `log` has the value of each position that was claimed.
  pub record RingInv (q : Ring A) (ps : ℕ → Producer A) (c : Consumer) (log : ℕ → A) : Type ℓ where
    pub wide : 2 ≤ q.capacity
    pub passed : low q.head c + lag c ≡ q.head
    pub order : q.head ≤ q.tail
    pub room : q.tail ≤ low q.head c + q.capacity
    pub free : (p : ℕ) → q.tail ≤ p → p < low q.head c + q.capacity → q.sequence (slot q p) ≡ p
    pub filled :
        (p : ℕ)
        → q.head ≤ p
        → p < q.tail
        → (q.sequence (slot q p) ≡ p + 1)
          ⊎ ((q.sequence (slot q p) ≡ p) × ((i : ℕ) × (owner (ps i) ≡ some p)))
    pub done : (p : ℕ) → low q.head c ≤ p → p < q.head → q.sequence (slot q p) ≡ p + 1
    pub owned :
        (i p : ℕ)
        → owner (ps i) ≡ some p
        → (q.head ≤ p) × (p < q.tail) × (q.sequence (slot q p) ≡ p) × (meant (ps i) ≡ some (log p))
    pub unique : (i j p : ℕ) → owner (ps i) ≡ some p → owner (ps j) ≡ some p → i ≡ j
    pub saw : (i p : ℕ) → sighted (ps i) ≡ some p → p ≡ q.tail → q.tail < low q.head c + q.capacity
    pub note : (i p : ℕ) → noted (ps i) ≡ some p → p ≤ q.tail
    pub past : (p : ℕ) → p < low q.head c → p < q.sequence (slot q p)
    pub kept :
        (i p : ℕ) (v : A) → owner (ps i) ≡ some p → stored (ps i) ≡ some v → q.value (slot q p) ≡ v
    pub shown :
        (p : ℕ)
        → q.head ≤ p
        → p < q.tail
        → q.sequence (slot q p) ≡ p + 1
        → q.value (slot q p) ≡ log p
