-- ===== src/Server/Shard/Inv.antt =====
-- The invariant of a shard: the map and the heap hold the same objects.
use red_lease.Prelude.{ℕ, zero, suc, ◌≤◌, ◌<◌, ◌≡◌, sym, ◌∙◌, ◌≢◌, some, List, [], ◌∷◌, All, arith}
use red_lease.Server.Heap.{Heap, parent}
use red_lease.Server.Heap.Order.{due, IsHeap, OnHeap}
use red_lease.Server.Heap.Ops.{IsGood}
use red_lease.Server.Shard.{Shard}

-- The objects of the pool are allocated, distinct and not on the heap.
abbrev pub IsPool : Heap → ℕ → List ℕ → Type 0
IsPool h allocated [] = Unit
IsPool h allocated (p ∷ ps) =
    ((i : ℕ) → i < h.len → h.slots i ≢ p)
    × (p ≤ allocated)
    × All (λ q. q ≢ p) ps
    × IsPool h allocated ps

pub record ShardInv (s : Shard) : Type 0 where
  pub good : IsGood s.deadline s.deadlines
  pub resident :
      (i : ℕ)
      → i < s.deadlines.len
      → s.leases (s.key (s.deadlines.slots i)) ≡ some (s.deadlines.slots i)
  pub indexed : (k p : ℕ) → s.leases k ≡ some p → OnHeap s.deadlines p × (s.key p ≡ k)
  pub bounded : (i : ℕ) → i < s.deadlines.len → s.deadlines.slots i ≤ s.allocated
  pub pooled : IsPool s.deadlines s.allocated s.pool

-- The pool stays one while the heap gains nothing.
pub IsPool-mono :
    (h g : Heap) (a b : ℕ) (ps : List ℕ)
    → ((p : ℕ) → OnHeap g p → OnHeap h p)
    → a ≤ b
    → IsPool h a ps
    → IsPool g b ps
IsPool-mono h g a b [] back le v = tt
IsPool-mono h g a b (p ∷ ps) back le v = (
  (λ i hi e. let (j, hj, ej) = back p (i, hi, e) in v.0 j hj ej),
  omega arith,
  v.2,
  IsPool-mono h g a b ps back le v.3,
)

-- What the pool does not hold may be on the heap as well.
pub IsPool-add :
    (h g : Heap) (a b q : ℕ) (ps : List ℕ)
    → ((p : ℕ) → OnHeap g p → p ≢ q → OnHeap h p)
    → a ≤ b
    → All (λ p. p ≢ q) ps
    → IsPool h a ps
    → IsPool g b ps
IsPool-add h g a b q [] back le out v = tt
IsPool-add h g a b q (p ∷ ps) back le out v = (
  (λ i hi e. let (j, hj, ej) = back p (i, hi, e) (out.0) in v.0 j hj ej),
  omega arith,
  v.2,
  IsPool-add h g a b q ps back le out.1 v.3,
)

-- An object on the heap is not in the pool.
pub pool-excludes :
    (h : Heap) (a q : ℕ) (ps : List ℕ) → OnHeap h q → IsPool h a ps → All (λ p. p ≢ q) ps
pool-excludes h a q [] m v = tt
pool-excludes h a q (p ∷ ps) m v = ((λ e. v.0 m.0 m.1 (m.2 ∙ sym e)), pool-excludes h a q ps m v.3)

-- A number above all allocated addresses is in no pool.
pub pool-fresh : (h : Heap) (a q : ℕ) (ps : List ℕ) → a < q → IsPool h a ps → All (λ p. p ≢ q) ps
pool-fresh h a q [] lt v = tt
pool-fresh h a q (p ∷ ps) lt v = (omega arith, pool-fresh h a q ps lt v.3)

module _ (d e : ℕ → ℕ) (h : Heap) (same : (i : ℕ) → i < h.len → e (h.slots i) ≡ d (h.slots i)) where
  -- The order depends on the deadlines of the objects on the heap only.
  pub IsGood-agree : IsGood d h → IsGood e h
  IsGood-agree v = record {
    heap = λ c q r. ground (arith, v.heap c q r, same c r, same (parent c));
    linked = v.linked;
  }

-- The root is due first.
root_least_below :
    (d : ℕ → ℕ) (h : Heap) (fuel i : ℕ)
    → IsHeap d h.len h
    → i < fuel
    → i < h.len
    → due d h 0 ≤ due d h i
root_least_below d h zero i v f p = absurd (omega arith)
root_least_below d h (suc fuel) i v f p =
    ground (arith, v i, root_least_below d h fuel (parent i) v)

pub root_least :
    (d : ℕ → ℕ) (h : Heap) (i : ℕ) → IsHeap d h.len h → i < h.len → due d h 0 ≤ due d h i
root_least d h i v p = root_least_below d h (suc i) i v (omega arith) p
