-- ===== src/Server/Heap/Swap.antt =====
-- The method Swap of leaseDeadlineHeap.
use red_lease.Prelude.{ℕ, ◌<◌, ◌≡◌, refl, arith, ◌==◌, if◌then◌else◌, ℕ_discrete}
use red_lease.Server.Heap.{Heap, swap}
use red_lease.Server.Heap.Order.{IsLinked, OnHeap, Reorders}

-- The contents after a swap.
pub slots-swap :
    (h : Heap) (i j c : ℕ)
    → (swap h i j).slots c ≡ (if c == j then h.slots i else if c == i then h.slots j else h.slots c)
unfolding swap
slots-swap h i j c = refl

pub len-swap : (h : Heap) (i j : ℕ) → (swap h i j).len ≡ h.len
unfolding swap
len-swap h i j = refl

module _ (h : Heap) (i j : ℕ) (hi : i < h.len) (hj : j < h.len) where
  swap-IsLinked : IsLinked h → IsLinked (swap h i j)
  unfolding swap
  swap-IsLinked l c hc = ground (arith, l c hc, l i hi, l j hj)

  swap-into : (p : ℕ) → OnHeap h p → OnHeap (swap h i j) p
  swap-into p (c, hc, e) = elim (ℕ_discrete c i) [
    | yes ci ↦ (j, omega (arith, len-swap h i j), ground (arith, slots-swap h i j j))
    | no ci ↦ elim (ℕ_discrete c j) [
      | yes cj ↦ (i, omega (arith, len-swap h i j), ground (arith, slots-swap h i j i))
      | no cj ↦ (c, omega (arith, len-swap h i j), ground (arith, slots-swap h i j c))
    ]
  ]

  swap-back : (p : ℕ) → OnHeap (swap h i j) p → OnHeap h p
  swap-back p (c, hc, e) = elim (ℕ_discrete c j) [
    | yes cj ↦ (i, hi, ground (arith, slots-swap h i j c))
    | no cj ↦ elim (ℕ_discrete c i) [
      | yes ci ↦ (j, hj, ground (arith, slots-swap h i j c))
      | no ci ↦ (c, omega (arith, len-swap h i j), ground (arith, slots-swap h i j c))
    ]
  ]

  pub swap-Reorders : (n : ℕ) → i < n → j < n → Reorders n h (swap h i j)
  swap-Reorders n p q = record {
    same_len = len-swap h i j;
    linked = swap-IsLinked;
    into = swap-into;
    back = swap-back;
    above = λ c r. ground (arith, slots-swap h i j c);
  }
