-- ===== src/Server/Heap/Up.antt =====
-- `up` of container/heap: an entry that is due too early for its place rises.
use red_lease.Prelude.{
  ℕ, zero, suc, ◌+◌, ◌≤◌, ◌<◌, ◌≡◌, true, false, not, ◌||◌, ◌==◌, inl, inr, arith, Bool-cases,
}
use red_lease.Server.Heap.{Heap, parent, less, swap, up_loop, up}
use red_lease.Server.Heap.Order.{due, IsHeap, UpInv, Reorders, Reorders-refl, Reorders-trans}
use red_lease.Server.Heap.Swap.{slots-swap, len-swap, swap-Reorders}

module _ (deadline : ℕ → ℕ) where
  stops :
      (h : Heap) (j : ℕ)
      → (parent j == j || not (less deadline h j (parent j))) ≡ true
      → 0 < j
      → due deadline h (parent j) ≤ due deadline h j
  unfolding less
  stops h j e p = ground arith

  goes :
      (h : Heap) (j : ℕ)
      → (parent j == j || not (less deadline h j (parent j))) ≡ false
      → (0 < j) × (due deadline h j < due deadline h (parent j))
  unfolding less
  goes h j e = ground arith

  settled :
      (n : ℕ) (h : Heap) (j : ℕ)
      → UpInv deadline n h j
      → (0 < j → due deadline h (parent j) ≤ due deadline h j)
      → IsHeap deadline n h
  settled n h j v above c p q = grind (arith, v.edges c p q)

  swap-UpInv :
      (n : ℕ) (h : Heap) (j : ℕ)
      → UpInv deadline n h j
      → 0 < j
      → due deadline h j < due deadline h (parent j)
      → UpInv deadline n (swap h (parent j) j) (parent j)
  swap-UpInv n h j v pos below =
      let at = slots-swap h (parent j) j in
      record {
        edges = λ c p q r. ground (arith, at c, at (parent c), v.edges c p q, v.bridged c p q);
        bridged = λ c p q r s.
            ground (arith, at c, at (parent (parent j)), v.edges c p q, v.edges (parent j));
      }

  up_loop_restores :
      (fuel n : ℕ) (h : Heap) (j : ℕ)
      → j < fuel
      → j < n
      → n ≤ h.len
      → UpInv deadline n h j
      → IsHeap deadline n (up_loop deadline fuel h j) × Reorders n h (up_loop deadline fuel h j)
  unfolding up_loop
  up_loop_restores zero n h j f hj hn v = absurd (omega arith)
  up_loop_restores (suc fuel) n h j f hj hn v =
      elim (Bool-cases (parent j == j || not (less deadline h j (parent j)))) [
        | inl e ↦ rw (e, up_loop) (settled n h j v (stops h j e), Reorders-refl n h)
        | inr e ↦
            let (pos, below) = goes h j e in
            let once =
              swap-Reorders h (parent j) j (omega arith) (omega arith) n (omega arith) hj in
            let (heap, rest) =
              up_loop_restores fuel n (swap h (parent j) j) (parent j) (omega arith) (omega arith)
                (omega (arith, len-swap h (parent j) j)) (swap-UpInv n h j v pos below) in
            rw (e, up_loop) (heap, Reorders-trans once rest)
      ]

  -- Moving the entry up restores the order and keeps the objects.
  pub up_restores :
      (n : ℕ) (h : Heap) (j : ℕ)
      → j < n
      → n ≤ h.len
      → UpInv deadline n h j
      → IsHeap deadline n (up deadline h j) × Reorders n h (up deadline h j)
  unfolding up
  up_restores n h j hj hn v = up_loop_restores (j + 1) n h j (omega arith) hj hn v
