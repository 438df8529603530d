-- ===== src/Server/Heap/Down.antt =====
-- `down` of container/heap, and `down` followed by `up` where nothing moved.
use red_lease.Prelude.{
  ℕ, zero, suc, ◌+◌, ◌-◌, ◌*◌, ◌≤◌, ◌<◌, ◌≡◌, refl, ◌⊎◌, true, false, not, ◌||◌, inl, inr, leb,
  arith, Bool-cases, ltb-false, lt→ltb,
}
use red_lease.Server.Heap.{Heap, parent, less, swap, smaller_child, down_loop, down, settle, up}
use red_lease.Server.Heap.Order.{
  due, IsHeap, Loose, DownInv, Reorders, Reorders-refl, Reorders-trans,
}
use red_lease.Server.Heap.Swap.{slots-swap, len-swap, swap-Reorders}
use red_lease.Server.Heap.Up.{up_restores}

module _ (deadline : ℕ → ℕ) where
  -- `m` is the child of `i` that is due first.
  record IsSmallerChild (n : ℕ) (h : Heap) (i m : ℕ) : Type 0 where
    inside : m < n
    child : (m ≡ 2 * i + 1) ⊎ (m ≡ 2 * i + 2)
    least : (c : ℕ) → 0 < c → c < n → parent c ≡ i → due deadline h m ≤ due deadline h c

  smaller_child-IsSmallerChild :
      (n : ℕ) (h : Heap) (i : ℕ)
      → 2 * i + 1 < n
      → IsSmallerChild n h i (smaller_child deadline h n i)
  unfolding smaller_child less
  smaller_child-IsSmallerChild n h i p = grind arith

  -- One round: the test of the loop, read as facts.
  stops :
      (n : ℕ) (h : Heap) (i : ℕ)
      → (leb n (2 * i + 1) || not (less deadline h (smaller_child deadline h n i) i)) ≡ true
      → (n ≤ 2 * i + 1) ⊎ (due deadline h i ≤ due deadline h (smaller_child deadline h n i))
  unfolding less
  stops n h i e = ground arith

  goes :
      (n : ℕ) (h : Heap) (i : ℕ)
      → (leb n (2 * i + 1) || not (less deadline h (smaller_child deadline h n i) i)) ≡ false
      → (2 * i + 1 < n) × (due deadline h (smaller_child deadline h n i) < due deadline h i)
  unfolding less
  goes n h i e = ground arith

  children_fine :
      (n : ℕ) (h : Heap) (i c : ℕ)
      → (leb n (2 * i + 1) || not (less deadline h (smaller_child deadline h n i) i)) ≡ true
      → 0 < c
      → c < n
      → parent c ≡ i
      → due deadline h i ≤ due deadline h c
  children_fine n h i c e p q r = elim (stops n h i e) [
    | inl out ↦ absurd (omega arith)
    | inr le ↦
        let s = smaller_child-IsSmallerChild n h i (omega arith) in omega (arith, s.least c p q r)
  ]

  swap-DownInv :
      (n : ℕ) (h : Heap) (i m : ℕ)
      → Loose deadline n h i
      → IsSmallerChild n h i m
      → due deadline h m < due deadline h i
      → DownInv deadline n (swap h i m) m
  swap-DownInv n h i m v s below =
      let at = slots-swap h i m in
      record {
        edges = λ c p q r.
            ground (arith, at c, at (parent c), v.edges c p q, v.bridged m, s.least c p q);
        bridged = λ c p q r t. ground (arith, at c, at (parent m), v.edges c p q);
      }

  DownInv-Loose : {n : ℕ} {h : Heap} {i : ℕ} → DownInv deadline n h i → Loose deadline n h i
  DownInv-Loose v = record { edges = λ c p q r s. v.edges c p q s; bridged = v.bridged }

  down_loop_restores :
      (fuel n : ℕ) (h : Heap) (i : ℕ)
      → n - i < fuel
      → i < h.len
      → n ≤ h.len
      → DownInv deadline n h i
      → IsHeap deadline n (down_loop deadline fuel n h i).0
        × Reorders n h (down_loop deadline fuel n h i).0
        × (i ≤ (down_loop deadline fuel n h i).1)
  unfolding down_loop
  down_loop_restores zero n h i f hi hn v = absurd (omega arith)
  down_loop_restores (suc fuel) n h i f hi hn v =
      let m = smaller_child deadline h n i in
      elim (Bool-cases (leb n (2 * i + 1) || not (less deadline h m i))) [
        | inl e ↦
            rw (e, down_loop)
              (
                λ c p q. ground (arith, v.edges c p q, children_fine n h i c e p q),
                Reorders-refl n h,
                omega arith,
              )
        | inr e ↦
            let (in_range, below) = goes n h i e in
            let s = smaller_child-IsSmallerChild n h i in_range in
            let hm : m < h.len = omega (arith, s.inside) in
            let once = swap-Reorders h i m hi hm n (omega arith) s.inside in
            let further : i < m = omega (arith, s.child) in
            let (heap, rest, later) =
              down_loop_restores fuel n (swap h i m) m (omega arith) (omega (arith, len-swap h i m))
                (omega (arith, len-swap h i m)) (swap-DownInv n h i m (DownInv-Loose v) s below) in
            rw (e, down_loop) (heap, Reorders-trans once rest, omega arith)
      ]

  -- From a heap whose root alone may be due too late, `down` makes a heap of the same objects.
  pub down_restores :
      (n : ℕ) (h : Heap)
      → 0 < h.len
      → n ≤ h.len
      → DownInv deadline n h 0
      → IsHeap deadline n (down deadline h 0 n).0 × Reorders n h (down deadline h 0 n).0
  unfolding down
  down_restores n h hi hn v =
      let (heap, kept, _) = down_loop_restores (suc n) n h 0 (omega arith) hi hn v in (heap, kept)

  settle_stays :
      (n : ℕ) (h : Heap) (i : ℕ)
      → (leb n (2 * i + 1) || not (less deadline h (smaller_child deadline h n i) i)) ≡ true
      → settle deadline h i n ≡ up deadline h i
  unfolding settle down down_loop
  settle_stays n h i e = rw (e, down_loop) (rw (ltb-false i i (omega arith)))

  settle_moves :
      (n : ℕ) (h : Heap) (i m : ℕ)
      → (leb n (2 * i + 1) || not (less deadline h (smaller_child deadline h n i) i)) ≡ false
      → m ≡ smaller_child deadline h n i
      → i < (down_loop deadline n n (swap h i m) m).1
      → settle deadline h i n ≡ (down_loop deadline n n (swap h i m) m).0
  unfolding settle down down_loop
  settle_moves n h i m e em p = rw (e, down_loop) (rw (← em, lt→ltb _ _ p))

  -- An entry whose deadline changed finds its place, whichever way it has to go.
  pub settle_restores :
      (n : ℕ) (h : Heap) (i : ℕ)
      → i < n
      → n ≤ h.len
      → Loose deadline n h i
      → IsHeap deadline n (settle deadline h i n) × Reorders n h (settle deadline h i n)
  settle_restores n h i hi hn v =
      let m = smaller_child deadline h n i in
      elim (Bool-cases (leb n (2 * i + 1) || not (less deadline h m i))) [
        | inl e ↦ rw (settle_stays n h i e) (
            up_restores deadline n h i hi hn (record {
              edges = λ c p q r. ground (arith, v.edges c p q r, children_fine n h i c e p q);
              bridged = v.bridged;
            }))
        | inr e ↦
            let (in_range, below) = goes n h i e in
            let s = smaller_child-IsSmallerChild n h i in_range in
            let hm : m < h.len = omega (arith, s.inside) in
            let once = swap-Reorders h i m (omega arith) hm n hi s.inside in
            let further : i < m = omega (arith, s.child) in
            let (heap, rest, later) =
              down_loop_restores n n (swap h i m) m (omega arith) (omega (arith, len-swap h i m))
                (omega (arith, len-swap h i m)) (swap-DownInv n h i m v s below) in
            rw (settle_moves n h i m e refl (omega arith)) (heap, Reorders-trans once rest)
      ]
