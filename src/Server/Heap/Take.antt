-- ===== src/Server/Heap/Take.antt =====
-- Pop, Remove and Fix of container/heap on the deadline heap.
use red_lease.Prelude.{
  ℕ, ◌-◌, ◌<◌, ◌≡◌, refl, ap, sym, ◌∙◌, some, arith, lt→ltb, ℕ_discrete, ==-true, ==-false,
}
use red_lease.Server.Heap.{Heap, parent, swap, take_last, down, settle, pop, remove, fix}
use red_lease.Server.Heap.Order.{IsHeap, Loose, DownInv, IsLinked, Reorders, Reorders-refl}
use red_lease.Server.Heap.Swap.{slots-swap, len-swap, swap-Reorders}
use red_lease.Server.Heap.Down.{down_restores, settle_restores}
use red_lease.Server.Heap.Ops.{IsGood, Taken, linked_injective}

module _ (deadline : ℕ → ℕ) where
  take_last-Taken :
      (h g : Heap) (p : ℕ)
      → 0 < h.len
      → IsLinked h
      → g ≡ (take_last h).1
      → p ≡ h.slots (h.len - 1)
      → IsHeap deadline (h.len - 1) h
      → Taken deadline h p g
  unfolding take_last
  take_last-Taken h g p pos l e ep v =
      rw (e, ep)
        (record {
          good = record {
            heap = λ c q r. ground (arith, v c q r);
            linked = λ i hi. ground (arith, l i, l (h.len - 1));
          };
          size = omega arith;
          was = (h.len - 1, omega arith, refl);
          gone = λ i hi s. ground (arith, linked_injective h l i (h.len - 1));
          into = λ q (i, hi, s) ne. (i, ground arith, ground arith);
          back = λ q (i, hi, s). (i, omega arith, ground arith);
        })

  Reorders-Taken :
      {n : ℕ} {h k g : Heap} {p : ℕ} → Reorders n h k → Taken deadline k p g → Taken deadline h p g
  Reorders-Taken r t = record {
    good = t.good;
    size = t.size ∙ r.same_len;
    was = r.back _ t.was;
    gone = t.gone;
    into = λ q m ne. t.into q (r.into q m) ne;
    back = λ q m. r.back q (t.back q m);
  }

  -- The last entry of a heap that was put in order but for that entry.
  last-Taken :
      (h k : Heap) (p : ℕ)
      → 0 < h.len
      → IsLinked h
      → Reorders (h.len - 1) h k
      → IsHeap deadline (h.len - 1) k
      → p ≡ h.slots (h.len - 1)
      → ((take_last k).0 ≡ p) × Taken deadline h p (take_last k).1
  unfolding take_last
  last-Taken h k p pos l r v e =
      let same = r.same_len in
      let stays : k.slots (k.len - 1) ≡ p = rw same (r.above (h.len - 1) (omega arith) ∙ sym e) in
      (
        stays,
        Reorders-Taken r (
            take_last-Taken k (take_last k).1 p (omega arith) (r.linked l) refl (sym stays)
              (rw same v)),
      )

  root-DownInv :
      (h : Heap)
      → 0 < h.len
      → IsHeap deadline h.len h
      → DownInv deadline (h.len - 1) (swap h 0 (h.len - 1)) 0
  root-DownInv h pos v =
      let at = slots-swap h 0 (h.len - 1) in
      record {
        edges = λ c q r s. ground (arith, at c, at (parent c), v c q);
        bridged = λ c q r s t. absurd (omega arith);
      }

  slot-Loose :
      (h : Heap) (i : ℕ)
      → i < h.len
      → IsHeap deadline h.len h
      → Loose deadline (h.len - 1) (swap h i (h.len - 1)) i
  slot-Loose h i hi v =
      let at = slots-swap h i (h.len - 1) in
      record {
        edges = λ c q r s t. ground (arith, at c, at (parent c), v c q);
        bridged = λ c q r s t. ground (arith, at c, at (parent i), v c q, v i);
      }

  -- Popping a nonempty good heap does not panic, returns the object at the root, and leaves a good
  -- heap with exactly that object less.
  pub pop-Taken :
      (h : Heap)
      → 0 < h.len
      → IsGood deadline h
      → (g : Heap) × (pop deadline h ≡ some (h.slots 0, g)) × Taken deadline h (h.slots 0) g
  unfolding pop swap
  pop-Taken h pos v =
      let n = h.len - 1 in
      let s = swap h 0 n in
      let once = swap-Reorders h 0 n pos (omega arith) h.len pos (omega arith) in
      let (heap, kept) =
        down_restores deadline n s (omega (arith, len-swap h 0 n)) (omega (arith, len-swap h 0 n))
          (root-DownInv h pos v.heap) in
      let size = len-swap h 0 n in
      let (same, taken) =
        last-Taken s (down deadline s 0 n).0 (h.slots 0) (omega arith) (once.linked v.linked)
          (rw size kept) (rw size heap) (ground (arith, slots-swap h 0 n n)) in
      (
        (take_last (down deadline s 0 n).0).1,
        rw (lt→ltb 0 h.len pos) (ap some (λ i. (same i, (take_last (down deadline s 0 n).0).1))),
        Reorders-Taken once taken,
      )

  -- Removing an index in range from a good heap does not panic, returns the object at that index,
  -- and leaves a good heap with exactly that object less.
  pub remove-Taken :
      (h : Heap) (i : ℕ)
      → i < h.len
      → IsGood deadline h
      → (g : Heap) × (remove deadline h i ≡ some (h.slots i, g)) × Taken deadline h (h.slots i) g
  unfolding remove swap
  remove-Taken h i hi v = elim (ℕ_discrete (h.len - 1) i) [
    | yes e ↦
        let (same, taken) =
          last-Taken h h (h.slots i) (omega arith) v.linked (Reorders-refl (h.len - 1) h)
            (λ c q r. v.heap c q (omega arith)) (ap h.slots (sym e)) in
        (
          (take_last h).1,
          rw (lt→ltb i h.len hi, ==-true (h.len - 1) i e)
              (ap some (λ j. (same j, (take_last h).1))),
          taken,
        )
    | no e ↦
        let n = h.len - 1 in
        let s = swap h i n in
        let size = len-swap h i n in
        let once = swap-Reorders h i n hi (omega arith) h.len hi (omega arith) in
        let (heap, kept) =
          settle_restores deadline n s i (omega arith) (omega arith) (slot-Loose h i hi v.heap) in
        let (same, taken) =
          last-Taken s (settle deadline s i n) (h.slots i) (omega arith) (once.linked v.linked)
            (rw size kept) (rw size heap) (ground (arith, slots-swap h i n n)) in
        (
          (take_last (settle deadline s i n)).1,
          rw (lt→ltb i h.len hi, ==-false n i e)
              (ap some (λ j. (same j, (take_last (settle deadline s i n)).1))),
          Reorders-Taken once taken,
        )
  ]

  -- After its deadline changed, an entry finds its place.
  pub fix-IsGood :
      (h : Heap) (i : ℕ)
      → i < h.len
      → IsLinked h
      → Loose deadline h.len h i
      → (g : Heap) × (fix deadline h i ≡ some g) × IsGood deadline g × Reorders h.len h g
  unfolding fix
  fix-IsGood h i hi l v =
      let (heap, kept) = settle_restores deadline h.len h i hi (omega arith) v in
      (
        settle deadline h i h.len,
        rw (lt→ltb i h.len hi),
        record { heap = rw (kept.same_len) heap; linked = kept.linked l },
        kept,
      )
