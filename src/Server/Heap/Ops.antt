-- ===== src/Server/Heap/Ops.antt =====
-- Push, Pop, Remove and Fix of container/heap on the deadline heap.
use red_lease.Prelude.{
  ℕ, ◌+◌, ◌<◌, ◌≡◌, refl, ◌∙◌, ◌≢◌, ◌⊎◌, inl, inr, ◌==◌, if◌then◌else◌, arith, ℕ_discrete,
}
use red_lease.Server.Heap.{Heap, parent, append, up, push}
use red_lease.Server.Heap.Order.{IsHeap, UpInv, IsLinked, OnHeap}
use red_lease.Server.Heap.Up.{up_restores}

-- An address stands at one place only.
pub linked_injective :
    (h : Heap) → IsLinked h → (i j : ℕ) → i < h.len → j < h.len → h.slots i ≡ h.slots j → i ≡ j
linked_injective h l i j hi hj e = ground (arith, l i hi, l j hj)

module _ (deadline : ℕ → ℕ) where
  -- A heap in order, in which every object knows its place.
  pub record IsGood (h : Heap) : Type 0 where
    pub heap : IsHeap deadline h.len h
    pub linked : IsLinked h

  -- `g` is `h` and one more object.
  pub record Pushed (h : Heap) (p : ℕ) (g : Heap) : Type 0 where
    pub good : IsGood g
    pub size : g.len ≡ h.len + 1
    pub new : OnHeap g p
    pub into : (q : ℕ) → OnHeap h q → OnHeap g q
    pub back : (q : ℕ) → OnHeap g q → OnHeap h q ⊎ (q ≡ p)

  -- `g` is `h` without one of its objects.
  pub record Taken (h : Heap) (p : ℕ) (g : Heap) : Type 0 where
    pub good : IsGood g
    pub size : g.len + 1 ≡ h.len
    pub was : OnHeap h p
    pub gone : (i : ℕ) → i < g.len → g.slots i ≢ p
    pub into : (q : ℕ) → OnHeap h q → q ≢ p → OnHeap g q
    pub back : (q : ℕ) → OnHeap g q → OnHeap h q

  slots-append : (h : Heap) (p c : ℕ) → (append h p).slots c ≡ (if c == h.len then p else h.slots c)
  unfolding append
  slots-append h p c = refl

  len-append : (h : Heap) (p : ℕ) → (append h p).len ≡ h.len + 1
  unfolding append
  len-append h p = refl

  append-IsLinked :
      (h : Heap) (p : ℕ)
      → IsLinked h
      → ((i : ℕ) → i < h.len → h.slots i ≢ p)
      → IsLinked (append h p)
  unfolding append
  append-IsLinked h p l fresh i hi = ground (arith, l i, fresh i)

  append-UpInv :
      (h : Heap) (p : ℕ) → IsHeap deadline h.len h → UpInv deadline (h.len + 1) (append h p) h.len
  append-UpInv h p v = record {
    edges = λ c q r s. ground (arith, slots-append h p c, slots-append h p (parent c), v c q);
    bridged = λ c q r s t. absurd (omega arith);
  }

  -- Pushing an object that is not on a good heap (ordered by deadline, with right indices) gives a
  -- good heap with exactly that object more.
  pub push-Pushed :
      (h : Heap) (p : ℕ)
      → IsGood h
      → ((i : ℕ) → i < h.len → h.slots i ≢ p)
      → Pushed h p (push deadline h p)
  unfolding push
  push-Pushed h p v fresh =
      let a = append h p in
      let size = len-append h p in
      let (heap, kept) =
        up_restores deadline (h.len + 1) a h.len (omega arith) (omega (arith, size))
          (append-UpInv h p v.heap) in
      let grown : (up deadline a h.len).len ≡ h.len + 1 = kept.same_len ∙ size in
      record {
        good = record {
          heap = λ c q r. heap c q (omega arith);
          linked = kept.linked (append-IsLinked h p v.linked fresh);
        };
        size = grown;
        new = kept.into p (h.len, omega (arith, size), ground (arith, slots-append h p h.len));
        into = λ q (i, hi, e).
            kept.into q (i, omega (arith, size), ground (arith, slots-append h p i));
        back = λ q m. appended_back q (kept.back q m);
      }
    where
      appended_back : (q : ℕ) → OnHeap (append h p) q → OnHeap h q ⊎ (q ≡ p)
      appended_back q (i, hi, e) = elim (ℕ_discrete i h.len) [
        | yes s ↦ inr (ground (arith, slots-append h p i))
        | no s ↦ inl (i, omega (arith, len-append h p), ground (arith, slots-append h p i))
      ]
