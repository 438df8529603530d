-- ===== src/Server/Heap/Order.antt =====
-- What the deadline heap keeps: the order of deadlines, the back indices, and its members.
use red_lease.Prelude.{ℕ, ◌≤◌, ◌<◌, ◌≡◌, refl, ◌∙◌, ◌≢◌, some}
use red_lease.Server.Heap.{Heap, parent}

module _ (deadline : ℕ → ℕ) where
  abbrev pub due : Heap → ℕ → ℕ
  due h i = deadline (h.slots i)

  -- Among the first `n` entries a parent is due no later than its child.
  abbrev pub IsHeap : ℕ → Heap → Type 0
  IsHeap n h = (c : ℕ) → 0 < c → c < n → due h (parent c) ≤ due h c

  -- The edges past `i`, from its parent to its children.
  abbrev pub IsBridged : ℕ → Heap → ℕ → Type 0
  IsBridged n h i = (c : ℕ) → 0 < c → c < n → parent c ≡ i → 0 < i → due h (parent i) ≤ due h c

  -- Only the edges at `i` may be out of order.
  pub record Loose (n : ℕ) (h : Heap) (i : ℕ) : Type 0 where
    pub edges : (c : ℕ) → 0 < c → c < n → c ≢ i → parent c ≢ i → due h (parent c) ≤ due h c
    pub bridged : IsBridged n h i

  -- Only the edge above `i` may be out of order.
  pub record UpInv (n : ℕ) (h : Heap) (i : ℕ) : Type 0 where
    pub edges : (c : ℕ) → 0 < c → c < n → c ≢ i → due h (parent c) ≤ due h c
    pub bridged : IsBridged n h i

  -- Only the edges below `i` may be out of order.
  pub record DownInv (n : ℕ) (h : Heap) (i : ℕ) : Type 0 where
    pub edges : (c : ℕ) → 0 < c → c < n → parent c ≢ i → due h (parent c) ≤ due h c
    pub bridged : IsBridged n h i

-- Every object on the heap knows where it stands.
abbrev pub IsLinked : Heap → Type 0
IsLinked h = (i : ℕ) → i < h.len → h.heap_index (h.slots i) ≡ some i

-- The object at address `p` is on the heap.
abbrev pub OnHeap : Heap → ℕ → Type 0
OnHeap h p = (i : ℕ) × (i < h.len) × (h.slots i ≡ p)

-- `g` holds the objects of `h`, with the entries from `n` on where they were.
pub record Reorders (n : ℕ) (h g : Heap) : Type 0 where
  pub same_len : g.len ≡ h.len
  pub linked : IsLinked h → IsLinked g
  pub into : (p : ℕ) → OnHeap h p → OnHeap g p
  pub back : (p : ℕ) → OnHeap g p → OnHeap h p
  pub above : (c : ℕ) → n ≤ c → g.slots c ≡ h.slots c

pub Reorders-refl : (n : ℕ) (h : Heap) → Reorders n h h
Reorders-refl n h = record {
  same_len = refl;
  linked = λ l. l;
  into = λ p m. m;
  back = λ p m. m;
  above = λ c q. refl;
}

pub Reorders-trans : {n : ℕ} {h g k : Heap} → Reorders n h g → Reorders n g k → Reorders n h k
Reorders-trans r s = record {
  same_len = s.same_len ∙ r.same_len;
  linked = λ l. s.linked (r.linked l);
  into = λ p m. s.into p (r.into p m);
  back = λ p m. r.back p (s.back p m);
  above = λ c q. s.above c q ∙ r.above c q;
}
