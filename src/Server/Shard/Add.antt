-- ===== src/Server/Shard/Add.antt =====
-- addLease of server/state.go.
use red_lease.Prelude.{
  ℕ, ◌+◌, ◌≤◌, ◌<◌, ◌≡◌, refl, ap, ◌∙◌, ◌≢◌, ◌⊎◌, inl, inr, none, some, List, [], ◌∷◌, All, arith,
  ◌==◌, if◌then◌else◌, update, ℕ_discrete, Option-cases,
}
use red_lease.Server.Heap.{Heap}
use red_lease.Server.Heap
use red_lease.Server.Heap.Order.{OnHeap}
use red_lease.Server.Heap.Ops.{IsGood, Pushed, push-Pushed}
use red_lease.Server.Shard.{Shard, LeaseId, lookup, get_object, place, add_lease}
use red_lease.Server.Shard.Inv.{ShardInv, IsPool, IsPool-add, IsGood-agree}

-- `p` is an object that is in no use, and the table is as before.
record Got (s : Shard) (p : ℕ) (t : Shard) : Type 0 where
  inv : ShardInv t
  unused : (i : ℕ) → i < t.deadlines.len → t.deadlines.slots i ≢ p
  apart : All (λ q. q ≢ p) t.pool
  known : p ≤ t.allocated
  same_leases : t.leases ≡ s.leases
  same_heap : t.deadlines ≡ s.deadlines
  same_table : (k : ℕ) → lookup t k ≡ lookup s k

get_object_from :
    (s : Shard) (ps : List ℕ) → s.pool ≡ ps → ShardInv s → Got s (get_object s).0 (get_object s).1
unfolding get_object
get_object_from s [] e v =
    rw (e, get_object)
      (record {
        inv = record {
          good = v.good;
          resident = v.resident;
          indexed = v.indexed;
          bounded = λ i hi. omega (arith, v.bounded i hi);
          pooled = rw e tt;
        };
        unused = λ i hi eq. absurd (omega (arith, v.bounded i hi));
        apart = rw e tt;
        known = omega arith;
        same_leases = refl;
        same_heap = refl;
        same_table = λ k. refl;
      })
get_object_from s (p ∷ ps) e v =
    let pooled : IsPool s.deadlines s.allocated (p ∷ ps) = rw e at v.pooled in
    rw (e, get_object)
      (record {
        inv = record {
          good = v.good;
          resident = v.resident;
          indexed = v.indexed;
          bounded = v.bounded;
          pooled = pooled.3;
        };
        unused = pooled.0;
        apart = pooled.2;
        known = pooled.1;
        same_leases = refl;
        same_heap = refl;
        same_table = λ k. refl;
      })

module _ (s : Shard) (p k : ℕ) (id : LeaseId) (deadline : ℕ) (v : ShardInv s)
    (unused : (i : ℕ) → i < s.deadlines.len → s.deadlines.slots i ≢ p)
    (vacant : s.leases k ≡ none) where
  abbrev due : ℕ → ℕ
  due = update s.deadline p deadline

  abbrev cleared : Heap
  cleared = record (s.deadlines) { heap_index = update s.deadlines.heap_index p none }

  cleared-IsGood : IsGood due cleared
  cleared-IsGood =
      let agreed =
        IsGood-agree s.deadline due s.deadlines (λ i hi. ground (arith, unused i hi)) v.good in
      record {
        heap = agreed.heap;
        linked = λ i hi. ground (arith, unused i hi, v.good.linked i hi);
      }

  pushed : Pushed due cleared p (Heap.push due cleared p)
  pushed = push-Pushed due cleared p cleared-IsGood unused

  not_new : (q : ℕ) → OnHeap cleared q → q ≢ p
  not_new q (i, hi, e) eq = unused i hi (e ∙ eq)

  place-resident :
      (q : ℕ)
      → OnHeap (Heap.push due cleared p) q
      → (place s p k id deadline).leases ((place s p k id deadline).key q) ≡ some q
  unfolding place
  place-resident q m = elim (pushed.back q m) [ inl old ↦ held old | inr e ↦ ground arith ]
    where
      held : OnHeap cleared q → update s.leases k (some p) (update s.key p k q) ≡ some q
      held (i, hi, e) =
          let there : s.leases (s.key q) ≡ some q = ground (arith, v.resident i hi) in
          ground (arith, not_new q (i, hi, e))

  place-indexed :
      (j q : ℕ)
      → (place s p k id deadline).leases j ≡ some q
      → OnHeap (Heap.push due cleared p) q × ((place s p k id deadline).key q ≡ j)
  unfolding place
  place-indexed j q e = elim (ℕ_discrete j k) [
    | yes same ↦ let eq : q ≡ p = ground arith in (rw eq pushed.new, ground arith)
    | no other ↦
        let (m, kq) = v.indexed j q (ground arith) in (pushed.into q m, ground (arith, not_new q m))
  ]

  place-Inv : All (λ q. q ≢ p) s.pool → p ≤ s.allocated → ShardInv (place s p k id deadline)
  unfolding place
  place-Inv apart known = record {
    good = pushed.good;
    resident = λ i hi. place-resident _ (i, hi, refl);
    indexed = place-indexed;
    bounded = λ i hi. known_slot i (pushed.back _ (i, hi, refl));
    pooled =
        IsPool-add s.deadlines (Heap.push due cleared p) s.allocated s.allocated p s.pool
          (λ q m ne. older q ne (pushed.back q m)) (omega arith) apart v.pooled;
  }
    where
      known_slot :
          (i : ℕ)
          → OnHeap cleared ((Heap.push due cleared p).slots i)
            ⊎ ((Heap.push due cleared p).slots i ≡ p)
          → (Heap.push due cleared p).slots i ≤ s.allocated
      known_slot i (inl (j, hj, e)) = omega (arith, v.bounded j hj)
      known_slot i (inr e) = omega arith

      older : (q : ℕ) → q ≢ p → OnHeap cleared q ⊎ (q ≡ p) → OnHeap s.deadlines q
      older q ne (inl m) = m
      older q ne (inr e) = absurd (ne e)

  lookup-place :
      (j : ℕ)
      → lookup (place s p k id deadline) j
        ≡ (if j == k then some (record { id = id; deadline = deadline }) else lookup s j)
  unfolding place
  lookup-place j = elim (ℕ_discrete j k) [
    | yes same ↦ ground arith
    | no other ↦ elim (Option-cases (s.leases j)) [
      | inl e ↦ ground arith
      | inr (q, e) ↦ ground (arith, not_new q (v.indexed j q e).0)
    ]
  ]

-- The lease is entered, and nothing else changes.
pub record Added (s : Shard) (k : ℕ) (id : LeaseId) (deadline : ℕ) (t : Shard) : Type 0 where
  pub inv : ShardInv t
  pub table :
      (j : ℕ)
      → lookup t j ≡ (if j == k then some (record { id = id; deadline = deadline }) else lookup s j)
  pub size : t.deadlines.len ≡ s.deadlines.len + 1

-- Adding a lease under a key that the shard does not have keeps the invariant, enters exactly that
-- lease, changes no other key and grows the heap by one.
pub add_lease-Added :
    (s : Shard) (k : ℕ) (id : LeaseId) (deadline : ℕ)
    → ShardInv s
    → s.leases k ≡ none
    → Added s k id deadline (add_lease s k id deadline)
unfolding add_lease
add_lease-Added s k id deadline v vacant =
    let got = get_object_from s s.pool refl v in
    let p = (get_object s).0 in
    let t = (get_object s).1 in
    let free : t.leases k ≡ none = rw got.same_leases vacant in
    record {
      inv = place-Inv t p k id deadline got.inv got.unused free got.apart got.known;
      table = λ j.
          lookup-place t p k id deadline got.inv got.unused free j
          ∙ ap (λ r. if j == k then some (record { id = id; deadline = deadline }) else r)
              (got.same_table j);
      size =
          (pushed t p k id deadline got.inv got.unused free).size
          ∙ ap (λ (h : Heap). h.len + 1) got.same_heap;
    }
