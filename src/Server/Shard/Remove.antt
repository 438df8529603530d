-- ===== src/Server/Shard/Remove.antt =====
-- removeLease and recycleLease of server/state.go, and one round of removeExpiredLeases.
use red_lease.Prelude.{
  ℕ, ◌+◌, ◌≤◌, ◌<◌, ◌≡◌, refl, ◌≢◌, none, some, arith, ◌==◌, if◌then◌else◌, update, ℕ_discrete,
  Option-cases, inl, inr, subst,
}
use red_lease.Server.Heap.{Heap}
use red_lease.Server.Heap.Order.{OnHeap}
use red_lease.Server.Heap.Ops.{IsGood, Taken}
use red_lease.Server.Heap.Take.{pop-Taken, remove-Taken}
use red_lease.Server.Shard.{Shard, lookup, recycle_lease, remove_at, remove_lease, drop_root}
use red_lease.Server.Shard.Inv.{ShardInv, IsPool-mono, IsGood-agree, pool-excludes}

-- One key is gone from the table, and nothing else changed.
pub record Dropped (s : Shard) (k : ℕ) (t : Shard) : Type 0 where
  pub inv : ShardInv t
  pub table : (j : ℕ) → lookup t j ≡ (if j == k then none else lookup s j)
  pub size : t.deadlines.len + 1 ≡ s.deadlines.len

module _ (s : Shard) (p : ℕ) (g : Heap) (v : ShardInv s)
    (taken : Taken s.deadline s.deadlines p g) where
  abbrev dropped : Shard
  dropped = record s { deadlines = g; leases = update s.leases (s.key p) none }

  entered : (q : ℕ) → OnHeap s.deadlines q → s.leases (s.key q) ≡ some q
  entered q (i, hi, e) = ground (arith, v.resident i hi)

  other_key : (q : ℕ) → OnHeap s.deadlines q → q ≢ p → s.key q ≢ s.key p
  other_key q m ne = ground (arith, entered q m, entered p taken.was)

  recycle-IsGood : IsGood (recycle_lease dropped p).deadline (recycle_lease dropped p).deadlines
  unfolding recycle_lease
  recycle-IsGood =
      let agreed =
        IsGood-agree s.deadline (update s.deadline p 0) g (λ i hi. ground (arith, taken.gone i hi))
          taken.good in
      record {
        heap = agreed.heap;
        linked = λ i hi. ground (arith, taken.gone i hi, taken.good.linked i hi);
      }

  recycle-resident :
      (q : ℕ)
      → OnHeap s.deadlines q
      → q ≢ p
      → (recycle_lease dropped p).leases ((recycle_lease dropped p).key q) ≡ some q
  unfolding recycle_lease
  recycle-resident q m ne = ground (arith, entered q m, other_key q m ne)

  recycle-indexed :
      (j q : ℕ)
      → (recycle_lease dropped p).leases j ≡ some q
      → OnHeap g q × ((recycle_lease dropped p).key q ≡ j)
  unfolding recycle_lease
  recycle-indexed j q e =
      let (m, kq) = v.indexed j q (ground arith) in
      let ne : q ≢ p = λ eq. ground arith in (taken.into q m ne, ground arith)

  recycle-Inv : ShardInv (recycle_lease dropped p)
  unfolding recycle_lease
  recycle-Inv = record {
    good = recycle-IsGood;
    resident = λ i hi.
        recycle-resident (g.slots i) (taken.back (g.slots i) (i, hi, refl)) (taken.gone i hi);
    indexed = recycle-indexed;
    bounded = λ i hi. old_bound (g.slots i) (taken.back (g.slots i) (i, hi, refl));
    pooled = (
      taken.gone,
      old_bound p taken.was,
      pool-excludes s.deadlines s.allocated p s.pool taken.was v.pooled,
      IsPool-mono s.deadlines (recycle_lease dropped p).deadlines s.allocated s.allocated s.pool
          taken.back (omega arith) v.pooled,
    );
  }
    where
      old_bound : (q : ℕ) → OnHeap s.deadlines q → q ≤ s.allocated
      old_bound q (i, hi, e) = omega (arith, v.bounded i hi)

  lookup-recycle :
      (j : ℕ) → lookup (recycle_lease dropped p) j ≡ (if j == s.key p then none else lookup s j)
  unfolding recycle_lease
  lookup-recycle j = elim (ℕ_discrete j (s.key p)) [
    | yes same ↦ ground arith
    | no other ↦ elim (Option-cases (s.leases j)) [
      | inl e ↦ ground arith
      | inr (q, e) ↦
          let (m, kq) = v.indexed j q e in let ne : q ≢ p = λ eq. ground arith in ground arith
    ]
  ]

  recycle-Dropped : Dropped s (s.key p) (recycle_lease dropped p)
  unfolding recycle_lease
  recycle-Dropped = record { inv = recycle-Inv; table = lookup-recycle; size = taken.size }

-- Removing the object of a key of a shard with the invariant does not panic, keeps the invariant,
-- and removes exactly that key.
pub remove_lease-Dropped :
    (s : Shard) (k p : ℕ)
    → ShardInv s
    → s.leases k ≡ some p
    → (t : Shard) × (remove_lease s p ≡ some t) × Dropped s k t
unfolding remove_lease
remove_lease-Dropped s k p v e =
    let ((i, hi, ei), kp) = v.indexed k p e in
    let (g, eg, taken) = remove-Taken s.deadline s.deadlines i hi v.good in
    let at : s.deadlines.heap_index p ≡ some i = rw (← ei) (v.good.linked i hi) in
    let taken' : Taken s.deadline s.deadlines p g = rw ei at taken in
    (
      recycle_lease (dropped s p g v taken') p,
      rw (at, remove_at) (rw (eg, remove_at)),
      subst (λ j. Dropped s j (recycle_lease (dropped s p g v taken') p)) kp
          (recycle-Dropped s p g v taken'),
    )

-- The root of a heap that is not empty is removed.
pub drop_root-Dropped :
    (s : Shard)
    → ShardInv s
    → 0 < s.deadlines.len
    → (t : Shard) × (drop_root s ≡ some t) × Dropped s (s.key (s.deadlines.slots 0)) t
unfolding drop_root
drop_root-Dropped s v pos =
    let (g, eg, taken) = pop-Taken s.deadline s.deadlines pos v.good in
    (
      recycle_lease (dropped s (s.deadlines.slots 0) g v taken) (s.deadlines.slots 0),
      rw (eg, drop_root),
      recycle-Dropped s (s.deadlines.slots 0) g v taken,
    )
