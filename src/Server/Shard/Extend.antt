-- ===== src/Server/Shard/Extend.antt =====
-- The part of Renew of server/state.go that moves a deadline.
use red_lease.Prelude.{
  ℕ, ◌≤◌, ◌<◌, ◌≡◌, refl, ◌≢◌, some, arith, ◌==◌, if◌then◌else◌, update, update_self, ℕ_discrete,
  Option-cases, inl, inr,
}
use red_lease.Server.Heap.{Heap, parent}
use red_lease.Server.Heap.Order.{OnHeap, Loose, Reorders}
use red_lease.Server.Heap.Ops.{IsGood, linked_injective}
use red_lease.Server.Heap.Take.{fix-IsGood}
use red_lease.Server.Shard.{Shard, lookup, fix_at, extend_lease}
use red_lease.Server.Shard.Inv.{ShardInv, IsPool-mono}

-- The key's lease has the new deadline, and nothing else changed.
pub record Extended (s : Shard) (k p candidate : ℕ) (t : Shard) : Type 0 where
  pub inv : ShardInv t
  pub table :
      (j : ℕ)
      → lookup t j
        ≡ (if j == k then some (record { id = s.id p; deadline = candidate }) else lookup s j)
  pub size : t.deadlines.len ≡ s.deadlines.len
  pub moved : t.deadline p ≡ candidate

module _ (s : Shard) (v : ShardInv s) (p candidate i : ℕ) (hi : i < s.deadlines.len)
    (ei : s.deadlines.slots i ≡ p) where
  abbrev raised : ℕ → ℕ
  raised = update s.deadline p candidate

  elsewhere :
      (c : ℕ)
      → c < s.deadlines.len
      → c ≢ i
      → raised (s.deadlines.slots c) ≡ s.deadline (s.deadlines.slots c)
  elsewhere c hc ne = ground (arith, linked_injective s.deadlines v.good.linked c i hc hi)

  moved-Loose : Loose raised s.deadlines.len s.deadlines i
  moved-Loose = record {
    edges = λ c q r ne pe.
        ground (arith, elsewhere c r ne, elsewhere (parent c) (omega arith) pe, v.good.heap c q r);
    bridged = λ c q r pe pos. ground (
      arith,
      elsewhere c r (omega arith),
      elsewhere (parent i) (omega arith) (omega arith),
      v.good.heap c q r,
      v.good.heap i pos hi,
    );
  }

  moved-Inv :
      (g : Heap)
      → IsGood raised g
      → Reorders s.deadlines.len s.deadlines g
      → ShardInv (record s { deadline = raised; deadlines = g })
  moved-Inv g good kept = record {
    good = good;
    resident = λ j hj. entered (g.slots j) (kept.back (g.slots j) (j, hj, refl));
    indexed = λ j q e. (kept.into q (v.indexed j q e).0, (v.indexed j q e).1);
    bounded = λ j hj. known (g.slots j) (kept.back (g.slots j) (j, hj, refl));
    pooled =
        IsPool-mono s.deadlines g s.allocated s.allocated s.pool kept.back (omega arith) v.pooled;
  }
    where
      entered : (q : ℕ) → OnHeap s.deadlines q → s.leases (s.key q) ≡ some q
      entered q (j, hj, e) = ground (arith, v.resident j hj)

      known : (q : ℕ) → OnHeap s.deadlines q → q ≤ s.allocated
      known q (j, hj, e) = omega (arith, v.bounded j hj)

  lookup-moved :
      (g : Heap) (k j : ℕ)
      → s.leases k ≡ some p
      → lookup (record s { deadline = raised; deadlines = g }) j
        ≡ (if j == k then some (record { id = s.id p; deadline = candidate }) else lookup s j)
  lookup-moved g k j found = elim (ℕ_discrete j k) [
    | yes same ↦ ground arith
    | no other ↦ elim (Option-cases (s.leases j)) [
      | inl e ↦ ground arith
      | inr (q, e) ↦
          let kp = (v.indexed k p found).1 in
          let kq = (v.indexed j q e).1 in let ne : q ≢ p = λ eq. ground arith in ground arith
    ]
  ]

-- Moving the deadline of the object of a key of a shard with the invariant does not panic, keeps
-- the invariant, and changes exactly the deadline of that key.
pub extend_lease-Extended :
    (s : Shard) (k p candidate : ℕ)
    → ShardInv s
    → s.leases k ≡ some p
    → (t : Shard) × (extend_lease s p candidate ≡ some t) × Extended s k p candidate t
unfolding extend_lease
extend_lease-Extended s k p candidate v found =
    let ((i, hi, ei), kp) = v.indexed k p found in
    let (g, eg, good, kept) =
      fix-IsGood (raised s v p candidate i hi ei) s.deadlines i hi v.good.linked
        (moved-Loose s v p candidate i hi ei) in
    let at : s.deadlines.heap_index p ≡ some i = rw (← ei) (v.good.linked i hi) in
    (
      record s { deadline = update s.deadline p candidate; deadlines = g },
      rw (at, fix_at) (rw (eg, fix_at)),
      record {
        inv = moved-Inv s v p candidate i hi ei g good kept;
        table = λ j. lookup-moved s v p candidate i hi ei g k j found;
        size = kept.same_len;
        moved = update_self s.deadline p candidate;
      },
    )
