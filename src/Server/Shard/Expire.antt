-- ===== src/Server/Shard/Expire.antt =====
-- removeExpiredLeases of server/state.go.
use red_lease.Prelude.{
  ℕ, zero, suc, ◌+◌, ◌<◌, ◌≡◌, ap, ◌∙◌, true, false, Option, none, some, arith, ◌==◌, if◌then◌else◌,
  ltb, inl, inr, ℕ_discrete, Option-cases, Bool-cases,
}
use red_lease.Server.Shard.{
  Shard, Entry, lookup, root_expired, remove_expired_loop, remove_expired_leases,
}
use red_lease.Server.Shard.Inv.{ShardInv, root_least}
use red_lease.Server.Shard.Remove.{drop_root-Dropped}

-- An entry that is still valid after `now`.
abbrev pub live : ℕ → Option Entry → Option Entry
live now none = none
live now (some e) = if ltb now e.deadline then some e else none

-- The expired leases are gone, and only they; `count` of them were removed.
pub record Expired (s : Shard) (now count : ℕ) (t : Shard) : Type 0 where
  pub inv : ShardInv t
  pub table : (j : ℕ) → lookup t j ≡ live now (lookup s j)
  pub size : t.deadlines.len + count ≡ s.deadlines.len

-- When the root is not expired nothing is.
nothing_expired :
    (s : Shard) (now : ℕ)
    → ShardInv s
    → root_expired s now ≡ false
    → (j : ℕ) → lookup s j ≡ live now (lookup s j)
nothing_expired s now v e j = elim (Option-cases (s.leases j)) [
  | inl missing ↦ rw (missing, lookup)
  | inr (p, found) ↦
      let ((i, hi, ei), kp) = v.indexed j p found in
      let first = root_least s.deadline s.deadlines i v.good.heap hi in
      rw (found, lookup) (ground arith)
]

root_entry :
    (s : Shard)
    → ShardInv s
    → 0 < s.deadlines.len
    → lookup s (s.key (s.deadlines.slots 0))
      ≡ some
          (record { id = s.id (s.deadlines.slots 0); deadline = s.deadline (s.deadlines.slots 0) })
root_entry s v pos = rw (v.resident 0 pos, lookup)

-- Dropping an expired root first changes nothing of what is live.
live-drop :
    (s t : Shard) (now j : ℕ)
    → ShardInv s
    → root_expired s now ≡ true
    → lookup t j ≡ (if j == s.key (s.deadlines.slots 0) then none else lookup s j)
    → live now (lookup t j) ≡ live now (lookup s j)
live-drop s t now j v e table = elim (ℕ_discrete j (s.key (s.deadlines.slots 0))) [
  | yes same ↦ rw (table, same) (rw (root_entry s v (ground arith)) (ground arith))
  | no other ↦ rw table (ground arith)
]

loop-Expired :
    (fuel : ℕ) (s : Shard) (now deleted : ℕ)
    → ShardInv s
    → s.deadlines.len < fuel
    → (count : ℕ) × (t : Shard) × (remove_expired_loop fuel s now deleted
        ≡ some (deleted + count, t))
      × Expired s now count t
unfolding remove_expired_loop
loop-Expired zero s now deleted v f = absurd (omega arith)
loop-Expired (suc fuel) s now deleted v f = elim (Bool-cases (root_expired s now)) [
  | inr e ↦ (
    0,
    s,
    rw (e, remove_expired_loop) (ap (λ (n : ℕ). some (n, s)) (omega arith)),
    record { inv = v; table = nothing_expired s now v e; size = omega arith },
  )
  | inl e ↦
      let (s', dropped, d) = drop_root-Dropped s v (ground arith) in
      let (count, t, ran, x) =
        loop-Expired fuel s' now (deleted + 1) d.inv (omega (arith, d.size)) in
      (
        count + 1,
        t,
        rw (e, remove_expired_loop)
            (rw (dropped, remove_expired_loop) (ran ∙ ap (λ (n : ℕ). some (n, t)) (omega arith))),
        record {
          inv = x.inv;
          table = λ j. x.table j ∙ live-drop s s' now j v e (d.table j);
          size = omega (arith, x.size, d.size);
        },
      )
]

-- Removing the expired leases of a shard with the invariant does not panic, keeps exactly the
-- leases that are live, keeps the invariant, and returns how many were removed.
pub remove_expired_leases-Expired :
    (s : Shard) (now : ℕ)
    → ShardInv s
    → (count : ℕ) × (t : Shard) × (remove_expired_leases s now ≡ some (count, t))
      × Expired s now count t
unfolding remove_expired_leases
remove_expired_leases-Expired s now v =
    let (count, t, ran, x) = loop-Expired (s.deadlines.len + 1) s now 0 v (omega arith) in
    (count, t, ran ∙ ap (λ (n : ℕ). some (n, t)) (omega arith), x)
