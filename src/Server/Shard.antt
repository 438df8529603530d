-- ===== src/Server/Shard.antt =====
-- leaseShard of server/state.go: the map of leases, the heap of deadlines and the pool of objects.
-- Lease objects are addresses, and the fields of all objects are arrays over the addresses: `key`, `id`
-- and `deadline` here and `heapIndex` in the heap. `none` is a run-time panic.
pub mod Inv
pub mod Add
pub mod Remove
pub mod Expire
pub mod Extend
use red_lease.Prelude.{
  ℕ, zero, suc, ◌+◌, Bool, true, false, ◌&&◌, Option, none, some, List, [], ◌∷◌, ltb, leb, ◌==◌,
  if◌then◌else◌, update,
}
use red_lease.Server.Heap.{Heap}
use red_lease.Server.Heap

pub record LeaseId : Type 0 where
  pub client_id : ℕ
  pub boot_id : ℕ
  pub lease_seq : ℕ

abbrev pub zero_id : LeaseId
zero_id = record { client_id = 0; boot_id = 0; lease_seq = 0 }

-- `==` on structs compares the fields.
abbrev pub id_eq : LeaseId → LeaseId → Bool
id_eq a b = a.client_id == b.client_id && a.boot_id == b.boot_id && a.lease_seq == b.lease_seq

pub record Shard : Type 0 where
  pub key : ℕ → ℕ
  pub id : ℕ → LeaseId
  pub deadline : ℕ → ℕ
  pub deadlines : Heap
  pub leases : ℕ → Option ℕ
  pub pool : List ℕ
  pub allocated : ℕ

-- What the table says of a key.
pub record Entry : Type 0 where
  pub id : LeaseId
  pub deadline : ℕ

-- `shard.leases[key]`, read through the pointer.
abbrev pub lookup : Shard → ℕ → Option Entry
lookup s k = elim (s.leases k) [
  | none ↦ none
  | some p ↦ some (record { id = s.id p; deadline = s.deadline p })
]

-- `leasePool.Get`, or a new object. The pool gives back what it got last.
pub get_object : Shard → ℕ × Shard
get_object s = elim s.pool [
  | [] ↦ (s.allocated + 1, record s { allocated = s.allocated + 1 })
  | p ∷ rest ↦ (p, record s { pool = rest })
]

-- The object is filled in, entered into the map and pushed on the heap.
pub place : Shard → ℕ → ℕ → LeaseId → ℕ → Shard
place s p k id deadline =
    let due = update s.deadline p deadline in
    let h = record (s.deadlines) { heap_index = update s.deadlines.heap_index p none } in
    record s {
      key = update s.key p k;
      id = update s.id p id;
      deadline = due;
      leases = update s.leases k (some p);
      deadlines = Heap.push due h p;
    }

unfoldable pub add_lease : Shard → ℕ → LeaseId → ℕ → Shard
unfolding get_object place
add_lease s k id deadline = let (p, s') = get_object s in place s' p k id deadline

-- `*current = lease{}` and `leasePool.Put`.
unfoldable pub recycle_lease : Shard → ℕ → Shard
recycle_lease s p = record s {
  key = update s.key p 0;
  id = update s.id p zero_id;
  deadline = update s.deadline p 0;
  deadlines = record (s.deadlines) { heap_index = update s.deadlines.heap_index p (some 0) };
  pool = p ∷ s.pool;
}

-- `heap.Remove` panics at the index -1.
remove_at : Shard → ℕ → Option ℕ → Option Shard
remove_at s p none = none
remove_at s p (some i) = elim (Heap.remove s.deadline s.deadlines i) [
  | none ↦ none
  | some (_, h) ↦ some (recycle_lease (record s { deadlines = h }) p)
]

unfoldable pub remove_lease : Shard → ℕ → Option Shard
unfolding remove_at
remove_lease s p =
    remove_at (record s { leases = update s.leases (s.key p) none }) p (s.deadlines.heap_index p)

-- `heap.Fix` panics at the index -1.
fix_at : Shard → Option ℕ → Option Shard
fix_at s none = none
fix_at s (some i) = elim (Heap.fix s.deadline s.deadlines i) [
  | none ↦ none
  | some h ↦ some (record s { deadlines = h })
]

-- The part of Renew that moves a deadline: `current.deadline = candidate` and `heap.Fix`.
unfoldable pub extend_lease : Shard → ℕ → ℕ → Option Shard
unfolding fix_at
extend_lease s p candidate =
    fix_at (record s { deadline = update s.deadline p candidate }) (s.deadlines.heap_index p)

-- One round of the loop of removeExpiredLeases.
unfoldable pub drop_root : Shard → Option Shard
drop_root s = elim (Heap.pop s.deadline s.deadlines) [
  | none ↦ none
  | some (p, h) ↦
      some (recycle_lease (record s { deadlines = h; leases = update s.leases (s.key p) none }) p)
]

abbrev pub root_expired : Shard → ℕ → Bool
root_expired s now = ltb 0 s.deadlines.len && leb (s.deadline (s.deadlines.slots 0)) now

-- The loop of removeExpiredLeases, with the number of leases deleted so far.
remove_expired_loop : ℕ → Shard → ℕ → ℕ → Option (ℕ × Shard)
remove_expired_loop zero s now deleted = some (deleted, s)
remove_expired_loop (suc fuel) s now deleted = elim (root_expired s now) [
  | false ↦ some (deleted, s)
  | true ↦ elim (drop_root s) [
    | none ↦ none
    | some s' ↦ remove_expired_loop fuel s' now (deleted + 1)
  ]
]

-- No more rounds than entries.
unfoldable pub remove_expired_leases : Shard → ℕ → Option (ℕ × Shard)
unfolding remove_expired_loop drop_root recycle_lease
remove_expired_leases s now = remove_expired_loop (s.deadlines.len + 1) s now 0
