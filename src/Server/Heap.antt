-- ===== src/Server/Heap.antt =====
-- leaseDeadlineHeap of server/state.go, and the algorithms of Go's container/heap that it is given to.
-- A lease object is an address; a slice is its length and its contents. The field `heapIndex` of every
-- object is one array, in which `none` stands for -1. `deadline` is that field, which no heap function
-- writes.
pub mod Order
pub mod Swap
pub mod Up
pub mod Down
pub mod Ops
pub mod Take
use red_lease.Prelude.{
  ℕ, zero, suc, ◌+◌, ◌-◌, ◌*◌, ◌/◌, Bool, true, false, not, ◌&&◌, ◌||◌, Option, none, some, ltb,
  leb, ◌==◌, if◌then◌else◌, update,
}

pub record Heap : Type 0 where
  pub len : ℕ
  pub slots : ℕ → ℕ
  pub heap_index : ℕ → Option ℕ

abbrev pub nil : ℕ
nil = 0

pub swap : Heap → ℕ → ℕ → Heap
swap h i j = record h {
  slots = update (update h.slots i (h.slots j)) j (h.slots i);
  heap_index = update (update h.heap_index (h.slots j) (some i)) (h.slots i) (some j);
}

-- The method Push.
unfoldable pub append : Heap → ℕ → Heap
append h current = record {
  len = h.len + 1;
  slots = update h.slots h.len current;
  heap_index = update h.heap_index current (some h.len);
}

-- The method Pop, for a heap that is not empty.
unfoldable pub take_last : Heap → ℕ × Heap
take_last h =
    let last = h.len - 1 in
    let current = h.slots last in
    (
      current,
      record {
        len = last;
        slots = update h.slots last nil;
        heap_index = update h.heap_index current none;
      },
    )

abbrev pub parent : ℕ → ℕ
parent c = (c - 1) / 2

module _ (deadline : ℕ → ℕ) where
  pub less : Heap → ℕ → ℕ → Bool
  less h i j = ltb (deadline (h.slots i)) (deadline (h.slots j))

  up_loop : ℕ → Heap → ℕ → Heap
  up_loop zero h j = h
  up_loop (suc fuel) h j = elim (parent j == j || not (less h j (parent j))) [
    | true ↦ h
    | false ↦ up_loop fuel (swap h (parent j) j) (parent j)
  ]

  unfoldable pub up : Heap → ℕ → Heap
  unfolding up_loop
  up h j = up_loop (j + 1) h j

  -- The child of `i` with the earlier deadline; the left child exists.
  smaller_child : Heap → ℕ → ℕ → ℕ
  unfolding less
  smaller_child h n i =
      if ltb (2 * i + 2) n && less h (2 * i + 2) (2 * i + 1) then 2 * i + 2 else 2 * i + 1

  -- The heap and the index at which the loop stops.
  down_loop : ℕ → ℕ → Heap → ℕ → Heap × ℕ
  down_loop zero n h i = (h, i)
  down_loop (suc fuel) n h i =
      let child = smaller_child h n i in
      elim (leb n (2 * i + 1) || not (less h child i)) [
        | true ↦ (h, i)
        | false ↦ down_loop fuel n (swap h i child) child
      ]

  -- With whether the entry moved.
  pub down : Heap → ℕ → ℕ → Heap × Bool
  unfolding down_loop
  down h i0 n = let (h', i) = down_loop (suc n) n h i0 in (h', ltb i0 i)

  -- `if !down(h, i, n) { up(h, i) }`
  pub settle : Heap → ℕ → ℕ → Heap
  settle h i n = let (h', moved) = down h i n in if moved then h' else up h' i

  unfoldable pub push : Heap → ℕ → Heap
  unfolding append
  push h current = up (append h current) h.len

  -- `none` is the run-time panic on an index out of range.
  unfoldable pub pop : Heap → Option (ℕ × Heap)
  unfolding take_last
  pop h =
      if ltb 0 h.len then some (take_last (down (swap h 0 (h.len - 1)) 0 (h.len - 1)).0) else none

  unfoldable pub remove : Heap → ℕ → Option (ℕ × Heap)
  unfolding take_last settle
  remove h i =
      let n = h.len - 1 in
      if ltb i h.len then some (take_last (if n == i then h else settle (swap h i n) i n)) else none

  unfoldable pub fix : Heap → ℕ → Option Heap
  unfolding settle
  fix h i = if ltb i h.len then some (settle h i h.len) else none
