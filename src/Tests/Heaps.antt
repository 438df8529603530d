-- ===== src/Tests/Heaps.antt =====
-- The deadline heap and the shard of server/state.go at concrete inputs.
use red_lease.Prelude.{ℕ, ◌+◌, ◌-◌, ◌*◌, ◌≡◌, refl, none, some, arith}
use red_lease.Server.Heap.{Heap, push}
use red_lease.Server.Heap.Order.{IsLinked}
use red_lease.Server.Heap.Ops.{IsGood}
use red_lease.Server.Shard.{Shard, LeaseId, add_lease}
use red_lease.Server.Shard.Add.{Added, add_lease-Added}
use red_lease.Server.Lifecycle.{empty_shard}
use red_lease.Server.Lifecycle.Startup.{empty_shard-Inv}

-- Five objects at the addresses 1 to 5, due in the order of their addresses.
abbrev five_due : ℕ → ℕ
five_due p = 10 * p

abbrev five : Heap
five = record { len = 5; slots = λ i. i + 1; heap_index = λ p. some (p - 1) }

five-IsLinked : IsLinked five
five-IsLinked i hi = ground arith

five-IsGood : IsGood five_due five
five-IsGood = record { heap = λ c q r. omega arith; linked = five-IsLinked }

abbrev holder : LeaseId
holder = record { client_id = 1; boot_id = 7; lease_seq = 3 }

abbrev one_lease : Shard
one_lease = add_lease empty_shard 42 holder 900

one_lease-Added : Added empty_shard 42 holder 900 one_lease
one_lease-Added = add_lease-Added empty_shard 42 holder 900 empty_shard-Inv refl

-- The lease is kept in the object 1 of the shard.
first_object : one_lease.leases 42 ≡ some 1
unfolding add_lease push
first_object = refl

vacant : one_lease.leases 43 ≡ none
unfolding add_lease push
vacant = refl
