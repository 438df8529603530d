-- ===== src/Client/Quorum.antt =====
-- client/quorum.go, and the choice of a quorum in client/acquire.go.
pub mod Select
pub mod Possible
use red_lease.Prelude.{
  ℕ, zero, suc, ◌+◌, ◌-◌, ◌*◌, ◌≤◌, ◌<◌, Bool, true, false, ◌&&◌, ◌||◌, Option, none, some, List,
  [], ◌∷◌, ltb, leb, ◌==◌, if◌then◌else◌, length, get_elem?,
}
use red_lease.Protocol.{millisecond, max_ttl_ms}
use red_lease.Protocol.LeaseStatus

-- The values of the enumeration Quorum.
abbrev pub quorum1_of1 : ℕ
quorum1_of1 = 1

abbrev pub quorum2_of3 : ℕ
quorum2_of3 = 2

abbrev pub quorum3_of5 : ℕ
quorum3_of5 = 3

abbrev pub safety_margin_ms : ℕ
safety_margin_ms = 100

-- The number of servers, the size of a quorum, and whether the value is one of the enumeration.
unfoldable pub parameters : ℕ → ℕ × ℕ × Bool
parameters q =
    if q == quorum1_of1
    then (1, 1, true)
    else if q == quorum2_of3
    then (3, 2, true)
    else if q == quorum3_of5
    then (5, 3, true)
    else (0, 0, false)

unfoldable pub size : ℕ → ℕ
unfolding parameters
size q = (parameters q).1

unfoldable pub candidate_valid_until : ℕ → ℕ → ℕ
candidate_valid_until operation_start ttl_ms =
    if leb ttl_ms safety_margin_ms || ltb max_ttl_ms ttl_ms
    then operation_start
    else operation_start + (ttl_ms - safety_margin_ms) * millisecond

abbrev pub is_successful_acquire : ℕ → Bool
is_successful_acquire status = status == LeaseStatus.ok || status == LeaseStatus.already_owned

-- The candidates of the replicas that answered with success.
unfoldable pub successes : List ℕ → List Bool → List ℕ
successes (c ∷ cs) (true ∷ bs) = c ∷ successes cs bs
successes (c ∷ cs) (false ∷ bs) = successes cs bs
successes [] bs = []
successes (c ∷ cs) [] = []

-- `slices.SortFunc` with `time.Time.Compare`; equal instants are not told apart.
pub insert_sorted : ℕ → List ℕ → List ℕ
insert_sorted t [] = t ∷ []
insert_sorted t (u ∷ us) = if leb t u then t ∷ u ∷ us else u ∷ insert_sorted t us

unfoldable pub sort : List ℕ → List ℕ
unfolding insert_sorted
sort [] = []
sort (t ∷ ts) = insert_sorted t (sort ts)

-- `none` stands for the answer `false`. The index is in range.
unfoldable pub best_acquire_quorum : List ℕ → List Bool → ℕ → Option ℕ
unfolding successes sort
best_acquire_quorum candidates successful quorum_size =
    let best = successes candidates successful in
    let count = length best in
    if ltb count quorum_size then none else get_elem? (sort best) (count - quorum_size)

-- How many successful replicas are valid after `now`.
pub usable : ℕ → List ℕ → List Bool → ℕ
usable now (c ∷ cs) (b ∷ bs) = (if b && ltb now c then 1 else 0) + usable now cs bs
usable now [] bs = 0
usable now (c ∷ cs) [] = 0

unfoldable pub acquire_quorum_still_possible : List ℕ → List Bool → ℕ → ℕ → ℕ → Bool
unfolding usable
acquire_quorum_still_possible candidates successful remaining now quorum_size =
    leb quorum_size (usable now candidates successful + remaining)
