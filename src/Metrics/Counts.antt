-- ===== src/Metrics/Counts.antt =====
-- A snapshot of internal/clientmetrics/recorder.go counts the calls that were observed.
use red_lease.Prelude.{
  ℕ, zero, suc, ◌+◌, ◌*◌, ◌/◌, ◌%◌, ◌^◌, ◌<◌, ◌≡◌, refl, ap, ◌∙◌, arith, Bool, true, false, List,
  [], ◌∷◌, leb, ltb, ◌==◌, ==_refl, if◌then◌else◌, ℕ_discrete, Bool-cases, inl, inr, All,
}
use red_lease.Metrics.{
  RecorderShard, Recorder, new_shard, histogram, with_observation, acquire_latency_bucket,
  acquire_latency_bucket_count, recorder_shard_count, observe_acquire, sum_below, bucket_count,
  upper_bound, snapshot_histogram,
}
use red_lease.Metrics.Buckets.{bucket-le, bucket-bound, bucket-max}

pub record Observation : Type 0 where
  pub shard_key : ℕ
  pub elapsed : ℕ
  pub acquired : Bool

abbrev pub observe_all : Recorder → List Observation → Recorder
observe_all r [] = r
observe_all r (o ∷ rest) = observe_all (observe_acquire r o.shard_key o.elapsed o.acquired) rest

abbrev pub same_result : Bool → Bool → ℕ
same_result true true = 1
same_result false false = 1
same_result true false = 0
same_result false true = 0

-- How many calls had the result, and how long they took altogether.
abbrev pub calls : List Observation → Bool → ℕ
calls [] acquired = 0
calls (o ∷ rest) acquired = same_result o.acquired acquired + calls rest acquired

abbrev pub microseconds : List Observation → Bool → ℕ
microseconds [] acquired = 0
microseconds (o ∷ rest) acquired =
    same_result o.acquired acquired * (o.elapsed / 1000) + microseconds rest acquired

-- How many of them took no longer than the bound of the bucket.
abbrev pub calls_within : List Observation → Bool → ℕ → ℕ
calls_within [] acquired b = 0
calls_within (o ∷ rest) acquired b =
    let others = calls_within rest acquired b in
    if leb o.elapsed (upper_bound b) then same_result o.acquired acquired + others else others

sum-bump :
    (f g : ℕ → ℕ) (j d n : ℕ)
    → ((i : ℕ) → g i ≡ f i + (if i == j then d else 0))
    → sum_below g n ≡ sum_below f n + (if ltb j n then d else 0)
unfolding sum_below
sum-bump f g j d zero h = ground arith
sum-bump f g j d (suc n) h = ground (arith, sum-bump f g j d n h, h n)

abbrev sum_of : Bool → Recorder → ℕ
sum_of flag q = sum_below (λ i. (histogram (q i) flag).sum_microseconds) recorder_shard_count

counted-bucket :
    (s : RecorderShard) (elapsed : ℕ) (acquired flag : Bool) (k : ℕ)
    → (histogram (with_observation s elapsed acquired) flag).buckets k
      ≡ (histogram s flag).buckets k
        + (if k == acquire_latency_bucket elapsed then same_result acquired flag else 0)
counted-bucket s elapsed true true k = ground arith
counted-bucket s elapsed false false k = ground arith
counted-bucket s elapsed true false k = ground arith
counted-bucket s elapsed false true k = ground arith

counted-sum :
    (s : RecorderShard) (elapsed : ℕ) (acquired flag : Bool)
    → (histogram (with_observation s elapsed acquired) flag).sum_microseconds
      ≡ (histogram s flag).sum_microseconds + same_result acquired flag * (elapsed / 1000)
counted-sum s elapsed true true = omega arith
counted-sum s elapsed false false = omega arith
counted-sum s elapsed true false = omega arith
counted-sum s elapsed false true = omega arith

module _ (r : Recorder) (o : Observation) (flag : Bool) where
  abbrev after : Recorder
  after = observe_acquire r o.shard_key o.elapsed o.acquired

  abbrev shard : ℕ
  shard = o.shard_key % recorder_shard_count

  abbrev hit : ℕ → ℕ
  hit k = if k == acquire_latency_bucket o.elapsed then same_result o.acquired flag else 0

  shard-after :
      (i k : ℕ)
      → (histogram (after i) flag).buckets k
        ≡ (histogram (r i) flag).buckets k + (if i == shard then hit k else 0)
  unfolding observe_acquire
  shard-after i k = elim (ℕ_discrete i shard) [
    | yes at ↦ rw at (simp (==_refl shard) (counted-bucket (r shard) o.elapsed o.acquired flag k))
    | no away ↦ ground (arith, away)
  ]

  bucket_count-after : (k : ℕ) → bucket_count after flag k ≡ bucket_count r flag k + hit k
  bucket_count-after k =
      let e =
        sum-bump (λ i. (histogram (r i) flag).buckets k) (λ i. (histogram (after i) flag).buckets k)
          shard (hit k) recorder_shard_count (λ i. shard-after i k) in
      let inside : ltb shard recorder_shard_count ≡ true = ground arith in
      e ∙ ap (λ t. bucket_count r flag k + (if t then hit k else 0)) inside

  cumulative-after :
      (n : ℕ)
      → sum_below (bucket_count after flag) n
        ≡ sum_below (bucket_count r flag) n
          + (if ltb (acquire_latency_bucket o.elapsed) n then same_result o.acquired flag else 0)
  cumulative-after n =
      sum-bump (bucket_count r flag) (bucket_count after flag) (acquire_latency_bucket o.elapsed)
        (same_result o.acquired flag) n bucket_count-after

  abbrev time : ℕ
  time = same_result o.acquired flag * (o.elapsed / 1000)

  sum-after : sum_of flag after ≡ sum_of flag r + time
  unfolding observe_acquire
  sum-after =
      let e =
        sum-bump (λ i. (histogram (r i) flag).sum_microseconds)
          (λ i. (histogram (after i) flag).sum_microseconds) shard time recorder_shard_count
          (λ i. elim (ℕ_discrete i shard) [
            | yes at ↦
                rw at (simp (==_refl shard) (counted-sum (r shard) o.elapsed o.acquired flag))
            | no away ↦ ground (arith, away)
          ]) in
      let inside : ltb shard recorder_shard_count ≡ true = ground arith in
      e ∙ ap (λ t. sum_of flag r + (if t then time else 0)) inside

-- A duration that a recorder can be given.
abbrev pub IsShort : Observation → Type 0
IsShort o = o.elapsed < 2 ^ 63

below-bound :
    (elapsed b : ℕ)
    → elapsed < 2 ^ 63
    → b < acquire_latency_bucket_count
    → ltb (acquire_latency_bucket elapsed) (suc b) ≡ leb elapsed (upper_bound b)
below-bound elapsed b small lt = elim (Bool-cases (leb elapsed (upper_bound b))) [
  | inl within ↦ ground (arith, within, bucket-le elapsed b small lt)
  | inr beyond ↦ ground (arith, beyond, bucket-bound elapsed b small lt)
]

observed-counts :
    (r : Recorder) (os : List Observation) (flag : Bool)
    → All IsShort os
    → let q = observe_all r os in
      (sum_below (bucket_count q flag) 18 ≡ sum_below (bucket_count r flag) 18 + calls os flag)
      × (sum_of flag q ≡ sum_of flag r + microseconds os flag)
      × ((b : ℕ)
          → b < 17
          → sum_below (bucket_count q flag) (suc b)
            ≡ sum_below (bucket_count r flag) (suc b) + calls_within os flag b)
observed-counts r [] flag all = (omega arith, omega arith, λ b lt. omega arith)
observed-counts r (o ∷ rest) flag (short, all) =
    let (whole, sum, within) =
      observed-counts (observe_acquire r o.shard_key o.elapsed o.acquired) rest flag all in
    let one_more = cumulative-after r o flag 18 in
    let fits : ltb (acquire_latency_bucket o.elapsed) 18 ≡ true =
      ground (arith, bucket-max o.elapsed) in
    (
      ground (arith, whole, one_more, fits),
      omega (arith, sum, sum-after r o flag),
      λ b lt.
          let more = cumulative-after r o flag (suc b) in
          let bound = below-bound o.elapsed b short lt in ground (arith, within b lt, more, bound),
    )

sum-zero : (f : ℕ → ℕ) (n : ℕ) → ((i : ℕ) → f i ≡ 0) → sum_below f n ≡ 0
unfolding sum_below
sum-zero f zero h = refl
sum-zero f (suc n) h = omega (arith, sum-zero f n h, h n)

empty-counts : (flag : Bool) (n : ℕ) → sum_below (bucket_count (λ i. new_shard) flag) n ≡ 0
empty-counts true n = sum-zero _ n (λ k. sum-zero _ recorder_shard_count (λ i. refl))
empty-counts false n = sum-zero _ n (λ k. sum-zero _ recorder_shard_count (λ i. refl))

empty-sum : (flag : Bool) → sum_of flag (λ i. new_shard) ≡ 0
empty-sum true = sum-zero _ recorder_shard_count (λ i. refl)
empty-sum false = sum-zero _ recorder_shard_count (λ i. refl)

-- After any calls of ObserveAcquire on a new recorder, of durations below 2^63 ns: the snapshot
-- for a result counts the calls with that result, has the sum of their durations in whole
-- microseconds, and the count of every bucket is the number of them that took no longer than its
-- upper bound.
pub snapshot-counts :
    (os : List Observation) (flag : Bool)
    → All IsShort os
    → let h = snapshot_histogram (observe_all (λ i. new_shard) os) flag in
      (h.count ≡ calls os flag)
      × (h.sum_microseconds ≡ microseconds os flag)
      × ((b : ℕ) → b < acquire_latency_bucket_count → h.bucket_counts b ≡ calls_within os flag b)
unfolding snapshot_histogram
snapshot-counts os flag all =
    let (whole, sum, within) = observed-counts (λ i. new_shard) os flag all in
    (
      omega (arith, whole, empty-counts flag 18),
      omega (arith, sum, empty-sum flag),
      λ b lt. omega (arith, within b lt, empty-counts flag (suc b)),
    )
