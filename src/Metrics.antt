-- ===== src/Metrics.antt =====
-- The latencies of Acquire: internal/clientmetrics/recorder.go and clientmetrics/metrics.go. A duration is a
-- natural number of nanoseconds, so the clamp of a negative one is left out, and the counters do not come round.
pub mod Buckets
pub mod Counts
use red_lease.Prelude.{
  ℕ, zero, suc, ◌+◌, ◌-◌, ◌*◌, ◌/◌, ◌%◌, ◌^◌, ◌≡◌, min, Bool, true, false, List, [], ◌∷◌, leb, ◌==◌,
  if◌then◌else◌, update,
}

abbrev pub acquire_latency_bucket_count : ℕ
acquire_latency_bucket_count = 17

abbrev pub first_bucket_exponent : ℕ
first_bucket_exponent = 17

abbrev pub recorder_shard_count : ℕ
recorder_shard_count = 64

-- `overflow_bucket` is the last one.
pub record LatencyCounters : Type 0 where
  pub buckets : ℕ → ℕ
  pub sum_microseconds : ℕ

pub record RecorderShard : Type 0 where
  pub acquired : LatencyCounters
  pub not_acquired : LatencyCounters

abbrev pub new_shard : RecorderShard
new_shard =
    let empty : LatencyCounters = record { buckets = λ k. 0; sum_microseconds = 0 } in
    record { acquired = empty; not_acquired = empty }

abbrev pub Recorder : Type 0
Recorder = ℕ → RecorderShard

-- bits.Len64, with a unit of fuel for every bit.
unfoldable pub bits_len : ℕ → ℕ → ℕ
bits_len zero x = 0
bits_len (suc fuel) x = let rest = bits_len fuel (x / 2) in if x == 0 then 0 else suc rest

unfoldable pub acquire_latency_bucket : ℕ → ℕ
acquire_latency_bucket elapsed =
    if leb elapsed (2 ^ first_bucket_exponent)
    then 0
    else min (bits_len 64 (elapsed - 1) - first_bucket_exponent) acquire_latency_bucket_count

abbrev pub histogram : RecorderShard → Bool → LatencyCounters
histogram shard true = shard.acquired
histogram shard false = shard.not_acquired

abbrev pub counted : LatencyCounters → ℕ → LatencyCounters
counted h elapsed =
    let bucket = acquire_latency_bucket elapsed in
    record {
      buckets = update h.buckets bucket (suc (h.buckets bucket));
      sum_microseconds = h.sum_microseconds + elapsed / 1000;
    }

abbrev pub with_observation : RecorderShard → ℕ → Bool → RecorderShard
with_observation shard elapsed true = record shard { acquired = counted shard.acquired elapsed }
with_observation shard elapsed false = record shard {
  not_acquired = counted shard.not_acquired elapsed;
}

unfoldable pub observe_acquire : Recorder → ℕ → ℕ → Bool → Recorder
observe_acquire r shard_key elapsed acquired =
    let i = shard_key % recorder_shard_count in update r i (with_observation (r i) elapsed acquired)

-- The sum over the indices below `n`.
unfoldable pub sum_below : (ℕ → ℕ) → ℕ → ℕ
sum_below f zero = 0
sum_below f (suc n) = sum_below f n + f n

abbrev pub bucket_count : Recorder → Bool → ℕ → ℕ
bucket_count r acquired bucket =
    sum_below (λ i. (histogram (r i) acquired).buckets bucket) recorder_shard_count

pub record LatencyHistogram : Type 0 where
  pub count : ℕ
  pub sum_microseconds : ℕ
  pub bucket_counts : ℕ → ℕ

-- AcquireLatencyBucketUpperBounds
unfoldable pub upper_bound : ℕ → ℕ
upper_bound bucket = 2 ^ (first_bucket_exponent + bucket)

-- snapshotHistogram: the counts are cumulative.
unfoldable pub snapshot_histogram : Recorder → Bool → LatencyHistogram
snapshot_histogram r acquired = record {
  count = sum_below (bucket_count r acquired) (suc acquire_latency_bucket_count);
  sum_microseconds =
      sum_below (λ i. (histogram (r i) acquired).sum_microseconds) recorder_shard_count;
  bucket_counts = λ bucket. sum_below (bucket_count r acquired) (suc bucket);
}
