-- ===== src/Tests/Latencies.antt =====
-- The latencies of internal/clientmetrics/recorder.go at concrete calls.
use red_lease.Prelude.{ℕ, ◌<◌, ◌≡◌, refl, arith, List, [], ◌∷◌, true, false}
use red_lease.Metrics.{
  snapshot_histogram, new_shard, acquire_latency_bucket, acquire_latency_bucket_count, bits_len,
}
use red_lease.Metrics.Counts.{Observation, observe_all, calls_within, snapshot-counts}

-- 100 microseconds, a millisecond and 20 seconds; the second call did not acquire.
abbrev three_calls : List Observation
three_calls =
    record { shard_key = 1; elapsed = 100000; acquired = true }
    ∷ record { shard_key = 65; elapsed = 1000000; acquired = false }
    ∷ record { shard_key = 2; elapsed = 20000000000; acquired = true }
    ∷ []

snapshot-counts_example :
    ((snapshot_histogram (observe_all (λ i. new_shard) three_calls) true).count ≡ 2)
    × ((snapshot_histogram (observe_all (λ i. new_shard) three_calls) true).sum_microseconds
        ≡ 20000100)
    × ((b : ℕ)
        → b < acquire_latency_bucket_count
        → (snapshot_histogram (observe_all (λ i. new_shard) three_calls) true).bucket_counts b
          ≡ calls_within three_calls true b)
snapshot-counts_example =
    snapshot-counts three_calls true (omega arith, (omega arith, (omega arith, tt)))

-- 2^17 ns is in the first bucket, one more in the second, and 20 seconds in none.
first-bucket : acquire_latency_bucket 131072 ≡ 0
unfolding acquire_latency_bucket
first-bucket = refl

second-bucket : acquire_latency_bucket 131073 ≡ 1
unfolding acquire_latency_bucket bits_len
second-bucket = refl

over-bucket : acquire_latency_bucket 20000000000 ≡ 17
unfolding acquire_latency_bucket bits_len
over-bucket = refl
