-- ===== src/Tests/Histogram.antt =====
-- Instances of the histogram's theorems: precision 2, values up to 100.
use high_frequency_trading_e.Prelude.{ℕ, ◌-◌, ◌*◌, ◌^◌, ◌≤◌, ◌≡◌, refl, List, [], ◌∷◌, arith}
use high_frequency_trading_e.Histogram.{
  new, counts_index, counts_len, highest_equivalent_value, percentile, record_value, record_at,
  percentile_from, buckets_needed, buckets_from, bucket_index, sub_bucket_index,
}
use high_frequency_trading_e.Prelude.Bits.{bit_length}
use high_frequency_trading_e.Histogram.Error.{edge_lem}
use high_frequency_trading_e.Histogram.Counts.{clamp_all, record_all, Holds, record_all-Holds}
use high_frequency_trading_e.Histogram.Percentile.{IsRank, percentile_lem}

abbrev latencies : List ℕ
latencies = 5 ∷ 250 ∷ 40 ∷ []

record_all-Holds_example : Holds 2 100 (record_all (new 100 2) latencies) (clamp_all 100 latencies)
record_all-Holds_example =
    record_all-Holds 2 100 latencies (omega arith) (omega arith) (omega arith)

edge_lem_example :
    (77 ≤ highest_equivalent_value 2 (counts_index 2 77))
    × ((highest_equivalent_value 2 (counts_index 2 77) - 77) * 2 ^ 2 ≤ 77)
edge_lem_example = edge_lem 2 77 (omega arith) (omega arith)

percentile_lem_example : IsRank 2 100 2 (percentile (record_all (new 100 2) latencies) 2) latencies
percentile_lem_example =
    percentile_lem 2 100 2 latencies (omega arith) (omega arith) (omega arith) (omega arith)
      (omega arith)

-- The edge of the bucket of 40.
edge_of_40 : percentile (record_all (new 100 2) latencies) 2 ≡ 47
unfolding percentile record_all new counts_len record_value record_at percentile_from buckets_needed
    buckets_from counts_index bucket_index bit_length sub_bucket_index highest_equivalent_value
edge_of_40 = refl
