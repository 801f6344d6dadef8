-- ===== src/Histogram.antt =====
-- include/hft/histogram.hpp: the log-linear latency histogram. The template arguments are fields:
-- `highest` is HighestTrackableNs and `precision` is PrecisionBits. `mean` and the rank that
-- `percentile` computes from its argument are floating point: the rank is an argument here.
pub mod Index
pub mod Edges
pub mod Error
pub mod Counts
pub mod Percentile
use Prim.Native.Nat.{bit_and, bit_or}
use high_frequency_trading_e.Prelude.{
  ℕ, zero, suc, ◌+◌, ◌-◌, ◌*◌, ◌/◌, ◌%◌, ◌^◌, Bool, true, false, List, [], ◌∷◌, ltb, leb, ◌==◌,
  if◌then◌else◌, length, get_or, set, replicate, ◌&&◌, not,
}
use high_frequency_trading_e.Prelude.Bits.{bit_length}

abbrev pub mod64 : ℕ
mod64 = 2 ^ 64

-- `kSubBucketHalfCount`, `kSubBucketCount` and `kSubBucketMask`
abbrev pub half_count : ℕ → ℕ
half_count precision = 2 ^ precision

abbrev pub sub_bucket_count : ℕ → ℕ
sub_bucket_count precision = 2 ^ suc precision

abbrev pub sub_bucket_mask : ℕ → ℕ
sub_bucket_mask precision = 2 ^ suc precision - 1

-- `buckets_needed`, from `smallest_untrackable` and `needed`, on fuel
unfoldable pub buckets_from : ℕ → ℕ → ℕ → ℕ → ℕ
buckets_from zero value smallest needed = needed
buckets_from (suc fuel) value smallest needed =
    let rest = buckets_from fuel value (smallest * 2) (needed + 1) in
    if leb smallest value
    then (if ltb ((mod64 - 1) / 2) smallest then needed + 1 else rest)
    else needed

-- A 64-bit number doubles 64 times at most.
unfoldable pub buckets_needed : ℕ → ℕ → ℕ
buckets_needed precision value = buckets_from 64 value (sub_bucket_count precision) 1

-- `kCountsLen`
unfoldable pub counts_len : ℕ → ℕ → ℕ
counts_len precision highest = (buckets_needed precision highest + 1) * half_count precision

-- `__builtin_clzll` of a number that is not 0
abbrev pub clz64 : ℕ → ℕ
clz64 n = 64 - bit_length 64 n

-- The difference is not negative: the mask has `precision + 1` bits.
unfoldable pub bucket_index : ℕ → ℕ → ℕ
bucket_index precision value = 64 - precision - 1 - clz64 (bit_or value (sub_bucket_mask precision))

unfoldable pub sub_bucket_index : ℕ → ℕ → ℕ
sub_bucket_index value bidx = value / 2 ^ bidx % 2 ^ 32

-- The base is at least a half count, so the sum with the offset is not negative.
unfoldable pub counts_index : ℕ → ℕ → ℕ
counts_index precision value =
    let bidx = bucket_index precision value in
    (bidx + 1) * 2 ^ precision + sub_bucket_index value bidx - half_count precision

-- The first bucket is linear: `bidx < 0` before the test is `index >> precision` being 0.
unfoldable pub highest_equivalent_value : ℕ → ℕ → ℕ
highest_equivalent_value precision index =
    let top = index / 2 ^ precision in
    let bidx = top - 1 in
    let sidx =
      if top == 0 then index else bit_and index (half_count precision - 1) + half_count precision in
    (sidx * 2 ^ bidx + 2 ^ bidx - 1) % mod64

pub record Histogram : Type 0 where
  pub highest : ℕ
  pub precision : ℕ
  pub counts : List ℕ
  pub total_count : ℕ
  pub sum_ns : ℕ
  pub max_ns : ℕ
  pub min_ns : ℕ

unfoldable pub new : ℕ → ℕ → Histogram
new highest precision = record {
  highest = highest;
  precision = precision;
  counts = replicate (counts_len precision highest) 0;
  total_count = 0;
  sum_ns = 0;
  max_ns = 0;
  min_ns = mod64 - 1;
}

abbrev pub clamp : ℕ → ℕ → ℕ
clamp highest value = if ltb highest value then highest else value

-- `record_n` at a clamped value; `record` is one of it.
unfoldable pub record_at : Histogram → ℕ → ℕ → Histogram
record_at h value n =
    let idx = counts_index h.precision value in
    record h {
      counts = set h.counts idx ((get_or h.counts idx 0 + n) % mod64);
      total_count = (h.total_count + n) % mod64;
      sum_ns = (h.sum_ns + value * n) % mod64;
      max_ns = if ltb h.max_ns value then value else h.max_ns;
      min_ns = if ltb value h.min_ns then value else h.min_ns;
    }

unfoldable pub record_n : Histogram → ℕ → ℕ → Histogram
record_n h value n = record_at h (clamp h.highest value) n

unfoldable pub record_value : Histogram → ℕ → Histogram
record_value h value = record_at h (clamp h.highest value) 1

unfoldable pub min : Histogram → ℕ
min h = if h.total_count == 0 then 0 else h.min_ns

-- the loop of `percentile`, over the counts from index `i` on; none left is the exit past the loop
unfoldable pub percentile_from : ℕ → List ℕ → ℕ → ℕ → ℕ → ℕ → ℕ
percentile_from precision [] i cumulative want past = past
percentile_from precision (c ∷ cs) i cumulative want past =
    let rest = percentile_from precision cs (i + 1) ((cumulative + c) % mod64) want past in
    if leb want ((cumulative + c) % mod64) then highest_equivalent_value precision i else rest

-- `percentile` at the rank `target` that its argument rounds to
unfoldable pub percentile : Histogram → ℕ → ℕ
percentile h target =
    if h.total_count == 0
    then 0
    else percentile_from h.precision h.counts 0 0 (if target == 0 then 1 else target) h.max_ns

abbrev pub tail : List ℕ → List ℕ
tail [] = []
tail (x ∷ xs) = xs

-- `counts_[i] += other.raw_count(i)` over the array
unfoldable pub add_counts : List ℕ → List ℕ → List ℕ
add_counts [] other = []
add_counts (c ∷ cs) other = ((c + get_or other 0 0) % mod64) ∷ add_counts cs (tail other)

unfoldable pub add : Histogram → Histogram → Histogram
unfolding min
add h other = record h {
  counts = add_counts h.counts other.counts;
  total_count = (h.total_count + other.total_count) % mod64;
  sum_ns = (h.sum_ns + other.sum_ns) % mod64;
  max_ns = if ltb h.max_ns other.max_ns then other.max_ns else h.max_ns;
  min_ns = if not (other.total_count == 0) && ltb (min other) h.min_ns then min other else h.min_ns;
}

unfoldable pub reset : Histogram → Histogram
reset h = record h {
  counts = replicate (length h.counts) 0;
  total_count = 0;
  sum_ns = 0;
  max_ns = 0;
  min_ns = mod64 - 1;
}
