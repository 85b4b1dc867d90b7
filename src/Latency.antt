-- ===== src/Latency.antt =====
-- src/dpi_engine.cpp, computeLatencyPercentiles, and src/benchmark.cpp, computeStats. A time is a
-- whole number of nanoseconds, as the clock measures it; `none` is a read outside the list.
pub mod Ranks
pub mod Tests
use flow_dpi.Prelude.{
  is_empty, ℕ, ◌-◌, List, [], ◌∷◌, length, get_elem?, Option, none, some, if◌then◌else◌,
}
use flow_dpi.Prelude.Fallible.{◌>>=◌}
use flow_dpi.Prelude.Sort.{sort}

-- `LatencyPercentiles`
pub record LatencyPercentiles : Type 0 where
  pub p50 : ℕ
  pub p99 : ℕ
  pub p999 : ℕ
  pub max_ns : ℕ

abbrev pub no_percentiles : LatencyPercentiles
no_percentiles = record { p50 = 0; p99 = 0; p999 = 0; max_ns = 0 }

-- `Stats`; a rate is a `double`.
pub record Stats (Double : Type 0) : Type 0 where
  pub p50 : ℕ
  pub p90 : ℕ
  pub p99 : ℕ
  pub p999 : ℕ
  pub max_ns : ℕ
  pub throughput_per_sec : Double

-- `back`
abbrev pub back : List ℕ → Option ℕ
back xs = get_elem? xs (length xs - 1)

-- The product of a fraction, in thousandths, and the last index, cast to `size_t`: its rounding is
-- that of the machine's floating point.
module _ (scale : ℕ → ℕ → ℕ) where
  -- `pct`; of an empty list there is nothing to read, whatever the index.
  abbrev pub pct : List ℕ → ℕ → Option ℕ
  pct latencies_ns p = get_elem? latencies_ns (scale p (length latencies_ns - 1))

  -- `computeLatencyPercentiles`
  unfoldable pub compute_latency_percentiles : List ℕ → Option LatencyPercentiles
  compute_latency_percentiles latencies_ns =
      let sorted = sort latencies_ns in
      let computed : Option LatencyPercentiles = (do
        p50 ← pct sorted 500
        p99 ← pct sorted 990
        p999 ← pct sorted 999
        max_ns ← back sorted
        some (record { p50 = p50; p99 = p99; p999 = p999; max_ns = max_ns })) in
      if is_empty latencies_ns then some no_percentiles else computed

  -- `computeStats`; `rate` is the division of doubles.
  unfoldable pub compute_stats :
      {Double : Type 0} → (ℕ → Double → Double) → List ℕ → Double → Option (Stats Double)
  compute_stats rate latencies_ns total_seconds =
      let sorted = sort latencies_ns in
      (do
        p50 ← pct sorted 500
        p90 ← pct sorted 900
        p99 ← pct sorted 990
        p999 ← pct sorted 999
        max_ns ← back sorted
        some (record {
          p50 = p50;
          p90 = p90;
          p99 = p99;
          p999 = p999;
          max_ns = max_ns;
          throughput_per_sec = rate (length sorted) total_seconds;
        }))
