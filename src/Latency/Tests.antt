-- ===== src/Latency/Tests.antt =====
-- Three times, with exact products in the place of the rounded ones.
use flow_dpi.Prelude.{ℕ, ◌*◌, ◌/◌, ◌≤◌, ◌≡◌, List, [], ◌∷◌, some, arith}
use flow_dpi.Prelude.Sort.{IsRank}
use flow_dpi.Latency.{LatencyPercentiles, compute_latency_percentiles}
use flow_dpi.Latency.Ranks.{IsScale, compute_latency_percentiles-IsRank}

abbrev pub thousandths : ℕ → ℕ → ℕ
thousandths p m = p * m / 1000

product_le : (p q m : ℕ) → p ≤ q → p * m ≤ q * m
product_le p q m h = grind arith

pub thousandths-IsScale : IsScale thousandths
thousandths-IsScale = record {
  below = λ p m h. omega (arith, product_le p 1000 m h);
  monotone = λ p q m h. omega (arith, product_le p q m h);
}

abbrev times : List ℕ
times = 30 ∷ 10 ∷ 20 ∷ []

compute_latency_percentiles-IsRank_example :
    (r : LatencyPercentiles) × (compute_latency_percentiles thousandths times ≡ some r)
    × IsRank times 1 r.p50
    × IsRank times 1 r.p99
    × IsRank times 1 r.p999
    × IsRank times 2 r.max_ns
    × (r.p50 ≤ r.p99)
    × (r.p99 ≤ r.p999)
    × (r.p999 ≤ r.max_ns)
compute_latency_percentiles-IsRank_example =
    compute_latency_percentiles-IsRank thousandths times thousandths-IsScale (omega arith)
