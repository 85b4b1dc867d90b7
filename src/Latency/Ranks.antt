-- ===== src/Latency/Ranks.antt =====
-- The percentiles are elements of the right ranks, and never out of order.
use flow_dpi.Prelude.{
  ℕ, ◌-◌, ◌≤◌, ◌<◌, ◌≡◌, refl, ap, ◌∙◌, List, [], ◌∷◌, length, get_elem?, some, arith,
}
use flow_dpi.Prelude.Fallible.{bind-some}
use flow_dpi.Prelude.Sort.{
  sort, sort-IsRank, IsRank, IsAscending-get, sort-IsAscending, length-sort,
}
use flow_dpi.Latency.{
  LatencyPercentiles, Stats, pct, back, compute_latency_percentiles, compute_stats,
}

-- What multiplying by a fraction below one and rounding promises.
pub record IsScale (scale : ℕ → ℕ → ℕ) : Type 0 where
  pub below : (p m : ℕ) → p ≤ 1000 → scale p m ≤ m
  pub monotone : (p q m : ℕ) → p ≤ q → scale p m ≤ scale q m

module _ (scale : ℕ → ℕ → ℕ) (good : IsScale scale) (latencies_ns : List ℕ)
    (some_time : 0 < length latencies_ns) where
  last : ℕ
  last = length latencies_ns - 1

  element :
      (k : ℕ)
      → k ≤ last
      → (v : ℕ) × (get_elem? (sort latencies_ns) k ≡ some v) × IsRank latencies_ns k v
  unfolding last
  element k h = sort-IsRank latencies_ns k (omega (arith, h, length-sort latencies_ns))

  same_last : length (sort latencies_ns) - 1 ≡ last
  unfolding last
  same_last = omega (arith, length-sort latencies_ns)

  -- What `pct` gives for a fraction.
  pct-IsRank :
      (p : ℕ)
      → p ≤ 1000
      → (v : ℕ) × (pct scale (sort latencies_ns) p ≡ some v) × IsRank latencies_ns (scale p last) v
  pct-IsRank p h =
      let (v, e, r) = element (scale p last) (good.below p last h) in
      (v, ap (λ m. get_elem? (sort latencies_ns) (scale p m)) same_last ∙ e, r)

  back-IsRank : (v : ℕ) × (back (sort latencies_ns) ≡ some v) × IsRank latencies_ns last v
  back-IsRank =
      let (v, e, r) = element last (omega arith) in
      (v, ap (get_elem? (sort latencies_ns)) same_last ∙ e, r)

  pct-le :
      (p q a b : ℕ)
      → p ≤ q
      → pct scale (sort latencies_ns) p ≡ some a
      → pct scale (sort latencies_ns) q ≡ some b
      → a ≤ b
  pct-le p q a b h e f =
      IsAscending-get (sort latencies_ns) _ _ a b (sort-IsAscending latencies_ns)
        (good.monotone p q _ h) e f

  pct-back :
      (p a b : ℕ)
      → p ≤ 1000
      → pct scale (sort latencies_ns) p ≡ some a
      → back (sort latencies_ns) ≡ some b
      → a ≤ b
  pct-back p a b h e f =
      IsAscending-get (sort latencies_ns) _ _ a b (sort-IsAscending latencies_ns) (good.below p _ h)
        e f

-- Of at least one time, where a fraction of an index is rounded as IsScale says: each percentile that
-- the report gives is an element whose rank is the fraction of the last index, the maximum has the
-- last rank, and they are in order.
pub compute_latency_percentiles-IsRank :
    (scale : ℕ → ℕ → ℕ) (latencies_ns : List ℕ)
    → IsScale scale
    → 0 < length latencies_ns
    → (r : LatencyPercentiles) × (compute_latency_percentiles scale latencies_ns ≡ some r)
      × IsRank latencies_ns (scale 500 (length latencies_ns - 1)) r.p50
      × IsRank latencies_ns (scale 990 (length latencies_ns - 1)) r.p99
      × IsRank latencies_ns (scale 999 (length latencies_ns - 1)) r.p999
      × IsRank latencies_ns (length latencies_ns - 1) r.max_ns
      × (r.p50 ≤ r.p99)
      × (r.p99 ≤ r.p999)
      × (r.p999 ≤ r.max_ns)
unfolding compute_latency_percentiles last
compute_latency_percentiles-IsRank scale [] good h = absurd (omega arith)
compute_latency_percentiles-IsRank scale (x ∷ xs) good h =
    let (a, e, ra) = pct-IsRank scale good (x ∷ xs) h 500 (omega arith) in
    let (b, f, rb) = pct-IsRank scale good (x ∷ xs) h 990 (omega arith) in
    let (c, g, rc) = pct-IsRank scale good (x ∷ xs) h 999 (omega arith) in
    let (d, k, rd) = back-IsRank scale good (x ∷ xs) h in
    (
      record { p50 = a; p99 = b; p999 = c; max_ns = d },
      bind-some _ e (bind-some _ f (bind-some _ g (bind-some _ k refl))),
      ra,
      rb,
      rc,
      rd,
      pct-le scale good (x ∷ xs) h 500 990 a b (omega arith) e f,
      pct-le scale good (x ∷ xs) h 990 999 b c (omega arith) f g,
      pct-back scale good (x ∷ xs) h 999 c d (omega arith) g k,
    )

-- The same of the benchmark's statistics, with the ninetieth percentile between.
pub compute_stats-IsRank :
    {Double : Type 0} (scale : ℕ → ℕ → ℕ) (rate : ℕ → Double → Double) (latencies_ns : List ℕ)
    (total_seconds : Double)
    → IsScale scale
    → 0 < length latencies_ns
    → (r : Stats Double) × (compute_stats scale rate latencies_ns total_seconds ≡ some r)
      × IsRank latencies_ns (scale 500 (length latencies_ns - 1)) r.p50
      × IsRank latencies_ns (scale 900 (length latencies_ns - 1)) r.p90
      × IsRank latencies_ns (scale 990 (length latencies_ns - 1)) r.p99
      × IsRank latencies_ns (scale 999 (length latencies_ns - 1)) r.p999
      × IsRank latencies_ns (length latencies_ns - 1) r.max_ns
      × (r.p50 ≤ r.p90)
      × (r.p90 ≤ r.p99)
      × (r.p99 ≤ r.p999)
      × (r.p999 ≤ r.max_ns)
unfolding compute_stats last
compute_stats-IsRank scale rate xs total_seconds good h =
    let (a, e, ra) = pct-IsRank scale good xs h 500 (omega arith) in
    let (n, m, rn) = pct-IsRank scale good xs h 900 (omega arith) in
    let (b, f, rb) = pct-IsRank scale good xs h 990 (omega arith) in
    let (c, g, rc) = pct-IsRank scale good xs h 999 (omega arith) in
    let (d, k, rd) = back-IsRank scale good xs h in
    (
      record {
        p50 = a;
        p90 = n;
        p99 = b;
        p999 = c;
        max_ns = d;
        throughput_per_sec = rate (length (sort xs)) total_seconds;
      },
      bind-some _ e (bind-some _ m (bind-some _ f (bind-some _ g (bind-some _ k refl)))),
      ra,
      rn,
      rb,
      rc,
      rd,
      pct-le scale good xs h 500 900 a n (omega arith) e m,
      pct-le scale good xs h 900 990 n b (omega arith) m f,
      pct-le scale good xs h 990 999 b c (omega arith) f g,
      pct-back scale good xs h 999 c d (omega arith) g k,
    )
