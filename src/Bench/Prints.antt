-- ===== src/Bench/Prints.antt =====
-- The benchmark comes to its end, and what it prints.
use flow_dpi.Prelude.{
  ap, ℕ, zero, suc, ◌*◌, ◌+◌, ◌-◌, ◌≤◌, ◌≡◌, refl, List, [], ◌∷◌, ◌++◌, length, Option, some, arith,
}
use flow_dpi.Prelude.Fallible.{bind-some}
use flow_dpi.Types.{empty_packet}
use flow_dpi.Packet.Bounds.{parse_safe}
use flow_dpi.Tls.Safety.{try_extract_sni_safe}
use flow_dpi.Latency.{Stats}
use flow_dpi.Latency.Ranks.{IsScale, compute_stats-IsRank}
use flow_dpi.Bench.{build_tcp_frame, build_client_hello_record}
use flow_dpi.Bench.Timing.{
  warm_up, measure, iterations, warmup, parse_once, keep_name, extract_once, parse_label,
  extract_label, hello_world, timed_host, Machine, print_stats, benchmark, benchmark_main,
}

-- A call that never reads outside its buffer.
abbrev IsTotal {ℓ} : {S : Type ℓ} → (S → Option S) → Type ℓ
IsTotal once = (s : _) → (s' : _) × (once s ≡ some s')

module _ {ℓ} {S : Type ℓ} (once : S → Option S) (total : IsTotal once) where
  warm_up-some : (n : ℕ) (s : S) → (warm : S) × (warm_up once n s ≡ some warm)
  unfolding warm_up
  warm_up-some zero s = (s, refl)
  warm_up-some (suc n) s =
      let (s', e) = total s in let (warm, f) = warm_up-some n s' in (warm, bind-some _ e f)

  measure-some :
      (clock : ℕ → ℕ) (n tick : ℕ) (s : S)
      → (times : List ℕ) × (last : S) × (measure clock once n tick s
          ≡ some (times, tick + 2 * n, last))
        × (length times ≡ n)
  unfolding measure
  measure-some clock zero tick s = ([], s, ap (λ k. some ([], k, s)) (omega arith), refl)
  measure-some clock (suc n) tick s =
      let (s', e) = total s in
      let (times, last, f, l) = measure-some clock n (tick + 2) s' in
      let times' = (clock (tick + 1) - clock tick) ∷ times in
      let later : tick + 2 + 2 * n ≡ tick + 2 * suc n = omega arith in
      (
        times',
        last,
        bind-some _ e (bind-some _ f (ap (λ k. some (times', k, last)) later)),
        ap suc l,
      )

-- The percentiles that are printed, from the middle to the largest time, are in their order.
abbrev IsOrdered : {Double : Type 0} → Stats Double → Type 0
IsOrdered s = (s.p50 ≤ s.p90) × (s.p90 ≤ s.p99) × (s.p99 ≤ s.p999) × (s.p999 ≤ s.max_ns)

module _ {Double : Type 0} (machine : Machine Double) (good : IsScale machine.scale) where
  benchmark_prints :
      {S : Type 0} (label : List ℕ) (once : S → Option S) (s : S) (tick : ℕ)
      → IsTotal once
      → (stats : Stats Double) × (next : ℕ) × (benchmark machine label once s tick
          ≡ some (print_stats machine label stats, next))
        × IsOrdered stats
  unfolding benchmark
  benchmark_prints label once s tick total =
      let (warm, e) = warm_up-some once total warmup s in
      let (times, last, f, l) = measure-some once total machine.clock iterations (tick + 1) warm in
      let r =
        compute_stats-IsRank machine.scale machine.rate times
          (machine.seconds (machine.clock (tick + 1 + 2 * iterations) - machine.clock tick)) good
          (omega (arith, l)) in
      (r.0, _, bind-some _ e (bind-some _ f (bind-some _ r.1 refl)), (r.7, r.8, r.9, r.10))

parse_once-IsTotal : (frame : List ℕ) → IsTotal (parse_once frame)
unfolding parse_once
parse_once-IsTotal frame parsed =
    let (accepted, out, e, _) = parse_safe frame in (out, bind-some _ e refl)

extract_once-IsTotal : (record_bytes : List ℕ) → IsTotal (extract_once record_bytes)
unfolding extract_once
extract_once-IsTotal record_bytes sni =
    let (status, name, e, _) = try_extract_sni_safe record_bytes in
    (keep_name sni (status, name), bind-some _ e refl)

-- Whatever the clock measures: the benchmark reads outside no buffer and prints both blocks, each
-- with its percentiles in order, up to the largest time; of the machine's arithmetic only the rounding
-- of fractions is assumed.
benchmark_main_prints :
    {Double : Type 0} (machine : Machine Double)
    → IsScale machine.scale
    → (first second : Stats Double) × (benchmark_main machine
        ≡ some (print_stats machine parse_label first ++ print_stats machine extract_label second))
      × IsOrdered first
      × IsOrdered second
unfolding benchmark_main
benchmark_main_prints machine good =
    let (first, next, e, o) =
      benchmark_prints machine good parse_label (parse_once (build_tcp_frame hello_world))
        empty_packet 0 (parse_once-IsTotal (build_tcp_frame hello_world)) in
    let (second, last, f, p) =
      benchmark_prints machine good extract_label
        (extract_once (build_client_hello_record timed_host)) [] next
        (extract_once-IsTotal (build_client_hello_record timed_host)) in
    (first, second, bind-some _ e (bind-some _ f refl), o, p)
