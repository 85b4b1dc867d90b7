-- ===== src/Bench/Timing.antt =====
-- src/benchmark.cpp: the two timed loops and what `main` prints. `none` is a read outside a buffer.
use flow_dpi.Prelude.{ℕ, zero, suc, ◌+◌, ◌-◌, List, [], ◌∷◌, ◌++◌, Option, some}
use flow_dpi.Prelude.Fallible.{◌>>=◌}
use flow_dpi.Prelude.Text.{to_string}
use flow_dpi.Types.{ParsedPacket, empty_packet}
use flow_dpi.Packet.{parse}
use flow_dpi.Tls.{try_extract_sni}
use flow_dpi.Tls.Monad.{TlsParseStatus}
use flow_dpi.Engine.Describe.{codes}
use flow_dpi.Latency.{Stats, compute_stats}
use flow_dpi.Bench.{build_tcp_frame, build_client_hello_record}

-- The loop in front of the measurement.
unfoldable pub warm_up {ℓ} : {S : Type ℓ} → (S → Option S) → ℕ → S → Option S
warm_up once zero s = some s
warm_up once (suc n) s = once s >>= λ s'. warm_up once n s'

-- The measured loop: the times, how often the clock was read, and what the calls leave.
unfoldable pub measure {ℓ} :
    {S : Type ℓ} → (ℕ → ℕ) → (S → Option S) → ℕ → ℕ → S → Option (List ℕ × ℕ × S)
measure clock once zero tick s = some ([], tick, s)
measure clock once (suc n) tick s = once s >>= λ s'. measure clock once n (tick + 2) s' >>= λ last.
    some ((clock (tick + 1) - clock tick) ∷ last.0, last.1, last.2)

abbrev pub iterations : ℕ
iterations = 1000000

abbrev pub warmup : ℕ
warmup = 10000

-- The body of each loop: `parsed` is written anew, `sni` when a name is found.
unfoldable pub parse_once : List ℕ → ParsedPacket → Option ParsedPacket
parse_once frame parsed = parse frame >>= λ answer. some answer.1

unfoldable pub keep_name : List ℕ → TlsParseStatus × List ℕ → List ℕ
keep_name sni (TlsParseStatus.found, name) = name
keep_name sni (status, name) = sni

unfoldable pub extract_once : List ℕ → List ℕ → Option (List ℕ)
extract_once record_bytes sni =
    try_extract_sni record_bytes >>= λ answer. some (keep_name sni answer)

abbrev pub parse_label : List ℕ
parse_label = codes "PacketParser::parse (Ethernet+IPv4+TCP, no options)"

abbrev pub extract_label : List ℕ
extract_label = codes "tryExtractSni (complete ClientHello, SNI found)"

abbrev pub hello_world : List ℕ
hello_world = codes "hello world"

abbrev pub timed_host : List ℕ
timed_host = codes "api.streaming-service.example.com"

-- The clock in nanoseconds, one reading after another, and the arithmetic of doubles: the rounding of
-- a fraction of an index, a rate, nanoseconds as seconds, the cast to uint64_t, and the print with one
-- decimal.
pub record Machine (Double : Type 0) : Type 0 where
  pub clock : ℕ → ℕ
  pub scale : ℕ → ℕ → ℕ
  pub rate : ℕ → Double → Double
  pub seconds : ℕ → Double
  pub as_integer : Double → ℕ
  pub show_fixed : ℕ → List ℕ

module _ {Double : Type 0} (machine : Machine Double) where
  -- `printStats`, in front of what follows.
  abbrev pub stat_line : List ℕ → ℕ → List ℕ
  stat_line name v = name ++ (machine.show_fixed v ++ codes " ns\n")

  unfoldable pub print_stats : List ℕ → Stats Double → List ℕ
  print_stats label s =
      label
      ++ (codes ":\n"
          ++ (stat_line (codes "  p50:   ") s.p50
              ++ (stat_line (codes "  p90:   ") s.p90
                  ++ (stat_line (codes "  p99:   ") s.p99
                      ++ (stat_line (codes "  p999:  ") s.p999
                          ++ (stat_line (codes "  max:   ") s.max_ns
                              ++ (codes "  throughput: "
                                  ++ (to_string (machine.as_integer s.throughput_per_sec)
                                      ++ codes " ops/sec\n\n"))))))))

  -- One of the two blocks of `main`: what it prints, and how often the clock was read.
  unfoldable pub benchmark {ℓ} :
      {S : Type ℓ} → List ℕ → (S → Option S) → S → ℕ → Option (List ℕ × ℕ)
  benchmark label once s tick = warm_up once warmup s >>= λ warm.
      measure machine.clock once iterations (tick + 1) warm >>= λ done.
      compute_stats machine.scale machine.rate done.0
        (machine.seconds (machine.clock done.1 - machine.clock tick))
      >>= λ stats. some (print_stats label stats, done.1 + 1)

  -- `main`
  unfoldable pub benchmark_main : Option (List ℕ)
  benchmark_main =
      benchmark parse_label (parse_once (build_tcp_frame hello_world)) empty_packet 0 >>= λ first.
      benchmark extract_label (extract_once (build_client_hello_record timed_host)) [] first.1
      >>= λ second. some (first.0 ++ second.0)
