-- ===== src/Report.antt =====
-- renderReport of src/dpi_engine.cpp and of src/concurrent_dpi_engine.cpp: the text of a report, as
-- what the stream holds in the end. A function that writes takes what is written behind it.
pub mod Lines
pub mod Layout
pub mod Total
mod Tests
use flow_dpi.Prelude.{is_empty, ℕ, List, [], ◌∷◌, ◌++◌, Option, none, some, if◌then◌else◌}
use flow_dpi.Prelude.Fallible.{◌>>=◌}
use flow_dpi.Prelude.Text.{to_string}
use flow_dpi.Engine.Describe.{codes}
use flow_dpi.Engine.State.{EngineReport, BlockedEntry}
use flow_dpi.Latency.{LatencyPercentiles, compute_latency_percentiles}

-- A line, and what follows.
unfoldable pub line : List ℕ → List ℕ → List ℕ
line text rest = text ++ (b'\n' ∷ rest)

-- The two loops.
abbrev pub entry_text : BlockedEntry → List ℕ
entry_text e = codes "  " ++ (e.description ++ (codes "  [" ++ (e.reason ++ codes "]")))

abbrev pub name_text : List ℕ → List ℕ
name_text sni = codes "  " ++ sni

unfoldable pub render_entries : List BlockedEntry → List ℕ → List ℕ
render_entries [] rest = rest
render_entries (e ∷ es) rest = line (entry_text e) (render_entries es rest)

unfoldable pub render_names : List (List ℕ) → List ℕ → List ℕ
render_names [] rest = rest
render_names (s ∷ ss) rest = line (name_text s) (render_names ss rest)

abbrev pub matches_heading : List ℕ
matches_heading = codes "-- Rule matches --"

abbrev pub names_heading : List ℕ
names_heading = codes "-- Observed SNIs (allowed) --"

abbrev pub latency_heading : List ℕ
latency_heading = codes "-- Processing latency (per packet, excludes pcap I/O) --"

unfoldable pub render_matches : List BlockedEntry → List ℕ → List ℕ
render_matches entries rest =
    if is_empty entries then rest else line [] (line matches_heading (render_entries entries rest))

unfoldable pub render_observed : List (List ℕ) → List ℕ → List ℕ
render_observed snis rest =
    if is_empty snis then rest else line [] (line names_heading (render_names snis rest))

-- The product of computeLatencyPercentiles, and `<<` of a double, which are the machine's and the
-- C++ library's.
module _ (scale : ℕ → ℕ → ℕ) (show_double : ℕ → List ℕ) where
  abbrev pub nanoseconds : List ℕ → ℕ → List ℕ
  nanoseconds label v = label ++ (show_double v ++ codes " ns")

  unfoldable pub render_percentiles : LatencyPercentiles → List ℕ
  render_percentiles lat = line [] (
      line latency_heading (
        line (nanoseconds (codes "  p50:  ") lat.p50) (
          line (nanoseconds (codes "  p99:  ") lat.p99) (
            line (nanoseconds (codes "  p999: ") lat.p999)
              (line (nanoseconds (codes "  max:  ") lat.max_ns) [])))))

  unfoldable pub render_latencies : List ℕ → Option (List ℕ)
  render_latencies latencies =
      let rendered : Option (List ℕ) =
        compute_latency_percentiles scale latencies >>= λ lat. some (render_percentiles lat) in
      if is_empty latencies then some [] else rendered

  -- All lines, the first of which is the engine's own.
  unfoldable pub render : List ℕ → EngineReport → Option (List ℕ)
  render title report = render_latencies report.packet_latencies_ns >>= λ latencies. some (
      line title (
        line (codes "Total packets:   " ++ to_string report.total_packets) (
          line (codes "Total flows:     " ++ to_string report.total_flows) (
            line (codes "Rule-matched flows:   " ++ to_string report.blocked_flows) (
              line (codes "Rule-matched packets: " ++ to_string report.blocked_packets) (
                render_matches report.blocked_entries
                  (render_observed report.observed_snis latencies)))))))

  -- `DpiEngine::renderReport`
  unfoldable pub render_report : EngineReport → Option (List ℕ)
  render_report report = render (codes "=== FlowDPI Report ===") report

  abbrev pub workers_title : ℕ → List ℕ
  workers_title num_workers =
      codes "=== FlowDPI Report (" ++ (to_string num_workers ++ codes " workers) ===")

  -- `ConcurrentDpiEngine::renderReport`
  unfoldable pub render_merged_report : ℕ → EngineReport → Option (List ℕ)
  render_merged_report num_workers report = render (workers_title num_workers) report
