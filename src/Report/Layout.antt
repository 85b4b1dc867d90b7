-- ===== src/Report/Layout.antt =====
-- What the rendered report says, line by line, and how a name with a newline breaks it.
use flow_dpi.Prelude.{
  ℕ, ◌≡◌, refl, ap, ◌∙◌, List, [], ◌∷◌, ◌++◌, append_assoc, map, some, All, arith,
}
use flow_dpi.Prelude.Fallible.{bind-some}
use flow_dpi.Prelude.Text.{to_string}
use flow_dpi.Engine.Describe.{codes}
use flow_dpi.Engine.State.{EngineReport}
use flow_dpi.Latency.{LatencyPercentiles, compute_latency_percentiles}
use flow_dpi.Latency.Ranks.{IsScale, compute_latency_percentiles-IsRank}
use flow_dpi.Report.{
  line, entry_text, name_text, render_names, matches_heading, names_heading, latency_heading,
  render_observed, nanoseconds, render_percentiles, render_latencies, render, render_report,
  render_merged_report, workers_title,
}
use flow_dpi.Report.Lines.{
  lines, IsPlain, IsPlainEntry, has_newline, section, append-IsPlain, to_string-IsPlain, lines-next,
  lines-render_matches, lines-render_observed, counter-IsPlain,
}

module _ (scale : ℕ → ℕ → ℕ) (show_double : ℕ → List ℕ) where
  percentile_lines : LatencyPercentiles → List (List ℕ)
  percentile_lines lat =
      []
      ∷ latency_heading
      ∷ nanoseconds scale show_double (codes "  p50:  ") lat.p50
      ∷ nanoseconds scale show_double (codes "  p99:  ") lat.p99
      ∷ nanoseconds scale show_double (codes "  p999: ") lat.p999
      ∷ nanoseconds scale show_double (codes "  max:  ") lat.max_ns
      ∷ []

  -- The lines below a title, of a report with these lines about its times.
  unfoldable pub report_lines : EngineReport → List (List ℕ) → List (List ℕ)
  report_lines report times =
      (codes "Total packets:   " ++ to_string report.total_packets)
      ∷ (codes "Total flows:     " ++ to_string report.total_flows)
      ∷ (codes "Rule-matched flows:   " ++ to_string report.blocked_flows)
      ∷ (codes "Rule-matched packets: " ++ to_string report.blocked_packets)
      ∷ (section matches_heading (map entry_text report.blocked_entries)
          ++ (section names_heading (map name_text report.observed_snis) ++ times))

  -- The lines about the times: none without a time, else those of the percentiles.
  pub IsTimes : List ℕ → List (List ℕ) → Type 0
  IsTimes [] ls = ls ≡ []
  IsTimes (x ∷ xs) ls =
      (lat : LatencyPercentiles) × (compute_latency_percentiles scale (x ∷ xs) ≡ some lat)
      × (ls ≡ percentile_lines lat)

  module _ (good : IsScale scale) (plain_double : (v : ℕ) → IsPlain (show_double v)) where
    nanoseconds-IsPlain :
        (label : List ℕ) (v : ℕ) → IsPlain label → IsPlain (nanoseconds scale show_double label v)
    unfolding has_newline
    nanoseconds-IsPlain label v h =
        append-IsPlain label (show_double v ++ codes " ns") h
          (append-IsPlain (show_double v) (codes " ns") (plain_double v) refl)

    lines-render_percentiles :
        (lat : LatencyPercentiles)
        → lines (render_percentiles scale show_double lat) ≡ percentile_lines lat
    unfolding render_percentiles percentile_lines lines has_newline
    lines-render_percentiles lat = lines-next _ refl (
        lines-next _ refl (
          lines-next _ (nanoseconds-IsPlain (codes "  p50:  ") lat.p50 refl) (
            lines-next _ (nanoseconds-IsPlain (codes "  p99:  ") lat.p99 refl) (
              lines-next _ (nanoseconds-IsPlain (codes "  p999: ") lat.p999 refl)
                (lines-next _ (nanoseconds-IsPlain (codes "  max:  ") lat.max_ns refl) refl)))))

    render_latencies-lines :
        (latencies : List ℕ)
        → (text : List ℕ) × (render_latencies scale show_double latencies ≡ some text)
          × IsTimes latencies (lines text)
    unfolding render_latencies IsTimes lines
    render_latencies-lines [] = ([], refl, refl)
    render_latencies-lines (x ∷ xs) =
        let found = compute_latency_percentiles-IsRank scale (x ∷ xs) good (omega arith) in
        (
          render_percentiles scale show_double found.0,
          bind-some _ found.1 refl,
          (found.0, found.1, lines-render_percentiles found.0),
        )

    render-lines :
        (title : List ℕ) (report : EngineReport)
        → IsPlain title
        → All IsPlainEntry report.blocked_entries
        → All IsPlain report.observed_snis
        → (text : List ℕ) × (times : List (List ℕ)) × (render scale show_double title report
            ≡ some text)
          × (lines text ≡ title ∷ report_lines report times)
          × IsTimes report.packet_latencies_ns times
    unfolding render report_lines has_newline
    render-lines title report t entries names =
        let (tail, e, times) = render_latencies-lines report.packet_latencies_ns in
        (
          _,
          lines tail,
          bind-some _ e refl,
          lines-next _ t (
              lines-next _ (counter-IsPlain (codes "Total packets:   ") report.total_packets refl) (
                lines-next _ (counter-IsPlain (codes "Total flows:     ") report.total_flows refl) (
                  lines-next _
                    (counter-IsPlain (codes "Rule-matched flows:   ") report.blocked_flows refl)
                    (lines-next _
                      (counter-IsPlain (codes "Rule-matched packets: ") report.blocked_packets refl)
                      (lines-render_matches report.blocked_entries
                          (render_observed report.observed_snis tail) entries
                        ∙ ap
                            (λ ls.
                              section matches_heading (map entry_text report.blocked_entries) ++ ls)
                            (lines-render_observed report.observed_snis tail names)))))),
          times,
        )

-- A report whose texts hold no newline is rendered by both engines, where a double is printed without
-- one and a fraction rounded as IsScale says, as the title, a line for each counter, a section with a
-- line for each entry and one with a line for each name, each section left out when it is empty, and
-- the percentiles of the times, if there are any.
pub render_report-lines :
    (scale : ℕ → ℕ → ℕ) (show_double : ℕ → List ℕ) (num_workers : ℕ) (report : EngineReport)
    → IsScale scale
    → ((v : ℕ) → IsPlain (show_double v))
    → All IsPlainEntry report.blocked_entries
    → All IsPlain report.observed_snis
    → ((text : List ℕ) × (times : List (List ℕ)) × (render_report scale show_double report
          ≡ some text)
        × (lines text
            ≡ codes "=== FlowDPI Report ===" ∷ report_lines scale show_double report times)
        × IsTimes scale show_double report.packet_latencies_ns times)
      × ((text : List ℕ) × (times : List (List ℕ)) × (render_merged_report scale show_double
              num_workers report
            ≡ some text)
          × (lines text
              ≡ workers_title scale show_double num_workers
                ∷ report_lines scale show_double report times)
          × IsTimes scale show_double report.packet_latencies_ns times)
unfolding render_report render_merged_report has_newline
render_report-lines scale show_double num_workers report good plain entries names = (
  render-lines scale show_double good plain (codes "=== FlowDPI Report ===") report refl entries
      names,
  render-lines scale show_double good plain (workers_title scale show_double num_workers) report
      (append-IsPlain (codes "=== FlowDPI Report (")
        (to_string num_workers ++ codes " workers) ===") refl
        (append-IsPlain (to_string num_workers) (codes " workers) ===")
          (to_string-IsPlain num_workers) refl))
      entries names,
)

-- A name that holds a newline and two spaces is rendered like two names.
pub render_names-forged :
    (a b : List ℕ) (before behind : List (List ℕ)) (rest : List ℕ)
    → render_names (before ++ ((a ++ ((b'\n' ∷ []) ++ (codes "  " ++ b))) ∷ behind)) rest
      ≡ render_names (before ++ (a ∷ b ∷ behind)) rest
unfolding render_names line
render_names-forged a b [] behind rest =
    append_assoc (codes "  " ++ a) ((b'\n' ∷ []) ++ (codes "  " ++ b))
      (b'\n' ∷ render_names behind rest)
render_names-forged a b (s ∷ ss) behind rest =
    ap (line (name_text s)) (render_names-forged a b ss behind rest)
