-- ===== src/Report/Total.antt =====
-- Every report is rendered: no percentile is read outside the list of times.
use flow_dpi.Prelude.{ℕ, ◌≡◌, refl, List, [], ◌∷◌, some, arith}
use flow_dpi.Prelude.Fallible.{bind-some}
use flow_dpi.Engine.State.{EngineReport}
use flow_dpi.Latency.Ranks.{IsScale, compute_latency_percentiles-IsRank}
use flow_dpi.Report.{render_latencies, render, render_report, render_merged_report}

module _ (scale : ℕ → ℕ → ℕ) (show_double : ℕ → List ℕ) (good : IsScale scale) where
  render_latencies-some :
      (latencies : List ℕ)
      → (text : List ℕ) × (render_latencies scale show_double latencies ≡ some text)
  unfolding render_latencies
  render_latencies-some [] = ([], refl)
  render_latencies-some (x ∷ xs) =
      let found = compute_latency_percentiles-IsRank scale (x ∷ xs) good (omega arith) in
      (_, bind-some _ found.1 refl)

  render-some :
      (title : List ℕ) (report : EngineReport)
      → (text : List ℕ) × (render scale show_double title report ≡ some text)
  unfolding render
  render-some title report =
      let (tail, e) = render_latencies-some report.packet_latencies_ns in (_, bind-some _ e refl)

  pub render_report-some :
      (report : EngineReport)
      → (text : List ℕ) × (render_report scale show_double report ≡ some text)
  unfolding render_report
  render_report-some report = render-some _ report

  pub render_merged_report-some :
      (num_workers : ℕ) (report : EngineReport)
      → (text : List ℕ) × (render_merged_report scale show_double num_workers report ≡ some text)
  unfolding render_merged_report
  render_merged_report-some num_workers report = render-some _ report
