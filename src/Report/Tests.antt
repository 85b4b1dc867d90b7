-- ===== src/Report/Tests.antt =====
-- A report with an entry, a name and three times.
use flow_dpi.Prelude.{ℕ, ◌≡◌, refl, List, [], ◌∷◌, ◌++◌, some}
use flow_dpi.Prelude.Text.{to_string}
use flow_dpi.Engine.Describe.{codes}
use flow_dpi.Engine.State.{EngineReport}
use flow_dpi.Latency.Tests.{thousandths, thousandths-IsScale}
use flow_dpi.Report.{render_names, render_report, render_merged_report, workers_title}
use flow_dpi.Report.Lines.{lines, to_string-IsPlain, has_newline}
use flow_dpi.Report.Layout.{report_lines, IsTimes, render_report-lines, render_names-forged}

abbrev small_report : EngineReport
small_report = record {
  total_packets = 3;
  total_flows = 2;
  blocked_flows = 1;
  blocked_packets = 1;
  blocked_entries = record { description = codes "a"; reason = codes "b" } ∷ [];
  observed_snis = codes "example.com" ∷ [];
  packet_latencies_ns = 30 ∷ 10 ∷ 20 ∷ [];
}

render_report-lines_example :
    ((text : List ℕ) × (times : List (List ℕ)) × (render_report thousandths to_string small_report
        ≡ some text)
      × (lines text
          ≡ codes "=== FlowDPI Report ===" ∷ report_lines thousandths to_string small_report times)
      × IsTimes thousandths to_string small_report.packet_latencies_ns times)
    × ((text : List ℕ) × (times : List (List ℕ)) × (render_merged_report thousandths to_string 4
            small_report
          ≡ some text)
        × (lines text
            ≡ workers_title thousandths to_string 4
              ∷ report_lines thousandths to_string small_report times)
        × IsTimes thousandths to_string small_report.packet_latencies_ns times)
unfolding has_newline
render_report-lines_example =
    render_report-lines thousandths to_string 4 small_report thousandths-IsScale to_string-IsPlain
      ((refl, refl), tt) (refl, tt)

render_names-forged_example :
    render_names ((codes "a.com" ++ ((b'\n' ∷ []) ++ (codes "  " ++ codes "b.com"))) ∷ []) []
    ≡ render_names (codes "a.com" ∷ codes "b.com" ∷ []) []
render_names-forged_example = render_names-forged (codes "a.com") (codes "b.com") [] [] []
