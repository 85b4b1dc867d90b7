-- ===== src/Concurrent/Gather.antt =====
-- The merge of the workers' reports, and how it follows one worker.
use flow_dpi.Prelude.{
  ℕ, zero, suc, ◌+◌, ◌≤◌, ◌<◌, ◌≡◌, refl, sym, ap, ◌∙◌, subst, false, ◌==◌, ne→==, Bool-cases, inl,
  inr, ==_iff, arith,
}
use flow_dpi.Prelude.Family.{update, update_same, update_other}
use flow_dpi.Engine.State.{EngineReport, empty_report, DpiEngine}
use flow_dpi.Concurrent.{merge_report_into}
use flow_dpi.Concurrent.Reports.{
  Agree, IsWord64, Agree-refl, Agree-trans, merge-Agree, merge_assoc, merge_swap, merge-empty,
}

-- An engine for each worker.
abbrev pub Workers : Type 0
Workers = ℕ → DpiEngine

-- The loop that merges the reports, from worker `k` on.
abbrev pub gather : Workers → ℕ → ℕ → EngineReport → EngineReport
gather workers k zero merged = merged
gather workers k (suc left) merged =
    gather workers (suc k) left (merge_report_into merged (workers k).report)

gather-Agree :
    (workers : Workers) (k left : ℕ) (a b : EngineReport)
    → Agree a b
    → Agree (gather workers k left a) (gather workers k left b)
gather-Agree workers k zero a b h = h
gather-Agree workers k (suc left) a b h =
    gather-Agree workers (suc k) left _ _ (merge-Agree a b (workers k).report h)

-- What is added in front may as well be added behind.
gather-merge :
    (workers : Workers) (k left : ℕ) (merged added : EngineReport)
    → Agree
        (gather workers k left (merge_report_into merged added))
        (merge_report_into (gather workers k left merged) added)
gather-merge workers k zero merged added = Agree-refl _
gather-merge workers k (suc left) merged added =
    Agree-trans _ _ _
      (gather-Agree workers (suc k) left _ _ (merge_swap merged added (workers k).report))
      (gather-merge workers (suc k) left (merge_report_into merged (workers k).report) added)

gather-update_outside :
    (workers : Workers) (s k left : ℕ) (engine : DpiEngine) (merged : EngineReport)
    → s < k
    → gather (update workers s engine) k left merged ≡ gather workers k left merged
gather-update_outside workers s k zero engine merged h = refl
gather-update_outside workers s k (suc left) engine merged h =
    ap (λ e. gather (update workers s engine) (suc k) left (merge_report_into merged e.report))
      (update_other workers s k engine (ne→== k s (omega arith)))
    ∙ gather-update_outside workers s (suc k) left engine _ (omega arith)

-- A worker whose report grows makes the merged report grow by as much.
pub gather-update :
    (workers : Workers) (s k left : ℕ) (engine : DpiEngine) (added merged : EngineReport)
    → k ≤ s
    → s < k + left
    → engine.report ≡ merge_report_into (workers s).report added
    → Agree
        (gather (update workers s engine) k left merged)
        (merge_report_into (gather workers k left merged) added)
gather-update workers s k zero engine added merged low high e = absurd (omega arith)
gather-update workers s k (suc left) engine added merged low high e = elim (Bool-cases (k == s)) [
  | inl here ↦
      let same : k ≡ s = (==_iff k s).0 here in
      subst (λ r. Agree r (merge_report_into (gather workers k (suc left) merged) added))
        (sym (at_worker same))
        (gather-merge workers (suc k) left (merge_report_into merged (workers k).report) added)
  | inr later ↦
      subst
        (λ (w : DpiEngine).
          Agree (gather (update workers s engine) (suc k) left (merge_report_into merged w.report))
            (merge_report_into (gather workers k (suc left) merged) added))
        (sym (update_other workers s k engine later))
        (gather-update workers s (suc k) left engine added _ (apart later) (omega arith) e)
]
  where
    apart : (k == s) ≡ false → suc k ≤ s
    apart later = ground arith

    at_worker :
        k ≡ s
        → gather (update workers s engine) k (suc left) merged
          ≡ gather workers
              (suc k)
              left
              (merge_report_into (merge_report_into merged (workers k).report) added)
    at_worker same =
        ap
          (λ (w : DpiEngine).
            gather (update workers s engine) (suc k) left (merge_report_into merged w.report))
          (ap (update workers s engine) same ∙ update_same workers s engine)
        ∙ gather-update_outside workers s (suc k) left engine _ (omega arith)
        ∙ ap (gather workers (suc k) left) (
            ap (merge_report_into merged)
              (e ∙ ap (λ i. merge_report_into (workers i).report added) (sym same))
            ∙ sym (merge_assoc merged (workers k).report added))

-- Workers that have done nothing report nothing.
pub gather-empty :
    (workers : Workers) (k left : ℕ) (merged : EngineReport)
    → IsWord64 merged
    → ((i : ℕ) → (workers i).report ≡ empty_report)
    → gather workers k left merged ≡ merged
gather-empty workers k zero merged w e = refl
gather-empty workers k (suc left) merged w e =
    let same = ap (merge_report_into merged) (e k) ∙ merge-empty merged w in
    ap (gather workers (suc k) left) same ∙ gather-empty workers (suc k) left merged w e
