-- ===== src/Concurrent/Shards.antt =====
-- One engine over all packets, and an engine for each worker over its own: they stay in step.
use flow_dpi.Prelude.{
  ap₂, ℕ, ◌%◌, ◌<◌, ◌≡◌, refl, sym, ap, ◌∙◌, subst, List, false, some, ◌==◌, ==_iff, Bool-cases,
  inl, inr, All, arith,
}
use flow_dpi.Types.{ParsedPacket, FiveTuple, tuple}
use flow_dpi.Rules.{BlockRules}
use flow_dpi.Engine.{process_parsed_packet}
use flow_dpi.Engine.State.{
  FlowState, EngineReport, empty_report, tuple_eq, find_flow, set_flow, DpiEngine,
}
use flow_dpi.Engine.Extract.{IsTidy}
use flow_dpi.Engine.Table.{find_flow-set_flow, find_flow-set_flow_other, set_flow-All, tuple_eq→eq}
use flow_dpi.Concurrent.{WorkItem}
use flow_dpi.Concurrent.Reports.{
  Agree, Agree-trans, Agree-sym, merge-Agree, IsWord64, merge-IsWord64,
}
use flow_dpi.Concurrent.Delta.{judge-some, judge, engine_with, process_parsed_packet-judge}
use flow_dpi.Prelude.Family.{update, update_same, update_other, update_all}
use flow_dpi.Concurrent.Gather.{Workers, gather, gather-update}
use flow_dpi.Concurrent.Safety.{IsParsed}

module _ (hash : FiveTuple → ℕ) (n : ℕ) (some_worker : 0 < n) where
  abbrev pub shard : FiveTuple → ℕ
  shard t = hash t % n

  shard-lt : (t : FiveTuple) → shard t < n
  shard-lt t = grind arith

  -- The one engine and the workers: each flow is where its hash puts it, as the one engine has it,
  -- and the reports agree.
  pub record InStep (rules : BlockRules) (engine : DpiEngine) (workers : Workers) : Type 0 where
    pub flows : (t : FiveTuple) → find_flow t engine.flows ≡ find_flow t (workers (shard t)).flows
    pub one_rules : engine.rules ≡ rules
    pub their_rules : (i : ℕ) → (workers i).rules ≡ rules
    pub tidy : All (λ e. IsTidy e.1) engine.flows
    pub one_word : IsWord64 engine.report
    pub their_words : (i : ℕ) → IsWord64 (workers i).report
    pub reports : Agree engine.report (gather workers 0 n empty_report)

  module _ (rules : BlockRules) (engine : DpiEngine) (workers : Workers)
      (s : InStep rules engine workers) (bytes : List ℕ) (p : ParsedPacket) (elapsed : ℕ)
      (judged : FlowState × EngineReport) (tidy : IsTidy judged.0) where
    worker : ℕ
    worker = shard (tuple p)

    after : DpiEngine
    after = engine_with (workers worker) bytes p elapsed judged

    InStepAt : FiveTuple → Type 0
    InStepAt t =
        find_flow t (set_flow (tuple p) judged.0 engine.flows)
        ≡ find_flow t (update workers worker after (shard t)).flows

    own_flow : InStepAt (tuple p)
    unfolding InStepAt worker after
    own_flow =
        find_flow-set_flow (tuple p) judged.0 engine.flows
        ∙ sym (
            ap (λ (w : DpiEngine). find_flow (tuple p) w.flows) (update_same workers worker after)
            ∙ find_flow-set_flow (tuple p) judged.0 (workers worker).flows)

    other_flow : (t : FiveTuple) → tuple_eq (tuple p) t ≡ false → InStepAt t
    unfolding InStepAt worker after
    other_flow t other =
        find_flow-set_flow_other (tuple p) t judged.0 engine.flows other
        ∙ s.flows t
        ∙ sym (elim (Bool-cases (shard t == worker)) [
          | inl here ↦
              let same : shard t ≡ worker = (==_iff (shard t) worker).0 here in
              ap (λ i. find_flow t (update workers worker after i).flows) same
              ∙ ap (λ (w : DpiEngine). find_flow t w.flows) (update_same workers worker after)
              ∙ find_flow-set_flow_other (tuple p) t judged.0 (workers worker).flows other
              ∙ ap (λ i. find_flow t (workers i).flows) (sym same)
          | inr elsewhere ↦
              ap (λ (w : DpiEngine). find_flow t w.flows)
                (update_other workers worker (shard t) after elsewhere)
        ])

    flows_in_step : (t : FiveTuple) → InStepAt t
    flows_in_step t = elim (Bool-cases (tuple_eq (tuple p) t)) [
      | inl same ↦ subst InStepAt (tuple_eq→eq (tuple p) t same) own_flow
      | inr other ↦ other_flow t other
    ]

    engine_with-InStep :
        InStep rules (engine_with engine bytes p elapsed judged) (update workers worker after)
    unfolding worker after InStepAt
    engine_with-InStep = record {
      flows = flows_in_step;
      one_rules = s.one_rules;
      their_rules = λ i.
          update_all (λ e. e.rules ≡ rules) workers worker after (s.their_rules worker)
            s.their_rules i;
      tidy = set_flow-All (λ e. IsTidy e.1) (tuple p) judged.0 engine.flows (λ k same. tidy) s.tidy;
      one_word = merge-IsWord64 _ _;
      their_words = λ i.
          update_all (λ e. IsWord64 e.report) workers worker after (merge-IsWord64 _ _)
            s.their_words i;
      reports = Agree-trans _ _ _ (merge-Agree engine.report _ judged.1 s.reports) (
          Agree-sym _ _ (
            gather-update workers worker 0 n after judged.1 empty_report (omega arith)
              (omega (arith, shard-lt (tuple p))) refl));
    }

  -- One packet: the engine and its worker process it, and all stay in step.
  pub process_parsed_packet-InStep :
      (rules : BlockRules) (engine : DpiEngine) (workers : Workers) (item : WorkItem)
      → InStep rules engine workers
      → IsParsed item
      → (engine' : DpiEngine) × (worker' : DpiEngine) × (process_parsed_packet engine item.raw.bytes
            item.parsed item.elapsed
          ≡ some engine')
        × (process_parsed_packet
              (workers (shard (tuple item.parsed)))
              item.raw.bytes
              item.parsed
              item.elapsed
            ≡ some worker')
        × InStep rules engine' (update workers (shard (tuple item.parsed)) worker')
  unfolding worker after
  process_parsed_packet-InStep rules engine workers item s (w, ip) =
      let p = item.parsed in
      let bytes = item.raw.bytes in
      let worker = workers (shard (tuple p)) in
      let (judged, e, tidy) = judge-some engine bytes p item.elapsed s.tidy w in
      let same : judge worker.rules (find_flow (tuple p) worker.flows) bytes p item.elapsed
          ≡ some judged =
        ap₂ (λ r f. judge r f bytes p item.elapsed) (s.their_rules _ ∙ sym s.one_rules)
          (sym (s.flows (tuple p)))
        ∙ e in
      (
        engine_with engine bytes p item.elapsed judged,
        engine_with worker bytes p item.elapsed judged,
        process_parsed_packet-judge engine bytes p item.elapsed judged s.one_word ip e,
        process_parsed_packet-judge worker bytes p item.elapsed judged (s.their_words _) ip same,
        engine_with-InStep rules engine workers s bytes p item.elapsed judged tidy,
      )
