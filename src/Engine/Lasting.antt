-- ===== src/Engine/Lasting.antt =====
-- What a run never takes back: a flow that is blocked, and a search that is decided.
use flow_dpi.Prelude.{ℕ, ◌≡◌, refl, List, true, false, some, Bool-cases, inl, inr, sym, ◌∙◌}
use flow_dpi.Types.{FiveTuple, ParsedPacket, RawPacket, tuple}
use flow_dpi.Rules.{BlockRules}
use flow_dpi.Engine.{count_packet, process_packets}
use flow_dpi.Engine.State.{
  SniAttemptStatus, is_pending, FlowState, EngineReport, tuple_eq, find_flow, set_flow, DpiEngine,
}
use flow_dpi.Engine.Table.{find_flow-set_flow, find_flow-set_flow_other, find_flow-same}
use flow_dpi.Engine.Verdict.{Verdict}
use flow_dpi.Engine.Invariant.{IsValid, flow_before, report_before, engine_after}
use flow_dpi.Engine.Run.{process_packets-preserves}

-- The table has a flow for the key, and the property holds of it.
abbrev pub Holds : FiveTuple → (FlowState → Type 0) → DpiEngine → Type 0
Holds t Q engine = (f : FlowState) × (find_flow t engine.flows ≡ some f) × Q f

-- What a verdict and the counting of a packet keep of a flow, a packet keeps of every flow.
module _ (t : FiveTuple) (Q : FlowState → Type 0)
    (counts : (f : FlowState) (bytes : List ℕ) → Q f → Q (count_packet f bytes))
    (judged : (rules : BlockRules) (p : ParsedPacket) (before after : FlowState)
        (report next : EngineReport)
      → Verdict rules p before after report next
      → Q before
      → Q after) where
  before_packet :
      (engine : DpiEngine) (bytes : List ℕ) (p : ParsedPacket) (f : FlowState)
      → find_flow (tuple p) engine.flows ≡ some f
      → Q f
      → Q (flow_before engine bytes p)
  before_packet engine bytes p f e q = rw e (counts f bytes q)

  engine_after-Holds :
      (engine : DpiEngine) (bytes : List ℕ) (p : ParsedPacket) (elapsed : ℕ) (flow : FlowState)
      (report : EngineReport)
      → Holds t Q engine
      → Verdict engine.rules p (flow_before engine bytes p) flow (report_before engine p) report
      → Holds t Q (engine_after engine p elapsed flow report)
  engine_after-Holds engine bytes p elapsed flow report (f, e, q) verdict =
      elim (Bool-cases (tuple_eq (tuple p) t)) [
        | inr other ↦ (f, find_flow-set_flow_other (tuple p) t flow engine.flows other ∙ e, q)
        | inl same ↦
            let found = find_flow-same (tuple p) t engine.flows same ∙ e in
            (
              flow,
              sym (find_flow-same (tuple p) t (set_flow (tuple p) flow engine.flows) same)
                  ∙ find_flow-set_flow (tuple p) flow engine.flows,
              judged engine.rules p (flow_before engine bytes p) flow (report_before engine p)
                  report verdict (before_packet engine bytes p f found q),
            )
      ]

  lasting :
      (engine : DpiEngine) (raws : List (RawPacket × ℕ))
      → IsValid engine
      → Holds t Q engine
      → (engine' : DpiEngine) × (process_packets engine raws ≡ some engine') × Holds t Q engine'
  lasting engine raws v h =
      let (engine', e, _, h') =
        process_packets-preserves (Holds t Q) engine_after-Holds engine raws v h in
      (engine', e, h')

abbrev pub IsCondemned : List ℕ → FlowState → Type 0
IsCondemned reason f = (f.blocked ≡ true) × (f.block_reason ≡ reason)

abbrev pub IsSettled : SniAttemptStatus → List ℕ → FlowState → Type 0
IsSettled status sni f = (f.sni_status ≡ status) × (f.sni ≡ sni)

-- In a valid engine a flow that is blocked stays blocked, for the same reason, whatever packets
-- follow.
pub process_packets-IsCondemned :
    (engine : DpiEngine) (raws : List (RawPacket × ℕ)) (t : FiveTuple) (reason : List ℕ)
    → IsValid engine
    → Holds t (IsCondemned reason) engine
    → (engine' : DpiEngine) × (process_packets engine raws ≡ some engine')
      × Holds t (IsCondemned reason) engine'
unfolding count_packet
process_packets-IsCondemned engine raws t reason =
    lasting t (IsCondemned reason) (λ f bytes q. q)
      (λ rules p before after report next verdict q.
        (verdict.blocked ∙ rw q.0 refl, verdict.same_reason q.0 ∙ q.1))
      engine raws

-- In a valid engine a search for a name that is decided keeps its status and its name, whatever
-- packets follow.
pub process_packets-IsSettled :
    (engine : DpiEngine) (raws : List (RawPacket × ℕ)) (t : FiveTuple) (status : SniAttemptStatus)
    (sni : List ℕ)
    → IsValid engine
    → is_pending status ≡ false
    → Holds t (IsSettled status sni) engine
    → (engine' : DpiEngine) × (process_packets engine raws ≡ some engine')
      × Holds t (IsSettled status sni) engine'
unfolding count_packet
process_packets-IsSettled engine raws t status sni v decided =
    lasting t (IsSettled status sni) (λ f bytes q. q)
      (λ rules p before after report next verdict q.
        let (same_status, same_sni) = verdict.settled (rw q.0 decided) in
        (same_status ∙ q.0, same_sni ∙ q.1))
      engine raws v
