-- ===== src/Engine/Observed.antt =====
-- How often the report lists the name of a flow that is allowed.
use flow_dpi.Prelude.{
  All, length, some_injective, ℕ, suc, ◌≡◌, refl, List, [], ◌∷◌, ◌++◌, true, false, some, sym, ap,
  ◌∙◌, subst, replicate, append_assoc, append-nil,
}
use flow_dpi.Prelude.Fallible.{bind-some}
use flow_dpi.Types.{FiveTuple, ParsedPacket, RawPacket, tuple}
use flow_dpi.Rules.{BlockRules, match_blocked_domain}
use flow_dpi.Packet.{parse}
use flow_dpi.Packet.Shape.{IsWellFormed}
use flow_dpi.Packet.Bounds.{parse_safe}
use flow_dpi.Engine.{matches_ip, matches_port, count_packet, process_packets}
use flow_dpi.Engine.State.{SniAttemptStatus, FlowState, EngineReport, DpiEngine}
use flow_dpi.Engine.Table.{find_flow-set_flow}
use flow_dpi.Engine.Verdict.{Verdict}
use flow_dpi.Engine.Invariant.{
  IsValid, flow_before, report_before, engine_after, process_parsed_packet-Processes,
  engine_after-IsValid,
}
use flow_dpi.Engine.Run.{process_packet-accepted}
use flow_dpi.Engine.Lasting.{Holds}

pub parse-IsWellFormed :
    (bytes : List ℕ) (p : ParsedPacket) → parse bytes ≡ some (true, p) → IsWellFormed bytes p
parse-IsWellFormed bytes p e =
    let (accepted, out, f, w) = parse_safe bytes in
    let same : (accepted, out) ≡ (true, p) = some_injective (sym f ∙ e) in
    subst (λ r. r.0 ≡ true → IsWellFormed bytes r.1) same w refl

-- A flow that is not blocked and whose name is known.
abbrev pub IsNamed : List ℕ → FlowState → Type 0
IsNamed name f = (f.blocked ≡ false) × (f.sni_status ≡ SniAttemptStatus.found) × (f.sni ≡ name)

-- No rule matches the packet or the name.
abbrev pub IsAllowed : BlockRules → ParsedPacket → List ℕ → Type 0
IsAllowed rules p name =
    (matches_ip rules p ≡ false)
    × (matches_port rules p ≡ false)
    × (match_blocked_domain rules name ≡ [])

flow_before-IsNamed :
    (engine : DpiEngine) (bytes : List ℕ) (p : ParsedPacket) (name : List ℕ)
    → Holds (tuple p) (IsNamed name) engine
    → IsNamed name (flow_before engine bytes p)
unfolding count_packet
flow_before-IsNamed engine bytes p name (f, e, q) = rw e q

Verdict-IsNamed :
    (rules : BlockRules) (p : ParsedPacket) (before after : FlowState) (report next : EngineReport)
    (name : List ℕ)
    → Verdict rules p before after report next
    → IsAllowed rules p name
    → IsNamed name before
    → IsNamed name after × (next.observed_snis ≡ report.observed_snis ++ (name ∷ []))
Verdict-IsNamed rules p before after report next name v allowed named =
    let (status, sni) = v.settled (rw named.1 refl) in
    let found : after.sni_status ≡ SniAttemptStatus.found = status ∙ named.1 in
    let known : after.sni ≡ name = sni ∙ named.2 in
    let free : after.blocked ≡ false =
      v.blocked ∙ simp (named.0, allowed.0, allowed.1, found, known, allowed.2) in
    ((free, found, known), v.observed ∙ simp (found, free, known))

observed_step :
    (observed : List (List ℕ)) (name : List ℕ) (n : ℕ)
    → (observed ++ (name ∷ [])) ++ replicate n name ≡ observed ++ replicate (suc n) name
observed_step observed name n = append_assoc observed (name ∷ []) (replicate n name)

-- A packet of the flow that no rule matches, whatever its clock and its contents.
abbrev pub Follows : FiveTuple → BlockRules → List ℕ → RawPacket × ℕ → Type 0
Follows t rules name item =
    (p : ParsedPacket) × (parse item.0.bytes ≡ some (true, p))
    × (p.has_ip ≡ true)
    × (tuple p ≡ t)
    × IsAllowed rules p name

-- When the engine is valid and a flow is not blocked and has its name: the packets of a run, if all are
-- of that flow and no rule matches an address, a port or the name, each add the name to the list once
-- more, so the list is not one of flows, nor of names first seen.
pub observed_snis-replicate :
    (raws : List (RawPacket × ℕ)) (t : FiveTuple) (name : List ℕ) (engine : DpiEngine)
    → IsValid engine
    → Holds t (IsNamed name) engine
    → All (Follows t engine.rules name) raws
    → (engine' : DpiEngine) × (process_packets engine raws ≡ some engine')
      × (engine'.report.observed_snis ≡ engine.report.observed_snis ++ replicate (length raws) name)
unfolding process_packets
observed_snis-replicate [] t name engine v h all = (engine, refl, sym (append-nil _))
observed_snis-replicate ((raw, elapsed) ∷ raws) t name engine v h
      ((p, parsed, ip, same, allowed), all) =
    let (flow, report, e, tidy, verdict) =
      process_parsed_packet-Processes engine raw.bytes p elapsed v.tidy
        (parse-IsWellFormed raw.bytes p parsed) ip in
    let (named, again) =
      Verdict-IsNamed engine.rules p (flow_before engine raw.bytes p) flow (report_before engine p)
        report name verdict allowed
        (flow_before-IsNamed engine raw.bytes p name
          (subst (λ u. Holds u (IsNamed name) engine) (sym same) h)) in
    let (last, f, every) =
      observed_snis-replicate raws t name (engine_after engine p elapsed flow report)
        (engine_after-IsValid engine raw.bytes p elapsed flow report v tidy verdict)
        (subst (λ u. Holds u (IsNamed name) (engine_after engine p elapsed flow report)) same
          (flow, find_flow-set_flow (tuple p) flow engine.flows, named))
        all in
    (
      last,
      bind-some _ (process_packet-accepted engine raw elapsed true p parsed refl ∙ e) f,
      every
          ∙ ap (λ o. o ++ replicate (length raws) name) again
          ∙ observed_step engine.report.observed_snis name (length raws),
    )
