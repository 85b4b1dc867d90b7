-- ===== src/Concurrent/Segments/Arrival.antt =====
-- The segments of a ClientHello, one after another, through a worker's loop.
use flow_dpi.Prelude.{
  ℕ, ◌+◌, ◌%◌, ◌^◌, ◌≤◌, ◌<◌, ◌≡◌, refl, ap, sym, subst, ◌∙◌, List, [], ◌∷◌, ◌++◌, append_assoc,
  length, length-append, is_empty, false, none, some, arith, inl,
}
use flow_dpi.Prelude.Fallible.{bind-some}
use flow_dpi.Types.{FiveTuple, tuple}
use flow_dpi.Rules.{BlockRules, match_blocked_domain}
use flow_dpi.Bench.{build_client_hello_record}
use flow_dpi.Tcp.Stream.{IsShort, concat}
use flow_dpi.Tls.{try_extract_sni}
use flow_dpi.Tls.Monad.{TlsParseStatus}
use flow_dpi.Tls.Partial.{try_extract_sni-partial}
use flow_dpi.Tls.RoundTrip.{
  length-build_client_hello_record, try_extract_sni-build_client_hello_record,
}
use flow_dpi.Engine.{max_reassembly_bytes, process_parsed_packet}
use flow_dpi.Engine.State.{EngineReport, find_flow, DpiEngine}
use flow_dpi.Concurrent.{WorkItem, process_items}
use flow_dpi.Concurrent.Segments.{
  IsSegment, Carries, carries_nothing, carries, IsWaiting, IsCondemned, segment-IsWaiting,
  segment-IsCondemned,
}

-- A worker's step, up to a predicate on the engine behind it.
abbrev Leads : DpiEngine → WorkItem → (DpiEngine → Type 0) → Type 0
Leads engine item P =
    (engine' : DpiEngine) × (process_parsed_packet engine item.raw.bytes item.parsed item.elapsed
      ≡ some engine')
    × P engine'

module _ (base : EngineReport) (engine : DpiEngine) (item : WorkItem) (seq : ℕ)
    (bytes chunk : List ℕ) (small : seq < 2 ^ 32) (short : IsShort chunk) where
  -- The rules and the flow under the names that the whole run has for them.
  abbrev Arrives : (BlockRules → FiveTuple → DpiEngine → Type 0) → BlockRules → FiveTuple → Type 0
  Arrives P rules t =
      IsWaiting base rules t seq bytes engine
      → IsSegment rules t seq chunk item
      → Leads engine item (P rules t)

  renamed :
      (P : BlockRules → FiveTuple → DpiEngine → Type 0) (rules : BlockRules) (t : FiveTuple)
      → Arrives P engine.rules (tuple item.parsed)
      → Arrives P rules t
  renamed P rules t known waiting segment =
      subst (Arrives P rules) segment.flow
        (subst (λ r. Arrives P r (tuple item.parsed)) waiting.same_rules known) waiting segment

  abbrev WaitsOn : BlockRules → FiveTuple → DpiEngine → Type 0
  WaitsOn rules t = IsWaiting base rules t ((seq + length chunk) % 2 ^ 32) (bytes ++ chunk)

  one_more-IsWaiting :
      (rules : BlockRules) (t : FiveTuple)
      → length (bytes ++ chunk) ≤ max_reassembly_bytes
      → try_extract_sni (bytes ++ chunk) ≡ some (TlsParseStatus.incomplete, [])
      → Arrives WaitsOn rules t
  one_more-IsWaiting rules t limited partial = renamed WaitsOn rules t λ waiting segment.
      segment-IsWaiting base engine item seq bytes chunk waiting segment small short limited partial

  one_more-IsCondemned :
      (rules : BlockRules) (t : FiveTuple) (host : List ℕ) (x : ℕ) (xs : List ℕ)
      → bytes ++ chunk ≡ x ∷ xs
      → try_extract_sni (x ∷ xs) ≡ some (TlsParseStatus.found, host)
      → is_empty (match_blocked_domain rules host) ≡ false
      → Arrives (λ r u. IsCondemned base r u host) rules t
  one_more-IsCondemned rules t host x xs whole named matched waiting =
      renamed (λ r u. IsCondemned base r u host) rules t
        (λ w segment.
          segment-IsCondemned base engine item seq bytes chunk w segment small short host x xs whole
            named
            (subst (λ r. is_empty (match_blocked_domain r host) ≡ false) (sym waiting.same_rules)
              matched))
        waiting

module _ (base : EngineReport) (rules : BlockRules) (t : FiveTuple) (host missing more : List ℕ)
    (fits : 63 + length host ≤ 2 ^ 16) (some_missing : 0 < length missing)
    (short : length more < 2 ^ 30)
    (matched : is_empty (match_blocked_domain rules host) ≡ false) where
  -- The rest of the record arrives, with what follows it.
  last-IsCondemned :
      (engine : DpiEngine) (item : WorkItem) (seq : ℕ) (bytes : List ℕ)
      → seq < 2 ^ 32
      → bytes ++ missing ≡ build_client_hello_record host
      → IsWaiting base rules t seq bytes engine
      → IsSegment rules t seq (missing ++ more) item
      → Leads engine item (IsCondemned base rules t host)
  unfolding build_client_hello_record
  last-IsCondemned engine item seq bytes small whole =
      one_more-IsCondemned base engine item seq bytes (missing ++ more) small
        (omega (
          arith,
          fits,
          short,
          ap length whole,
          length-append bytes missing,
          length-append missing more,
          length-build_client_hello_record host,
        ))
        rules t host _ _ (sym (append_assoc bytes missing more) ∙ ap (λ b. b ++ more) whole)
        (try_extract_sni-build_client_hello_record host more (omega (arith, fits))) matched

  -- All of it, from an engine that has `bytes` of it.
  Carries-IsCondemned :
      (engine : DpiEngine) (items : List WorkItem) (seq : ℕ) (bytes : List ℕ)
      (chunks : List (List ℕ))
      → seq < 2 ^ 32
      → bytes ++ (concat chunks ++ missing) ≡ build_client_hello_record host
      → IsWaiting base rules t seq bytes engine
      → Carries rules t seq (chunks ++ ((missing ++ more) ∷ [])) items
      → (engine' : DpiEngine) × (process_items engine items ≡ some engine')
        × IsCondemned base rules t host engine'
  unfolding process_items
  Carries-IsCondemned engine _ seq bytes [] small whole waiting
        (carries {item} segment carries_nothing) =
      let (engine', e, condemned) =
        last-IsCondemned engine item seq bytes small whole waiting segment in
      (engine', bind-some _ e refl, condemned)
  Carries-IsCondemned engine _ seq bytes (chunk ∷ chunks) small whole waiting
        (carries {item} {items} segment others) =
      let pieces : (bytes ++ chunk) ++ (concat chunks ++ missing) ≡ build_client_hello_record host =
        append_assoc bytes chunk (concat chunks ++ missing)
        ∙ ap (λ b. bytes ++ b) (sym (append_assoc chunk (concat chunks) missing))
        ∙ whole in
      let size : length (bytes ++ chunk) + length missing ≤ 63 + length host = omega (
        arith,
        ap length pieces,
        length-append (bytes ++ chunk) (concat chunks ++ missing),
        length-append (concat chunks) missing,
        length-build_client_hello_record host,
      ) in
      let (engine', e, waits) =
        one_more-IsWaiting base engine item seq bytes chunk small
          (omega (arith, size, fits, length-append bytes chunk)) rules t (omega (arith, size, fits))
          (try_extract_sni-partial host (bytes ++ chunk) (concat chunks ++ missing)
            (omega (arith, fits)) pieces
            (omega (arith, some_missing, length-append (concat chunks) missing)))
          waiting segment in
      let (last, f, condemned) =
        Carries-IsCondemned engine' items ((seq + length chunk) % 2 ^ 32) (bytes ++ chunk) chunks
          (omega arith) pieces waits others in
      (last, bind-some _ e f, condemned)

fresh-IsWaiting :
    (engine : DpiEngine) (t : FiveTuple) (seq : ℕ)
    → find_flow t engine.flows ≡ none
    → IsWaiting engine.report engine.rules t seq [] engine
fresh-IsWaiting engine t seq new = record {
  same_rules = refl;
  free = rw new refl;
  undecided = rw new refl;
  buffer = rw new refl;
  ready = inl (rw new refl);
  blocked_flows = refl;
  blocked_packets = refl;
  entries = refl;
  observed = refl;
}

-- However the ClientHello of a host name is cut into segments. An engine that does not know the flow
-- gets the segments in the order of their numbers, from any first number; the last one completes the
-- record, of at most 2 ^ 16 bytes, and may carry fewer than 2 ^ 30 bytes behind it. When no rule
-- matches an address or a port and a domain rule matches the name, the packets before the last one
-- leave no trace among the counters and lists of blocked and observed traffic, and the last one blocks
-- the flow and reports it once, with the name and the rule.
pub process_items-IsCondemned :
    (engine : DpiEngine) (t : FiveTuple) (seq : ℕ) (host missing more : List ℕ)
    (chunks : List (List ℕ)) (items : List WorkItem)
    → seq < 2 ^ 32
    → 63 + length host ≤ 2 ^ 16
    → length more < 2 ^ 30
    → concat chunks ++ missing ≡ build_client_hello_record host
    → 0 < length missing
    → find_flow t engine.flows ≡ none
    → Carries engine.rules t seq (chunks ++ ((missing ++ more) ∷ [])) items
    → is_empty (match_blocked_domain engine.rules host) ≡ false
    → (engine' : DpiEngine) × (process_items engine items ≡ some engine')
      × IsCondemned engine.report engine.rules t host engine'
process_items-IsCondemned engine t seq host missing more chunks items small fits short whole
      some_missing new carried matched =
    Carries-IsCondemned engine.report engine.rules t host missing more fits some_missing short
      matched engine items seq [] chunks small whole (fresh-IsWaiting engine t seq new) carried
