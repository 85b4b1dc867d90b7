-- ===== src/Engine/Extract.antt =====
-- The server name of one flow: `tryResolveSni` and the segment in front of it.
use flow_dpi.Prelude.{
  is_empty, ℕ, ◌≤◌, ◌≡◌, refl, List, [], ◌∷◌, ◌++◌, length, Bool, true, false, ◌&&◌, some, arith,
  Bool-cases, Option-cases, inl, inr, ltb, le→leb, ltb_false→le, slice, Option,
}
use flow_dpi.Prelude.Fallible.{◌>>=◌, bind-some}
use flow_dpi.Types.{ParsedPacket, FiveTuple}
use flow_dpi.Tcp.{pull_contiguous, add_segment}
use flow_dpi.Tcp.Total.{IsWord, add_segment-IsWord, pull_contiguous-IsWord}
use flow_dpi.Tls.Monad.{TlsParseStatus}
use flow_dpi.Tls.Safety.{try_extract_sni_safe}
use flow_dpi.Packet.Shape.{IsWellFormed}
use flow_dpi.Engine.{max_reassembly_bytes, resolve, try_resolve_sni, payload_bytes, extract, is_tcp}
use flow_dpi.Engine.State.{is_pending, FlowState}

-- What holds of a flow between packets: the cursor is a uint32_t, sni_buffer is bounded, and a
-- decision has released it. The pending segments of the reassembler are not bounded.
pub record IsTidy (flow : FlowState) : Type 0 where
  pub word : IsWord flow.reassembler
  pub bounded : length flow.sni_buffer ≤ max_reassembly_bytes
  pub released : is_pending flow.sni_status ≡ false → flow.sni_buffer ≡ []

-- The fields that the search for the name leaves alone.
abbrev pub essentials : FlowState → FiveTuple × Bool × List ℕ × ℕ × ℕ
essentials flow = (flow.tuple, flow.blocked, flow.block_reason, flow.packet_count, flow.byte_count)

abbrev pub IsKept : FlowState → FlowState → Type 0
IsKept before after = essentials after ≡ essentials before

-- The buffer is released by a decision and when it has grown too long.
released : (flow : FlowState) → IsWord flow.reassembler → flow.sni_buffer ≡ [] → IsTidy flow
released flow h e = record { word = h; bounded = rw e (omega arith); released = λ _. e }

resolve-IsTidy :
    (flow : FlowState) (answer : TlsParseStatus × List ℕ)
    → IsWord flow.reassembler
    → is_pending flow.sni_status ≡ true
    → IsTidy (resolve flow answer) × IsKept flow (resolve flow answer)
unfolding resolve
resolve-IsTidy flow (TlsParseStatus.incomplete, sni) h undecided =
    elim (Bool-cases (ltb max_reassembly_bytes (length flow.sni_buffer))) [
      | inl long ↦ rw long (released _ h refl, refl)
      | inr short ↦
          rw short
            (record { word = h; bounded = ltb_false→le _ _ short; released = λ decided. cc }, refl)
    ]
resolve-IsTidy flow (TlsParseStatus.found, sni) h undecided = (released _ h refl, refl)
resolve-IsTidy flow (TlsParseStatus.no_sni, sni) h undecided = (released _ h refl, refl)
resolve-IsTidy flow (TlsParseStatus.not_tls, sni) h undecided = (released _ h refl, refl)
resolve-IsTidy flow (TlsParseStatus.malformed, sni) h undecided = (released _ h refl, refl)

is_empty→nil : (xs : List ℕ) → is_empty xs ≡ true → xs ≡ []
is_empty→nil [] e = refl
is_empty→nil (x ∷ xs) e = cc

-- A search that succeeds, and leaves the flow tidy.
abbrev pub Resolves : FlowState → Option FlowState → Type 0
Resolves flow m = (after : FlowState) × (m ≡ some after) × IsTidy after × IsKept flow after

pub try_resolve_sni-IsTidy :
    (flow : FlowState)
    → IsWord flow.reassembler
    → is_pending flow.sni_status ≡ true
    → Resolves flow (try_resolve_sni flow)
unfolding try_resolve_sni
try_resolve_sni-IsTidy flow h undecided =
    let (r, chunk) = pull_contiguous flow.reassembler in
    let waiting : FlowState = record flow {
      reassembler = r;
      sni_buffer = flow.sni_buffer ++ chunk;
    } in
    let word = pull_contiguous-IsWord flow.reassembler h in
    let (status, sni, e, _) = try_extract_sni_safe waiting.sni_buffer in
    elim (Bool-cases (is_empty waiting.sni_buffer)) [
      | inl nothing ↦
          (waiting, rw nothing refl, released waiting word (is_empty→nil _ nothing), refl)
      | inr bytes ↦
          let (tidy, same) = resolve-IsTidy waiting (status, sni) word undecided in
          (resolve waiting (status, sni), rw bytes (bind-some _ e refl), tidy, same)
    ]

-- The payload of a packet that the parser accepts can be read.
pub payload_bytes-some :
    (bytes : List ℕ) (p : ParsedPacket)
    → IsWellFormed bytes p
    → (payload : List ℕ) × (payload_bytes bytes p ≡ some payload)
unfolding payload_bytes
payload_bytes-some bytes p w = elim (Option-cases p.payload) [
  | inl e ↦ ([], rw (e, w.absent e) refl)
  | inr (i, e) ↦ (slice i p.payload_len bytes, rw e (rw (le→leb _ _ (w.payload_at i e).1) refl))
]

attempt-IsTidy :
    (flow : FlowState) (p : ParsedPacket) (bytes : List ℕ)
    → IsWellFormed bytes p
    → IsTidy flow
    → is_pending flow.sni_status ≡ true
    → Resolves flow (
        payload_bytes bytes p >>= λ payload. add_segment flow.reassembler p.tcp_seq payload >>= λ r.
        try_resolve_sni (record flow { reassembler = r }))
attempt-IsTidy flow p bytes w tidy undecided =
    let (payload, e) = payload_bytes-some bytes p w in
    let (r, f, word) = add_segment-IsWord flow.reassembler p.tcp_seq payload tidy.word w.seq_word in
    let (after, g, t, same) =
      try_resolve_sni-IsTidy (record flow { reassembler = r }) word undecided in
    (after, bind-some _ e (bind-some _ f g), t, same)

and_last : (a b c : Bool) → (a && b && c) ≡ true → c ≡ true
and_last a b c e = ground arith

-- The step in the engine: it always has a result, and once the flow is decided it changes nothing.
pub extract-IsTidy :
    (flow : FlowState) (p : ParsedPacket) (bytes : List ℕ)
    → IsWellFormed bytes p
    → IsTidy flow
    → (after : FlowState) × (extract flow p bytes ≡ some after)
      × IsTidy after
      × IsKept flow after
      × (is_pending flow.sni_status ≡ false → after ≡ flow)
unfolding extract
extract-IsTidy flow p bytes w tidy =
    elim (Bool-cases (is_tcp p.protocol && p.has_l4 && is_pending flow.sni_status)) [
      | inr skipped ↦ (flow, rw skipped refl, tidy, refl, λ _. refl)
      | inl tried ↦
          let undecided =
            and_last (is_tcp p.protocol) p.has_l4 (is_pending flow.sni_status) tried in
          let (after, e, t, same) = attempt-IsTidy flow p bytes w tidy undecided in
          (after, rw tried e, t, same, λ decided. cc)
    ]
