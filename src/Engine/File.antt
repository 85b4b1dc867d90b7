-- ===== src/Engine/File.antt =====
-- `processFile` of src/dpi_engine.cpp: the reader and the engine together.
use flow_dpi.Prelude.{ℕ, suc, ◌≡◌, refl, List, [], ◌∷◌, Bool, true, false, Option, none, some}
use flow_dpi.Prelude.Fallible.{◌>>=◌, bind-some}
use flow_dpi.Types.{RawPacket}
use flow_dpi.Pcap.{read_file}
use flow_dpi.Engine.{process_packets}
use flow_dpi.Engine.State.{DpiEngine}
use flow_dpi.Engine.Invariant.{IsValid}
use flow_dpi.Engine.Run.{process_packets-IsValid}

-- Each packet with what the clock measures for it.
abbrev pub timed : (ℕ → ℕ) → ℕ → List RawPacket → List (RawPacket × ℕ)
timed clock i [] = []
timed clock i (raw ∷ raws) = (raw, clock i) ∷ timed clock (suc i) raws

abbrev pub process_all : DpiEngine → (ℕ → ℕ) → Option (List RawPacket) → Option (DpiEngine × Bool)
process_all engine clock none = some (engine, false)
process_all engine clock (some raws) =
    process_packets engine (timed clock 0 raws) >>= λ engine'. some (engine', true)

-- `processFile`, of a file with these bytes, or of one that cannot be opened.
unfoldable pub process_file : DpiEngine → (ℕ → ℕ) → Option (List ℕ) → Option (DpiEngine × Bool)
process_file engine clock file = process_all engine clock (read_file file)

process_all-IsValid :
    (engine : DpiEngine) (clock : ℕ → ℕ) (packets : Option (List RawPacket))
    → IsValid engine
    → (engine' : DpiEngine) × (accepted : Bool) × (process_all engine clock packets
        ≡ some (engine', accepted))
      × IsValid engine'
process_all-IsValid engine clock none v = (engine, false, refl, v)
process_all-IsValid engine clock (some raws) v =
    let (engine', e, v') = process_packets-IsValid engine (timed clock 0 raws) v in
    (engine', true, bind-some _ e refl, v')

-- Whatever the bytes of a file are, a valid engine processes it without a read outside a buffer,
-- returns, and is valid again.
pub process_file-IsValid :
    (engine : DpiEngine) (clock : ℕ → ℕ) (file : Option (List ℕ))
    → IsValid engine
    → (engine' : DpiEngine) × (accepted : Bool) × (process_file engine clock file
        ≡ some (engine', accepted))
      × IsValid engine'
unfolding process_file
process_file-IsValid engine clock file = process_all-IsValid engine clock (read_file file)
