-- ===== src/Cli/Live.antt =====
-- The live mode of src/main.cpp over the wrapper of libpcap, against the sequential engine on the
-- frames that the capture gives.
use flow_dpi.Prelude.{
  ℕ, suc, ◌≡◌, refl, ap, List, [], ◌∷◌, ◌++◌, take, true, Option, none, some, ◌==◌,
}
use flow_dpi.Prelude.Fallible.{◌>>=◌}
use flow_dpi.Types.{RawPacket}
use flow_dpi.Engine.{process_packet, process_packets}
use flow_dpi.Engine.File.{timed}
use flow_dpi.Engine.State.{DpiEngine, new_engine}
use flow_dpi.LiveCapture.{
  Capturing, new_capturing, open_answered, open_interface, deliver, loop, loop_handle,
}
use flow_dpi.Report.{render_report}
use flow_dpi.Cli.{Settings, proceeds}
use flow_dpi.Cli.Main.{
  Exit, exits, LibPcap, Platform, captured, on_frame, capturing_on, run_opened, run_live,
}

-- The packets that the frames become, each with the bytes that were captured of it.
abbrev pub caught : List (List ℕ × ℕ) → List RawPacket
caught [] = []
caught ((bytes, caplen) ∷ rest) = captured (take caplen bytes) ∷ caught rest

module _ (pcap : LibPcap) (clock : ℕ → ℕ) where
  abbrev deliver_all : List (List ℕ × ℕ) → Option DpiEngine × ℕ → Option DpiEngine × ℕ
  deliver_all frames s =
      deliver pcap.open_error pcap.datalink pcap.dlt_en10mb pcap.frames (on_frame clock) frames s

  -- The callback over the frames is the loop over the packets.
  deliver-process_packets :
      (frames : List (List ℕ × ℕ)) (m : Option DpiEngine) (i : ℕ)
      → (deliver_all frames (m, i)).0
        ≡ (m >>= λ engine. process_packets engine (timed clock i (caught frames)))
  unfolding deliver on_frame process_packets ◌>>=◌
  deliver-process_packets [] none i = refl
  deliver-process_packets [] (some engine) i = refl
  deliver-process_packets ((bytes, caplen) ∷ rest) none i =
      deliver-process_packets rest none (suc i)
  deliver-process_packets ((bytes, caplen) ∷ rest) (some engine) i =
      deliver-process_packets rest (process_packet engine (captured (take caplen bytes)) (clock i))
        (suc i)

module _ (platform : Platform) (pcap : LibPcap) (interface : List ℕ) (s : Settings) where
  -- The report of the sequential engine over these packets, and what the live mode says with it.
  abbrev pub reported : List RawPacket → Option Exit
  reported raws = process_packets (new_engine s.rules) (timed platform.clock 0 raws) >>= λ engine.
      render_report platform.scale platform.show_double engine.report >>= λ text.
      some (exits 0 text (s.errors ++ capturing_on interface))

  -- What an object with this handle is given.
  abbrev pub frames_of : Option ℕ → List (List ℕ × ℕ)
  frames_of none = []
  frames_of (some handle) = pcap.frames handle

  loop_handle-caught :
      (handle : Option ℕ) (engine : DpiEngine) (c : Capturing)
      → (loop_handle pcap.open_error pcap.datalink pcap.dlt_en10mb pcap.frames
          (on_frame platform.clock)
          handle
          (some engine, 0)
          c).0.0
        ≡ process_packets engine (timed platform.clock 0 (caught (frames_of handle)))
  unfolding loop_handle process_packets ◌>>=◌
  loop_handle-caught none engine c = refl
  loop_handle-caught (some handle) engine c =
      deliver-process_packets pcap platform.clock (pcap.frames handle) (some engine) 0

  pub run_opened-caught :
      (error : Option (List ℕ)) (c : Capturing)
      → run_opened platform pcap interface s ((true, error), c)
        ≡ reported (caught (frames_of c.capture.handle))
  unfolding run_opened loop
  run_opened-caught error c =
      ap
        (λ (m : Option DpiEngine). m >>= λ engine.
          render_report platform.scale platform.show_double engine.report >>= λ text.
          some (exits 0 text (s.errors ++ capturing_on interface)))
        (loop_handle-caught c.capture.handle (new_engine s.rules) c)

  -- In the live mode, when the interface can be opened and gives Ethernet frames, the program prints
  -- the report that the sequential engine makes of the frames that the capture gives, each with the
  -- bytes that were captured of it, and says on the error stream that it captures.
  pub run_live-caught :
      pcap.open_error 0 interface ≡ none
      → (pcap.datalink 0 == pcap.dlt_en10mb) ≡ true
      → run_live platform pcap interface (proceeds s) ≡ reported (caught (pcap.frames 0))
  unfolding run_live open_interface open_answered new_capturing
  run_live-caught opened ethernet = simp (opened, ethernet) (run_opened-caught none _)
