-- ===== src/Cli/Main.antt =====
-- `main` of src/main.cpp: what it prints on the standard output and on the error stream, and how it
-- exits. `none` is a read outside a buffer in what it calls.
use flow_dpi.LiveCapture.{Capturing, new_capturing, open_interface, loop}
use flow_dpi.Prelude.{
  suc, Bool, true, false, ℕ, List, [], ◌∷◌, ◌++◌, Option, none, some, ltb, if◌then◌else◌,
}
use flow_dpi.Prelude.Fallible.{◌>>=◌}
use flow_dpi.Prelude.Text.{list_eq}
use flow_dpi.Types.{RawPacket, StdHash, five_tuple_hash}
use flow_dpi.Rules.{no_rules}
use flow_dpi.Engine.{process_packet}
use flow_dpi.Engine.Describe.{codes}
use flow_dpi.Engine.File.{process_file}
use flow_dpi.Engine.State.{DpiEngine, new_engine}
use flow_dpi.Concurrent.File.{
  Attempt, returned, raised, new_concurrent_engine, process_file_concurrently,
}
use flow_dpi.Report.{render_report, render_merged_report}
use flow_dpi.Cli.{Settings, Outcome, proceeds, refused, thrown, read_arguments}

-- The value that `main` returns, with what was written to the standard output and to the error
-- stream, or an exception that leaves it, with what was on the error stream.
pub data Exit : Type 0 where
  exits : ℕ → List ℕ → List ℕ → Exit
  aborts : List ℕ → Exit

abbrev pub failed : List ℕ → Option Exit
failed errors = some (exits 1 [] errors)

-- What the calls of libpcap answer, as in LiveCapture.
pub record LibPcap : Type 0 where
  pub open_error : ℕ → List ℕ → Option (List ℕ)
  pub datalink : ℕ → ℕ
  pub dlt_en10mb : ℕ
  pub frames : ℕ → List (List ℕ × ℕ)

-- What sscanf stores of a number that does not fit; the C++ library's and the machine's, as in Types,
-- Latency and Report; how many workers start, as in Concurrent/File; the clock; the bytes of the files that can be opened; and, in a build with
-- libpcap, its calls.
pub record Platform : Type 0 where
  pub stored : ℕ → ℕ
  pub std_hash : StdHash
  pub scale : ℕ → ℕ → ℕ
  pub show_double : ℕ → List ℕ
  pub starts : ℕ → Bool
  pub clock : ℕ → ℕ
  pub files : List ℕ → Option (List ℕ)
  pub live : Option LibPcap

-- `rules` and `num_workers` in front of the loop.
abbrev pub default_settings : Settings
default_settings = record { rules = no_rules; num_workers = 1; errors = [] }

-- The frame of a callback, as a packet; the fields of its record header are not read.
abbrev pub captured : List ℕ → RawPacket
captured bytes = record {
  header = record { ts_sec = 0; ts_usec = 0; incl_len = 0; orig_len = 0 };
  bytes = bytes;
}

-- The callback of the capture, on the engine and the number of frames so far; `none` is a read outside
-- a buffer in this call or an earlier one.
unfoldable pub on_frame : (ℕ → ℕ) → Option DpiEngine × ℕ → List ℕ → Option DpiEngine × ℕ
on_frame clock (engine, i) bytes =
    (engine >>= λ e. process_packet e (captured bytes) (clock i), suc i)

-- `err`, which is empty until `open` sets it.
abbrev pub or_empty : Option (List ℕ) → List ℕ
or_empty none = []
or_empty (some error) = error

-- `printUsage`; the second line is that of a build with libpcap.
unfoldable pub usage_live : List ℕ → Option LibPcap → List ℕ
usage_live program none = []
usage_live program (some pcap) =
    codes "   or: "
    ++ (program
        ++ (codes " --live <interface> [--block-ip <ip>]... [--block-domain <domain>]... "
            ++ codes "[--block-port <tcp|udp> <port>]...\n"))

unfoldable pub usage : List ℕ → Option LibPcap → List ℕ
unfolding usage_live
usage program live =
    codes "Usage: "
    ++ (program
        ++ (codes " <pcap-file> [--block-ip <ip>]... [--block-domain <domain>]... "
            ++ (codes "[--block-port <tcp|udp> <port>]... "
                ++ (codes "[--workers <n>]\n" ++ usage_live program live))))

-- The dash of two messages, as its bytes.
abbrev pub em_dash : List ℕ
em_dash = 0xe2 ∷ 0x80 ∷ 0x94 ∷ []

abbrev pub without_libpcap : List ℕ
without_libpcap =
    codes "This build was compiled without libpcap "
    ++ (em_dash ++ (codes " live capture isn't available. " ++ codes "Use a pcap file instead.\n"))

abbrev pub cannot_open : List ℕ → List ℕ
cannot_open target = codes "Failed to open pcap file: " ++ (target ++ codes "\n")

abbrev pub cannot_capture : List ℕ → List ℕ → List ℕ
cannot_capture interface error =
    codes "Failed to open interface '" ++ (interface ++ (codes "': " ++ (error ++ codes "\n")))

abbrev pub capturing_on : List ℕ → List ℕ
capturing_on interface =
    codes "Capturing on "
    ++ (interface ++ (codes " " ++ (em_dash ++ codes " Ctrl+C to stop and print the report.\n")))

module _ (platform : Platform) where
  -- A file by the sequential engine, and by the concurrent one.
  unfoldable pub run_sequential : List ℕ → Settings → Option Exit
  run_sequential target s =
      process_file (new_engine s.rules) platform.clock (platform.files target) >>= λ done.
      let printed : Option Exit =
        render_report platform.scale platform.show_double done.0.report >>= λ text.
        some (exits 0 text s.errors) in
      if done.1 then printed else failed (s.errors ++ cannot_open target)

  unfoldable pub print_attempt : List ℕ → Settings → Attempt → Option Exit
  print_attempt target s (returned engine true) =
      render_merged_report platform.scale platform.show_double engine.num_workers
        engine.merged_report
      >>= λ text. some (exits 0 text s.errors)
  print_attempt target s (returned engine false) = failed (s.errors ++ cannot_open target)
  print_attempt target s raised = some (aborts s.errors)

  unfoldable pub run_concurrent : List ℕ → Settings → Option Exit
  run_concurrent target s =
      process_file_concurrently (five_tuple_hash platform.std_hash) platform.starts
        (new_concurrent_engine s.rules s.num_workers 1024) platform.clock (platform.files target)
      >>= print_attempt target s

  unfoldable pub run_file : List ℕ → Outcome → Option Exit
  run_file target (proceeds s) =
      if ltb 1 s.num_workers then run_concurrent target s else run_sequential target s
  run_file target (refused errors) = failed errors
  run_file target (thrown errors) = some (aborts errors)

  -- A live capture, from what `open` returned; the number of workers is not used.
  unfoldable pub run_opened :
      LibPcap → List ℕ → Settings → (Bool × Option (List ℕ)) × Capturing → Option Exit
  run_opened pcap interface s ((true, error), c) =
      let (captured, _) =
        loop pcap.open_error pcap.datalink pcap.dlt_en10mb pcap.frames (on_frame platform.clock)
          (some (new_engine s.rules), 0) c in
      captured.0 >>= λ engine.
      render_report platform.scale platform.show_double engine.report >>= λ text.
      some (exits 0 text (s.errors ++ capturing_on interface))
  run_opened pcap interface s ((false, error), c) =
      failed (s.errors ++ cannot_capture interface (or_empty error))

  unfoldable pub run_live : LibPcap → List ℕ → Outcome → Option Exit
  run_live pcap interface (proceeds s) = run_opened pcap interface s (
      open_interface pcap.open_error pcap.datalink pcap.dlt_en10mb pcap.frames interface
        new_capturing)
  run_live pcap interface (refused errors) = failed errors
  run_live pcap interface (thrown errors) = some (aborts errors)

  unfoldable pub start_live : List ℕ → Option LibPcap → List (List ℕ) → Option Exit
  start_live program none args = failed without_libpcap
  start_live program (some pcap) [] = failed (usage program (some pcap))
  start_live program (some pcap) (interface ∷ args) =
      run_live pcap interface (read_arguments platform.stored args default_settings)

  -- `main`, of the program's name and the arguments behind it.
  unfoldable pub main : List ℕ → List (List ℕ) → Option Exit
  main program [] = failed (usage program platform.live)
  main program (target ∷ args) =
      if list_eq target (codes "--live")
      then start_live program platform.live args
      else run_file target (read_arguments platform.stored args default_settings)
