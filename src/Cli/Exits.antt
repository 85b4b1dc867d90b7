-- ===== src/Cli/Exits.antt =====
-- `main` comes to an end on every input, and how.
use flow_dpi.Prelude.{
  Bool-cases, lt→ltb, ltb→lt, ap, ◌∙◌, drop, ◌<◌, arith, sym, subst, ℕ, ◌≡◌, ◌≢◌, ◌⊎◌, refl, List,
  [], ◌∷◌, ◌++◌, Bool, true, false, Option, none, some, ltb, inl, inr, if◌then◌else◌,
}
use flow_dpi.Prelude.Fallible.{bind-some}
use flow_dpi.Prelude.Text.{list_eq}
use flow_dpi.LiveCapture.{Capturing}
use flow_dpi.Cli.Explained.{
  append-nonempty, if-both, IsExplained, goes_on, says_why, is_thrown, read_arguments-IsExplained,
}
use flow_dpi.Cli.Live.{reported, run_opened-caught}
use flow_dpi.Types.{RawPacket, five_tuple_hash}
use flow_dpi.Engine.Describe.{codes}
use flow_dpi.Engine.File.{process_file-IsValid, timed}
use flow_dpi.Engine.Run.{new_engine-IsValid, process_packets-IsValid}
use flow_dpi.Engine.State.{new_engine}
use flow_dpi.Latency.Ranks.{IsScale}
use flow_dpi.Report.Total.{render_report-some, render_merged_report-some}
use flow_dpi.Concurrent.{at_least_one}
use flow_dpi.Concurrent.File.{
  Attempt, returned, raised, IsAttempt, new_concurrent_engine, process_file_concurrently-some,
}
use flow_dpi.Cli.{Settings, Outcome, proceeds, refused, thrown, read_arguments}
use flow_dpi.Cli.Main.{
  print_attempt, failed, Exit, exits, aborts, LibPcap, Platform, default_settings, usage,
  run_sequential, run_concurrent, run_file, run_opened, run_live, start_live, main,
}

-- A run ends with 0, or with 1, nothing on the standard output and a message on the error stream, or
-- by an exception: that of std::stoul in the options, or one because as many workers as the options
-- say do not start.
abbrev pub IsReported : (ℕ → Bool) → Outcome → Exit → Type 0
IsReported starts outcome (exits value output errors) =
    (value ≡ 0) ⊎ ((value ≡ 1) × (output ≡ []) × (errors ≢ []))
IsReported starts outcome (aborts errors) =
    (outcome ≡ thrown errors)
    ⊎ ((s : Settings) × (outcome ≡ proceeds s)
        × (1 < s.num_workers)
        × (starts s.num_workers ≡ false))

-- What the loop over the options comes to; they stand behind the file or the interface.
abbrev pub options_outcome : Platform → List (List ℕ) → Outcome
options_outcome platform [] = refused []
options_outcome platform (target ∷ args) =
    read_arguments platform.stored (if list_eq target (codes "--live") then drop 1 args else args)
      default_settings

-- A run that has a result, which is such an end.
abbrev Ends : (ℕ → Bool) → Outcome → Option Exit → Type 0
Ends starts outcome m = (exit : Exit) × (m ≡ some exit) × IsReported starts outcome exit

failed-Ends :
    (starts : ℕ → Bool) (outcome : Outcome) (xs : List ℕ) (y : ℕ) (ys : List ℕ)
    → Ends starts outcome (failed (xs ++ (y ∷ ys)))
failed-Ends starts outcome xs y ys = (exits 1 [] _, refl, inr (refl, refl, append-nonempty xs y ys))

module _ (platform : Platform) (good : IsScale platform.scale) where
  run_sequential-Ends :
      (target : List ℕ) (s : Settings) (outcome : Outcome)
      → Ends platform.starts outcome (run_sequential platform target s)
  unfolding run_sequential
  run_sequential-Ends target s outcome =
      let (engine, accepted, e, _) =
        process_file-IsValid (new_engine s.rules) platform.clock (platform.files target)
          (new_engine-IsValid s.rules) in
      let (text, f) = render_report-some platform.scale platform.show_double good engine.report in
      let (exit, g, ends) =
        if-both (Ends platform.starts outcome) accepted _ _
          (exits 0 text s.errors, bind-some _ f refl, inl refl)
          (failed-Ends platform.starts outcome s.errors _ _) in
      (exit, bind-some _ e g, ends)

  print_attempt-Ends :
      (target : List ℕ) (s : Settings) (num_workers : ℕ) (attempt : Attempt)
      → 1 < s.num_workers
      → num_workers ≡ s.num_workers
      → IsAttempt (five_tuple_hash platform.std_hash) platform.starts num_workers attempt
      → Ends platform.starts (proceeds s) (print_attempt platform target s attempt)
  unfolding print_attempt
  print_attempt-Ends target s n (returned engine true) many same attempted =
      let (text, f) =
        render_merged_report-some platform.scale platform.show_double good engine.num_workers
          engine.merged_report in
      (exits 0 text s.errors, bind-some _ f refl, inl refl)
  print_attempt-Ends target s n (returned engine false) many same attempted =
      failed-Ends platform.starts (proceeds s) s.errors _ _
  print_attempt-Ends target s n raised many same attempted =
      (aborts s.errors, refl, inr (s, refl, many, ap platform.starts (sym same) ∙ attempted))

  run_concurrent-Ends :
      (target : List ℕ) (s : Settings)
      → 1 < s.num_workers
      → Ends platform.starts (proceeds s) (run_concurrent platform target s)
  unfolding run_concurrent new_concurrent_engine
  run_concurrent-Ends target s many =
      let (attempt, e, attempted) =
        process_file_concurrently-some (five_tuple_hash platform.std_hash) platform.starts
          (new_concurrent_engine s.rules s.num_workers 1024) platform.clock
          (platform.files target) in
      let kept : at_least_one s.num_workers ≡ s.num_workers =
        rw (lt→ltb 0 s.num_workers (omega arith)) refl in
      let (exit, g, ends) =
        print_attempt-Ends target s (at_least_one s.num_workers) attempt many kept attempted in
      (exit, bind-some _ e g, ends)

  run_file-Ends :
      (target : List ℕ) (outcome : Outcome)
      → IsExplained outcome
      → Ends platform.starts outcome (run_file platform target outcome)
  unfolding run_file
  run_file-Ends target (proceeds s) (goes_on) = elim (Bool-cases (ltb 1 s.num_workers)) [
    | inl many ↦ rw many (run_concurrent-Ends target s (ltb→lt 1 s.num_workers many))
    | inr one ↦ rw one (run_sequential-Ends target s (proceeds s))
  ]
  run_file-Ends target (refused errors) (says_why explained) =
      (_, refl, inr (refl, refl, explained))
  run_file-Ends target (thrown errors) (is_thrown) = (_, refl, inl refl)

  reported-Ends :
      (pcap : LibPcap) (interface : List ℕ) (s : Settings) (outcome : Outcome)
      (raws : List RawPacket)
      → Ends platform.starts outcome (reported platform pcap interface s raws)
  reported-Ends pcap interface s outcome raws =
      let (engine, e, _) =
        process_packets-IsValid (new_engine s.rules) (timed platform.clock 0 raws)
          (new_engine-IsValid s.rules) in
      let (text, f) = render_report-some platform.scale platform.show_double good engine.report in
      (_, bind-some _ e (bind-some _ f refl), inl refl)

  run_opened-Ends :
      (pcap : LibPcap) (interface : List ℕ) (s : Settings) (outcome : Outcome)
      (answer : (Bool × Option (List ℕ)) × Capturing)
      → Ends platform.starts outcome (run_opened platform pcap interface s answer)
  unfolding run_opened
  run_opened-Ends pcap interface s outcome ((true, error), c) =
      subst (Ends platform.starts outcome)
        (sym (run_opened-caught platform pcap interface s error c))
        (reported-Ends pcap interface s outcome _)
  run_opened-Ends pcap interface s outcome ((false, error), c) =
      failed-Ends platform.starts outcome s.errors _ _

  run_live-Ends :
      (pcap : LibPcap) (interface : List ℕ) (outcome : Outcome)
      → IsExplained outcome
      → Ends platform.starts outcome (run_live platform pcap interface outcome)
  unfolding run_live
  run_live-Ends pcap interface (proceeds s) (goes_on) =
      run_opened-Ends pcap interface s (proceeds s) _
  run_live-Ends pcap interface (refused errors) (says_why explained) =
      (_, refl, inr (refl, refl, explained))
  run_live-Ends pcap interface (thrown errors) (is_thrown) = (_, refl, inl refl)

  start_live-Ends :
      (program : List ℕ) (capture : Option LibPcap) (args : List (List ℕ))
      → Ends platform.starts
          (read_arguments platform.stored (drop 1 args) default_settings)
          (start_live platform program capture args)
  unfolding start_live usage
  start_live-Ends program none args = failed-Ends platform.starts _ [] _ _
  start_live-Ends program (some capture) [] = failed-Ends platform.starts _ [] _ _
  start_live-Ends program (some capture) (interface ∷ args) =
      run_live-Ends capture interface _
        (read_arguments-IsExplained platform.stored args default_settings)

-- Whatever the arguments, the files, what the calls of libpcap answer and what sscanf reads from an
-- address, when memory is given for the packets and for what the engines keep: the program reads
-- outside no buffer and comes to an end. It returns 0; or 1, having printed no report and said why on
-- the error stream; or an exception leaves it, which std::stoul throws for an option, or which comes
-- of a number of workers, two or more, that do not start. Of the machine's arithmetic only the
-- rounding of fractions is assumed.
pub main-exits :
    (platform : Platform) (program : List ℕ) (args : List (List ℕ))
    → IsScale platform.scale
    → (exit : Exit) × (main platform program args ≡ some exit)
      × IsReported platform.starts (options_outcome platform args) exit
unfolding main usage
main-exits platform program [] good = failed-Ends platform.starts _ [] _ _
main-exits platform program (target ∷ args) good =
    elim (Bool-cases (list_eq target (codes "--live"))) [
      | inl live ↦ rw live (start_live-Ends platform good program platform.live args)
      | inr file ↦ rw file (
          run_file-Ends platform good target _
            (read_arguments-IsExplained platform.stored args default_settings))
    ]
