-- ===== src/Concurrent/File.antt =====
-- The class of include/concurrent_dpi_engine.h: its state, its constructor, and processFile from the
-- bytes of a file.
use flow_dpi.Prelude.{
  Bool-cases, inl, inr, if◌then◌else◌, ℕ, List, Bool, true, false, Option, none, some, ◌≡◌, refl,
}
use flow_dpi.Prelude.Fallible.{◌>>=◌, bind-some}
use flow_dpi.Types.{RawPacket, FiveTuple}
use flow_dpi.Rules.{BlockRules}
use flow_dpi.Pcap.{read_file}
use flow_dpi.Engine.File.{timed}
use flow_dpi.Engine.State.{EngineReport, empty_report}
use flow_dpi.Concurrent.{at_least_one, process_concurrently}
use flow_dpi.Concurrent.Safety.{process_concurrently-IsMerged}

-- `ConcurrentDpiEngine`
pub record ConcurrentDpiEngine : Type 0 where
  pub rules : BlockRules
  pub num_workers : ℕ
  pub queue_capacity : ℕ
  pub merged_report : EngineReport

unfoldable pub new_concurrent_engine : BlockRules → ℕ → ℕ → ConcurrentDpiEngine
new_concurrent_engine rules num_workers queue_capacity = record {
  rules = rules;
  num_workers = at_least_one num_workers;
  queue_capacity = at_least_one queue_capacity;
  merged_report = empty_report;
}

-- What a call of processFile comes to: the engine and what it returns, or an exception.
pub data Attempt : Type 0 where
  returned : ConcurrentDpiEngine → Bool → Attempt
  raised : Attempt

-- `starts` says for a number of workers whether the vectors can hold so many queues, engines and
-- threads, and the machine starts them; if not, `reserve` throws std::length_error or std::bad_alloc,
-- or the thread's constructor throws std::system_error.
module _ (hash : FiveTuple → ℕ) (starts : ℕ → Bool) where
  unfoldable pub process_shards :
      ConcurrentDpiEngine → (ℕ → ℕ) → Option (List RawPacket) → Option Attempt
  process_shards engine clock none = some (returned engine false)
  process_shards engine clock (some raws) =
      let worked : Option Attempt =
        process_concurrently hash engine.rules engine.num_workers (timed clock 0 raws) >>= λ report.
        some (returned (record engine { merged_report = report }) true) in
      if starts engine.num_workers then worked else some raised

  -- `ConcurrentDpiEngine::processFile`
  unfoldable pub process_file_concurrently :
      ConcurrentDpiEngine → (ℕ → ℕ) → Option (List ℕ) → Option Attempt
  process_file_concurrently engine clock file = process_shards engine clock (read_file file)

  -- A call returns, or raises an exception because the workers do not start.
  abbrev pub IsAttempt : ℕ → Attempt → Type 0
  IsAttempt num_workers (returned engine' accepted) = Unit
  IsAttempt num_workers raised = starts num_workers ≡ false

  process_shards-some :
      (engine : ConcurrentDpiEngine) (clock : ℕ → ℕ) (packets : Option (List RawPacket))
      → (attempt : Attempt) × (process_shards engine clock packets ≡ some attempt)
        × IsAttempt engine.num_workers attempt
  unfolding process_shards
  process_shards-some engine clock none = (returned engine false, refl, tt)
  process_shards-some engine clock (some raws) = elim (Bool-cases (starts engine.num_workers)) [
    | inr idle ↦ (raised, rw idle refl, idle)
    | inl going ↦
        let (report, e, _) =
          process_concurrently-IsMerged hash engine.rules engine.num_workers (timed clock 0 raws) in
        (
          returned (record engine { merged_report = report }) true,
          rw going (bind-some _ e refl),
          tt,
        )
  ]

  pub process_file_concurrently-some :
      (engine : ConcurrentDpiEngine) (clock : ℕ → ℕ) (file : Option (List ℕ))
      → (attempt : Attempt) × (process_file_concurrently engine clock file ≡ some attempt)
        × IsAttempt engine.num_workers attempt
  unfolding process_file_concurrently
  process_file_concurrently-some engine clock file =
      process_shards-some engine clock (read_file file)
