-- ===== src/Queue/Tests.antt =====
-- A run of the queue, and each theorem of this folder at an input.
use flow_dpi.Prelude.{ℕ, ◌≡◌, ◌≤◌, ◌++◌, refl, List, [], ◌∷◌, Bool, true, false, none, some}
use flow_dpi.Queue.{BoundedQueue, new_queue, push, pop_front, pop, close}
use flow_dpi.Queue.Traces.{
  Event, Run, rest, next, push_step, pop_step, close_step, drained_step, went_in, came_out,
}
use flow_dpi.Queue.Order.{Run-first_in_first_out, pop-drained}

abbrev holding : List ℕ → Bool → BoundedQueue ℕ
holding items closed = record { queue = items; capacity = 2; closed = closed }

-- Two items go in, one comes out, the queue is closed, and the other comes out.
abbrev calls : List (Event ℕ)
calls =
    Event.pushed 5 ∷ (Event.pushed 6 ∷ (Event.popped 5 ∷ (Event.closing ∷ (Event.popped 6 ∷ []))))

calls-Run : Run (new_queue 2) calls (holding [] true)
unfolding push pop pop_front close
calls-Run = next {q' = holding (5 ∷ []) false} (push_step 5 refl) (
    next {q' = holding (5 ∷ 6 ∷ []) false} (push_step 6 refl) (
      next {q' = holding (6 ∷ []) false} (pop_step 5 refl) (
        next {q' = holding (6 ∷ []) true} close_step
          (next {q' = holding [] true} (pop_step 6 refl) rest))))

ended : pop (holding [] true) ≡ some (none, holding [] true)
unfolding pop pop_front
ended = refl

Run-first_in_first_out_example : (went_in calls ≡ came_out calls ++ []) × (0 ≤ 2)
Run-first_in_first_out_example = Run-first_in_first_out 2 calls (holding [] true) calls-Run

pop-drained_example : (went_in calls ≡ came_out calls) × (went_in {A = ℕ} (Event.drained ∷ []) ≡ [])
pop-drained_example =
    pop-drained 2 calls (Event.drained ∷ []) (holding [] true) (holding [] true) (holding [] true)
      calls-Run ended (next (drained_step ended) rest)
