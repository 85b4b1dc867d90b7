-- ===== src/Queue/Waiting/Tests.antt =====
-- Two threads at a queue of one item: the consumer waits, is notified and takes the item.
use flow_dpi.Prelude.{ℕ, ◌≤◌, ◌<◌, ◌⊎◌, List, [], ◌∷◌, length, ◌≡◌, refl, false, some}
use flow_dpi.Queue.{BoundedQueue, new_queue, push, pop_front, pop}
use flow_dpi.Queue.Traces.{Event}
use flow_dpi.Queue.Traces
use flow_dpi.Queue.Waiting.{
  popping, pop_waits, notifies_popper, notifies_pusher, pushing, push_turn, pop_turn, turn, System,
  Step, take_turn, popper_notified, no_pusher, here, there, Run, rest, calls, steps, calls_push,
  calls_pop, count, pop_waiting, push_waiting, idle_system,
}
use flow_dpi.Queue.Waiting.Matches.{Run_matches}
use flow_dpi.Queue.Waiting.Measure.{steps_left}
use flow_dpi.Queue.Waiting.Rested.{busy, Run-waits_rightly}
use flow_dpi.Queue.Waiting.Settles.{stays, goes, Goes-settles}

abbrev with_item : BoundedQueue ℕ
with_item = record { queue = 5 ∷ []; capacity = 1; closed = false }

waits : turn {A = ℕ} popping (new_queue 1) ≡ some (new_queue 1, pop_waits, [])
unfolding turn pop_turn pop pop_front
waits = refl

pushes : turn (pushing 5) (new_queue 1) ≡ some (with_item, notifies_popper, Event.pushed 5 ∷ [])
unfolding turn push_turn push
pushes = refl

takes : turn popping with_item ≡ some (new_queue 1, notifies_pusher, Event.popped 5 ∷ [])
unfolding turn pop_turn pop pop_front
takes = refl

abbrev meeting : List (Event ℕ)
meeting = Event.pushed 5 ∷ Event.popped 5 ∷ []

meeting_run : Run (idle_system 1 2) meeting (idle_system 1 2)
unfolding count
meeting_run = calls calls_pop here (
    steps (take_turn waits here) (
      calls (calls_push 5) (there here) (
        steps (take_turn pushes (there here)) (
          steps (popper_notified (there here) here)
            (steps (take_turn takes here) (steps (no_pusher here refl) rest))))))

Run_matches_example : Traces.Run (new_queue 1) meeting (new_queue 1)
Run_matches_example =
    Run_matches {s = idle_system 1 2} {s' = idle_system 1 2} {es = meeting} meeting_run

Run-waits_rightly_example :
    let s : System ℕ = idle_system 1 2 in
    (0 < count pop_waiting s.callers → (length s.shared.queue ≡ 0) × (s.shared.closed ≡ false))
    × (0 < count push_waiting s.callers
        → (s.shared.capacity ≤ length s.shared.queue) × (s.shared.closed ≡ false))
unfolding count
Run-waits_rightly_example = Run-waits_rightly 1 2 (idle_system 1 2) meeting meeting_run refl

abbrev both : System ℕ
both = record { shared = new_queue 1; callers = popping ∷ pushing 5 ∷ [] }

abbrev pushed_first : System ℕ
pushed_first = record { shared = with_item; callers = popping ∷ notifies_popper ∷ [] }

Goes-settles_example :
    (1 ≤ count (steps_left 2) both.callers)
    × ((count busy pushed_first.callers ≡ 0)
        ⊎ ((es : List (Event ℕ)) × (s : System ℕ) × Step pushed_first es s))
Goes-settles_example = Goes-settles both pushed_first 1 (goes (take_turn pushes (there here)) stays)
