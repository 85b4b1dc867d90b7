-- ===== src/Queue/Waiting/Measure.antt =====
-- What each step takes from a bound on the steps that are left.
use flow_dpi.Prelude.{
  ℕ, ◌+◌, ◌*◌, ◌≤◌, ◌<◌, List, length, ◌≡◌, ◌∙◌, subst, Bool, true, false, Option, none, some,
  some_injective, none-ne_some, arith,
}
use flow_dpi.Queue.{BoundedQueue, push, pop}
use flow_dpi.Queue.Traces.{Event}
use flow_dpi.Queue.Waiting.{
  Caller, outside, popping, pop_waits, shutting, notifies_popper, notifies_pusher, notifies_poppers,
  notifies_pushers, pushing, push_waits, Turn, push_turn, pop_turn, turn, System, Step, take_turn,
  popper_notified, no_popper, pusher_notified, no_pusher, poppers_notified, pushers_notified, count,
  pop_waiting, push_waiting, wake_popper, wake_pusher,
}
use flow_dpi.Queue.Waiting.Counts.{
  count-Moves, count-map, count-add, count_le_length, length-Moves, length-map,
}

module _ {ℓ} {A : Type ℓ} where
  -- A bound on the steps that a thread can still make, or cause another to make, among `n` threads.
  abbrev pub steps_left : ℕ → Caller A → ℕ
  steps_left n outside = 0
  steps_left n pop_waits = 2
  steps_left n (push_waits x) = 2
  steps_left n popping = 3
  steps_left n (pushing x) = 3
  steps_left n notifies_popper = 2
  steps_left n notifies_pusher = 2
  steps_left n notifies_pushers = n + 1
  steps_left n notifies_poppers = 2 * n + 2
  steps_left n shutting = 2 * n + 3

  push_turn-steps_left :
      (n : ℕ) (x : A) (q : BoundedQueue A) (o : Option (Bool × BoundedQueue A))
      → steps_left n (push_turn x q o).1 < 3
  unfolding push_turn
  push_turn-steps_left n x q none = omega arith
  push_turn-steps_left n x q (some (true, q')) = omega arith
  push_turn-steps_left n x q (some (false, q')) = omega arith

  pop_turn-steps_left :
      (n : ℕ) (q : BoundedQueue A) (o : Option (Option A × BoundedQueue A))
      → steps_left n (pop_turn q o).1 < 3
  unfolding pop_turn
  pop_turn-steps_left n q none = omega arith
  pop_turn-steps_left n q (some (some x, q')) = omega arith
  pop_turn-steps_left n q (some (none, q')) = omega arith

  turn-steps_left :
      (n : ℕ) (c : Caller A) (q : BoundedQueue A) (t : Turn A)
      → turn c q ≡ some t
      → steps_left n t.1 < steps_left n c
  unfolding turn
  turn-steps_left n (pushing x) q t e =
      subst (λ u. steps_left n u.1 < 3) (some_injective e) (push_turn-steps_left n x q (push x q))
  turn-steps_left n popping q t e =
      subst (λ u. steps_left n u.1 < 3) (some_injective e) (pop_turn-steps_left n q (pop q))
  turn-steps_left n shutting q t e =
      subst (λ u. steps_left n u.1 < 2 * n + 3) (some_injective e) (omega arith)
  turn-steps_left n outside q t e = absurd (none-ne_some e)
  turn-steps_left n pop_waits q t e = absurd (none-ne_some e)
  turn-steps_left n (push_waits x) q t e = absurd (none-ne_some e)
  turn-steps_left n notifies_popper q t e = absurd (none-ne_some e)
  turn-steps_left n notifies_pusher q t e = absurd (none-ne_some e)
  turn-steps_left n notifies_poppers q t e = absurd (none-ne_some e)
  turn-steps_left n notifies_pushers q t e = absurd (none-ne_some e)

  wake_popper-steps_left :
      (n : ℕ) (c : Caller A) → steps_left n (wake_popper c) ≡ steps_left n c + pop_waiting c
  unfolding wake_popper
  wake_popper-steps_left n outside = omega arith
  wake_popper-steps_left n popping = omega arith
  wake_popper-steps_left n pop_waits = omega arith
  wake_popper-steps_left n shutting = omega arith
  wake_popper-steps_left n notifies_popper = omega arith
  wake_popper-steps_left n notifies_pusher = omega arith
  wake_popper-steps_left n notifies_poppers = omega arith
  wake_popper-steps_left n notifies_pushers = omega arith
  wake_popper-steps_left n (pushing x) = omega arith
  wake_popper-steps_left n (push_waits x) = omega arith

  wake_pusher-steps_left :
      (n : ℕ) (c : Caller A) → steps_left n (wake_pusher c) ≡ steps_left n c + push_waiting c
  unfolding wake_pusher
  wake_pusher-steps_left n outside = omega arith
  wake_pusher-steps_left n popping = omega arith
  wake_pusher-steps_left n pop_waits = omega arith
  wake_pusher-steps_left n shutting = omega arith
  wake_pusher-steps_left n notifies_popper = omega arith
  wake_pusher-steps_left n notifies_pusher = omega arith
  wake_pusher-steps_left n notifies_poppers = omega arith
  wake_pusher-steps_left n notifies_pushers = omega arith
  wake_pusher-steps_left n (pushing x) = omega arith
  wake_pusher-steps_left n (push_waits x) = omega arith

  waiting_le_one : (c : Caller A) → (pop_waiting c ≤ 1) × (push_waiting c ≤ 1)
  waiting_le_one outside = omega arith
  waiting_le_one popping = omega arith
  waiting_le_one pop_waits = omega arith
  waiting_le_one shutting = omega arith
  waiting_le_one notifies_popper = omega arith
  waiting_le_one notifies_pusher = omega arith
  waiting_le_one notifies_poppers = omega arith
  waiting_le_one notifies_pushers = omega arith
  waiting_le_one (pushing x) = omega arith
  waiting_le_one (push_waits x) = omega arith

  -- Each step takes something from the bound, and no thread comes or goes.
  abbrev pub Lessens : ℕ → List (Caller A) → List (Caller A) → Type 0
  Lessens n cs ds = (length ds ≡ length cs) × (count (steps_left n) ds < count (steps_left n) cs)

  pub Step-Lessens :
      (n : ℕ) {s s' : System A} {es : List (Event A)}
      → Step s es s'
      → length s.callers ≤ n
      → Lessens n s.callers s'.callers
  Step-Lessens n (take_turn {q} {q'} {c} {d} {es} {cs} {ds} e m) few = (
    length-Moves m,
    omega (arith, count-Moves (steps_left n) m, turn-steps_left n c q (q', d, es) e),
  )
  Step-Lessens n (popper_notified m k) few = (
    length-Moves k ∙ length-Moves m,
    omega (arith, count-Moves (steps_left n) m, count-Moves (steps_left n) k),
  )
  Step-Lessens n (no_popper m _) few = (length-Moves m, omega (arith, count-Moves (steps_left n) m))
  Step-Lessens n (pusher_notified x m k) few = (
    length-Moves k ∙ length-Moves m,
    omega (arith, count-Moves (steps_left n) m, count-Moves (steps_left n) k),
  )
  Step-Lessens n (no_pusher m _) few = (length-Moves m, omega (arith, count-Moves (steps_left n) m))
  Step-Lessens n (poppers_notified {q} {cs} {ds} m) few = (
    length-map wake_popper ds ∙ length-Moves m,
    omega (
      arith,
      few,
      length-Moves m,
      count-Moves (steps_left n) m,
      count-map (steps_left n) _ wake_popper ds (wake_popper-steps_left n),
      count-add (steps_left n) pop_waiting ds,
      count_le_length pop_waiting ds (λ c. (waiting_le_one c).0),
    ),
  )
  Step-Lessens n (pushers_notified {q} {cs} {ds} m) few = (
    length-map wake_pusher ds ∙ length-Moves m,
    omega (
      arith,
      few,
      length-Moves m,
      count-Moves (steps_left n) m,
      count-map (steps_left n) _ wake_pusher ds (wake_pusher-steps_left n),
      count-add (steps_left n) push_waiting ds,
      count_le_length push_waiting ds (λ c. (waiting_le_one c).1),
    ),
  )
