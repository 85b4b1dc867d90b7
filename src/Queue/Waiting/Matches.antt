-- ===== src/Queue/Waiting/Matches.antt =====
-- The queue with waiting threads against the queue whose calls are single steps.
use flow_dpi.Prelude.{
  List, ◌++◌, ◌≡◌, refl, subst, Bool, true, false, Option, none, some, some_injective, none-ne_some,
}
use flow_dpi.Queue.{BoundedQueue, push, pop}
use flow_dpi.Queue.Traces.{push_step, fail_step, pop_step, drained_step, close_step}
use flow_dpi.Queue.Traces
use flow_dpi.Queue.Waiting.{
  Caller, outside, popping, pop_waits, shutting, notifies_popper, notifies_pusher, notifies_poppers,
  notifies_pushers, pushing, push_waits, Turn, push_turn, pop_turn, turn, System, Step, take_turn,
  popper_notified, no_popper, pusher_notified, no_pusher, poppers_notified, pushers_notified, Run,
  rest, calls, wakes, steps,
}

module _ {ℓ} {A : Type ℓ} where
  append-Run :
      {q q' q'' : BoundedQueue A} {es fs : List (Traces.Event A)}
      → Traces.Run q es q'
      → Traces.Run q' fs q''
      → Traces.Run q (es ++ fs) q''
  append-Run (Traces.rest) more = more
  append-Run (Traces.next step run) more = Traces.next step (append-Run run more)

  -- A turn is one call of the queue, or none.
  abbrev IsRun : BoundedQueue A → Turn A → Type ℓ
  IsRun q t = Traces.Run q t.2 t.0

  push_turn-IsRun :
      (x : A) (q : BoundedQueue A) (o : Option (Bool × BoundedQueue A))
      → push x q ≡ o
      → IsRun q (push_turn x q o)
  unfolding push_turn
  push_turn-IsRun x q none e = Traces.rest
  push_turn-IsRun x q (some (true, q')) e = Traces.next (push_step x e) Traces.rest
  push_turn-IsRun x q (some (false, q')) e = Traces.next (fail_step x e) Traces.rest

  pop_turn-IsRun :
      (q : BoundedQueue A) (o : Option (Option A × BoundedQueue A))
      → pop q ≡ o
      → IsRun q (pop_turn q o)
  unfolding pop_turn
  pop_turn-IsRun q none e = Traces.rest
  pop_turn-IsRun q (some (some x, q')) e = Traces.next (pop_step x e) Traces.rest
  pop_turn-IsRun q (some (none, q')) e = Traces.next (drained_step e) Traces.rest

  turn-IsRun : (c : Caller A) (q : BoundedQueue A) (t : Turn A) → turn c q ≡ some t → IsRun q t
  unfolding turn
  turn-IsRun (pushing x) q t e =
      subst (IsRun q) (some_injective e) (push_turn-IsRun x q (push x q) refl)
  turn-IsRun popping q t e = subst (IsRun q) (some_injective e) (pop_turn-IsRun q (pop q) refl)
  turn-IsRun shutting q t e =
      subst (IsRun q) (some_injective e) (Traces.next close_step Traces.rest)
  turn-IsRun outside q t e = absurd (none-ne_some e)
  turn-IsRun pop_waits q t e = absurd (none-ne_some e)
  turn-IsRun (push_waits x) q t e = absurd (none-ne_some e)
  turn-IsRun notifies_popper q t e = absurd (none-ne_some e)
  turn-IsRun notifies_pusher q t e = absurd (none-ne_some e)
  turn-IsRun notifies_poppers q t e = absurd (none-ne_some e)
  turn-IsRun notifies_pushers q t e = absurd (none-ne_some e)

  Step_matches :
      {s s' : System A} {es : List (Traces.Event A)}
      → Step s es s'
      → Traces.Run s.shared es s'.shared
  Step_matches (take_turn {q} {q'} {c} {d} {es} e m) = turn-IsRun c q (q', d, es) e
  Step_matches (popper_notified m n) = Traces.rest
  Step_matches (no_popper m n) = Traces.rest
  Step_matches (pusher_notified x m n) = Traces.rest
  Step_matches (no_pusher m n) = Traces.rest
  Step_matches (poppers_notified m) = Traces.rest
  Step_matches (pushers_notified m) = Traces.rest

  -- Whatever the threads do, with their waits, notifications and idle wake-ups, the calls that return
  -- are a run of the queue whose calls are single steps, in the order of their last turns under the
  -- mutex and with the same answers, from the queue at the start to the one at the end.
  pub Run_matches :
      {s s' : System A} {es : List (Traces.Event A)}
      → Run s es s'
      → Traces.Run s.shared es s'.shared
  Run_matches (rest) = Traces.rest
  Run_matches (calls c m run) = Run_matches run
  Run_matches (wakes w m run) = Run_matches run
  Run_matches (steps step run) = append-Run (Step_matches step) (Run_matches run)
