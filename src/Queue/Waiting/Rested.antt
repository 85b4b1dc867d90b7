-- ===== src/Queue/Waiting/Rested.antt =====
-- The invariant of the waits over any run, and what it says when no thread has anything to do.
use flow_dpi.Prelude.{
  ℕ, zero, suc, ◌≤◌, ◌<◌, List, length, replicate, ◌≡◌, refl, sym, ap, ◌∙◌, subst, Bool, true,
  false, Option, none, some, some_injective, none-ne_some, ltb_false→le, Bool-cases, inl, inr, ltb,
  arith,
}
use flow_dpi.Queue.{BoundedQueue, push, pop}
use flow_dpi.Queue.Traces.{
  Event, push-room, push-closed, push-accepted, push-refused, pop-taken, pop-ended,
}
use flow_dpi.Queue.Order.{pop-waits}
use flow_dpi.Queue.Waiting.{
  Caller, outside, popping, pop_waits, shutting, notifies_popper, notifies_pusher, notifies_poppers,
  notifies_pushers, pushing, push_waits, Turn, push_turn, pop_turn, turn, System, Step, take_turn,
  popper_notified, no_popper, pusher_notified, no_pusher, poppers_notified, pushers_notified, Run,
  rest, calls, wakes, steps, count, pop_waiting, push_waiting, idle_system,
}
use flow_dpi.Queue.Waiting.Counts.{count_le}
use flow_dpi.Queue.Waiting.Served.{
  popper_coming, pusher_coming, calls_poppers, calls_pushers, IsServed, IsShift, Moves-IsShift,
  pushed-IsServed, waiting-IsServed, full-IsServed, failed-IsServed, drained-IsServed,
  popped-IsServed, closed-IsServed,
}
use flow_dpi.Queue.Waiting.Notified.{
  called-IsServed, woken-IsServed, popper-IsServed, no_popper-IsServed, pusher-IsServed,
  no_pusher-IsServed, poppers-IsServed, pushers-IsServed,
}

module _ {ℓ} {A : Type ℓ} where
  push-waits :
      (x : A) (q : BoundedQueue A)
      → push x q ≡ none
      → (q.capacity ≤ length q.queue) × (q.closed ≡ false)
  push-waits x q e = elim (Bool-cases q.closed) [
    | inl shut ↦ absurd (none-ne_some (sym e ∙ push-closed x q shut))
    | inr still_open ↦ elim (Bool-cases (ltb (length q.queue) q.capacity)) [
      | inl room ↦ absurd (none-ne_some (sym e ∙ push-room x q room still_open))
      | inr full ↦ (ltb_false→le _ _ full, still_open)
    ]
  ]

  module _ (q : BoundedQueue A) (cs ds : List (Caller A)) (served : IsServed q cs) where
    push_turn-IsServed :
        (x : A) (o : Option (Bool × BoundedQueue A))
        → push x q ≡ o
        → IsShift (pushing x) (push_turn x q o).1 cs ds
        → IsServed (push_turn x q o).0 ds
    unfolding push_turn
    push_turn-IsServed x none e shift =
        let (full, still_open) = push-waits x q e in
        full-IsServed x q cs ds full still_open served shift
    push_turn-IsServed x (some (true, q')) e shift =
        subst (λ p. IsServed p ds) (sym (push-accepted q q' x e).0)
          (pushed-IsServed x q cs ds served shift)
    push_turn-IsServed x (some (false, q')) e shift =
        let (same, shut) = push-refused q q' x e in
        subst (λ p. IsServed p ds) (sym same) (failed-IsServed x q cs ds shut served shift)

    pop_turn-IsServed :
        (o : Option (Option A × BoundedQueue A))
        → pop q ≡ o
        → IsShift popping (pop_turn q o).1 cs ds
        → IsServed (pop_turn q o).0 ds
    unfolding pop_turn
    pop_turn-IsServed none e shift =
        let (empty, still_open) = pop-waits q e in
        waiting-IsServed q cs ds (ap length empty) still_open served shift
    pop_turn-IsServed (some (some x, q')) e shift =
        let (xs, front, same) = pop-taken q q' x e in
        subst (λ p. IsServed p ds) (sym same) (popped-IsServed x xs q cs ds front served shift)
    pop_turn-IsServed (some (none, q')) e shift =
        let (same, _, shut) = pop-ended q q' e in
        subst (λ p. IsServed p ds) (sym same) (drained-IsServed q cs ds shut served shift)

    turn-IsServed :
        (c : Caller A) (t : Turn A) → turn c q ≡ some t → IsShift c t.1 cs ds → IsServed t.0 ds
    unfolding turn
    turn-IsServed (pushing x) t e =
        subst (λ u. IsShift (pushing x) u.1 cs ds → IsServed u.0 ds) (some_injective e)
          (push_turn-IsServed x (push x q) refl)
    turn-IsServed popping t e =
        subst (λ u. IsShift popping u.1 cs ds → IsServed u.0 ds) (some_injective e)
          (pop_turn-IsServed (pop q) refl)
    turn-IsServed shutting t e =
        subst (λ u. IsShift shutting u.1 cs ds → IsServed u.0 ds) (some_injective e)
          (closed-IsServed q cs ds served)
    turn-IsServed outside t e = absurd (none-ne_some e)
    turn-IsServed pop_waits t e = absurd (none-ne_some e)
    turn-IsServed (push_waits x) t e = absurd (none-ne_some e)
    turn-IsServed notifies_popper t e = absurd (none-ne_some e)
    turn-IsServed notifies_pusher t e = absurd (none-ne_some e)
    turn-IsServed notifies_poppers t e = absurd (none-ne_some e)
    turn-IsServed notifies_pushers t e = absurd (none-ne_some e)

  abbrev IsLive : System A → Type ℓ
  IsLive s = IsServed s.shared s.callers

  Step-IsLive : {s s' : System A} {es : List (Event A)} → Step s es s' → IsLive s → IsLive s'
  Step-IsLive (take_turn {q} {q'} {c} {d} {es} {cs} {ds} e m) live =
      turn-IsServed q cs ds live c (q', d, es) e (Moves-IsShift m)
  Step-IsLive (popper_notified {q} {cs} {ds} {es} m n) live =
      popper-IsServed q cs ds live es (Moves-IsShift m) (Moves-IsShift n)
  Step-IsLive (no_popper {q} {cs} {ds} m n) live =
      no_popper-IsServed q cs ds live (Moves-IsShift m) n
  Step-IsLive (pusher_notified {q} {cs} {ds} {es} x m n) live =
      pusher-IsServed q cs ds live x es (Moves-IsShift m) (Moves-IsShift n)
  Step-IsLive (no_pusher {q} {cs} {ds} m n) live =
      no_pusher-IsServed q cs ds live (Moves-IsShift m) n
  Step-IsLive (poppers_notified {q} {cs} {ds} m) live =
      poppers-IsServed q cs ds live (Moves-IsShift m)
  Step-IsLive (pushers_notified {q} {cs} {ds} m) live =
      pushers-IsServed q cs ds live (Moves-IsShift m)

  Run-IsLive : {s s' : System A} {es : List (Event A)} → Run s es s' → IsLive s → IsLive s'
  Run-IsLive (rest) live = live
  Run-IsLive (calls {q} {cs} {ds} {c} made m run) live =
      Run-IsLive run (called-IsServed q cs ds live c made (Moves-IsShift m))
  Run-IsLive (wakes {q} {cs} {ds} {c} {d} woken m run) live =
      Run-IsLive run (woken-IsServed q cs ds live c d woken (Moves-IsShift m))
  Run-IsLive (steps step run) live = Run-IsLive run (Step-IsLive step live)

  -- A thread that can go on: neither outside nor on a condition variable.
  abbrev pub busy : Caller A → ℕ
  busy outside = 0
  busy pop_waits = 0
  busy (push_waits x) = 0
  busy c = 1

  count-replicate :
      (weight : Caller A → ℕ) (n : ℕ) → weight outside ≡ 0 → count weight (replicate n outside) ≡ 0
  unfolding count
  count-replicate weight zero e = refl
  count-replicate weight (suc n) e = omega (arith, e, count-replicate weight n e)

  idle-IsLive : (capacity threads : ℕ) → IsLive (idle_system capacity threads)
  idle-IsLive capacity threads = record {
    items = λ still_open waits. omega (arith, waits, count-replicate pop_waiting threads refl);
    room = λ still_open waits. omega (arith, waits, count-replicate push_waiting threads refl);
    poppers = λ shut waits. omega (arith, waits, count-replicate pop_waiting threads refl);
    pushers = λ shut waits. omega (arith, waits, count-replicate push_waiting threads refl);
  }

  coming_le_busy :
      (c : Caller A)
      → (popper_coming c ≤ busy c)
        × (pusher_coming c ≤ busy c)
        × (calls_pushers c ≤ busy c)
        × (calls_poppers c ≤ busy c)
  coming_le_busy outside = omega arith
  coming_le_busy popping = omega arith
  coming_le_busy pop_waits = omega arith
  coming_le_busy shutting = omega arith
  coming_le_busy notifies_popper = omega arith
  coming_le_busy notifies_pusher = omega arith
  coming_le_busy notifies_poppers = omega arith
  coming_le_busy notifies_pushers = omega arith
  coming_le_busy (pushing x) = omega arith
  coming_le_busy (push_waits x) = omega arith

  -- No wake-up is lost. Whatever any number of threads have called, in whatever order they took the
  -- mutex and were notified or woke on their own: once each thread is outside the queue or waits, a
  -- pop waits only on a queue that is empty and open, a push only on one that is full and open; so
  -- behind close nobody waits, and on a queue that can hold an item pops and pushes do not both wait.
  pub Run-waits_rightly :
      (capacity threads : ℕ) (s : System A) (es : List (Event A))
      → Run (idle_system capacity threads) es s
      → count busy s.callers ≡ 0
      → (0 < count pop_waiting s.callers → (length s.shared.queue ≡ 0) × (s.shared.closed ≡ false))
        × (0 < count push_waiting s.callers
            → (s.shared.capacity ≤ length s.shared.queue) × (s.shared.closed ≡ false))
  Run-waits_rightly capacity threads s es run idle =
      let live = Run-IsLive run (idle-IsLive capacity threads) in
      let a = count_le popper_coming busy s.callers (λ c. (coming_le_busy c).0) in
      let b = count_le pusher_coming busy s.callers (λ c. (coming_le_busy c).1) in
      let d = count_le calls_pushers busy s.callers (λ c. (coming_le_busy c).2) in
      let f = count_le calls_poppers busy s.callers (λ c. (coming_le_busy c).3) in
      elim (Bool-cases s.shared.closed) [ inl shut ↦ grind arith | inr still_open ↦ grind arith ]
