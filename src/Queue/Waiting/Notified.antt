-- ===== src/Queue/Waiting/Notified.antt =====
-- The invariant of the waits under calls, wake-ups and notifications.
use flow_dpi.Prelude.{◌≡◌, List, refl, arith, map}
use flow_dpi.Queue.{BoundedQueue}
use flow_dpi.Queue.Waiting.{
  Caller, outside, popping, pop_waits, shutting, notifies_popper, notifies_pusher, notifies_poppers,
  notifies_pushers, pushing, push_waits, count, pop_waiting, push_waiting, wake_popper, wake_pusher,
  Calls, Wakes, calls_push, calls_pop, calls_close, wakes_popper, wakes_pusher,
}
use flow_dpi.Queue.Waiting.Counts.{count-map, nothing, count-nothing}
use flow_dpi.Queue.Waiting.Served.{
  popper_coming, pusher_coming, calls_poppers, calls_pushers, IsServed, IsShift,
}

module _ {ℓ} {A : Type ℓ} (q : BoundedQueue A) (cs ds : List (Caller A))
    (served : IsServed q cs) where
  pub called-IsServed : (c : Caller A) → Calls c → IsShift outside c cs ds → IsServed q ds
  called-IsServed c (calls_push x) shift = grind arith
  called-IsServed c (calls_pop) shift = grind arith
  called-IsServed c (calls_close) shift = grind arith

  pub woken-IsServed : (c d : Caller A) → Wakes c d → IsShift c d cs ds → IsServed q ds
  woken-IsServed c d (wakes_popper) shift = grind arith
  woken-IsServed c d (wakes_pusher x) shift = grind arith

  pub popper-IsServed :
      (es : List (Caller A))
      → IsShift notifies_popper outside cs ds
      → IsShift pop_waits popping ds es
      → IsServed q es
  popper-IsServed es first second = grind arith

  pub no_popper-IsServed :
      IsShift notifies_popper outside cs ds → count pop_waiting cs ≡ 0 → IsServed q ds
  no_popper-IsServed shift none_waits = grind arith

  pub pusher-IsServed :
      (x : A) (es : List (Caller A))
      → IsShift notifies_pusher outside cs ds
      → IsShift (push_waits x) (pushing x) ds es
      → IsServed q es
  pusher-IsServed x es first second = grind arith

  pub no_pusher-IsServed :
      IsShift notifies_pusher outside cs ds → count push_waiting cs ≡ 0 → IsServed q ds
  no_pusher-IsServed shift none_waits = grind arith

module _ {ℓ} {A : Type ℓ} where
  -- What `notify_all` does to the counts of one thread.
  wake_popper-counts :
      (c : Caller A)
      → (pop_waiting (wake_popper c) ≡ 0)
        × (push_waiting (wake_popper c) ≡ push_waiting c)
        × (pusher_coming (wake_popper c) ≡ pusher_coming c)
        × (calls_pushers (wake_popper c) ≡ calls_pushers c)
  unfolding wake_popper
  wake_popper-counts outside = (refl, refl, refl, refl)
  wake_popper-counts popping = (refl, refl, refl, refl)
  wake_popper-counts pop_waits = (refl, refl, refl, refl)
  wake_popper-counts shutting = (refl, refl, refl, refl)
  wake_popper-counts notifies_popper = (refl, refl, refl, refl)
  wake_popper-counts notifies_pusher = (refl, refl, refl, refl)
  wake_popper-counts notifies_poppers = (refl, refl, refl, refl)
  wake_popper-counts notifies_pushers = (refl, refl, refl, refl)
  wake_popper-counts (pushing x) = (refl, refl, refl, refl)
  wake_popper-counts (push_waits x) = (refl, refl, refl, refl)

  wake_pusher-counts :
      (c : Caller A)
      → (push_waiting (wake_pusher c) ≡ 0)
        × (pop_waiting (wake_pusher c) ≡ pop_waiting c)
        × (popper_coming (wake_pusher c) ≡ popper_coming c)
        × (calls_poppers (wake_pusher c) ≡ calls_poppers c)
  unfolding wake_pusher
  wake_pusher-counts outside = (refl, refl, refl, refl)
  wake_pusher-counts popping = (refl, refl, refl, refl)
  wake_pusher-counts pop_waits = (refl, refl, refl, refl)
  wake_pusher-counts shutting = (refl, refl, refl, refl)
  wake_pusher-counts notifies_popper = (refl, refl, refl, refl)
  wake_pusher-counts notifies_pusher = (refl, refl, refl, refl)
  wake_pusher-counts notifies_poppers = (refl, refl, refl, refl)
  wake_pusher-counts notifies_pushers = (refl, refl, refl, refl)
  wake_pusher-counts (pushing x) = (refl, refl, refl, refl)
  wake_pusher-counts (push_waits x) = (refl, refl, refl, refl)

  pub poppers-IsServed :
      (q : BoundedQueue A) (cs ds : List (Caller A))
      → IsServed q cs
      → IsShift notifies_poppers notifies_pushers cs ds
      → IsServed q (map wake_popper ds)
  poppers-IsServed q cs ds served shift = grind (
    arith,
    count-map pop_waiting nothing wake_popper ds (λ c. (wake_popper-counts c).0),
    count-nothing ds,
    count-map push_waiting push_waiting wake_popper ds (λ c. (wake_popper-counts c).1),
    count-map pusher_coming pusher_coming wake_popper ds (λ c. (wake_popper-counts c).2),
    count-map calls_pushers calls_pushers wake_popper ds (λ c. (wake_popper-counts c).3),
  )

  pub pushers-IsServed :
      (q : BoundedQueue A) (cs ds : List (Caller A))
      → IsServed q cs
      → IsShift notifies_pushers outside cs ds
      → IsServed q (map wake_pusher ds)
  pushers-IsServed q cs ds served shift = grind (
    arith,
    count-map push_waiting nothing wake_pusher ds (λ c. (wake_pusher-counts c).0),
    count-nothing ds,
    count-map pop_waiting pop_waiting wake_pusher ds (λ c. (wake_pusher-counts c).1),
    count-map popper_coming popper_coming wake_pusher ds (λ c. (wake_pusher-counts c).2),
    count-map calls_poppers calls_poppers wake_pusher ds (λ c. (wake_pusher-counts c).3),
  )
