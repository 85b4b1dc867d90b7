-- ===== src/Queue/Waiting/Settles.antt =====
-- Without new calls and idle wake-ups the threads come to rest, and stop nowhere else.
use flow_dpi.Prelude.{
  some, subst, ℕ, suc, ◌≤◌, ◌<◌, ◌⊎◌, List, [], ◌∷◌, length, ◌≡◌, refl, inl, inr, arith, ℕ_discrete,
}
use flow_dpi.Queue.{BoundedQueue}
use flow_dpi.Queue.Traces.{Event}
use flow_dpi.Queue.Waiting.{
  Caller, outside, popping, pop_waits, shutting, notifies_popper, notifies_pusher, notifies_poppers,
  notifies_pushers, pushing, push_waits, turn, System, Step, take_turn, popper_notified, no_popper,
  pusher_notified, no_pusher, poppers_notified, pushers_notified, count, pop_waiting, push_waiting,
  Moves, here, there,
}
use flow_dpi.Queue.Waiting.Counts.{count-Moves}
use flow_dpi.Queue.Waiting.Rested.{busy}
use flow_dpi.Queue.Waiting.Measure.{steps_left, Step-Lessens}

module _ {ℓ} {A : Type ℓ} where
  -- A number of steps, without a call or an idle wake-up in between.
  pub data Goes : System A → ℕ → System A → Type ℓ where
    stays : {s : System A} → Goes s 0 s
    goes :
        {s s' s'' : System A} {es : List (Event A)} {n : ℕ}
        → Step s es s'
        → Goes s' n s''
        → Goes s (suc n) s''

  Goes-bound :
      (n : ℕ) {s s' : System A} {steps : ℕ}
      → Goes s steps s'
      → length s.callers ≤ n
      → steps ≤ count (steps_left n) s.callers
  Goes-bound n (stays) few = omega arith
  Goes-bound n (goes step more) few =
      let (same, less) = Step-Lessens n step few in
      omega (arith, less, Goes-bound n more (omega (arith, few, same)))

  -- A thread of some kind, which can be moved anywhere.
  abbrev Somewhere : Caller A → List (Caller A) → Type ℓ
  Somewhere c cs = (d : Caller A) → (ds : List (Caller A)) × Moves c d cs ds

  further : (b c : Caller A) (cs : List (Caller A)) → Somewhere c cs → Somewhere c (b ∷ cs)
  further b c cs found d = let (ds, m) = found d in (b ∷ ds, there m)

  found-Somewhere :
      (weight : Caller A → ℕ) (cs : List (Caller A))
      → 0 < count weight cs
      → (c : Caller A) × (0 < weight c) × Somewhere c cs
  unfolding count
  found-Somewhere weight [] counted = absurd (omega (arith, counted))
  found-Somewhere weight (c ∷ cs) counted = elim (ℕ_discrete (weight c) 0) [
    | no weighs ↦ (c, omega (arith, weighs), λ d. (d ∷ cs, here))
    | yes nothing ↦
        let (b, weighs, found) = found-Somewhere weight cs (omega (arith, counted, nothing)) in
        (b, weighs, further c b cs found)
  ]

  is_popper : (c : Caller A) → 0 < pop_waiting c → c ≡ pop_waits
  is_popper pop_waits h = refl
  is_popper outside h = absurd (omega (arith, h))
  is_popper popping h = absurd (omega (arith, h))
  is_popper shutting h = absurd (omega (arith, h))
  is_popper notifies_popper h = absurd (omega (arith, h))
  is_popper notifies_pusher h = absurd (omega (arith, h))
  is_popper notifies_poppers h = absurd (omega (arith, h))
  is_popper notifies_pushers h = absurd (omega (arith, h))
  is_popper (pushing x) h = absurd (omega (arith, h))
  is_popper (push_waits x) h = absurd (omega (arith, h))

  is_pusher : (c : Caller A) → 0 < push_waiting c → (x : A) × (c ≡ push_waits x)
  is_pusher (push_waits x) h = (x, refl)
  is_pusher outside h = absurd (omega (arith, h))
  is_pusher popping h = absurd (omega (arith, h))
  is_pusher pop_waits h = absurd (omega (arith, h))
  is_pusher shutting h = absurd (omega (arith, h))
  is_pusher notifies_popper h = absurd (omega (arith, h))
  is_pusher notifies_pusher h = absurd (omega (arith, h))
  is_pusher notifies_poppers h = absurd (omega (arith, h))
  is_pusher notifies_pushers h = absurd (omega (arith, h))
  is_pusher (pushing x) h = absurd (omega (arith, h))

  abbrev Continues : BoundedQueue A → List (Caller A) → Type ℓ
  Continues q cs =
      (es : List (Event A)) × (s : System A) × Step (record { shared = q; callers = cs }) es s

  module _ (q : BoundedQueue A) (cs : List (Caller A)) where
    turn-Continues :
        (c : Caller A) (t : BoundedQueue A × Caller A × List (Event A))
        → turn c q ≡ some t
        → Somewhere c cs
        → Continues q cs
    turn-Continues c (q', d, es) e found = let (ds, m) = found d in (es, _, take_turn e m)

    popper_notice-Continues : Somewhere notifies_popper cs → Continues q cs
    popper_notice-Continues found =
        let (ds, m) = found outside in
        elim (ℕ_discrete (count pop_waiting cs) 0) [
          | yes nobody ↦ ([], _, no_popper m nobody)
          | no somebody ↦
              let (c, waits, waiter) =
                found-Somewhere pop_waiting ds
                  (omega (arith, somebody, count-Moves pop_waiting m)) in
              let (es, k) = subst (λ b. Somewhere b ds) (is_popper c waits) waiter popping in
              ([], _, popper_notified m k)
        ]

    pusher_notice-Continues : Somewhere notifies_pusher cs → Continues q cs
    pusher_notice-Continues found =
        let (ds, m) = found outside in
        elim (ℕ_discrete (count push_waiting cs) 0) [
          | yes nobody ↦ ([], _, no_pusher m nobody)
          | no somebody ↦
              let (c, waits, waiter) =
                found-Somewhere push_waiting ds
                  (omega (arith, somebody, count-Moves push_waiting m)) in
              let (x, same) = is_pusher c waits in
              let (es, k) = subst (λ b. Somewhere b ds) same waiter (pushing x) in
              ([], _, pusher_notified x m k)
        ]

    busy-Continues : (c : Caller A) → 0 < busy c → Somewhere c cs → Continues q cs
    unfolding turn
    busy-Continues (pushing x) can_go found = turn-Continues (pushing x) _ refl found
    busy-Continues popping can_go found = turn-Continues popping _ refl found
    busy-Continues shutting can_go found = turn-Continues shutting _ refl found
    busy-Continues notifies_popper can_go found = popper_notice-Continues found
    busy-Continues notifies_pusher can_go found = pusher_notice-Continues found
    busy-Continues notifies_poppers can_go found =
        let (ds, m) = found notifies_pushers in ([], _, poppers_notified m)
    busy-Continues notifies_pushers can_go found =
        let (ds, m) = found outside in ([], _, pushers_notified m)
    busy-Continues outside can_go found = absurd (omega (arith, can_go))
    busy-Continues pop_waits can_go found = absurd (omega (arith, can_go))
    busy-Continues (push_waits x) can_go found = absurd (omega (arith, can_go))

  -- From any state, and whatever steps are taken in whatever order: as long as no thread calls the
  -- queue or leaves a wait on its own, there are at most as many steps as `steps_left` counts, and
  -- where they have led either a next step is there or each thread is outside the queue or waits.
  pub Goes-settles :
      (s s' : System A) (steps : ℕ)
      → Goes s steps s'
      → (steps ≤ count (steps_left (length s.callers)) s.callers)
        × ((count busy s'.callers ≡ 0)
            ⊎ ((es : List (Event A)) × (s'' : System A) × Step s' es s''))
  Goes-settles s s' steps going = (
    Goes-bound (length s.callers) going (omega arith),
    elim (ℕ_discrete (count busy s'.callers) 0) [
      | yes rest ↦ inl rest
      | no some_busy ↦
          let (c, can_go, found) = found-Somewhere busy s'.callers (omega (arith, some_busy)) in
          inr (busy-Continues s'.shared s'.callers c can_go found)
    ],
  )
