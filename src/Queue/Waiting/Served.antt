-- ===== src/Queue/Waiting/Served.antt =====
-- No wake-up is lost: who waits while it need not is outnumbered by the threads that are about to
-- notify it or to take its place.
use flow_dpi.Prelude.{
  ℕ, ◌+◌, ◌≤◌, ◌<◌, List, [], ◌∷◌, ◌++◌, length, length-append, ◌≡◌, ap, true, false, arith,
}
use flow_dpi.Queue.{BoundedQueue, close}
use flow_dpi.Queue.Waiting.{
  Caller, outside, popping, pop_waits, shutting, notifies_popper, notifies_pusher, notifies_poppers,
  notifies_pushers, pushing, push_waits, count, pop_waiting, push_waiting, Moves,
}
use flow_dpi.Queue.Waiting.Counts.{count-Moves}

module _ {ℓ} {A : Type ℓ} where
  -- The threads that will test for an item, or wake one that does, and those that will test for room.
  abbrev pub popper_coming : Caller A → ℕ
  popper_coming popping = 1
  popper_coming notifies_popper = 1
  popper_coming c = 0

  abbrev pub pusher_coming : Caller A → ℕ
  pusher_coming (pushing x) = 1
  pusher_coming notifies_pusher = 1
  pusher_coming c = 0

  -- The threads that will wake all of a kind.
  abbrev pub calls_poppers : Caller A → ℕ
  calls_poppers notifies_poppers = 1
  calls_poppers c = 0

  abbrev pub calls_pushers : Caller A → ℕ
  calls_pushers notifies_poppers = 1
  calls_pushers notifies_pushers = 1
  calls_pushers c = 0

  pub record IsServed (q : BoundedQueue A) (cs : List (Caller A)) : Type ℓ where
    pub items :
        q.closed ≡ false → 0 < count pop_waiting cs → length q.queue ≤ count popper_coming cs
    pub room :
        q.closed ≡ false
        → 0 < count push_waiting cs
        → q.capacity ≤ length q.queue + count pusher_coming cs
    pub poppers : q.closed ≡ true → 0 < count pop_waiting cs → 0 < count calls_poppers cs
    pub pushers : q.closed ≡ true → 0 < count push_waiting cs → 0 < count calls_pushers cs

  -- What a move changes in the six counts.
  pub record IsShift (c d : Caller A) (cs ds : List (Caller A)) : Type ℓ where
    pub pop_waiters : count pop_waiting ds + pop_waiting c ≡ count pop_waiting cs + pop_waiting d
    pub push_waiters :
        count push_waiting ds + push_waiting c ≡ count push_waiting cs + push_waiting d
    pub coming_poppers :
        count popper_coming ds + popper_coming c ≡ count popper_coming cs + popper_coming d
    pub coming_pushers :
        count pusher_coming ds + pusher_coming c ≡ count pusher_coming cs + pusher_coming d
    pub popper_calls :
        count calls_poppers ds + calls_poppers c ≡ count calls_poppers cs + calls_poppers d
    pub pusher_calls :
        count calls_pushers ds + calls_pushers c ≡ count calls_pushers cs + calls_pushers d

  pub Moves-IsShift :
      {c d : Caller A} {cs ds : List (Caller A)} → Moves c d cs ds → IsShift c d cs ds
  Moves-IsShift m = record {
    pop_waiters = count-Moves pop_waiting m;
    push_waiters = count-Moves push_waiting m;
    coming_poppers = count-Moves popper_coming m;
    coming_pushers = count-Moves pusher_coming m;
    popper_calls = count-Moves calls_poppers m;
    pusher_calls = count-Moves calls_pushers m;
  }

  pub pushed-IsServed :
      (x : A) (q : BoundedQueue A) (cs ds : List (Caller A))
      → IsServed q cs
      → IsShift (pushing x) notifies_popper cs ds
      → IsServed (record q { queue = q.queue ++ (x ∷ []) }) ds
  pushed-IsServed x q cs ds served shift = record {
    items = grind (arith, length-append q.queue (x ∷ []));
    room = grind (arith, length-append q.queue (x ∷ []));
    poppers = grind arith;
    pushers = grind arith;
  }

  pub waiting-IsServed :
      (q : BoundedQueue A) (cs ds : List (Caller A))
      → length q.queue ≡ 0
      → q.closed ≡ false
      → IsServed q cs
      → IsShift popping pop_waits cs ds
      → IsServed q ds
  waiting-IsServed q cs ds empty still_open served shift = grind arith

  pub full-IsServed :
      (x : A) (q : BoundedQueue A) (cs ds : List (Caller A))
      → q.capacity ≤ length q.queue
      → q.closed ≡ false
      → IsServed q cs
      → IsShift (pushing x) (push_waits x) cs ds
      → IsServed q ds
  full-IsServed x q cs ds full still_open served shift = grind arith

  pub failed-IsServed :
      (x : A) (q : BoundedQueue A) (cs ds : List (Caller A))
      → q.closed ≡ true
      → IsServed q cs
      → IsShift (pushing x) outside cs ds
      → IsServed q ds
  failed-IsServed x q cs ds shut served shift = grind arith

  pub drained-IsServed :
      (q : BoundedQueue A) (cs ds : List (Caller A))
      → q.closed ≡ true
      → IsServed q cs
      → IsShift popping outside cs ds
      → IsServed q ds
  drained-IsServed q cs ds shut served shift = grind arith

  pub popped-IsServed :
      (x : A) (xs : List A) (q : BoundedQueue A) (cs ds : List (Caller A))
      → q.queue ≡ x ∷ xs
      → IsServed q cs
      → IsShift popping notifies_pusher cs ds
      → IsServed (record q { queue = xs }) ds
  popped-IsServed x xs q cs ds front served shift =
      let size = ap length front in
      record {
        items = grind (arith, size);
        room = grind (arith, size);
        poppers = grind arith;
        pushers = grind arith;
      }

  pub closed-IsServed :
      (q : BoundedQueue A) (cs ds : List (Caller A))
      → IsServed q cs
      → IsShift shutting notifies_poppers cs ds
      → IsServed (close q) ds
  unfolding close
  closed-IsServed q cs ds served shift = record {
    items = λ still_open. cc;
    room = λ still_open. cc;
    poppers = grind arith;
    pushers = grind arith;
  }
