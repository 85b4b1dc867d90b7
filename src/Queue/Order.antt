-- ===== src/Queue/Order.antt =====
-- What comes out of the queue, how much it holds, and when a call waits.
use flow_dpi.Prelude.{
  lt→ltb, Bool-cases, subst, ℕ, ◌≤◌, ◌<◌, ◌≡◌, ◌≢◌, refl, List, [], ◌∷◌, ◌++◌, length,
  length-append, append_assoc, append-nil, true, false, none, some, none-ne_some, lt→ltb, arith,
  Bool-cases, inl, inr, sym, ap, ◌∙◌,
}
use flow_dpi.Queue.{BoundedQueue, new_queue, push, pop_front, pop, close, size}
use flow_dpi.Queue.Traces.{
  Event, pushed, push_failed, popped, drained, closing, Step, push_step, fail_step, pop_step,
  drained_step, close_step, Run, rest, next, went_in, came_out, push-Pushes, push-room, push-closed,
  push-accepted, pop-ended, push-refused, pop-taken,
}

module _ {ℓ} {A : Type ℓ} where
  -- What one call does: the queue gains what went in at its end and loses what came out at its
  -- front, stays within its capacity, and once closed stays closed and takes nothing in.
  record Keeps (q : BoundedQueue A) (e : List (Event A)) (q' : BoundedQueue A) : Type ℓ where
    order : q.queue ++ went_in e ≡ came_out e ++ q'.queue
    bounded : length q.queue ≤ q.capacity → length q'.queue ≤ q.capacity
    same_capacity : q'.capacity ≡ q.capacity
    shut : q.closed ≡ true → (q'.closed ≡ true) × (went_in e ≡ [])

  idle-Keeps :
      (es : List (Event A)) (q : BoundedQueue A) → went_in es ≡ [] → came_out es ≡ [] → Keeps q es q
  idle-Keeps es q nothing_in nothing_out = record {
    order = rw (nothing_in, nothing_out) (append-nil q.queue);
    bounded = λ h. h;
    same_capacity = refl;
    shut = λ c. (c, nothing_in);
  }

  pushed-Keeps :
      (x : A) (q : BoundedQueue A)
      → length q.queue < q.capacity
      → q.closed ≡ false
      → Keeps q (pushed x ∷ []) (record q { queue = q.queue ++ (x ∷ []) })
  pushed-Keeps x q room still_open = record {
    order = refl;
    bounded = λ h. omega (arith, room, length-append q.queue (x ∷ []));
    same_capacity = refl;
    shut = λ c. absurd (true_ne_false (sym c ∙ still_open));
  }
    where
      true_ne_false : true ≢ false
      true_ne_false e = cc

  popped-Keeps :
      (x : A) (xs : List A) (q : BoundedQueue A)
      → q.queue ≡ x ∷ xs
      → Keeps q (popped x ∷ []) (record q { queue = xs })
  popped-Keeps x xs q front = record {
    order = append-nil q.queue ∙ front;
    bounded = λ h. omega (arith, h, ap length front);
    same_capacity = refl;
    shut = λ c. (c, refl);
  }

  closed-Keeps : (q : BoundedQueue A) → Keeps q (closing ∷ []) (close q)
  unfolding close
  closed-Keeps q = record {
    order = append-nil q.queue;
    bounded = λ h. h;
    same_capacity = refl;
    shut = λ c. (refl, refl);
  }

  Step-Keeps : {q q' : BoundedQueue A} {e : Event A} → Step q e q' → Keeps q (e ∷ []) q'
  Step-Keeps (push_step {q} {q'} x p) = elim (push-Pushes x q (true, q') p) [
    | inl (f, room, still_open) ↦
        subst (λ r. Keeps q (pushed x ∷ []) r.1) (sym f) (pushed-Keeps x q room still_open)
    | inr (_, shut) ↦ absurd (apart (sym shut ∙ (push-accepted q q' x p).1))
  ]
    where
      apart : true ≢ false
      apart e = cc
  Step-Keeps (fail_step {q} {q'} x p) =
      subst (Keeps q (push_failed x ∷ [])) (sym (push-refused q q' x p).0)
        (idle-Keeps (push_failed x ∷ []) q refl refl)
  Step-Keeps (pop_step {q} {q'} x p) =
      let (xs, front, f) = pop-taken q q' x p in
      subst (Keeps q (popped x ∷ [])) (sym f) (popped-Keeps x xs q front)
  Step-Keeps (drained_step {q} {q'} p) =
      subst (Keeps q (drained ∷ [])) (sym (pop-ended q q' p).0)
        (idle-Keeps (drained ∷ []) q refl refl)
  Step-Keeps (close_step {q}) = closed-Keeps q

  went_in-cons :
      (e : Event A) (es : List (Event A)) → went_in (e ∷ es) ≡ went_in (e ∷ []) ++ went_in es
  went_in-cons (pushed x) es = refl
  went_in-cons (push_failed x) es = refl
  went_in-cons (popped x) es = refl
  went_in-cons drained es = refl
  went_in-cons closing es = refl

  came_out-cons :
      (e : Event A) (es : List (Event A)) → came_out (e ∷ es) ≡ came_out (e ∷ []) ++ came_out es
  came_out-cons (pushed x) es = refl
  came_out-cons (push_failed x) es = refl
  came_out-cons (popped x) es = refl
  came_out-cons drained es = refl
  came_out-cons closing es = refl

  then-Keeps :
      {q q' q'' : BoundedQueue A} (e : Event A) (es : List (Event A))
      → Keeps q (e ∷ []) q'
      → Keeps q' es q''
      → Keeps q (e ∷ es) q''
  then-Keeps {q} {q'} {q''} e es first more = record {
    order =
        ap (λ t. q.queue ++ t) (went_in-cons e es)
        ∙ sym (append_assoc q.queue (went_in (e ∷ [])) (went_in es))
        ∙ ap (λ t. t ++ went_in es) first.order
        ∙ append_assoc (came_out (e ∷ [])) q'.queue (went_in es)
        ∙ ap (λ t. came_out (e ∷ []) ++ t) more.order
        ∙ sym (append_assoc (came_out (e ∷ [])) (came_out es) q''.queue)
        ∙ ap (λ t. t ++ q''.queue) (sym (came_out-cons e es));
    bounded = λ h. omega (
      arith,
      more.bounded (omega (arith, first.bounded h, first.same_capacity)),
      first.same_capacity,
    );
    same_capacity = more.same_capacity ∙ first.same_capacity;
    shut = λ c.
        let (c', none_first) = first.shut c in
        let (c'', none_more) = more.shut c' in
        (c'', went_in-cons e es ∙ rw (none_first, none_more) refl);
  }

  Run-Keeps : {q q' : BoundedQueue A} {es : List (Event A)} → Run q es q' → Keeps q es q'
  Run-Keeps (rest {q}) = idle-Keeps [] q refl refl
  Run-Keeps (next {e} {es} step run) = then-Keeps e es (Step-Keeps step) (Run-Keeps run)

  -- Whatever the calls and their order, from a new queue: what went in is what came out, in the
  -- same order, followed by what the queue still holds, which is at most its capacity.
  pub Run-first_in_first_out :
      (capacity : ℕ) (es : List (Event A)) (q : BoundedQueue A)
      → Run (new_queue capacity) es q
      → (went_in es ≡ came_out es ++ q.queue) × (size q ≤ capacity)
  Run-first_in_first_out capacity es q run =
      let facts = Run-Keeps run in (facts.order, facts.bounded (omega arith))

  -- When `pop` returns false, everything that went in has come out, and nothing goes in any more.
  pub pop-drained :
      (capacity : ℕ) (es later : List (Event A)) (q q' q'' : BoundedQueue A)
      → Run (new_queue capacity) es q
      → pop q ≡ some (none, q')
      → Run q' later q''
      → (went_in es ≡ came_out es) × (went_in later ≡ [])
  pop-drained capacity es later q q' q'' run ended more =
      let (f, empty, shut) = pop-ended q q' ended in
      (
        (Run-Keeps run).order ∙ rw empty (append-nil (came_out es)),
        ((Run-Keeps more).shut (ap (λ (r : BoundedQueue A). r.closed) f ∙ shut)).1,
      )

  pub pop-waits : (q : BoundedQueue A) → pop q ≡ none → (q.queue ≡ []) × (q.closed ≡ false)
  unfolding pop pop_front
  pop-waits q e = by_front q.queue refl e
    where
      by_front :
          (xs : List A) → q.queue ≡ xs → pop_front xs q ≡ none → (q.queue ≡ []) × (q.closed ≡ false)
      by_front [] empty f = elim (Bool-cases q.closed) [
        | inl shut ↦ absurd (none-ne_some {a = (none, q)} (sym f ∙ simp shut))
        | inr still_open ↦ (empty, still_open)
      ]
      by_front (x ∷ xs) front f = absurd (none-ne_some (sym f))

  -- A queue that can hold an item never makes a push and a pop wait at once, and a queue that is
  -- closed makes neither wait.
  push-pop_waits :
      (q : BoundedQueue A) (x : A)
      → 0 < q.capacity
      → ((push x q ≡ none) → pop q ≢ none) × (q.closed ≡ true → (push x q ≢ none) × (pop q ≢ none))
  push-pop_waits q x room = (
    λ full waits.
        let (empty, still_open) = pop-waits q waits in
        none-ne_some
          (sym full ∙ push-room x q (lt→ltb _ _ (omega (arith, room, ap length empty))) still_open),
    λ shut. (
      λ waits. none-ne_some (sym waits ∙ push-closed x q shut),
      λ waits. apart (sym shut ∙ (pop-waits q waits).1),
    ),
  )
    where
      apart : true ≢ false
      apart e = cc
