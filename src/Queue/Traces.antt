-- ===== src/Queue/Traces.antt =====
-- The calls of any number of threads, in the order in which they take the mutex.
use flow_dpi.Prelude.{
  ltb, ltb→lt, Bool-cases, inl, inr, sym, ◌∙◌, some_injective, none-ne_some, ◌<◌, ◌≡◌, ◌≢◌, refl,
  ap, subst, List, [], ◌∷◌, ◌++◌, length, Bool, true, false, Option, none, some, ltb, ltb→lt,
  Bool-cases, inl, inr, sym, ◌∙◌, ◌⊎◌,
}
use flow_dpi.Queue.{BoundedQueue, push, pop_front, pop, close}

-- A call that returned: what it was, and what it returned.
pub data Event {ℓ} (A : Type ℓ) : Type ℓ where
  pushed push_failed popped : A → Event A
  drained closing : Event A

module _ {ℓ} {A : Type ℓ} where
  pub data Step : BoundedQueue A → Event A → BoundedQueue A → Type ℓ where
    push_step : {q q' : BoundedQueue A} (x : A) → push x q ≡ some (true, q') → Step q (pushed x) q'
    fail_step :
        {q q' : BoundedQueue A} (x : A) → push x q ≡ some (false, q') → Step q (push_failed x) q'
    pop_step : {q q' : BoundedQueue A} (x : A) → pop q ≡ some (some x, q') → Step q (popped x) q'
    drained_step : {q q' : BoundedQueue A} → pop q ≡ some (none, q') → Step q drained q'
    close_step : {q : BoundedQueue A} → Step q closing (close q)

  pub data Run : BoundedQueue A → List (Event A) → BoundedQueue A → Type ℓ where
    rest : {q : BoundedQueue A} → Run q [] q
    next :
        {q q' q'' : BoundedQueue A} {e : Event A} {es : List (Event A)}
        → Step q e q'
        → Run q' es q''
        → Run q (e ∷ es) q''

  -- The items that went in, and those that came out, in their order.
  abbrev pub went_in : List (Event A) → List A
  went_in [] = []
  went_in (pushed x ∷ es) = x ∷ went_in es
  went_in (push_failed x ∷ es) = went_in es
  went_in (popped x ∷ es) = went_in es
  went_in (drained ∷ es) = went_in es
  went_in (closing ∷ es) = went_in es

  abbrev pub came_out : List (Event A) → List A
  came_out [] = []
  came_out (pushed x ∷ es) = came_out es
  came_out (push_failed x ∷ es) = came_out es
  came_out (popped x ∷ es) = x ∷ came_out es
  came_out (drained ∷ es) = came_out es
  came_out (closing ∷ es) = came_out es

  -- What a push did, read off the queue behind it.
  abbrev pub Pushes : A → BoundedQueue A → Bool × BoundedQueue A → Type ℓ
  Pushes x q r =
      ((r ≡ (true, record q { queue = q.queue ++ (x ∷ []) }))
        × (length q.queue < q.capacity)
        × (q.closed ≡ false))
      ⊎ ((r ≡ (false, q)) × (q.closed ≡ true))

  abbrev pub Pops : BoundedQueue A → Option A × BoundedQueue A → Type ℓ
  Pops q r =
      ((x : A) × (xs : List A) × (q.queue ≡ x ∷ xs) × (r ≡ (some x, record q { queue = xs })))
      ⊎ ((r ≡ (none, q)) × (q.queue ≡ []) × (q.closed ≡ true))

  module _ (x : A) (q : BoundedQueue A) where
    pub push-full : ltb (length q.queue) q.capacity ≡ false → q.closed ≡ false → push x q ≡ none
    unfolding push
    push-full full still_open = simp (full, still_open)

    pub push-room :
        ltb (length q.queue) q.capacity ≡ true
        → q.closed ≡ false
        → push x q ≡ some (true, record q { queue = q.queue ++ (x ∷ []) })
    unfolding push
    push-room room still_open = simp (room, still_open)

    pub push-closed : q.closed ≡ true → push x q ≡ some (false, q)
    unfolding push
    push-closed shut = elim (Bool-cases (ltb (length q.queue) q.capacity)) [
      | inl room ↦ simp (room, shut)
      | inr full ↦ simp (full, shut)
    ]

  pub pop-cons :
      (x : A) (xs : List A) (q : BoundedQueue A)
      → q.queue ≡ x ∷ xs
      → pop q ≡ some (some x, record q { queue = xs })
  unfolding pop pop_front
  pop-cons x xs q front = ap (λ ys. pop_front ys q) front

  pub pop-empty : (q : BoundedQueue A) → q.queue ≡ [] → q.closed ≡ true → pop q ≡ some (none, q)
  unfolding pop pop_front
  pop-empty q empty shut = ap (λ ys. pop_front ys q) empty ∙ simp shut

  pub push-Pushes :
      (x : A) (q : BoundedQueue A) (r : Bool × BoundedQueue A) → push x q ≡ some r → Pushes x q r
  push-Pushes x q r e = elim (Bool-cases q.closed) [
    | inl shut ↦ inr (some_injective (sym e ∙ push-closed x q shut), shut)
    | inr still_open ↦ elim (Bool-cases (ltb (length q.queue) q.capacity)) [
      | inl room ↦
          inl (some_injective (sym e ∙ push-room x q room still_open), ltb→lt _ _ room, still_open)
      | inr full ↦ absurd (none-ne_some (sym (push-full x q full still_open) ∙ e))
    ]
  ]

  pub pop-Pops : (q : BoundedQueue A) (r : Option A × BoundedQueue A) → pop q ≡ some r → Pops q r
  unfolding pop pop_front
  pop-Pops q r e = by_front q.queue refl e
    where
      by_front : (xs : List A) → q.queue ≡ xs → pop_front xs q ≡ some r → Pops q r
      by_front [] empty f = elim (Bool-cases q.closed) [
        | inl shut ↦ inr (some_injective (sym f ∙ simp shut), empty, shut)
        | inr still_open ↦ absurd (none-ne_some (sym (rw still_open refl) ∙ f))
      ]
      by_front (x ∷ xs) front f = inl (x, xs, front, sym (some_injective f))

  pub close-closed : (q : BoundedQueue A) → (close q).closed ≡ true
  unfolding close
  close-closed q = refl

  -- What each answer of a call says of the queue before and behind it.
  module _ (q q' : BoundedQueue A) where
    pub push-accepted :
        (x : A)
        → push x q ≡ some (true, q')
        → (q' ≡ record q { queue = q.queue ++ (x ∷ []) }) × (q.closed ≡ false)
    push-accepted x e = elim (push-Pushes x q (true, q') e) [
      | inl (f, _, still_open) ↦ (ap (λ r. r.1) f, still_open)
      | inr (f, _) ↦ absurd (apart (ap (λ r. r.0) f))
    ]
      where
        apart : true ≢ false
        apart e = cc

    pub push-refused : (x : A) → push x q ≡ some (false, q') → (q' ≡ q) × (q.closed ≡ true)
    push-refused x e = elim (push-Pushes x q (false, q') e) [
      | inl (f, _, _) ↦ absurd (apart (ap (λ r. r.0) f))
      | inr (f, shut) ↦ (ap (λ r. r.1) f, shut)
    ]
      where
        apart : false ≢ true
        apart e = cc

    pub pop-taken :
        (x : A)
        → pop q ≡ some (some x, q')
        → (xs : List A) × (q.queue ≡ x ∷ xs) × (q' ≡ record q { queue = xs })
    pop-taken x e = elim (pop-Pops q (some x, q') e) [
      | inl (y, ys, front, f) ↦ (
        ys,
        subst (λ z. q.queue ≡ z ∷ ys) (sym (some_injective (ap (λ r. r.0) f))) front,
        ap (λ r. r.1) f,
      )
      | inr (f, _, _) ↦ absurd (none-ne_some (sym (ap (λ r. r.0) f)))
    ]

    pub pop-ended : pop q ≡ some (none, q') → (q' ≡ q) × (q.queue ≡ []) × (q.closed ≡ true)
    pop-ended e = elim (pop-Pops q (none, q') e) [
      | inl (y, ys, front, f) ↦ absurd (none-ne_some (ap (λ r. r.0) f))
      | inr (f, empty, shut) ↦ (ap (λ r. r.1) f, empty, shut)
    ]
