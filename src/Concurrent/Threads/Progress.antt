-- ===== src/Concurrent/Threads/Progress.antt =====
-- The threads never wait for each other: some thread can go on until all are joined.
use flow_dpi.Prelude.{
  ℕ, zero, suc, ◌<◌, ◌≤◌, ◌≡◌, ◌≢◌, ◌⊎◌, inl, inr, refl, sym, ap, ◌∙◌, subst, List, [], ◌∷◌, ◌++◌,
  length, true, false, some, none-ne_some, ltb, ltb→lt, ltb_false→le, Bool-cases, Option-cases,
  arith,
}
use flow_dpi.Prelude.Fallible.{◌>>=◌}
use flow_dpi.Types.{FiveTuple}
use flow_dpi.Queue.Traces.{push-room, pop-cons, pop-empty}
use flow_dpi.Engine.{process_parsed_packet}
use flow_dpi.Engine.State.{DpiEngine}
use flow_dpi.Concurrent.{WorkItem, process_items, routed}
use flow_dpi.Concurrent.Gather.{Workers}
use flow_dpi.Concurrent.Threads.{
  Phase, routing, closing, Activity, popping, holding, ended, Worker, System, target, Step, route,
  finish, close_next, take, process, end, IsJoined,
}
use flow_dpi.Concurrent.Threads.Invariant.{IsInPhase, IsOver, IsSound, in_hand}

-- A worker that comes through its items comes through the first.
process_items-first :
    (engine last : DpiEngine) (item : WorkItem) (rest : List WorkItem)
    → process_items engine (item ∷ rest) ≡ some last
    → (engine' : DpiEngine) × (process_parsed_packet engine item.raw.bytes item.parsed item.elapsed
        ≡ some engine')
unfolding process_items ◌>>=◌
process_items-first engine last item rest e =
    elim (Option-cases (process_parsed_packet engine item.raw.bytes item.parsed item.elapsed)) [
      | inl fails ↦ absurd (none-ne_some (sym (rw fails refl) ∙ e))
      | inr found ↦ found
    ]

module _ (hash : FiveTuple → ℕ) (n : ℕ) (final : Workers) (s : System)
    (sound : IsSound hash n final s) where
  abbrev Moves : Type 0
  Moves = (s' : System) × Step hash n s s'

  -- A worker moves, or it has ended, or its queue is empty and open.
  worker_moves :
      (i : ℕ)
      → i < n
      → Moves
        ⊎ (((s.workers i).activity ≡ ended)
            ⊎ (((s.workers i).inbox.queue ≡ []) × ((s.workers i).inbox.closed ≡ false)))
  worker_moves i lt = by_activity (s.workers i).activity refl
    where
      w : Worker
      w = s.workers i

      by_queue :
          (items : List WorkItem)
          → w.activity ≡ popping
          → w.inbox.queue ≡ items
          → Moves ⊎ ((w.activity ≡ ended) ⊎ ((w.inbox.queue ≡ []) × (w.inbox.closed ≡ false)))
      by_queue (item ∷ items) idle front =
          inl (_, take i item _ lt idle (pop-cons item items w.inbox front))
      by_queue [] idle empty = elim (Bool-cases w.inbox.closed) [
        | inl shut ↦ inl (_, end i _ lt idle (pop-empty w.inbox empty shut))
        | inr still_open ↦ inr (inr (empty, still_open))
      ]

      by_activity :
          (a : Activity)
          → w.activity ≡ a
          → Moves ⊎ ((w.activity ≡ ended) ⊎ ((w.inbox.queue ≡ []) × (w.inbox.closed ≡ false)))
      by_activity popping idle = by_queue w.inbox.queue idle refl
      by_activity ended over = inr (inl over)
      by_activity (holding item) busy =
          let (engine, e) =
            process_items-first w.engine (final i) item (w.inbox.queue ++ routed hash n i s.pending)
              (ap
                  (λ a.
                    process_items w.engine
                      (in_hand a ++ (w.inbox.queue ++ routed hash n i s.pending)))
                  (sym busy)
                ∙ (sound.courses i).work) in
          inl (_, process i item engine lt busy e)

  -- The load balancer routes the next item, or the queue is full and its worker moves.
  router_moves :
      0 < n
      → (item : WorkItem) (rest : List WorkItem) → s.phase ≡ routing
      → s.pending ≡ item ∷ rest
      → Moves
  router_moves some_worker item rest ph pend =
      elim (Bool-cases (ltb (length w.inbox.queue) w.inbox.capacity)) [
        | inl room ↦ (_, route item rest _ ph pend (push-room item w.inbox room still_open))
        | inr full ↦ elim (worker_moves t below) [
          | inl moves ↦ moves
          | inr (inl over) ↦ absurd (
              apart
                (sym (subst (λ a. IsOver a w.inbox) over (sound.courses t).over).1 ∙ still_open))
          | inr (inr (empty, _)) ↦
              absurd (nonempty (ap length empty) (ltb_false→le _ _ full) (sound.courses t).room)
        ]
      ]
    where
      t : ℕ
      t = target hash n item

      w : Worker
      w = s.workers t

      below : t < n
      below = grind arith

      still_open : w.inbox.closed ≡ false
      still_open = subst (λ p. IsInPhase p s) ph sound.phased t

      apart : true ≢ false
      apart e = cc

      nonempty : {l c : ℕ} → l ≡ 0 → c ≤ l → 0 < c → ⊥
      nonempty a b c = omega arith

  -- With all queues closed, every worker has ended or some worker moves.
  workers_move :
      (k m : ℕ)
      → ((i : ℕ) → i < k → (s.workers i).inbox.closed ≡ true)
      → n ≤ k
      → m ≤ n
      → Moves ⊎ ((i : ℕ) → i < m → (s.workers i).activity ≡ ended)
  workers_move k zero shut all low = inr (λ i lt. absurd (omega arith))
  workers_move k (suc m) shut all low = elim (workers_move k m shut all (omega arith)) [
    | inl moves ↦ inl moves
    | inr before ↦ elim (worker_moves m (omega arith)) [
      | inl moves ↦ inl moves
      | inr (inl over) ↦ inr (λ i lt. elim (Bool-cases (ltb i m)) [
        | inl less ↦ before i (ltb→lt i m less)
        | inr more ↦
            subst (λ j. (s.workers j).activity ≡ ended) (last i lt (ltb_false→le i m more)) over
      ])
      | inr (inr (_, still_open)) ↦ absurd (apart (sym (shut m (omega arith)) ∙ still_open))
    ]
  ]
    where
      apart : true ≢ false
      apart e = cc

      last : (i : ℕ) → i < suc m → m ≤ i → m ≡ i
      last i lt le = omega arith

  pub IsSound-moves : 0 < n → IsJoined hash n s ⊎ Moves
  IsSound-moves some_worker = by_phase s.phase refl
    where
      by_pending : (items : List WorkItem) → s.phase ≡ routing → s.pending ≡ items → Moves
      by_pending [] ph pend = (_, finish ph pend)
      by_pending (item ∷ rest) ph pend = router_moves some_worker item rest ph pend

      by_phase : (p : Phase) → s.phase ≡ p → IsJoined hash n s ⊎ Moves
      by_phase routing ph = inr (by_pending s.pending ph refl)
      by_phase (closing k) ph = elim (Bool-cases (ltb k n)) [
        | inl more ↦ inr (_, close_next k ph (ltb→lt k n more))
        | inr all ↦
            elim (workers_move k n (subst (λ p. IsInPhase p s) ph sound.phased).1
              (ltb_false→le k n all) (omega arith)) [
                | inl moves ↦ inr moves
                | inr over ↦
                    inl (record { closed_all = (k, ph, ltb_false→le k n all); all_ended = over })
              ]
      ]
