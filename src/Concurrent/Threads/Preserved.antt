-- ===== src/Concurrent/Threads/Preserved.antt =====
-- Every step of every thread keeps the workers on course.
use flow_dpi.Prelude.{
  ℕ, suc, ◌<◌, ◌≡◌, ◌≢◌, refl, sym, ap, ◌∙◌, subst, List, [], ◌∷◌, ◌++◌, true, false, some, ◌==◌,
  ==_swap, arith,
}
use flow_dpi.Prelude.Family.{update, update_at}
use flow_dpi.Types.{FiveTuple}
use flow_dpi.Rules.{BlockRules}
use flow_dpi.Queue.{BoundedQueue, close}
use flow_dpi.Queue.Traces.{close-closed, push-accepted, push-refused, pop-taken, pop-ended}
use flow_dpi.Engine.State.{new_engine}
use flow_dpi.Concurrent.{WorkItem, process_items, routed}
use flow_dpi.Concurrent.Agreement.{at_least_one-pos}
use flow_dpi.Concurrent.Gather.{Workers}
use flow_dpi.Concurrent.Threads.{
  routing, closing, holding, ended, Worker, System, target, new_worker, start, Step, route,
  break_off, finish, close_next, take, process, end, Run, stay, then,
}
use flow_dpi.Concurrent.Threads.Invariant.{
  IsInPhase, IsInPhase-update, IsOnCourse, IsSound, take-IsOnCourse, process-IsOnCourse,
  end-IsOnCourse, close-IsOnCourse, route-IsOnCourse, pass-IsOnCourse,
}

module _ (hash : FiveTuple → ℕ) (n : ℕ) (final : Workers) where
  -- A step of one worker.
  worker-IsSound :
      (s : System) (j : ℕ) (w : Worker)
      → IsOnCourse hash n final j w s.pending
      → w.inbox.closed ≡ (s.workers j).inbox.closed
      → IsSound hash n final s
      → IsSound hash n final (record s { workers = update s.workers j w })
  worker-IsSound s j w c same sound = record {
    courses =
        update_at (λ i v. IsOnCourse hash n final i v s.pending) s.workers j w c
          (λ i other. sound.courses i);
    phased = IsInPhase-update s.phase s j w same sound.phased;
  }

  module _ (s : System) (sound : IsSound hash n final s) where
    route-IsSound :
        (item : WorkItem) (rest : List WorkItem) (q : BoundedQueue WorkItem)
        → s.phase ≡ routing
        → s.pending ≡ item ∷ rest
        → q ≡ record ((s.workers (target hash n item)).inbox) {
          queue = (s.workers (target hash n item)).inbox.queue ++ (item ∷ []);
        }
        → IsSound hash n final (record s {
          pending = rest;
          workers =
              update s.workers
                (target hash n item)
                (record (s.workers (target hash n item)) { inbox = q });
        })
    route-IsSound item rest q ph pend e = record {
      courses =
          update_at (λ i v. IsOnCourse hash n final i v rest) s.workers t w
            (subst (λ b. IsOnCourse hash n final t (record (s.workers t) { inbox = b }) rest)
              (sym e)
              (route-IsOnCourse hash n final t (s.workers t) item rest (course t) refl
                (all_open t)))
            (λ i other.
              pass-IsOnCourse hash n final i (s.workers i) item rest (course i)
                (==_swap i t other));
      phased =
          subst (λ p. IsInPhase p (record s { pending = rest; workers = update s.workers t w }))
            (sym ph)
            (IsInPhase-update routing s t w (ap (λ (b : BoundedQueue WorkItem). b.closed) e)
              all_open);
    }
      where
        t : ℕ
        t = target hash n item

        w : Worker
        w = record (s.workers t) { inbox = q }

        course : (i : ℕ) → IsOnCourse hash n final i (s.workers i) (item ∷ rest)
        course i = subst (IsOnCourse hash n final i (s.workers i)) pend (sound.courses i)

        all_open : IsInPhase routing s
        all_open = subst (λ p. IsInPhase p s) ph sound.phased

    -- While the load balancer routes, no queue is closed.
    pub no_break : (i : ℕ) → s.phase ≡ routing → (s.workers i).inbox.closed ≢ true
    no_break i ph shut = apart (sym shut ∙ subst (λ p. IsInPhase p s) ph sound.phased i)
      where
        apart : true ≢ false
        apart e = cc

    finish-IsSound : s.pending ≡ [] → IsSound hash n final (record s { phase = closing 0 })
    finish-IsSound pend = record {
      courses = sound.courses;
      phased = (pend, λ i lt. absurd (omega arith));
    }

    close_next-IsSound :
        (k : ℕ)
        → s.phase ≡ closing k
        → IsSound hash n final (record s {
          phase = closing (suc k);
          workers = update s.workers k (record (s.workers k) { inbox = close (s.workers k).inbox });
        })
    close_next-IsSound k ph = record {
      courses =
          update_at (λ i v. IsOnCourse hash n final i v s.pending) s.workers k _
            (close-IsOnCourse hash n final k (s.workers k) s.pending (sound.courses k))
            (λ i other. sound.courses i);
      phased = (
        before.0,
        update_at (λ i v. i < suc k → v.inbox.closed ≡ true) s.workers k _ (λ lt. now_closed)
            (λ i other lt. before.1 i (below i other lt)),
      );
    }
      where
        before : IsInPhase (closing k) s
        before = subst (λ p. IsInPhase p s) ph sound.phased

        now_closed : (close (s.workers k).inbox).closed ≡ true
        now_closed = close-closed (s.workers k).inbox

        below : (i : ℕ) → (i == k) ≡ false → i < suc k → i < k
        below i other lt = ground arith

  pub Step-IsSound :
      {s s' : System} → Step hash n s s' → IsSound hash n final s → IsSound hash n final s'
  Step-IsSound (route {s} item rest q ph pend p) sound =
      route-IsSound s sound item rest q ph pend (push-accepted _ q item p).0
  Step-IsSound (break_off {s} item rest q ph pend p) sound =
      absurd (no_break s sound _ ph (push-refused _ q item p).1)
  Step-IsSound (finish {s} ph pend) sound = finish-IsSound s sound pend
  Step-IsSound (close_next {s} k ph lt) sound = close_next-IsSound s sound k ph
  Step-IsSound (take {s} i item q lt idle p) sound =
      let (items, front, e) = pop-taken (s.workers i).inbox q item p in
      subst
        (λ b. IsSound hash n final (record s {
          workers =
              update s.workers i (record (s.workers i) { inbox = b; activity = holding item });
        }))
        (sym e)
        (worker-IsSound s i _
          (take-IsOnCourse hash n final i (s.workers i) s.pending (sound.courses i) item items idle
            front)
          refl sound)
  Step-IsSound (process {s} i item engine lt busy e) sound =
      worker-IsSound s i _
        (process-IsOnCourse hash n final i (s.workers i) s.pending (sound.courses i) item engine
          busy e)
        refl sound
  Step-IsSound (end {s} i q lt idle p) sound =
      let (e, empty, shut) = pop-ended (s.workers i).inbox q p in
      subst
        (λ b. IsSound hash n final (record s {
          workers = update s.workers i (record (s.workers i) { inbox = b; activity = ended });
        }))
        (sym e)
        (worker-IsSound s i _
          (end-IsOnCourse hash n final i (s.workers i) s.pending (sound.courses i) idle empty shut)
          refl sound)

  pub Run-IsSound :
      {s s' : System} {steps : ℕ}
      → Run hash n s steps s'
      → IsSound hash n final s
      → IsSound hash n final s'
  Run-IsSound stay sound = sound
  Run-IsSound (then run step) sound = Step-IsSound step (Run-IsSound run sound)

  pub start-IsSound :
      (rules : BlockRules) (queue_capacity : ℕ) (items : List WorkItem)
      → ((i : ℕ) → process_items (new_engine rules) (routed hash n i items) ≡ some (final i))
      → IsSound hash n final (start rules queue_capacity items)
  unfolding start new_worker
  start-IsSound rules queue_capacity items done = record {
    courses = λ i. record { work = done i; over = tt; room = at_least_one-pos queue_capacity };
    phased = λ i. refl;
  }
