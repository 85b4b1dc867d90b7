-- ===== src/Concurrent/Threads/Measure.antt =====
-- The threads come to an end: each step of any of them uses up some of a bounded amount of work.
use flow_dpi.Prelude.{
  ℕ, zero, suc, ◌+◌, ◌-◌, ◌*◌, ◌<◌, ◌≤◌, ◌≡◌, refl, ap, ◌∙◌, List, [], ◌∷◌, length, length-append,
  false, ◌==◌, ne→==, Bool-cases, inl, inr, ==_iff, arith,
}
use flow_dpi.Prelude.Family.{update, update_same, update_other}
use flow_dpi.Types.{FiveTuple}
use flow_dpi.Rules.{BlockRules}
use flow_dpi.Queue.{BoundedQueue, close}
use flow_dpi.Queue.Traces.{push-accepted, push-refused, pop-taken, pop-ended}
use flow_dpi.Concurrent.{WorkItem}
use flow_dpi.Concurrent.Threads.{
  Phase, routing, closing, Activity, popping, holding, ended, Worker, System, target, new_worker,
  start, Step, route, break_off, finish, close_next, take, process, end, Run, stay, then,
}

-- What an activity, a worker and a number of workers still have to do, in steps.
abbrev activity_work : Activity → ℕ
activity_work popping = 1
activity_work (holding item) = 2
activity_work ended = 0

abbrev worker_work : Worker → ℕ
worker_work w = 2 * length w.inbox.queue + activity_work w.activity

abbrev workers_work : (ℕ → Worker) → ℕ → ℕ
workers_work workers zero = 0
workers_work workers (suc n) = worker_work (workers n) + workers_work workers n

abbrev phase_work : ℕ → Phase → ℕ
phase_work n routing = suc n
phase_work n (closing k) = n - k

abbrev pub system_work : ℕ → System → ℕ
system_work n s = 3 * length s.pending + phase_work n s.phase + workers_work s.workers n

workers_work-outside :
    (workers : ℕ → Worker) (i : ℕ) (w : Worker) (n : ℕ)
    → n ≤ i
    → workers_work (update workers i w) n ≡ workers_work workers n
workers_work-outside workers i w zero le = refl
workers_work-outside workers i w (suc n) le =
    let rest = workers_work-outside workers i w n (omega arith) in
    let same = ap worker_work (update_other workers i n w (ne→== n i (omega arith))) in
    omega (arith, rest, same)

workers_work-update :
    (workers : ℕ → Worker) (i : ℕ) (w : Worker) (n : ℕ)
    → i < n
    → workers_work (update workers i w) n + worker_work (workers i)
      ≡ workers_work workers n + worker_work w
workers_work-update workers i w zero lt = absurd (omega arith)
workers_work-update workers i w (suc n) lt = elim (Bool-cases (n == i)) [
  | inl here ↦
      let same : n ≡ i = (==_iff n i).0 here in
      let new =
        ap (λ j. worker_work (update workers i w j)) same
        ∙ ap worker_work (update_same workers i w) in
      let old = ap (λ j. worker_work (workers j)) same in
      omega (arith, new, old, workers_work-outside workers i w n (omega (arith, same)))
  | inr other ↦
      let kept = ap worker_work (update_other workers i n w other) in
      omega (arith, kept, workers_work-update workers i w n (below other))
]
  where
    below : (n == i) ≡ false → i < n
    below other = ground arith

module _ (hash : FiveTuple → ℕ) (n : ℕ) where
  target-lt : 0 < n → (item : WorkItem) → target hash n item < n
  target-lt some_worker item = grind arith

  -- A step that replaces worker `i` changes the work by what it changes the worker's.
  replaced :
      (s : System) (i : ℕ) (w : Worker) (pending : List WorkItem) (p : Phase)
      → i < n
      → 3 * length pending + phase_work n p + worker_work w
        < 3 * length s.pending + phase_work n s.phase + worker_work (s.workers i)
      → system_work n (record { pending = pending; phase = p; workers = update s.workers i w })
        < system_work n s
  replaced s i w pending p lt less = omega (arith, less, workers_work-update s.workers i w n lt)

  pub Step-lt : {s s' : System} → 0 < n → Step hash n s s' → system_work n s' < system_work n s
  unfolding close
  Step-lt some_worker (route {s} item rest q ph pend p) =
      let t = target hash n item in
      let more = ap (λ (b : BoundedQueue WorkItem). length b.queue) (push-accepted _ q item p).0 in
      replaced s t (record (s.workers t) { inbox = q }) rest s.phase (target-lt some_worker item)
        (omega (arith, ap length pend, more, length-append (s.workers t).inbox.queue (item ∷ [])))
  Step-lt some_worker (break_off {s} item rest q ph pend p) =
      let t = target hash n item in
      let same = ap (λ (b : BoundedQueue WorkItem). length b.queue) (push-refused _ q item p).0 in
      replaced s t (record (s.workers t) { inbox = q }) rest (closing 0)
        (target-lt some_worker item) (omega (arith, ap length pend, same, ap (phase_work n) ph))
  Step-lt some_worker (finish {s} ph pend) = omega (arith, ap (phase_work n) ph)
  Step-lt some_worker (close_next {s} k ph lt) =
      replaced s k (record (s.workers k) { inbox = close (s.workers k).inbox }) s.pending
        (closing (suc k)) lt (omega (arith, lt, ap (phase_work n) ph))
  Step-lt some_worker (take {s} i item q lt idle p) =
      let (items, front, e) = pop-taken (s.workers i).inbox q item p in
      let fewer = ap (λ (b : BoundedQueue WorkItem). length b.queue) e in
      replaced s i (record (s.workers i) { inbox = q; activity = holding item }) s.pending s.phase
        lt (omega (arith, ap length front, fewer, ap activity_work idle))
  Step-lt some_worker (process {s} i item engine lt busy e) =
      replaced s i (record (s.workers i) { engine = engine; activity = popping }) s.pending s.phase
        lt (omega (arith, ap activity_work busy))
  Step-lt some_worker (end {s} i q lt idle p) =
      let same =
        ap (λ (b : BoundedQueue WorkItem). length b.queue) (pop-ended (s.workers i).inbox q p).0 in
      replaced s i (record (s.workers i) { inbox = q; activity = ended }) s.pending s.phase lt
        (omega (arith, same, ap activity_work idle))

  pub Run-le :
      {s s' : System} {steps : ℕ}
      → 0 < n
      → Run hash n s steps s'
      → steps + system_work n s' ≤ system_work n s
  Run-le some_worker stay = omega arith
  Run-le some_worker (then run step) =
      omega (arith, Run-le some_worker run, Step-lt some_worker step)

new_workers_work :
    (rules : BlockRules) (queue_capacity n : ℕ)
    → workers_work (λ i. new_worker rules queue_capacity) n ≡ n
unfolding new_worker
new_workers_work rules queue_capacity zero = refl
new_workers_work rules queue_capacity (suc n) =
    omega (arith, new_workers_work rules queue_capacity n)

pub start_work :
    (rules : BlockRules) (queue_capacity n : ℕ) (items : List WorkItem)
    → system_work n (start rules queue_capacity items) ≡ 3 * length items + (2 * n + 1)
unfolding start
start_work rules queue_capacity n items = omega (arith, new_workers_work rules queue_capacity n)
