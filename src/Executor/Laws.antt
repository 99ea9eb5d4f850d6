-- ===== src/Executor/Laws.antt =====
-- `run_ready_tasks` ends, and polls each task once for each time that it was queued.
use velora_os.Base.{
  ℕ, zero, suc, ◌<◌, ◌≡◌, refl, sym, ap, ◌∙◌, inl, inr, List, [], ◌∷◌, Option, none, some, ok,
  arith, ◌==◌, ==_iff, Bool-cases, Option-cases, length, count, if◌then◌else◌,
}
use velora_os.Executor.{
  TaskId, ArrayQueue, Polled, Executor, put, wake_all, poll_task, visit, run_ready_tasks,
}

module _ (A : ArrayQueue) (Future : Type 0) (poll : Future → Polled Future) where
  -- A task after that many polls; a task that is ready is gone.
  pub polls : ℕ → Option Future → Option Future
  polls zero o = o
  polls (suc n) none = none
  polls (suc n) (some f) = polls n (poll f).pending

  polls-none : (n : ℕ) → polls n none ≡ none
  unfolding polls
  polls-none zero = refl
  polls-none (suc n) = refl

  polls-suc : (n : ℕ) (o : Option Future) → polls n (polls 1 o) ≡ polls (suc n) o
  unfolding polls
  polls-suc n none = polls-none n
  polls-suc n (some f) = refl

  -- No task is woken while a future is polled.
  abbrev pub Quiet : Type 0
  Quiet = (f : Future) → (poll f).woken ≡ []

  module _ (quiet : Quiet) where
    -- A visit polls its task and no other, and leaves the queue.
    abbrev Visited : TaskId → Executor A Future poll → Executor A Future poll → Type 0
    Visited id e e' =
        ((j : TaskId) → e'.tasks j ≡ (if j == id then polls 1 (e.tasks j) else e.tasks j))
        × (e'.task_queue ≡ e.task_queue)

    same_task : (id j : TaskId) (o : Option Future) → (if j == id then o else o) ≡ o
    same_task id j o = ground arith

    unvisited :
        (id : TaskId) (e : Executor A Future poll)
        → e.tasks id ≡ none
        → (j : TaskId) → e.tasks j ≡ (if j == id then polls 1 (e.tasks j) else e.tasks j)
    unvisited id e gone j = elim (Bool-cases (j == id)) [
      | inl h ↦
          let here : e.tasks j ≡ none = ap e.tasks ((==_iff j id).0 h) ∙ gone in
          rw h (here ∙ sym (ap (polls 1) here ∙ polls-none 1))
      | inr h ↦ rw h refl
    ]

    put_polled :
        (id : TaskId) (e : Executor A Future poll) (f : Future) (o : Option Future)
        → e.tasks id ≡ some f
        → (poll f).pending ≡ o
        → (j : TaskId) → put e.tasks id o j ≡ (if j == id then polls 1 (e.tasks j) else e.tasks j)
    unfolding polls
    put_polled id e f o there result j = elim (Bool-cases (j == id)) [
      | inl h ↦
          let here : e.tasks j ≡ some f = ap e.tasks ((==_iff j id).0 h) ∙ there in
          rw h (sym (ap (polls 1) here ∙ result))
      | inr h ↦ rw h refl
    ]

    poll_task-Visited :
        (id : TaskId) (f : Future) (e : Executor A Future poll)
        → e.tasks id ≡ some f
        → Visited id e (poll_task A Future poll id f e)
    unfolding poll_task wake_all
    poll_task-Visited id f e there = elim (Option-cases (poll f).pending) [
      | inl r ↦ rw (r, quiet f, poll_task) (put_polled id e f none there r, refl)
      | inr (g, r) ↦ rw (r, quiet f, poll_task) (put_polled id e f (some g) there r, refl)
    ]

    visit-Visited :
        (id : TaskId) (e : Executor A Future poll) → Visited id e (visit A Future poll id e)
    unfolding visit
    visit-Visited id e = elim (Option-cases (e.tasks id)) [
      | inl r ↦ rw (r, visit) (unvisited id e r, refl)
      | inr (f, r) ↦ rw (r, visit) (poll_task-Visited id f e r)
    ]

    -- One visit and the polls after it.
    polls-visit :
        (id j : TaskId) (ids : List TaskId) (e : Executor A Future poll)
        → polls (count j ids) ((visit A Future poll id e).tasks j)
          ≡ polls (count j (id ∷ ids)) (e.tasks j)
    polls-visit id j ids e = elim (Bool-cases (j == id)) [
      | inl h ↦
          ap (polls (count j ids)) ((visit-Visited id e).0 j ∙ rw h refl)
          ∙ polls-suc (count j ids) (e.tasks j)
          ∙ ap (λ n. polls n (e.tasks j)) {y = count j (id ∷ ids)} (ground arith)
      | inr h ↦
          ap (polls (count j ids)) ((visit-Visited id e).0 j ∙ rw h refl)
          ∙ ap (λ n. polls n (e.tasks j)) {y = count j (id ∷ ids)} (ground arith)
    ]

    run-polls :
        (ids : List TaskId) (fuel : ℕ) (e : Executor A Future poll)
        → A.contents e.task_queue ≡ ids
        → length ids < fuel
        → (e' : Executor A Future poll) × (run_ready_tasks A Future poll fuel e ≡ ok e')
          × (A.contents e'.task_queue ≡ [])
          × ((j : TaskId) → e'.tasks j ≡ polls (count j ids) (e.tasks j))
    unfolding run_ready_tasks polls
    run-polls ids zero e c lt = absurd (omega (arith, lt))
    run-polls [] (suc fuel) e c lt =
        (e, rw (A.pop-empty e.task_queue c, run_ready_tasks) refl, c, λ j. refl)
    run-polls (id ∷ ids) (suc fuel) e c lt =
        let (q, popped, c', cap) = A.pop-first id ids e.task_queue c in
        let e1 : Executor A Future poll = record e { task_queue = q } in
        let (e', run, empty, each) =
          run-polls ids fuel (visit A Future poll id e1)
            (ap A.contents (visit-Visited id e1).1 ∙ c') (omega (arith, lt)) in
        (e', rw (popped, run_ready_tasks) run, empty, λ j. each j ∙ polls-visit id j ids e1)

    -- Where polling a future wakes no task, `run_ready_tasks` returns after one round for each queued
    -- wakeup and one more, with an empty queue; each task has been polled once for each time that it
    -- stood in the queue, or until it was ready, and a task that was ready is gone.
    pub run_ready_tasks-polls :
        (fuel : ℕ) (e : Executor A Future poll)
        → length (A.contents e.task_queue) < fuel
        → (e' : Executor A Future poll) × (run_ready_tasks A Future poll fuel e ≡ ok e')
          × (A.contents e'.task_queue ≡ [])
          × ((j : TaskId) → e'.tasks j ≡ polls (count j (A.contents e.task_queue)) (e.tasks j))
    run_ready_tasks-polls fuel e lt = run-polls (A.contents e.task_queue) fuel e refl lt
