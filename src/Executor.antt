-- ===== src/Executor.antt =====
-- task/mod.rs and task/executor.rs: the executor of cooperative tasks.
pub mod Laws
pub mod Tests
use velora_os.Base.{
  ℕ, zero, suc, ◌+◌, ◌^◌, ◌%◌, Bool, true, false, List, [], ◌∷◌, ◌++◌, Option, none, some, Outcome,
  ok, panic, stuck, ◌>>=◌, ◌>>◌, assert, expect, ◌==◌, ◌≡◌, ◌<◌, ◌↔◌, length, if◌then◌else◌,
}

abbrev pub max_queued_tasks : ℕ
max_queued_tasks = 128

-- `TaskId`
abbrev pub TaskId : Type 0
TaskId = ℕ

-- `TaskId::new` with the counter behind it, an atomic `u64`: the id, and the counter after it.
unfoldable pub new_id : ℕ → TaskId × ℕ
new_id next = (next, (next + 1) % 2 ^ 64)

-- What is used of crossbeam's `ArrayQueue`, as its documentation gives it: a first-in first-out queue
-- of a fixed capacity, whose `push` gives the value back where the queue is full.
pub record ArrayQueue : Type 1 where
  pub Queue : Type 0
  pub new : ℕ → Queue
  pub push : TaskId → Queue → Option Queue
  pub pop : Queue → Option (TaskId × Queue)
  pub capacity : Queue → ℕ
  pub is_empty : Queue → Bool
  pub contents : Queue → List TaskId
  pub new-contents : (n : ℕ) → (contents (new n) ≡ []) × (capacity (new n) ≡ n)
  pub push-room :
      (id : TaskId) (q : Queue)
      → length (contents q) < capacity q
      → (q' : Queue) × (push id q ≡ some q')
        × (contents q' ≡ contents q ++ (id ∷ []))
        × (capacity q' ≡ capacity q)
  pub push-full : (id : TaskId) (q : Queue) → length (contents q) ≡ capacity q → push id q ≡ none
  pub is_empty-contents : (q : Queue) → (is_empty q ≡ true) ↔ (contents q ≡ [])
  pub pop-empty : (q : Queue) → contents q ≡ [] → pop q ≡ none
  pub pop-first :
      (id : TaskId) (ids : List TaskId) (q : Queue)
      → contents q ≡ id ∷ ids
      → (q' : Queue) × (pop q ≡ some (id, q')) × (contents q' ≡ ids) × (capacity q' ≡ capacity q)

-- What one poll of a future gives: the future to poll again, unless it is ready, and the tasks that are
-- woken while it runs.
pub record Polled (Future : Type 0) : Type 0 where
  pub pending : Option Future
  pub woken : List TaskId

-- A map is a function to the value of a key.
abbrev pub put {ℓ} : {A : Type ℓ} → (TaskId → A) → TaskId → A → TaskId → A
put m id v j = if j == id then v else m j

module _ (A : ArrayQueue) (Future : Type 0) (poll : Future → Polled Future) where
  -- `waker_cache` by the keys that it holds.
  pub record Executor : Type 0 where
    pub tasks : TaskId → Option Future
    pub task_queue : A.Queue
    pub waker_cache : TaskId → Bool

  unfoldable pub new : Executor
  new = record {
    tasks = λ id. none;
    task_queue = A.new max_queued_tasks;
    waker_cache = λ id. false;
  }

  unfoldable pub spawn : TaskId → Future → Executor → Outcome Executor
  spawn task_id future e = do
    assert (vacant (e.tasks task_id))
    q ← expect (A.push task_id e.task_queue)
    ok (record e { tasks = put e.tasks task_id (some future); task_queue = q })
    where
      vacant : Option Future → Bool
      vacant none = true
      vacant (some f) = false

  -- `wake_task`: a wakeup that finds the queue full is dropped.
  unfoldable pub wake_task : TaskId → A.Queue → A.Queue
  wake_task id q = elim (A.push id q) [ none ↦ q | some q' ↦ q' ]

  unfoldable pub wake_all : List TaskId → A.Queue → A.Queue
  unfolding wake_task
  wake_all [] q = q
  wake_all (id ∷ ids) q = wake_all ids (wake_task id q)

  -- The body of the loop for a task that is there.
  unfoldable pub poll_task : TaskId → Future → Executor → Executor
  unfolding wake_all
  poll_task id future e =
      let polled = poll future in
      let q = wake_all polled.woken e.task_queue in
      elim polled.pending [
        | none ↦ record {
          tasks = put e.tasks id none;
          task_queue = q;
          waker_cache = put (put e.waker_cache id true) id false;
        }
        | some future' ↦ record {
          tasks = put e.tasks id (some future');
          task_queue = q;
          waker_cache = put e.waker_cache id true;
        }
      ]

  unfoldable pub visit : TaskId → Executor → Executor
  unfolding poll_task
  visit id e = elim (e.tasks id) [ none ↦ e | some future ↦ poll_task id future e ]

  -- `while let Some(task_id) = task_queue.pop()`, on fuel.
  unfoldable pub run_ready_tasks : ℕ → Executor → Outcome Executor
  unfolding visit
  run_ready_tasks zero e = stuck
  run_ready_tasks (suc fuel) e = elim (A.pop e.task_queue) [
    | none ↦ ok e
    | some (id, q) ↦ run_ready_tasks fuel (visit id (record e { task_queue = q }))
  ]
