-- ===== src/Scheduler/Core.antt =====
-- The critical sections of the scheduler: what each operation does to the state behind SCHEDULER
-- while it holds the lock.
use velora_os.Base.{
  ℕ, ◌+◌, ◌^◌, Option, none, some, Outcome, ok, ◌>>=◌, ◌>>◌, assert, expect, ltb, ◌==◌, not, get_or,
  set, position,
}
use velora_os.Scheduler.Queue.{ThreadId, push_back, pop_front}
use velora_os.Scheduler.State.{SchedulerState, Thread, thread_at, is_none}

-- What `schedule` and `exit_current_thread` hand to `context::switch_to`, and to the TSS.
pub record Switch : Type 0 where
  pub new_stack : ℕ
  pub new_page_table : ℕ
  pub new_rsp0 : ℕ

-- `page_table.unwrap_or(kernel_page_table)`
unfoldable pub unwrap_or : Option ℕ → ℕ → ℕ
unwrap_or none d = d
unwrap_or (some p) d = p

unfoldable pub switch_into : SchedulerState → Thread → Switch
unfolding unwrap_or
switch_into s next = record {
  new_stack = next.stack_pointer;
  new_page_table = unwrap_or next.page_table s.kernel_page_table;
  new_rsp0 = next.kernel_stack_top;
}

-- The part of `spawn` and of `spawn_isolated_inner` that fills a free slot. A generation is a `u64`.
unfoldable pub populate : Thread → SchedulerState → Outcome (ThreadId × ℕ × SchedulerState)
unfolding is_none
populate thread s = do
  id ← expect (position is_none s.threads)
  let generation = get_or s.slot_generations id 0 + 1
  assert (ltb generation (2 ^ 64))
  queue ← push_back s.ready_queue id
  ok (
    id,
    generation,
    record s {
      threads = set s.threads id (some thread);
      ready_queue = queue;
      slot_generations = set s.slot_generations id generation;
    },
  )

-- `schedule`, between the lock and the switch: `none` where no other thread wants to run.
unfoldable pub rotate : SchedulerState → Outcome (Option Switch × SchedulerState)
unfolding thread_at switch_into
rotate s = do
  (popped, queue) ← pop_front s.ready_queue
  elim popped [
    | none ↦ ok (none, record s { ready_queue = queue })
    | some next ↦ (do
      queue' ← push_back queue s.current
      previous ← expect (thread_at s.threads s.current)
      next_thread ← expect (thread_at s.threads next)
      ok (some (switch_into s next_thread), record s { ready_queue = queue'; current = next }))
  ]

-- `exit_current_thread`, between the lock and the switch.
unfoldable pub retire : SchedulerState → Outcome (Switch × SchedulerState)
unfolding thread_at switch_into
retire s = do
  let id = s.current
  assert (not (id == 0))
  (popped, queue) ← pop_front s.ready_queue
  next ← expect popped
  dying ← expect (thread_at s.threads id)
  next_thread ← expect (thread_at s.threads next)
  ok (switch_into s next_thread, record s { ready_queue = queue; current = next; zombie = some id })

-- The locked part of `reap_zombie`: the zombie's thread leaves the table.
unfoldable pub take_zombie : SchedulerState → Option Thread × SchedulerState
unfolding thread_at
take_zombie s = elim s.zombie [
  | none ↦ (none, s)
  | some id ↦ (thread_at s.threads id, record s { threads = set s.threads id none; zombie = none })
]
