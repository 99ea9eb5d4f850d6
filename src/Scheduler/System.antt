-- ===== src/Scheduler/System.antt =====
-- The scheduler's whole functions: the critical sections with what they do to the processor, the heap
-- and the frames. A run of a function ends where it hands over to `context::switch_to`.
pub mod Laws
pub mod Tests
use velora_os.Base.{
  ℕ, zero, suc, ◌+◌, ◌-◌, ◌*◌, ◌/◌, ◌^◌, Bool, true, false, List, [], ◌∷◌, Option, none, some,
  Outcome, ok, panic, stuck, ◌>>=◌, ◌>>◌, assert, expect, ltb, set, get_or, checked_add,
  if◌then◌else◌,
}
use velora_os.Memory.Paging.{Paging}
use velora_os.Memory.Frames.{FrameAllocator}
use velora_os.Memory.Walk.{Tables}
use velora_os.Memory.Spaces.{AddrRange, free_address_space}
use velora_os.Scheduler.Queue.{ThreadId}
use velora_os.Scheduler.State.{
  SchedulerState, Thread, UserEntry, thread_at, no_files, stack_size, Pid, pack_pid,
}
use velora_os.Scheduler.Core.{Switch, rotate, retire, take_zombie, populate}
use velora_os.Scheduler.Context.{build_initial_stack}

-- SCHEDULER, the interrupt flag, CR3, the TSS's RSP0, the stacks given back to the heap (address and
-- size, the last first), the page tables, and the global frame allocator.
pub record Kernel : Type 0 where
  pub scheduler : Option SchedulerState
  pub interrupts : Bool
  pub cr3 : ℕ
  pub rsp0 : ℕ
  pub freed_stacks : List (ℕ × ℕ)
  pub tables : Tables
  pub frames : Option FrameAllocator

-- What `switch_to` writes through `old_stack_slot`.
unfoldable pub save_pointer : SchedulerState → ThreadId → ℕ → SchedulerState
save_pointer s id pointer = elim (thread_at s.threads id) [
  | none ↦ s
  | some t ↦ record s { threads = set s.threads id (some (record t { stack_pointer = pointer })) }
]

module _ (P : Paging) (offset : ℕ) where
  -- `reap_zombie`, for the thread that was taken out of the table.
  unfoldable pub free_thread : Thread → ℕ → Kernel → Outcome Kernel
  free_thread thread kernel_page_table k = do
    stack_end ← expect (checked_add thread.stack_base thread.stack_bytes)
    let k1 = record k {
      cr3 = kernel_page_table;
      freed_stacks = (thread.stack_base, thread.stack_bytes) ∷ k.freed_stacks;
    }
    elim thread.page_table [
      | none ↦ ok k1
      | some page_table ↦ (do
        a ← expect k.frames
        a' ←
            free_address_space k.tables (record { start = thread.stack_base; end = stack_end }) P
              page_table offset a
        ok (record k1 { frames = some a' }))
    ]

  -- `reap_zombie`, after its locked part.
  unfoldable pub reap_taken : Kernel → Option Thread × SchedulerState → Outcome Kernel
  unfolding free_thread
  reap_taken k (none, s) = ok (record k { scheduler = some s })
  reap_taken k (some thread, s) =
      free_thread thread s.kernel_page_table (record k { scheduler = some s })

  unfoldable pub reap_zombie : Kernel → Outcome Kernel
  unfolding reap_taken
  reap_zombie k = do s ← expect k.scheduler; reap_taken k (take_zombie s)

  -- The rest of `schedule`, with the scheduler's state; `pointer` is the stack pointer that the switch
  -- saves. Where it does not switch it leaves the interrupt flag as it found it.
  unfoldable pub schedule_on : ℕ → Kernel → SchedulerState → Outcome (Option Switch × Kernel)
  unfolding save_pointer
  schedule_on pointer k s = do
    (chosen, s') ← rotate s
    elim chosen [
      | none ↦ ok (none, record k { scheduler = some s' })
      | some w ↦ ok (
        some w,
        record k {
          scheduler = some (save_pointer s' s.current pointer);
          interrupts = false;
          rsp0 = w.new_rsp0;
          cr3 = w.new_page_table;
        },
      )
    ]

  -- With no interrupt between its `reap_zombie` and its lock, as from the timer or a system call.
  unfoldable pub schedule : ℕ → Kernel → Outcome (Option Switch × Kernel)
  unfolding reap_zombie schedule_on
  schedule pointer k = do
    k1 ← reap_zombie k
    elim k1.scheduler [ none ↦ ok (none, k1) | some s ↦ schedule_on pointer k1 s ]

  -- What the timer's handler calls.
  unfoldable pub tick : ℕ → Kernel → Outcome (Option Switch × Kernel)
  unfolding schedule
  tick = schedule

  -- With no interrupt between its `reap_zombie` and its lock; Scheduler/Steps has what may come between.
  unfoldable pub exit_current_thread : ℕ → Kernel → Outcome (Switch × Kernel)
  unfolding reap_zombie save_pointer
  exit_current_thread pointer k = do
    k1 ← reap_zombie k
    s ← expect k1.scheduler
    (w, s') ← retire s
    ok (
      w,
      record k1 {
        scheduler = some (save_pointer s' s.current pointer);
        interrupts = false;
        rsp0 = w.new_rsp0;
        cr3 = w.new_page_table;
      },
    )

-- A thread on a fresh stack: `stack_base` is what the heap returned.
unfoldable pub new_thread : ℕ → ℕ → Option ℕ → Option UserEntry → ℕ → Thread
new_thread trampoline entry page_table user_entry stack_base = record {
  stack_pointer = (build_initial_stack trampoline stack_base (λ _. 0)).1;
  stack_base = stack_base;
  stack_bytes = stack_size;
  entry = some entry;
  page_table = page_table;
  kernel_stack_top = stack_base + stack_size;
  open_files = no_files;
  user_entry = user_entry;
}

-- `spawn`; `none` is a null pointer from the heap.
unfoldable pub spawn : ℕ → ℕ → Option ℕ → Kernel → Outcome Kernel
unfolding new_thread
spawn trampoline entry allocated k = do
  stack_base ← expect allocated
  s ← expect k.scheduler
  (id, generation, s') ← populate (new_thread trampoline entry none none stack_base) s
  ok (record k { scheduler = some s' })

-- The crate's `translate_page` and `map_to`, on the kernel's mapper and on the isolated one.
abbrev pub TranslatePage : Type 0
TranslatePage = Tables → ℕ → Option ℕ

abbrev pub MapTo : Type 0
MapTo = ℕ → ℕ → ℕ → Tables → FrameAllocator → Option (Tables × FrameAllocator)

module _ (P : Paging) (translate_page : TranslatePage) (map_to : MapTo) where
  -- The loop that shares the stack's pages from `i` on, with `n` left.
  unfoldable pub share_stack :
      ℕ → ℕ → ℕ → ℕ → Tables → FrameAllocator → Outcome (Tables × FrameAllocator)
  share_stack root first_page zero i tables a = ok (tables, a)
  share_stack root first_page (suc n) i tables a = do
    page ← expect (P.page_add first_page i)
    frame ← expect (translate_page tables page)
    (tables', a') ← expect (map_to root page frame tables a)
    share_stack root first_page n (i + 1) tables' a'

  unfoldable pub spawn_isolated_inner :
      ℕ
      → ℕ
      → Option UserEntry
      → ℕ
      → Option ℕ
      → FrameAllocator
      → Kernel
      → Outcome (Pid × FrameAllocator × Kernel)
  unfolding share_stack new_thread
  spawn_isolated_inner trampoline entry user_entry page_table allocated a k = do
    stack_base ← expect allocated
    (tables, a') ←
        share_stack page_table (P.page_containing stack_base) (stack_size / 4096) 0 k.tables a
    s ← expect k.scheduler
    (id, generation, s') ←
        populate (new_thread trampoline entry (some page_table) user_entry stack_base) s
    ok (pack_pid id generation, a', record k { scheduler = some s'; tables = tables })

  -- A kernel thread in an address space of its own: `entry` is its own code.
  unfoldable spawn_isolated :
      ℕ → ℕ → ℕ → Option ℕ → FrameAllocator → Kernel → Outcome (Pid × FrameAllocator × Kernel)
  unfolding spawn_isolated_inner
  spawn_isolated trampoline entry = spawn_isolated_inner trampoline entry none

-- `thread_trampoline`: the entry point is taken out of the running thread.
unfoldable pub take_entry : SchedulerState → Outcome (ℕ × SchedulerState)
take_entry s = do
  t ← expect (thread_at s.threads s.current)
  entry ← expect t.entry
  ok (entry, record s { threads = set s.threads s.current (some (record t { entry = none })) })

-- `ring3_trampoline`: what it passes to `enter_ring3`.
unfoldable pub take_user_entry : SchedulerState → Outcome (UserEntry × SchedulerState)
take_user_entry s = do
  t ← expect (thread_at s.threads s.current)
  user_entry ← expect t.user_entry
  ok (
    user_entry,
    record s { threads = set s.threads s.current (some (record t { user_entry = none })) },
  )
