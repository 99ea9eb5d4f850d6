-- ===== src/Scheduler/Invariant.antt =====
-- The scheduler's invariant: every occupied slot of the thread table has exactly one role.
pub mod Steps
pub mod Exits
use velora_os.Base.{
  ℕ, zero, suc, ◌+◌, ◌<◌, ◌≤◌, ◌≡◌, ◌≢◌, refl, Option, none, some, List, [], ◌∷◌, arith, length,
  count, get_or, set, get_or-set, get_or-replicate, ltb, ◌==◌, if◌then◌else◌,
}
use velora_os.Base.Count.{one_at, total_room, total-length}
use velora_os.Scheduler.Queue.{IsValid, contents, max_threads}
use velora_os.Scheduler.Queue.Laws.{length-contents, new-IsValid}
use velora_os.Scheduler.State.{SchedulerState, Thread, thread_at, init}

-- 1 for an occupied slot of the thread table, 0 for a free one.
abbrev pub filled : Option Thread → ℕ
filled none = 0
filled (some t) = 1

abbrev pub occupied : List (Option Thread) → ℕ → ℕ
occupied ts i = filled (thread_at ts i)

abbrev pub zombie_at : Option ℕ → ℕ → ℕ
zombie_at none i = 0
zombie_at (some z) i = one_at z i

-- The roles: waiting in the ready queue, running, or pending cleanup. The boot thread stays.
pub record WellFormed (s : SchedulerState) : Type 0 where
  pub table : length s.threads ≡ max_threads
  pub generations : length s.slot_generations ≡ max_threads
  pub queue : IsValid s.ready_queue
  pub roles :
      (i : ℕ)
      → count i (contents s.ready_queue) + one_at s.current i + zombie_at s.zombie i
        ≡ occupied s.threads i
  pub boot : zombie_at s.zombie 0 ≡ 0
  pub boot_there : occupied s.threads 0 ≡ 1

-- What an exit keeps even where it overwrites a pending zombie: a slot with a role holds a thread and has
-- no other role, and the boot thread runs or waits. A slot may hold a thread that has no role any more.
pub record Sound (s : SchedulerState) : Type 0 where
  pub table : length s.threads ≡ max_threads
  pub generations : length s.slot_generations ≡ max_threads
  pub queue : IsValid s.ready_queue
  pub roles_le :
      (i : ℕ)
      → count i (contents s.ready_queue) + one_at s.current i + zombie_at s.zombie i
        ≤ occupied s.threads i
  pub boot : zombie_at s.zombie 0 ≡ 0
  pub boot_role : count 0 (contents s.ready_queue) + one_at s.current 0 ≡ 1

pub WellFormed-Sound : {s : SchedulerState} → WellFormed s → Sound s
WellFormed-Sound w = record {
  table = w.table;
  generations = w.generations;
  queue = w.queue;
  roles_le = λ i. omega (arith, w.roles i);
  boot = w.boot;
  boot_role = omega (arith, w.roles 0, w.boot, w.boot_there);
}

pub thread_at-past : (ts : List (Option Thread)) (i : ℕ) → length ts ≤ i → thread_at ts i ≡ none
unfolding thread_at
thread_at-past [] i h = refl
thread_at-past (t ∷ ts) zero h = elim h [ ]
thread_at-past (t ∷ ts) (suc i) h = thread_at-past ts i (omega arith)

pub occupied-lt : (ts : List (Option Thread)) (i : ℕ) → length ts ≤ i → occupied ts i ≡ 0
occupied-lt ts i h = ground (arith, thread_at-past ts i h)

pub occupied-le : (ts : List (Option Thread)) (i : ℕ) → occupied ts i ≤ 1
occupied-le ts i = ground arith

module _ {s : SchedulerState} (w : Sound s) where
  pub current-lt : s.current < max_threads
  current-lt = ground (arith, w.table, w.roles_le s.current, occupied-lt s.threads s.current)

  -- At most 15 threads wait: the sixteenth slot is the running thread's.
  pub waiting_room : s.ready_queue.len < max_threads
  waiting_room = ground (
    arith,
    current-lt,
    length-contents s.ready_queue,
    total_room 16 s.current (contents s.ready_queue)
        (λ i. omega (arith, w.roles_le i, occupied-le s.threads i)),
    total-length 16 (contents s.ready_queue)
        (λ i le. omega (arith, w.roles_le i, w.table, occupied-lt s.threads i)),
  )

  pub current-there : (t : Thread) × (thread_at s.threads s.current ≡ some t)
  current-there = at_least_one (thread_at s.threads s.current) refl
    where
      at_least_one :
          (o : Option Thread)
          → thread_at s.threads s.current ≡ o
          → (t : Thread) × (thread_at s.threads s.current ≡ some t)
      at_least_one none e = absurd (ground (arith, w.roles_le s.current))
      at_least_one (some t) e = (t, e)

-- A slot with a role holds a thread.
pub there :
    (s : SchedulerState) (i : ℕ)
    → Sound s
    → 0 < count i (contents s.ready_queue)
    → (t : Thread) × (thread_at s.threads i ≡ some t)
there s i w h = some_thread (thread_at s.threads i) refl
  where
    some_thread :
        (o : Option Thread)
        → thread_at s.threads i ≡ o
        → (t : Thread) × (thread_at s.threads i ≡ some t)
    some_thread none e = absurd (ground (arith, w.roles_le i))
    some_thread (some t) e = (t, e)

pub occupied-set :
    (ts : List (Option Thread)) (i j : ℕ) (v : Option Thread)
    → i < length ts
    → occupied (set ts i v) j ≡ (if i == j then filled v else occupied ts j)
unfolding thread_at
occupied-set ts i j v h = ground (arith, get_or-set ts i j v none)

pub thread_at-lt :
    (ts : List (Option Thread)) (i : ℕ) {t : Thread} → thread_at ts i ≡ some t → i < length ts
thread_at-lt ts i e = ground (arith, occupied-lt ts i)

-- A new value for a thread leaves the occupied slots as they are.
pub occupied-set_self :
    (ts : List (Option Thread)) (i j : ℕ) (t t' : Thread)
    → thread_at ts i ≡ some t
    → occupied (set ts i (some t')) j ≡ occupied ts j
occupied-set_self ts i j t t' e =
    ground (arith, occupied-set ts i j (some t') (thread_at-lt ts i e))

init-roles :
    (cr3 i : ℕ)
    → count i (contents (init cr3).ready_queue) + one_at 0 i + 0 ≡ occupied (init cr3).threads i
unfolding init thread_at
init-roles cr3 zero = rw new-IsValid.1 refl
init-roles cr3 (suc i) =
    rw new-IsValid.1 (rw (get_or-replicate {A = Option Thread} 15 i none) (ground arith))

-- `init` establishes the invariant.
pub init-WellFormed : (cr3 : ℕ) → WellFormed (init cr3)
unfolding init thread_at
init-WellFormed cr3 = record {
  table = refl;
  generations = refl;
  queue = new-IsValid.0;
  roles = init-roles cr3;
  boot = refl;
  boot_there = refl;
}
