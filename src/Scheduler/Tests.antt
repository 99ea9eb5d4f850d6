-- ===== src/Scheduler/Tests.antt =====
-- Runs of the scheduler's operations on concrete states.
use velora_os.Base.{
  count, ◌≤◌, zero, suc, Option, get_or-replicate, ℕ, ◌+◌, ◌^◌, ◌≡◌, ◌<◌, refl, [], ◌∷◌, ◌++◌, none,
  some, ok, arith, position, get_or, replicate,
}
use velora_os.Scheduler.Queue
use velora_os.Scheduler.Queue.{ReadyQueue, contents, push_back, pop_front}
use velora_os.Scheduler.State.{
  SchedulerState, Thread, boot_thread, init, thread_at, is_none, pack_pid, unpack_pid, thread_alive,
  stack_size,
}
use velora_os.Scheduler.Core.{Switch, rotate, retire, take_zombie, populate}
use velora_os.Scheduler.Invariant.{WellFormed, Sound, WellFormed-Sound, occupied, init-WellFormed}
use velora_os.Scheduler.Invariant.Steps.{retire-WellFormed}
use velora_os.Scheduler.Steps.{
  Reach, here, next, populates, rotates, retires, reaps, Reach-WellFormed, Step-Sound, Reach-Sound,
}
use velora_os.Scheduler.Leaks.{Leaked, retire-Leaked}
use velora_os.Base.Count.{one_at}
use velora_os.Scheduler.Pids.{IsDead, Reach-IsDead}

abbrev pub user_thread : Thread
user_thread = record boot_thread {
  stack_base = 0x10000;
  stack_bytes = stack_size;
  entry = some 0x400000;
}

abbrev pub booted : SchedulerState
booted = init 0x1000

-- After a spawn into slot 1.
abbrev pub spawned : SchedulerState
spawned = record {
  threads = some boot_thread ∷ some user_thread ∷ replicate 14 none;
  ready_queue = record { ids = 1 ∷ replicate 15 0; head = 0; len = 1 };
  current = 0;
  kernel_page_table = 0x1000;
  zombie = none;
  slot_generations = 1 ∷ 1 ∷ replicate 14 0;
}

-- After a timer tick has switched to it.
abbrev pub running : SchedulerState
running = record spawned {
  ready_queue = record { ids = 1 ∷ replicate 15 0; head = 1; len = 1 };
  current = 1;
}

-- After its exit.
abbrev pub exited : SchedulerState
exited = record running {
  ready_queue = record { ids = running.ready_queue.ids; head = 2; len = 0 };
  current = 0;
  zombie = some 1;
}

-- After its cleanup.
abbrev pub cleaned : SchedulerState
cleaned = record exited { threads = some boot_thread ∷ replicate 15 none; zombie = none }

abbrev pub to_user : Switch
to_user = record { new_stack = 0; new_page_table = 0x1000; new_rsp0 = 0 }

booted-WellFormed : WellFormed booted
booted-WellFormed = init-WellFormed 0x1000

populate-booted : populate user_thread booted ≡ ok (1, 1, spawned)
unfolding populate init push_back Queue.new
populate-booted = refl

rotate-spawned : rotate spawned ≡ ok (some to_user, running)
unfolding rotate push_back pop_front
rotate-spawned = refl

retire-running : retire running ≡ ok (to_user, exited)
unfolding retire pop_front
retire-running = refl

reap_exited : cleaned ≡ (take_zombie exited).1
unfolding take_zombie
reap_exited = refl

none_yet : booted.zombie ≡ none
unfolding init
none_yet = refl

abbrev history : Reach booted exited
history =
    next
      (next (next here (populates user_thread 1 1 populate-booted))
        (rotates (some to_user) rotate-spawned))
      (retires to_user retire-running)

abbrev lifetime : Reach exited cleaned
lifetime = next here (reaps reap_exited)

pub running-WellFormed : WellFormed running
running-WellFormed =
    Reach-WellFormed booted-WellFormed
      (next (next here (populates user_thread 1 1 populate-booted))
        (rotates (some to_user) rotate-spawned))
      ((tt, tt), tt)

pub exited-WellFormed : WellFormed exited
exited-WellFormed = Reach-WellFormed booted-WellFormed history (((tt, tt), tt), refl)

pub cleaned-WellFormed : WellFormed cleaned
cleaned-WellFormed = Reach-WellFormed exited-WellFormed lifetime (tt, tt)

cleaned-IsDead : IsDead cleaned (pack_pid 1 1)
unfolding thread_alive pack_pid unpack_pid thread_at is_none
cleaned-IsDead = (omega arith, refl)

-- A later thread takes slot 1 again, under the generation 2.
abbrev reused : SchedulerState
reused = record cleaned {
  threads = spawned.threads;
  ready_queue = record { ids = 1 ∷ 0 ∷ 1 ∷ replicate 13 0; head = 2; len = 1 };
  slot_generations = 1 ∷ 2 ∷ replicate 14 0;
}

populate-cleaned : populate user_thread cleaned ≡ ok (1, 2, reused)
unfolding populate push_back
populate-cleaned = refl

free_booted : position is_none booted.threads ≡ some 1
unfolding init is_none
free_booted = refl

generation_booted : get_or booted.slot_generations 1 0 + 1 < 2 ^ 64
unfolding init
generation_booted = omega arith

abbrev full : SchedulerState
full = record booted { threads = replicate 16 (some boot_thread) }

full_table : position is_none full.threads ≡ none
unfolding is_none
full_table = refl

Reach-WellFormed_example : WellFormed exited
Reach-WellFormed_example = Reach-WellFormed booted-WellFormed history (((tt, tt), tt), refl)

-- Two user threads: the one in slot 1 has reaped and is about to exit, when a tick switches to the one in
-- slot 2, which exits and so resumes it.
abbrev interrupted : SchedulerState
interrupted = record {
  threads = some boot_thread ∷ some user_thread ∷ some user_thread ∷ replicate 13 none;
  ready_queue = record { ids = 1 ∷ 0 ∷ replicate 14 0; head = 0; len = 2 };
  current = 2;
  kernel_page_table = 0x1000;
  zombie = none;
  slot_generations = 1 ∷ 1 ∷ 1 ∷ replicate 13 0;
}

abbrev first_exit : SchedulerState
first_exit = record interrupted {
  ready_queue = record { ids = interrupted.ready_queue.ids; head = 1; len = 1 };
  current = 1;
  zombie = some 2;
}

abbrev second_exit : SchedulerState
second_exit = record first_exit {
  ready_queue = record { ids = interrupted.ready_queue.ids; head = 2; len = 0 };
  current = 0;
  zombie = some 1;
}

retire-interrupted : retire interrupted ≡ ok (to_user, first_exit)
unfolding retire pop_front
retire-interrupted = refl

retire-first_exit : retire first_exit ≡ ok (to_user, second_exit)
unfolding retire pop_front
retire-first_exit = refl

interrupted-roles :
    (i : ℕ)
    → count i (contents interrupted.ready_queue) + one_at 2 i ≤ occupied interrupted.threads i
unfolding thread_at
interrupted-roles zero = omega arith
interrupted-roles (suc zero) = omega arith
interrupted-roles (suc (suc zero)) = omega arith
interrupted-roles (suc (suc (suc i))) =
    rw (get_or-replicate {A = Option Thread} 13 i none) (ground arith)

interrupted-Sound : Sound interrupted
interrupted-Sound = record {
  table = refl;
  generations = refl;
  queue = record { slots = refl; head_in = omega arith; len_in = omega arith };
  roles_le = λ i. omega (arith, interrupted-roles i);
  boot = refl;
  boot_role = refl;
}

first_exit-Sound : Sound first_exit
first_exit-Sound = Step-Sound (retires to_user retire-interrupted) interrupted-Sound

Reach-Sound_example : Sound second_exit
Reach-Sound_example =
    Reach-Sound interrupted-Sound
      (next (next here (retires to_user retire-interrupted)) (retires to_user retire-first_exit))

retire-Leaked_example : Leaked second_exit 2
retire-Leaked_example = retire-Leaked 2 to_user first_exit-Sound refl retire-first_exit here

retire-WellFormed_example :
    (w : Switch) × (s' : SchedulerState) × (retire running ≡ ok (w, s')) × WellFormed s'
retire-WellFormed_example = retire-WellFormed running-WellFormed (λ e. omega (arith, e)) refl

Reach-IsDead_example : IsDead reused (pack_pid 1 1)
Reach-IsDead_example =
    Reach-IsDead (pack_pid 1 1) (WellFormed-Sound cleaned-WellFormed)
      (next here (populates user_thread 1 2 populate-cleaned)) cleaned-IsDead

abbrev two_ids : ReadyQueue
two_ids = record { ids = 4 ∷ replicate 14 0 ++ (9 ∷ []); head = 15; len = 2 }

two_ids-IsValid : Queue.IsValid two_ids
two_ids-IsValid = record { slots = refl; head_in = omega arith; len_in = omega arith }
