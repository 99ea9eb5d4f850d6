-- ===== src/Scheduler/System/Tests.antt =====
-- Scheduling decisions on concrete states.
use velora_os.Scheduler.Fairness.{turns, Ready, schedule-fair}
use velora_os.Base.{ℕ, ◌<◌, length, ◌≡◌, refl, true, [], ◌∷◌, Option, none, some, ok, arith}
use velora_os.Memory.Tests.{four_levels, tables}
use velora_os.Scheduler.State.{SchedulerState, stack_size, thread_at}
use velora_os.Scheduler.Core.{Switch}
use velora_os.Scheduler.Invariant.{WellFormed}
use velora_os.Scheduler.Tests.{running, running-WellFormed, exited, exited-WellFormed, user_thread}
use velora_os.Scheduler.System.{Kernel, reap_zombie, schedule}
use velora_os.Scheduler.System.Laws.{Decided, schedule-Decided, reap_zombie-once}

abbrev pub kernel : Kernel
kernel = record {
  scheduler = some running;
  interrupts = true;
  cr3 = 0x1000;
  rsp0 = 0;
  freed_stacks = [];
  tables = tables;
  frames = none;
}

-- After the exit of the thread in slot 1.
abbrev after_exit : Kernel
after_exit = record kernel { scheduler = some exited }

in_slot : thread_at exited.threads 1 ≡ some user_thread
unfolding thread_at
in_slot = refl

schedule-Decided_example :
    (chosen : Option Switch) × (k' : Kernel) × (schedule four_levels 0 0x8000 kernel
      ≡ ok (chosen, k'))
    × Decided 0x8000 kernel running chosen k'
schedule-Decided_example = schedule-Decided four_levels 0 0x8000 kernel refl running-WellFormed refl

schedule-fair_example :
    (length {A = ℕ} [] < 15)
    × ((k' : Kernel) × (s' : SchedulerState) × (turns four_levels 0 1 (λ i. 0x8000) kernel ≡ ok k')
        × (s'.current ≡ 0)
        × Ready four_levels 0 k' s')
schedule-fair_example =
    schedule-fair four_levels 0 (λ i. 0x8000) [] [] 0 kernel refl running-WellFormed refl refl

reap_zombie-once_example :
    (k' : Kernel) × (reap_zombie four_levels 0 after_exit ≡ ok k')
    × (k'.freed_stacks ≡ (0x10000, stack_size) ∷ [])
    × (k'.cr3 ≡ 0x1000)
    × (reap_zombie four_levels 0 k' ≡ ok k')
    × ((s' : SchedulerState) × (k'.scheduler ≡ some s') × WellFormed s')
reap_zombie-once_example =
    reap_zombie-once four_levels 0 after_exit 1 user_thread refl exited-WellFormed refl in_slot refl
      (omega arith)
