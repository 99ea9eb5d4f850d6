-- ===== src/Scheduler/Settled/Switches.antt =====
-- `schedule` and `exit_current_thread` leave the running thread's own page table active.
use velora_os.Base.{
  ℕ, ◌≡◌, refl, sym, ap, ◌∙◌, ◌⊎◌, inl, inr, Option, none, some, [], Outcome, ok, panic, ◌>>=◌,
  subst, arith, count, ◌==◌, Bool-cases, expect, Ensures, >>=-Ensures, true, false,
}
use velora_os.Memory.Paging.{Paging}
use velora_os.Scheduler.Queue.{contents}
use velora_os.Scheduler.State.{SchedulerState, Thread, thread_at}
use velora_os.Scheduler.Core.{Switch, retire, unwrap_or, switch_into}
use velora_os.Scheduler.Invariant.{WellFormed, WellFormed-Sound}
use velora_os.Scheduler.Invariant.Steps.{rotate-Rotates, Retires, retire-Retires}
use velora_os.Scheduler.Steps.{rotates, retires, Step-WellFormed}
use velora_os.Scheduler.System.{
  Kernel, save_pointer, reap_zombie, schedule_on, schedule, exit_current_thread,
}
use velora_os.Scheduler.System.Laws.{schedule_on-Decided}
use velora_os.Scheduler.Settled.{
  Runs, Settled, Reaped, table_of, table_at, Runs-save_pointer, reinstalled, reap_zombie-Reaped,
}

-- With nothing waiting and nothing to clean up, the boot thread runs.
boot_runs :
    {s : SchedulerState}
    → WellFormed s
    → contents s.ready_queue ≡ []
    → s.zombie ≡ none
    → s.current ≡ 0
boot_runs {s} w e z = ground (arith, w.roles 0, w.boot_there, ap (count 0) e)

-- Then its table is the kernel's.
boot_owns :
    {own active : ℕ} {k : Kernel} {s : SchedulerState}
    → Runs own active k s
    → s.current ≡ 0
    → own ≡ s.kernel_page_table
unfolding unwrap_or
boot_owns {s = s} r z =
    sym r.owner
    ∙ ap (λ i. unwrap_or (table_at s.threads i) s.kernel_page_table) z
    ∙ ap (λ o. unwrap_or o s.kernel_page_table) r.boot_shared

-- The table in CR3 by another name.
renamed :
    {own active : ℕ} {k : Kernel} {s : SchedulerState}
    → Runs own active k s
    → active ≡ own
    → Runs own own k s
renamed r e = record {
  installed = r.installed;
  formed = r.formed;
  boot_shared = r.boot_shared;
  owner = r.owner;
  in_cr3 = r.in_cr3 ∙ e;
}

-- What a scheduling decision leaves: the same thread with its own table, or another with its own.
abbrev pub After : ℕ → Option Switch × Kernel → Type 0
After own (none, k) = (s : SchedulerState) × Runs own own k s
After own (some w, k) = Settled k

-- The kernel with the table of the thread in slot `next` loaded.
entered :
    {own active : ℕ} {k k' : Kernel} {s s' : SchedulerState} (next : ℕ) (t : Thread)
    → Runs own active k s
    → thread_at s.threads next ≡ some t
    → WellFormed s'
    → s'.threads ≡ s.threads
    → s'.current ≡ next
    → s'.kernel_page_table ≡ s.kernel_page_table
    → k'.scheduler ≡ some s'
    → k'.cr3 ≡ (switch_into s t).new_page_table
    → Runs
        (unwrap_or t.page_table s.kernel_page_table)
        (unwrap_or t.page_table s.kernel_page_table)
        k'
        s'
unfolding switch_into
entered {s = s} {s'} next t r et w threads current table there cr3 = record {
  installed = there;
  formed = w;
  boot_shared = ap (λ ts. table_at ts 0) threads ∙ r.boot_shared;
  owner =
      ap (λ ts. unwrap_or (table_at ts s'.current) s'.kernel_page_table) threads
      ∙ ap (λ i. unwrap_or (table_at s.threads i) s'.kernel_page_table) current
      ∙ ap (λ d. unwrap_or (table_at s.threads next) d) table
      ∙ ap (λ o. unwrap_or (table_of o) s.kernel_page_table) et;
  in_cr3 = cr3;
}

retire-boot : (s : SchedulerState) → (s.current == 0) ≡ true → retire s ≡ panic
unfolding retire
retire-boot s e = ground arith

module _ (P : Paging) (offset : ℕ) where
  schedule_on-After :
      {own active : ℕ} {k : Kernel} {s : SchedulerState} (pointer : ℕ)
      → Runs own active k s
      → s.zombie ≡ none
      → (active ≡ own) ⊎ (active ≡ s.kernel_page_table)
      → Ensures (After own) (schedule_on P offset pointer k s)
  unfolding schedule_on
  schedule_on-After {own} {active} {k} {s} pointer r z which =
      elim (rotate-Rotates (WellFormed-Sound r.formed)) [
        | inl (c, e) ↦ rw (e, schedule_on) (s, stays which (boot_owns r (boot_runs r.formed c z)))
        | inr (next, t, q, et, e, v, c) ↦
            rw (e, schedule_on)
              (
                unwrap_or t.page_table s.kernel_page_table,
                save_pointer (record s { ready_queue = q; current = next }) s.current pointer,
                Runs-save_pointer
                    (entered
                      {k' = record k {
                        scheduler = some (record s { ready_queue = q; current = next });
                        interrupts = false;
                        rsp0 = (switch_into s t).new_rsp0;
                        cr3 = (switch_into s t).new_page_table;
                      }}
                      next t r et (Step-WellFormed (rotates (some (switch_into s t)) e) tt r.formed)
                      refl refl refl refl refl)
                    s.current pointer,
              )
      ]
    where
      stays :
          (active ≡ own) ⊎ (active ≡ s.kernel_page_table)
          → own ≡ s.kernel_page_table
          → Runs own own (record k { scheduler = some s }) s
      stays (inl e) boot = renamed (reinstalled r) e
      stays (inr e) boot = renamed (reinstalled r) (e ∙ sym boot)

  -- The second half of `schedule`.
  decide : ℕ → Kernel → Outcome (Option Switch × Kernel)
  decide pointer k1 = elim k1.scheduler [
    | none ↦ ok (none, k1)
    | some s ↦ schedule_on P offset pointer k1 s
  ]

  decide-After :
      {own : ℕ} {k : Kernel} (pointer : ℕ)
      → Reaped own own k
      → Ensures (After own) (decide pointer k)
  unfolding decide
  decide-After pointer (table, s, r, z, which) =
      rw (r.installed, decide) (schedule_on-After pointer r z which)

  -- What the cleanup leaves is decided without a panic.
  decide-runs :
      {own : ℕ} {k : Kernel} (pointer : ℕ)
      → Reaped own own k
      → (r : Option Switch × Kernel) × (decide pointer k ≡ ok r)
  unfolding decide
  decide-runs {k = k} pointer (table, s, r, z, which) =
      let (chosen, k', run, d) = schedule_on-Decided P offset pointer k s r.formed in
      ((chosen, k'), simp (r.installed, decide) run)

  -- Wherever it returns; it may panic while it frees an address space.
  pub schedule-Ensures :
      {own : ℕ} {k : Kernel} {s : SchedulerState} (pointer : ℕ)
      → Runs own own k s
      → Ensures (After own) (schedule P offset pointer k)
  unfolding schedule decide
  schedule-Ensures {own} {k} pointer r =
      >>=-Ensures (Reaped own own) (After own) (reap_zombie P offset k) (decide pointer)
        (reap_zombie-Reaped P offset r) (λ k1 d. decide-After pointer d)

  -- From a well-formed state, in which the boot thread has no address space of its own and the running
  -- thread's page table is in CR3, a scheduling decision returns wherever its `reap_zombie` returns, and
  -- ends in such a state again: either the same thread runs on with its table in CR3, although the
  -- cleanup may have loaded the kernel's, or the thread that is current has its own table in CR3.
  pub schedule-After :
      {own : ℕ} {k k1 : Kernel} {s : SchedulerState} (pointer : ℕ)
      → Runs own own k s
      → reap_zombie P offset k ≡ ok k1
      → (r : Option Switch × Kernel) × (schedule P offset pointer k ≡ ok r) × After own r
  unfolding schedule decide
  schedule-After {own} {k} {k1} pointer runs_ e =
      let cleaned : Reaped own own k1 =
        subst (Ensures (Reaped own own)) e (reap_zombie-Reaped P offset runs_) in
      let (r, run) = decide-runs pointer cleaned in
      let returns : schedule P offset pointer k ≡ ok r = ap (λ m. m >>= decide pointer) e ∙ run in
      (r, returns, subst (Ensures (After own)) returns (schedule-Ensures pointer runs_))

  -- The second half of `exit_current_thread`, with the state.
  leave : ℕ → Kernel → SchedulerState → Outcome (Switch × Kernel)
  leave pointer k s = retire s >>= (λ r. ok (
    r.0,
    record k {
      scheduler = some (save_pointer r.1 s.current pointer);
      interrupts = false;
      rsp0 = r.0.new_rsp0;
      cr3 = r.0.new_page_table;
    },
  ))

  abbrev pub Left : Switch × Kernel → Type 0
  Left r = Settled r.1

  leave-Settled :
      {own active : ℕ} {k : Kernel} {s : SchedulerState} (pointer : ℕ)
      → Runs own active k s
      → s.zombie ≡ none
      → Ensures Left (leave pointer k s)
  unfolding leave
  leave-Settled {k = k} {s} pointer r z = elim (Bool-cases (s.current == 0)) [
    | inl e ↦ rw (retire-boot s e, leave) tt
    | inr e ↦ leaves (retire-Retires (WellFormed-Sound r.formed) (λ zero_. ground arith))
  ]
    where
      leaves : Retires s → Ensures Left (leave pointer k s)
      leaves (next, t, q, et, e, v, c) =
          rw (e, leave)
            (
              unwrap_or t.page_table s.kernel_page_table,
              save_pointer (record s { ready_queue = q; current = next; zombie = some s.current })
                  s.current pointer,
              Runs-save_pointer
                  (entered
                    {k' = record k {
                      scheduler =
                          some
                            (record s { ready_queue = q; current = next; zombie = some s.current });
                      interrupts = false;
                      rsp0 = (switch_into s t).new_rsp0;
                      cr3 = (switch_into s t).new_page_table;
                    }}
                    next t r et (Step-WellFormed (retires (switch_into s t) e) z r.formed) refl refl
                    refl refl refl)
                  s.current pointer,
            )

  -- The exit of a thread, from a well-formed state with the page table `own` of the running thread
  -- or any other in CR3, ends in a well-formed state with the page table of the thread that runs next
  -- in CR3, unless it panics.
  pub exit_current_thread-Settled :
      {own active : ℕ} {k : Kernel} {s : SchedulerState} (pointer : ℕ)
      → Runs own active k s
      → Ensures Left (exit_current_thread P offset pointer k)
  unfolding exit_current_thread leave
  exit_current_thread-Settled {own} {active} {k} pointer r =
      >>=-Ensures (Reaped own active) Left (reap_zombie P offset k)
        (λ k1. expect k1.scheduler >>= leave pointer k1) (reap_zombie-Reaped P offset r)
        (λ k1 (table, s, r', z, which). rw (r'.installed, leave) (leave-Settled pointer r' z))
