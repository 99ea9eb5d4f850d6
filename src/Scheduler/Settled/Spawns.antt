-- ===== src/Scheduler/Settled/Spawns.antt =====
-- A spawn leaves the running thread and its page table alone.
use velora_os.Base.{
  ℕ, ◌+◌, ◌/◌, ◌≡◌, ◌≢◌, refl, ap, ◌∙◌, Option, none, some, ok, arith, set, get_or, expect, Ensures,
  >>=-Ensures, >>=-Always, Ensures-result,
}
use velora_os.Memory.Paging.{Paging}
use velora_os.Memory.Frames.{FrameAllocator}
use velora_os.Scheduler.State.{SchedulerState, Thread, UserEntry, Pid, thread_at, stack_size}
use velora_os.Scheduler.Core.{populate, unwrap_or}
use velora_os.Scheduler.Invariant.{WellFormed, WellFormed-Sound}
use velora_os.Scheduler.Invariant.Steps.{position-free, populate-Populates}
use velora_os.Scheduler.Steps.{populates, populate-slot, Step-WellFormed}
use velora_os.Scheduler.System.{
  Kernel, TranslatePage, MapTo, new_thread, share_stack, spawn_isolated_inner,
}
use velora_os.Scheduler.Settled.{Runs, table_at, table_at-other}

-- The free slot is neither the boot thread's nor the running thread's.
free_apart :
    {s : SchedulerState} (w : WellFormed s) (id : ℕ)
    → thread_at s.threads id ≡ none
    → (id ≢ 0) × (id ≢ s.current)
free_apart {s} w id e = (λ z. ground (arith, w.boot_there, e), λ z. ground (arith, w.roles id, e))

-- What of the state a spawn changes.
record Placed (s s' : SchedulerState) (id : ℕ) (t : Thread) : Type 0 where
  pub in_slot : s'.threads ≡ set s.threads id (some t)
  pub same_current : s'.current ≡ s.current
  pub same_table : s'.kernel_page_table ≡ s.kernel_page_table
  pub free : thread_at s.threads id ≡ none

populate-Placed :
    (t : Thread) {s s' : SchedulerState} (id g : ℕ)
    → WellFormed s
    → populate t s ≡ ok (id, g, s')
    → Placed s s' id t
populate-Placed t {s} {s'} id g w e =
    let (p, lt) = populate-slot t s s' id g e in
    let (q, e', v, c) = populate-Populates t id (WellFormed-Sound w) p lt in
    let made : SchedulerState = record s {
      threads = set s.threads id (some t);
      ready_queue = q;
      slot_generations = set s.slot_generations id (get_or s.slot_generations id 0 + 1);
    } in
    let same : s' ≡ made = cc in
    record {
      in_slot = ap (λ x. x.threads) same;
      same_current = ap (λ x. x.current) same;
      same_table = ap (λ x. x.kernel_page_table) same;
      free = (position-free s.threads id p).1;
    }

pub Runs-populate :
    {own a : ℕ} {k k' : Kernel} {s s' : SchedulerState} (t : Thread) (id g : ℕ)
    → Runs own a k s
    → populate t s ≡ ok (id, g, s')
    → k'.scheduler ≡ some s'
    → k'.cr3 ≡ k.cr3
    → Runs own a k' s'
unfolding unwrap_or
Runs-populate {s = s} {s'} t id g r e there cr3 =
    let p = populate-Placed t id g r.formed e in
    let (not_boot, not_current) = free_apart r.formed id p.free in
    record {
      installed = there;
      formed = Step-WellFormed (populates t id g e) tt r.formed;
      boot_shared =
          ap (λ ts. table_at ts 0) p.in_slot
          ∙ table_at-other s.threads id 0 (some t) not_boot
          ∙ r.boot_shared;
      owner =
          ap (λ ts. unwrap_or (table_at ts s'.current) s'.kernel_page_table) p.in_slot
          ∙ ap (λ i. unwrap_or (table_at (set s.threads id (some t)) i) s'.kernel_page_table)
              p.same_current
          ∙ ap (λ d. unwrap_or (table_at (set s.threads id (some t)) s.current) d) p.same_table
          ∙ ap (λ o. unwrap_or o s.kernel_page_table)
              (table_at-other s.threads id s.current (some t) not_current)
          ∙ r.owner;
      in_cr3 = cr3 ∙ r.in_cr3;
    }

module _ (P : Paging) (translate_page : TranslatePage) (map_to : MapTo) where
  abbrev pub Spawned : ℕ → ℕ → Pid × FrameAllocator × Kernel → Type 0
  Spawned own a r = (s : SchedulerState) × Runs own a r.2 s

  pub spawn_isolated_inner-Spawned :
      {own active : ℕ} {k : Kernel} {s : SchedulerState}
      → (trampoline entry : ℕ) (user_entry : Option UserEntry) (page_table : ℕ)
      → (allocated : Option ℕ) (a : FrameAllocator) → Runs own active k s
      → Ensures (Spawned own active) (
          spawn_isolated_inner P translate_page map_to trampoline entry user_entry page_table
            allocated a k)
  unfolding spawn_isolated_inner
  spawn_isolated_inner-Spawned {own} {active} {k} {s} trampoline entry user_entry page_table
        allocated a r =
      >>=-Always (Spawned own active) (expect allocated) _ (λ stack_base.
        >>=-Always (Spawned own active)
          (share_stack P translate_page map_to page_table (P.page_containing stack_base)
            (stack_size / 4096) 0 k.tables a)
          _
          (λ shared. simp r.installed (
            >>=-Ensures
              (λ x.
                populate (new_thread trampoline entry (some page_table) user_entry stack_base) s
                ≡ ok x)
              (Spawned own active) _ _
              (Ensures-result
                (populate (new_thread trampoline entry (some page_table) user_entry stack_base) s))
              (λ (id, g, s') e. (
                s',
                Runs-populate (new_thread trampoline entry (some page_table) user_entry stack_base)
                    id g r e refl refl,
              )))))
