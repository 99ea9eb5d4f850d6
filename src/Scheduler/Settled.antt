-- ===== src/Scheduler/Settled.antt =====
-- The page table that is active and the thread that runs: `schedule` and `exit_current_thread` always
-- leave the table of the thread that they switch to.
pub mod Switches
pub mod Spawns
use velora_os.Base.{
  ℕ, zero, suc, ◌≡◌, ◌≢◌, refl, sym, ap, ◌∙◌, ◌⊎◌, inl, inr, Option, none, some, List, [], ◌∷◌,
  Outcome, ok, panic, stuck, ◌>>=◌, arith, expect, length, get_or, set, get_or-set_self,
  get_or-set_ne, Ensures, >>=-Ensures, Ensures-result, Option-cases, checked_add, >>=-Always,
  Ensures-map,
}
use velora_os.Memory.Paging.{Paging}
use velora_os.Memory.Spaces.{free_address_space}
use velora_os.Scheduler.Queue.{contents}
use velora_os.Scheduler.State.{SchedulerState, Thread, thread_at}
use velora_os.Scheduler.Core.{Switch, rotate, retire, take_zombie, unwrap_or, switch_into}
use velora_os.Scheduler.Invariant.{WellFormed, occupied-le}
use velora_os.Scheduler.Invariant.Steps.{take_zombie-none, take_zombie-some, reaped}
use velora_os.Scheduler.Steps.{Step, writes, reaps, Step-WellFormed}
use velora_os.Scheduler.System.{
  Kernel, save_pointer, free_thread, reap_taken, reap_zombie, schedule_on, schedule,
  exit_current_thread,
}

abbrev pub table_of : Option Thread → Option ℕ
table_of none = none
table_of (some t) = t.page_table

-- The page table of the thread in a slot; `none` for a thread without one of its own.
abbrev pub table_at : List (Option Thread) → ℕ → Option ℕ
table_at ts i = table_of (thread_at ts i)

-- The state `s` is installed and well-formed, the boot thread has no address space of its own, the
-- running thread's table is `own`, and `active` is in CR3.
pub record Runs (own active : ℕ) (k : Kernel) (s : SchedulerState) : Type 0 where
  pub installed : k.scheduler ≡ some s
  pub formed : WellFormed s
  pub boot_shared : table_at s.threads 0 ≡ none
  pub owner : unwrap_or (table_at s.threads s.current) s.kernel_page_table ≡ own
  pub in_cr3 : k.cr3 ≡ active

-- The running thread's own table is active.
abbrev pub Settled : Kernel → Type 0
Settled k = (own : ℕ) × (s : SchedulerState) × Runs own own k s

-- A thread is written back with the page table it had.
table_at-write :
    (ts : List (Option Thread)) (i j : ℕ) (t t' : Thread)
    → thread_at ts i ≡ some t
    → t'.page_table ≡ t.page_table
    → table_at (set ts i (some t')) j ≡ table_at ts j
unfolding thread_at
table_at-write [] i j t t' e same = refl
table_at-write (x ∷ ts) zero zero t t' e same = same ∙ sym (ap table_of e)
table_at-write (x ∷ ts) zero (suc j) t t' e same = refl
table_at-write (x ∷ ts) (suc i) zero t t' e same = refl
table_at-write (x ∷ ts) (suc i) (suc j) t t' e same = table_at-write ts i j t t' e same

-- A change of another slot is not seen.
pub table_at-other :
    (ts : List (Option Thread)) (i j : ℕ) (o : Option Thread)
    → i ≢ j
    → table_at (set ts i o) j ≡ table_at ts j
unfolding thread_at
table_at-other ts i j o ne = ap table_of (get_or-set_ne ts i j o none ne)

abbrev pub written : SchedulerState → ℕ → Thread → SchedulerState
written s i t = record s { threads = set s.threads i (some t) }

module _ {own active : ℕ} {k : Kernel} {s : SchedulerState} (r : Runs own active k s) where
  -- The same world, once its state is known.
  pub reinstalled : Runs own active (record k { scheduler = some s }) s
  reinstalled = record {
    installed = refl;
    formed = r.formed;
    boot_shared = r.boot_shared;
    owner = r.owner;
    in_cr3 = r.in_cr3;
  }

  pub Runs-write :
      (i : ℕ) (t t' : Thread)
      → thread_at s.threads i ≡ some t
      → t'.page_table ≡ t.page_table
      → Runs own active (record k { scheduler = some (written s i t') }) (written s i t')
  unfolding unwrap_or
  Runs-write i t t' e same = record {
    installed = refl;
    formed = Step-WellFormed (writes i t t' e refl) tt r.formed;
    boot_shared = table_at-write s.threads i 0 t t' e same ∙ r.boot_shared;
    owner =
        ap (λ o. unwrap_or o s.kernel_page_table) (table_at-write s.threads i s.current t t' e same)
        ∙ r.owner;
    in_cr3 = r.in_cr3;
  }

  pub Runs-save_pointer :
      (id pointer : ℕ)
      → Runs own active
          (record k { scheduler = some (save_pointer s id pointer) })
          (save_pointer s id pointer)
  unfolding save_pointer
  Runs-save_pointer id pointer = elim (Option-cases (thread_at s.threads id)) [
    | inl e ↦ rw (e, save_pointer) reinstalled
    | inr (t, e) ↦
        rw (e, save_pointer) (Runs-write id t (record t { stack_pointer = pointer }) e refl)
  ]

  -- The zombie is neither the boot thread nor the one that runs.
  zombie_apart : (id : ℕ) → s.zombie ≡ some id → (id ≢ 0) × (id ≢ s.current)
  zombie_apart id e = (
    λ z. ground (arith, r.formed.boot),
    λ z. ground (arith, r.formed.roles id, occupied-le s.threads id),
  )

  Runs-reaped :
      (id : ℕ)
      → s.zombie ≡ some id
      → Runs own active (record k { scheduler = some (reaped s id) }) (reaped s id)
  unfolding unwrap_or
  Runs-reaped id e =
      let (not_boot, not_current) = zombie_apart id e in
      let gone : reaped s id ≡ (take_zombie s).1 = sym (ap (λ p. p.1) (take_zombie-some s id e)) in
      record {
        installed = refl;
        formed = Step-WellFormed (reaps gone) tt r.formed;
        boot_shared = table_at-other s.threads id 0 none not_boot ∙ r.boot_shared;
        owner =
            ap (λ o. unwrap_or o s.kernel_page_table)
              (table_at-other s.threads id s.current none not_current)
            ∙ r.owner;
        in_cr3 = r.in_cr3;
      }

-- After the cleanup no zombie is left, and the table in CR3 is `active` or the kernel's.
abbrev pub Reaped : ℕ → ℕ → Kernel → Type 0
Reaped own active k =
    (table : ℕ) × (s : SchedulerState) × Runs own table k s
    × (s.zombie ≡ none)
    × ((table ≡ active) ⊎ (table ≡ s.kernel_page_table))

module _ (P : Paging) (offset : ℕ) where
  abbrev Frees : ℕ → Kernel → Kernel → Type 0
  Frees table k k' = (k'.scheduler ≡ k.scheduler) × (k'.cr3 ≡ table)

  free_thread-Frees :
      (t : Thread) (table : ℕ) (k : Kernel)
      → Ensures (Frees table k) (free_thread P offset t table k)
  unfolding free_thread
  free_thread-Frees t table k =
      >>=-Always (Frees table k) (expect (checked_add t.stack_base t.stack_bytes)) _
        (λ stack_end. by_table stack_end t.page_table)
    where
      cleared : Kernel
      cleared = record k {
        cr3 = table;
        freed_stacks = (t.stack_base, t.stack_bytes) ∷ k.freed_stacks;
      }

      by_table :
          (stack_end : ℕ) (o : Option ℕ)
          → Ensures (Frees table k) (elim o as (λ _. Outcome Kernel) [
            | none ↦ ok cleared
            | some page_table ↦ expect k.frames >>= (λ a.
                free_address_space k.tables
                  (record { start = t.stack_base; end = stack_end })
                  P
                  page_table
                  offset
                  a
                >>= (λ a'. ok (record cleared { frames = some a' })))
          ])
      by_table stack_end none = (refl, refl)
      by_table stack_end (some page_table) = >>=-Always (Frees table k) (expect k.frames) _ (λ a.
          >>=-Always (Frees table k)
            (free_address_space k.tables (record { start = t.stack_base; end = stack_end }) P
              page_table offset a)
            _ (λ a'. (refl, refl)))

  -- A kernel whose scheduler is as it was, with another table in CR3.
  switched :
      {own active : ℕ} {k k' : Kernel} {s : SchedulerState} (table : ℕ)
      → Runs own active k s
      → Frees table k k'
      → Runs own table k' s
  switched table r f = record {
    installed = f.0 ∙ r.installed;
    formed = r.formed;
    boot_shared = r.boot_shared;
    owner = r.owner;
    in_cr3 = f.1;
  }

  reap_taken-Reaped :
      {own active : ℕ} {k : Kernel} {s : SchedulerState}
      → Runs own active k s
      → Ensures (Reaped own active) (reap_taken P offset k (take_zombie s))
  unfolding reap_taken
  reap_taken-Reaped {own} {active} {k} {s} r = elim (Option-cases s.zombie) [
    | inl e ↦ rw (take_zombie-none s e, reap_taken) (active, s, reinstalled r, e, inl refl)
    | inr (id, e) ↦
        rw (take_zombie-some s id e, reap_taken)
          (by_thread id (Runs-reaped r id e) (thread_at s.threads id))
  ]
    where
      by_thread :
          (id : ℕ)
          → Runs own active (record k { scheduler = some (reaped s id) }) (reaped s id)
          → (o : Option Thread)
          → Ensures (Reaped own active) (reap_taken P offset k (o, reaped s id))
      by_thread id r' none = (active, reaped s id, r', refl, inl refl)
      by_thread id r' (some t) =
          Ensures-map (Frees s.kernel_page_table (record k { scheduler = some (reaped s id) }))
            (Reaped own active)
            (free_thread P offset t s.kernel_page_table
              (record k { scheduler = some (reaped s id) }))
            (free_thread-Frees t s.kernel_page_table (record k { scheduler = some (reaped s id) }))
            (λ k' f.
              (s.kernel_page_table, reaped s id, switched s.kernel_page_table r' f, refl, inr refl))

  pub reap_zombie-Reaped :
      {own active : ℕ} {k : Kernel} {s : SchedulerState}
      → Runs own active k s
      → Ensures (Reaped own active) (reap_zombie P offset k)
  unfolding reap_zombie
  reap_zombie-Reaped {own} {active} {k} {s} r = rw (r.installed, reap_zombie) (reap_taken-Reaped r)
