-- ===== src/Scheduler/System/Laws.antt =====
-- Scheduling decisions: no panic, a well-formed state after them, and each stack freed once.
use velora_os.Base.{
  ℕ, ◌+◌, ◌<◌, ◌≡◌, refl, sym, ap, ap₂, ◌∙◌, inl, inr, false, List, [], ◌∷◌, ◌++◌, set, subst,
  arith, Option, none, some, Outcome, ok, panic, ◌>>=◌, expect, checked_add_fits, u64_mod,
  Option-cases,
}
use velora_os.Memory.Paging.{Paging}
use velora_os.Scheduler.State.{SchedulerState, Thread, thread_at}
use velora_os.Scheduler.Queue.{contents}
use velora_os.Scheduler.Queue.Laws.{pop_front-Pops}
use velora_os.Scheduler.Core.{Switch, rotate, take_zombie, unwrap_or, switch_into}
use velora_os.Scheduler.Invariant.{WellFormed, WellFormed-Sound, current-there}
use velora_os.Scheduler.Invariant.Steps.{
  rotate-Rotates, rotated-WellFormed, take_zombie-WellFormed, take_zombie-none, take_zombie-some,
  reaped,
}
use velora_os.Scheduler.Steps.{writes, Step-WellFormed}
use velora_os.Scheduler.System.{
  Kernel, save_pointer, reap_taken, reap_zombie, free_thread, schedule, schedule_on,
}

save_pointer-WellFormed :
    (s : SchedulerState) (id pointer : ℕ) → WellFormed s → WellFormed (save_pointer s id pointer)
unfolding save_pointer
save_pointer-WellFormed s id pointer w = elim (Option-cases (thread_at s.threads id)) [
  | inl e ↦ rw (e, save_pointer) w
  | inr (t, e) ↦
      rw (e, save_pointer)
        (Step-WellFormed (writes id t (record t { stack_pointer = pointer }) e refl) tt w)
]

-- With the running thread in the table, its stack pointer is saved there.
save_pointer-there :
    (s : SchedulerState) (id pointer : ℕ) (t : Thread)
    → thread_at s.threads id ≡ some t
    → save_pointer s id pointer
      ≡ record s { threads = set s.threads id (some (record t { stack_pointer = pointer })) }
unfolding save_pointer
save_pointer-there s id pointer t e = rw (e, save_pointer) refl

rotate-idle :
    (s : SchedulerState) → WellFormed s → contents s.ready_queue ≡ [] → rotate s ≡ ok (none, s)
unfolding rotate
rotate-idle s w e = elim (pop_front-Pops s.ready_queue w.queue) [
  | inl (e', r) ↦ ground (arith, r)
  | inr (next, q, e', v, c) ↦ absurd cc
]

-- What a scheduling decision from the kernel `k` with the state `s` is: nothing waits and the thread
-- runs on; or the thread at the head of the queue is switched to, and the one that ran goes to its end,
-- with the stack pointer that the switch saves.
pub data Decided (pointer : ℕ) (k : Kernel) (s : SchedulerState) (chosen : Option Switch)
    (k' : Kernel) : Type 0 where
  stays :
      contents s.ready_queue ≡ []
      → chosen ≡ none
      → k' ≡ record k { scheduler = some s }
      → Decided pointer k s chosen k'
  switches :
      (next : ℕ) (rest : List ℕ) (t previous : Thread) (s' : SchedulerState)
      → contents s.ready_queue ≡ next ∷ rest
      → thread_at s.threads next ≡ some t
      → thread_at s.threads s.current ≡ some previous
      → chosen
        ≡ some (record {
          new_stack = t.stack_pointer;
          new_page_table = unwrap_or t.page_table s.kernel_page_table;
          new_rsp0 = t.kernel_stack_top;
        })
      → k'.cr3 ≡ unwrap_or t.page_table s.kernel_page_table
      → k'.rsp0 ≡ t.kernel_stack_top
      → k'.interrupts ≡ false
      → k'.scheduler ≡ some s'
      → s'.current ≡ next
      → contents s'.ready_queue ≡ rest ++ (s.current ∷ [])
      → s'.threads ≡ set s.threads s.current (some (record previous { stack_pointer = pointer }))
      → s'.zombie ≡ s.zombie
      → WellFormed s'
      → Decided pointer k s chosen k'

module _ (P : Paging) (offset : ℕ) where
  reap_of :
      (k : Kernel) (s : SchedulerState)
      → k.scheduler ≡ some s
      → reap_zombie P offset k ≡ reap_taken P offset k (take_zombie s)
  unfolding reap_zombie
  reap_of k s e = ap (λ o. expect o >>= (λ x. reap_taken P offset k (take_zombie x))) e

  reap_taken-none :
      (k : Kernel) (s : SchedulerState)
      → s.zombie ≡ none
      → reap_taken P offset k (take_zombie s) ≡ ok (record k { scheduler = some s })
  unfolding reap_taken
  reap_taken-none k s z = ap (reap_taken P offset k) (take_zombie-none s z)

  reap-nothing :
      (k : Kernel) (s : SchedulerState)
      → k.scheduler ≡ some s
      → s.zombie ≡ none
      → reap_zombie P offset k ≡ ok (record k { scheduler = some s })
  reap-nothing k s e z = reap_of k s e ∙ reap_taken-none k s z

  -- The kernel after a dead kernel thread's cleanup.
  abbrev pub cleaned_up : Kernel → SchedulerState → Thread → Kernel
  cleaned_up k s t = record k {
    scheduler = some (take_zombie s).1;
    cr3 = s.kernel_page_table;
    freed_stacks = (t.stack_base, t.stack_bytes) ∷ k.freed_stacks;
  }

  free_thread-shared :
      (k : Kernel) (t : Thread) (table : ℕ)
      → t.page_table ≡ none
      → t.stack_base + t.stack_bytes < u64_mod
      → free_thread P offset t table k
        ≡ ok (record k {
          cr3 = table;
          freed_stacks = (t.stack_base, t.stack_bytes) ∷ k.freed_stacks;
        })
  unfolding free_thread
  free_thread-shared k t table shared fits =
      rw (checked_add_fits t.stack_base t.stack_bytes fits, shared, free_thread) refl

  reap_taken-some :
      (k : Kernel) (s : SchedulerState) (id : ℕ) (t : Thread)
      → s.zombie ≡ some id
      → thread_at s.threads id ≡ some t
      → t.page_table ≡ none
      → t.stack_base + t.stack_bytes < u64_mod
      → reap_taken P offset k (take_zombie s) ≡ ok (cleaned_up k s t)
  unfolding reap_taken
  reap_taken-some k s id t z there shared fits =
      let left : reaped s id ≡ (take_zombie s).1 = sym (ap (λ r. r.1) (take_zombie-some s id z)) in
      ap (reap_taken P offset k) (take_zombie-some s id z ∙ ap₂ (λ o r. (o, r)) there left)
      ∙ ap (λ table. free_thread P offset t table (record k { scheduler = some (take_zombie s).1 }))
          (sym (ap (λ r. r.kernel_page_table) left))
      ∙ free_thread-shared (record k { scheduler = some (take_zombie s).1 }) t s.kernel_page_table
          shared fits

  pub schedule_on-Decided :
      (pointer : ℕ) (k : Kernel) (s : SchedulerState)
      → WellFormed s
      → (chosen : Option Switch) × (k' : Kernel) × (schedule_on P offset pointer k s
          ≡ ok (chosen, k'))
        × Decided pointer k s chosen k'
  unfolding schedule_on switch_into
  schedule_on-Decided pointer k s w = by_queue (contents s.ready_queue) refl
    where
      by_queue :
          (xs : List ℕ)
          → contents s.ready_queue ≡ xs
          → (chosen : Option Switch) × (k' : Kernel) × (schedule_on P offset pointer k s
              ≡ ok (chosen, k'))
            × Decided pointer k s chosen k'
      by_queue [] c = (
        none,
        record k { scheduler = some s },
        rw (rotate-idle s w c, schedule_on) refl,
        stays c refl refl,
      )
      by_queue (next ∷ rest) c = elim (rotate-Rotates (WellFormed-Sound w)) [
        | inl (c', e) ↦ absurd cc
        | inr (id, t, q, et, e, v, turn) ↦
            let (previous, ep) = current-there (WellFormed-Sound w) in
            let both : next ∷ (rest ++ (s.current ∷ [])) ≡ id ∷ contents q =
              ap (λ xs. xs ++ (s.current ∷ [])) (sym c) ∙ turn in
            let turned : SchedulerState = record s { ready_queue = q; current = id } in
            let same : id ≡ next = cc in
            let saved = save_pointer-there turned s.current pointer previous ep in
            (
              some (switch_into s t),
              record k {
                scheduler = some (save_pointer turned s.current pointer);
                interrupts = false;
                rsp0 = t.kernel_stack_top;
                cr3 = unwrap_or t.page_table s.kernel_page_table;
              },
              rw (e, schedule_on) refl,
              switches next rest t previous (save_pointer turned s.current pointer) c
                  (subst (λ i. thread_at s.threads i ≡ some t) same et) ep refl refl refl refl refl
                  (ap (λ x. x.current) saved ∙ same) (ap (λ x. contents x.ready_queue) saved ∙ cc)
                  (ap (λ x. x.threads) saved) (ap (λ x. x.zombie) saved)
                  (save_pointer-WellFormed turned s.current pointer
                    (rotated-WellFormed s id q w v turn)),
            )
      ]

  decide : ℕ → Kernel → Outcome (Option Switch × Kernel)
  decide pointer k1 = elim k1.scheduler [
    | none ↦ ok (none, k1)
    | some s ↦ schedule_on P offset pointer k1 s
  ]

  -- With the state well-formed and no cleanup pending, a tick or a yield never panics. Where no other
  -- thread waits nothing changes. Otherwise the thread at the head of the queue is current, its page
  -- table, or the kernel's if it has none, is in CR3, its kernel stack in RSP0, its stack pointer goes to
  -- the switch, and interrupts are disabled for it; the thread that ran is the last in the queue with
  -- its stack pointer saved, no other thread has changed, and the state is well-formed.
  pub schedule-Decided :
      (pointer : ℕ) (k : Kernel) {s : SchedulerState}
      → k.scheduler ≡ some s
      → WellFormed s
      → s.zombie ≡ none
      → (chosen : Option Switch) × (k' : Kernel) × (schedule P offset pointer k ≡ ok (chosen, k'))
        × Decided pointer (record k { scheduler = some s }) s chosen k'
  unfolding schedule decide
  schedule-Decided pointer k {s} e w z =
      let (chosen, k', run, d) =
        schedule_on-Decided pointer (record k { scheduler = some s }) s w in
      (chosen, k', ap (λ m. m >>= decide pointer) (reap-nothing k s e z) ∙ run, d)

  -- A tick before `init` panics: `reap_zombie` expects the state that `schedule` would do without.
  pub schedule-before_init :
      (pointer : ℕ) (k : Kernel) → k.scheduler ≡ none → schedule P offset pointer k ≡ panic
  unfolding schedule reap_zombie
  schedule-before_init pointer k e = rw (e, schedule, reap_zombie) refl

  -- From a well-formed state whose zombie is a thread without an address space of its own, the
  -- thread's stack goes back to the heap exactly once: one call of `reap_zombie` frees it under
  -- the kernel's page table and leaves a well-formed state, and the next call changes nothing.
  pub reap_zombie-once :
      (k : Kernel) {s : SchedulerState} (id : ℕ) (t : Thread)
      → k.scheduler ≡ some s
      → WellFormed s
      → s.zombie ≡ some id
      → thread_at s.threads id ≡ some t
      → t.page_table ≡ none
      → t.stack_base + t.stack_bytes < u64_mod
      → (k' : Kernel) × (reap_zombie P offset k ≡ ok k')
        × (k'.freed_stacks ≡ (t.stack_base, t.stack_bytes) ∷ k.freed_stacks)
        × (k'.cr3 ≡ s.kernel_page_table)
        × (reap_zombie P offset k' ≡ ok k')
        × ((s' : SchedulerState) × (k'.scheduler ≡ some s') × WellFormed s')
  reap_zombie-once k {s} id t e w z there shared fits =
      let (w', gone) = take_zombie-WellFormed w in
      (
        cleaned_up k s t,
        reap_of k s e ∙ reap_taken-some k s id t z there shared fits,
        refl,
        refl,
        reap-nothing (cleaned_up k s t) (take_zombie s).1 refl gone,
        ((take_zombie s).1, refl, w'),
      )
