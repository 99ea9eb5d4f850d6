-- ===== src/Syscall/Moves/Processes.antt =====
-- The calls on processes, and the dispatcher: each keeps the invariant and gives the page table back.
use velora_os.Base.{
  ℕ, zero, suc, ◌+◌, ◌≡◌, ◌⊎◌, inl, inr, ◌∙◌, refl, sym, ap, subst, Bool, true, false, not, List,
  [], Option, none, some, Outcome, ok, panic, stuck, ltb, ◌==◌, ◌||◌, expect, Ensures,
  if◌then◌else◌,
}
use velora_os.Memory.Frames.{FrameAllocator}
use velora_os.Scheduler.State.{SchedulerState, Pid, thread_alive}
use velora_os.Scheduler.Core.{Switch, unwrap_or}
use velora_os.Scheduler.System.{Kernel, schedule, exit_current_thread, spawn_isolated_inner}
use velora_os.Scheduler.Settled.{Runs, Settled, table_at}
use velora_os.Scheduler.Settled.Switches.{After, schedule-Ensures, exit_current_thread-Settled}
use velora_os.Scheduler.Settled.Spawns.{Spawned, spawn_isolated_inner-Spawned}
use velora_os.Fs.Read.{read_file}
use velora_os.Elf.Segments.{Space}
use velora_os.Elf.Loader.{LoadedElf, header_ok, load}
use velora_os.Syscall.Numbers
use velora_os.Syscall.World.{World, Platform, Reply, Call, ◌>>=◌, return, lift, under_kernel_table}
use velora_os.Syscall.Copy.{copy_from_user}
use velora_os.Syscall.Io.{u64_max}
use velora_os.Syscall.Process.{
  start_of, load_elf, spawn_user, spawn_from_path, sys_spawn, alive, yield_now, wait_loop, sys_wait,
  dispatch,
}
use velora_os.Syscall.Moves.{
  Post, Moves, >>=-Moves, >>-Moves, return-Moves, lift-Moves, if-Moves, under_kernel_table-Moves,
  exit_thread-Moves,
}
use velora_os.Syscall.Moves.Calls.{
  copy_from_user-Moves, sys_write-Moves, sys_read-Moves, sys_open-Moves, sys_close-Moves,
}

-- Page tables and frames changed by the loader.
refilled :
    {own a : ℕ} {k k' : Kernel} {s : SchedulerState}
    → Runs own a k s
    → k'.scheduler ≡ k.scheduler
    → k'.cr3 ≡ k.cr3
    → Runs own a k' s
refilled r e e' = record {
  installed = e ∙ r.installed;
  formed = r.formed;
  boot_shared = r.boot_shared;
  owner = r.owner;
  in_cr3 = e' ∙ r.in_cr3;
}

module _ (E : Platform) (own : ℕ) where
  load_elf-Moves : (a : ℕ) (bytes args : List ℕ) → Moves own a a (load_elf E bytes args)
  unfolding load_elf
  load_elf-Moves a bytes args = record { after = λ w s r. by_frames w s r w.kernel.frames }
    where
      by_load :
          (w : World) (s : SchedulerState)
          → Runs own a w.kernel s
          → (o : Outcome (Option LoadedElf × Space))
          → Post own a (elim o as (λ _. Outcome (Reply (Option LoadedElf) × World)) [
            | panic ↦ panic
            | stuck ↦ stuck
            | ok (loaded, s) ↦ return loaded (record w {
              kernel = record w.kernel { tables = s.tables; frames = some s.allocator };
              frames = s.frames;
            })
          ])
      by_load w s r panic = tt
      by_load w s r stuck = tt
      by_load w s r (ok (loaded, x)) = (s, refilled r refl refl)

      by_header :
          (w : World) (s : SchedulerState)
          → Runs own a w.kernel s
          → (b : Bool) → Post {A = Option LoadedElf} own a (if b then panic else return none w)
      by_header w s r true = tt
      by_header w s r false = (s, r)

      by_frames :
          (w : World) (s : SchedulerState)
          → Runs own a w.kernel s
          → (o : Option FrameAllocator)
          → Post own a (elim o as (λ _. Outcome (Reply (Option LoadedElf) × World)) [
            | none ↦ if header_ok bytes then panic else return none w
            | some f ↦
                elim (load E.paging E.map_to bytes E.physical_memory_offset w.kernel.cr3 args
                    (record { tables = w.kernel.tables; allocator = f; frames = w.frames }))
                  as (λ _. Outcome (Reply (Option LoadedElf) × World)) [
                    | panic ↦ panic
                    | stuck ↦ stuck
                    | ok (loaded, s) ↦ return loaded (record w {
                      kernel = record w.kernel { tables = s.tables; frames = some s.allocator };
                      frames = s.frames;
                    })
                  ]
          ])
      by_frames w s r none = by_header w s r (header_ok bytes)
      by_frames w s r (some f) = by_load w s r (
          load E.paging E.map_to bytes E.physical_memory_offset w.kernel.cr3 args
            (record { tables = w.kernel.tables; allocator = f; frames = w.frames }))

  -- The end of `spawn_user`.
  placed :
      (a : ℕ) (w : World) (o : Outcome (Pid × FrameAllocator × Kernel))
      → Ensures (Spawned E.paging E.translate_page E.map_stack own a) o
      → Post {A = Pid} own a (
          (do
            (pid, a', k) ← lift o
            λ w. return pid (record w { kernel = record k { frames = some a' } }))
            w)
  placed a w panic p = tt
  placed a w stuck p = tt
  placed a w (ok (pid, f, k)) (s, r) = (s, refilled r refl refl)

  spawn_user-Moves : (a : ℕ) (loaded : LoadedElf) → Moves own a a (spawn_user E loaded)
  unfolding spawn_user
  spawn_user-Moves a loaded = record { after = λ w s r. by_frames w s r w.kernel.frames }
    where
      run : World → FrameAllocator → Outcome (Pid × FrameAllocator × Kernel)
      run w f =
          spawn_isolated_inner E.paging E.translate_page E.map_stack E.thread_trampoline
            E.ring3_trampoline (some (start_of loaded.start)) loaded.page_table
            (E.alloc_stack w.kernel) f w.kernel

      by_frames :
          (w : World) (s : SchedulerState)
          → Runs own a w.kernel s
          → (o : Option FrameAllocator)
          → Post {A = Pid} own a (
              (do
                f ← lift (expect o)
                (pid, a', k) ← lift (run w f)
                λ w. return pid (record w { kernel = record k { frames = some a' } }))
                w)
      by_frames w s r none = tt
      by_frames w s r (some f) = placed a w (run w f) (
          spawn_isolated_inner-Spawned E.paging E.translate_page E.map_stack E.thread_trampoline
            E.ring3_trampoline (some (start_of loaded.start)) loaded.page_table
            (E.alloc_stack w.kernel) f r)

  spawn_from_path-Moves : (a : ℕ) (path args : List ℕ) → Moves own a a (spawn_from_path E path args)
  unfolding spawn_from_path
  spawn_from_path-Moves a path args =
      >>=-Moves a a a _ _ (lift-Moves own a (read_file E.disk path)) by_file
    where
      by_program :
          (o : Option LoadedElf)
          → Moves own a a (elim o as (λ _. Call (Option Pid)) [
            | none ↦ return none
            | some l ↦ spawn_user E l >>= (λ pid. return (some pid))
          ])
      by_program none = return-Moves own a none
      by_program (some l) =
          >>=-Moves a a a _ _ (spawn_user-Moves a l) (λ pid. return-Moves own a (some pid))

      by_file :
          (o : Option (List ℕ))
          → Moves own a a (elim o as (λ _. Call (Option Pid)) [
            | none ↦ return none
            | some bytes ↦ load_elf E bytes args >>= (λ loaded.
                elim loaded as (λ _. Call (Option Pid)) [
                  | none ↦ return none
                  | some l ↦ spawn_user E l >>= (λ pid. return (some pid))
                ])
          ])
      by_file none = return-Moves own a none
      by_file (some bytes) = >>=-Moves a a a _ _ (load_elf-Moves a bytes args) by_program

  sys_spawn-Moves :
      (a path_ptr path_len args_ptr args_len : ℕ)
      → Moves own a a (sys_spawn E path_ptr path_len args_ptr args_len)
  unfolding sys_spawn
  sys_spawn-Moves a path_ptr path_len args_ptr args_len =
      if-Moves (path_len == 0 || (ltb 255 path_len || ltb 255 args_len)) _ _
        (return-Moves own a u64_max)
        (>>=-Moves a a a _ _ (copy_from_user-Moves E own a path_ptr path_len)
          (λ staged. by_text staged (E.from_utf8 staged)))
    where
      by_text :
          (staged : List ℕ) (o : Option (List ℕ))
          → Moves own a a (elim o as (λ _. Call ℕ) [
            | none ↦ return u64_max
            | some path ↦
                (if ltb 0 args_len then copy_from_user E args_ptr args_len else return [])
                >>= (λ args.
                    under_kernel_table (spawn_from_path E staged args)
                    >>= (λ pid. return (unwrap_or pid u64_max)))
          ])
      by_text staged none = return-Moves own a u64_max
      by_text staged (some path) =
          >>=-Moves a a a _ _
            (if-Moves (ltb 0 args_len) _ _ (copy_from_user-Moves E own a args_ptr args_len)
              (return-Moves own a []))
            (λ args.
              >>=-Moves a a a _ _
                (under_kernel_table-Moves a (spawn_from_path E staged args)
                  (λ x. spawn_from_path-Moves x staged args))
                (λ pid. return-Moves own a (unwrap_or pid u64_max)))

  alive-Moves : (a : ℕ) (pid : Pid) → Moves own a a (alive pid)
  unfolding alive
  alive-Moves a pid = record { after = λ w s r. by_state w s r w.kernel.scheduler }
    where
      by_state :
          (w : World) (s : SchedulerState)
          → Runs own a w.kernel s
          → (o : Option SchedulerState)
          → Post {A = Bool} own a ((do s ← lift (expect o); return (thread_alive s pid)) w)
      by_state w s r none = tt
      by_state w s r (some x) = (s, r)

  -- A thread that runs with its own table in CR3 from a well-formed state has decided, in `schedule` or
  -- in its exit, for a thread whose table is `own`; the kernel `k` has what that decision has left.
  abbrev pub HandsOver : Kernel → Type 0
  HandsOver k =
      (k0 : Kernel) × (k1 : Kernel) × (x : Switch) × (s : SchedulerState) × Settled k0
      × ((schedule E.paging E.physical_memory_offset E.stack_pointer k0 ≡ ok (some x, k1))
          ⊎ (exit_current_thread E.paging E.physical_memory_offset E.stack_pointer k0 ≡ ok (x, k1)))
      × (k1.scheduler ≡ some s)
      × (unwrap_or (table_at s.threads s.current) s.kernel_page_table ≡ own)
      × (k.scheduler ≡ k1.scheduler)
      × (k.cr3 ≡ k1.cr3)

  -- What the caller relies on while it has yielded: the thread that switches back to it has itself run
  -- from a well-formed state with its own table in CR3.
  abbrev pub Resumes : Type 0
  Resumes = (round : ℕ) (w : World) → Settled w.kernel → HandsOver (E.resumed round w).kernel

  decided :
      {k0 k1 : Kernel} {x : Switch}
      → Settled k0
      → (schedule E.paging E.physical_memory_offset E.stack_pointer k0 ≡ ok (some x, k1))
        ⊎ (exit_current_thread E.paging E.physical_memory_offset E.stack_pointer k0 ≡ ok (x, k1))
      → Settled k1
  decided (mine, s, r) (inl e) =
      subst (Ensures (After mine)) e
        (schedule-Ensures E.paging E.physical_memory_offset E.stack_pointer r)
  decided (mine, s, r) (inr e) =
      subst (Ensures (λ r. Settled r.1)) e
        (exit_current_thread-Settled E.paging E.physical_memory_offset E.stack_pointer r)

  -- Then the caller's own table is in CR3 again.
  handed : {k : Kernel} → HandsOver k → (s : SchedulerState) × Runs own own k s
  handed {k} (k0, k1, x, s, settled, how, there, mine, same, cr3) =
      let (own', s', r) = decided settled how in
      let states : s' ≡ s = let both : some s' ≡ some s = sym r.installed ∙ there in cc in
      let tables : own' ≡ own =
        sym r.owner
        ∙ ap (λ y. unwrap_or (table_at y.threads y.current) y.kernel_page_table) states
        ∙ mine in
      (
        s',
        record {
          installed = same ∙ r.installed;
          formed = r.formed;
          boot_shared = r.boot_shared;
          owner = r.owner ∙ tables;
          in_cr3 = cr3 ∙ r.in_cr3 ∙ tables;
        },
      )

  module _ (resumes : Resumes) where
    yield_now-Moves : (round : ℕ) → Moves own own own (yield_now E round)
    unfolding yield_now
    yield_now-Moves round = record {
      after = λ w s r.
          by_schedule w (schedule E.paging E.physical_memory_offset E.stack_pointer w.kernel)
            (schedule-Ensures E.paging E.physical_memory_offset E.stack_pointer r);
    }
      where
        by_schedule :
            (w : World) (o : Outcome (Option Switch × Kernel))
            → Ensures (After own) o
            → Post own own (elim o as (λ _. Outcome (Reply (Unit {0}) × World)) [
              | panic ↦ panic
              | stuck ↦ stuck
              | ok (none, k) ↦ return tt (record w { kernel = k })
              | ok (some s, k) ↦ return tt (E.resumed round (record w { kernel = k }))
            ])
        by_schedule w panic p = tt
        by_schedule w stuck p = tt
        by_schedule w (ok (none, k)) p = p
        by_schedule w (ok (some s, k)) p = handed (resumes round (record w { kernel = k }) p)

    wait_loop-Moves : (pid fuel round : ℕ) → Moves own own own (wait_loop E pid fuel round)
    unfolding wait_loop
    wait_loop-Moves pid zero round = record { after = λ w s r. tt }
    wait_loop-Moves pid (suc fuel) round =
        >>=-Moves own own own _ _ (alive-Moves own pid) (λ running.
          if-Moves running _ _
            (>>-Moves own own own _ _ (yield_now-Moves round)
              (wait_loop-Moves pid fuel (round + 1)))
            (return-Moves own own 0))

    sys_wait-Moves : (pid fuel : ℕ) → Moves own own own (sys_wait E pid fuel)
    unfolding sys_wait
    sys_wait-Moves pid fuel = >>=-Moves own own own _ _ (alive-Moves own pid) (λ running.
        if-Moves (not running) _ _ (return-Moves own own u64_max) (wait_loop-Moves pid fuel 0))

    -- Every system call, with any number and any arguments, from a well-formed state in which the boot
    -- thread has no address space of its own and the calling thread's page table is in CR3. Where it
    -- returns to the caller, the state is well-formed and the caller's own table is in CR3 again; where the
    -- caller has exited or was killed, the state is well-formed and the table of the thread that runs next
    -- is in CR3. For a wait that yields it relies on this of the other threads: the one whose decision
    -- resumes the caller has run from a well-formed state with its own table in CR3. A call may also
    -- panic, or a wait run out of rounds.
    pub dispatch-Moves :
        (fuel number arg1 arg2 arg3 arg4 : ℕ)
        → Moves own own own (dispatch E fuel number arg1 arg2 arg3 arg4)
    unfolding dispatch
    dispatch-Moves fuel number arg1 arg2 arg3 arg4 =
        if-Moves (number == Numbers.sys_write) _ _ (sys_write-Moves E own own arg1 arg2 arg3) (
          if-Moves (number == Numbers.sys_read) _ _ (sys_read-Moves E own own arg1 arg2 arg3) (
            if-Moves (number == Numbers.sys_open) _ _ (sys_open-Moves E own own arg1 arg2) (
              if-Moves (number == Numbers.sys_close) _ _ (sys_close-Moves own own arg1) (
                if-Moves (number == Numbers.sys_spawn) _ _ (sys_spawn-Moves own arg1 arg2 arg3 arg4)
                  (if-Moves (number == Numbers.sys_wait) _ _ (sys_wait-Moves arg1 fuel) (
                    if-Moves (number == Numbers.sys_exit) _ _ (exit_thread-Moves ℕ E own own)
                      (return-Moves own own u64_max)))))))
