-- ===== src/Syscall/Process.antt =====
-- syscall.rs: the calls on processes, and the dispatcher.
use velora_os.Base.{
  ℕ, zero, suc, ◌+◌, Bool, not, List, [], ◌||◌, Option, none, some, ok, panic, stuck, ltb, ◌==◌,
  expect, if◌then◌else◌,
}
use velora_os.Scheduler.State.{UserEntry, Pid, thread_alive}
use velora_os.Scheduler.Core.{unwrap_or}
use velora_os.Scheduler.System.{schedule, spawn_isolated_inner}
use velora_os.Fs.Read.{read_file}
use velora_os.Elf.Loader.{Start, LoadedElf, header_ok, load}
use velora_os.Syscall.Numbers
use velora_os.Syscall.World.{
  Platform, Call, ◌>>=◌, ◌>>◌, return, lift, under_kernel_table, exit_thread,
}
use velora_os.Syscall.Copy.{copy_from_user}
use velora_os.Syscall.Io.{u64_max, sys_write, sys_read, sys_open, sys_close}

abbrev pub start_of : Start → UserEntry
start_of s = record {
  entry = s.entry;
  stack_top = s.stack_top;
  args_ptr = s.args_ptr;
  args_len = s.args_len;
}

-- `scheduler::thread_alive`, under the lock.
unfoldable pub alive : Pid → Call Bool
unfolding thread_alive
alive pid w = (do s ← lift (expect w.kernel.scheduler); return (thread_alive s pid)) w

module _ (E : Platform) where
  -- `elf::load` through the `GlobalFrameAllocator`, which panics where it is not initialised.
  unfoldable pub load_elf : List ℕ → List ℕ → Call (Option LoadedElf)
  unfolding load
  load_elf bytes args w = elim w.kernel.frames [
    | none ↦ if header_ok bytes then panic else return none w
    | some a ↦
        elim (load E.paging E.map_to bytes E.physical_memory_offset w.kernel.cr3 args
          (record { tables = w.kernel.tables; allocator = a; frames = w.frames })) [
            | panic ↦ panic
            | stuck ↦ stuck
            | ok (loaded, s) ↦ return loaded (record w {
              kernel = record w.kernel { tables = s.tables; frames = some s.allocator };
              frames = s.frames;
            })
          ]
  ]

  -- `scheduler::spawn_user` on a loaded program.
  unfoldable pub spawn_user : LoadedElf → Call Pid
  unfolding spawn_isolated_inner
  spawn_user loaded w =
      (do
        a ← lift (expect w.kernel.frames)
        (pid, a', k) ← lift (
            spawn_isolated_inner E.paging E.translate_page E.map_stack E.thread_trampoline
              E.ring3_trampoline (some (start_of loaded.start)) loaded.page_table
              (E.alloc_stack w.kernel) a w.kernel)
        λ w. return pid (record w { kernel = record k { frames = some a' } }))
        w

  unfoldable pub spawn_from_path : List ℕ → List ℕ → Call (Option Pid)
  unfolding load_elf spawn_user
  spawn_from_path path args = do
    found ← lift (read_file E.disk path)
    elim found [
      | none ↦ return none
      | some bytes ↦ (do
        loaded ← load_elf bytes args
        elim loaded [ none ↦ return none | some l ↦ (do pid ← spawn_user l; return (some pid)) ])
    ]

  unfoldable pub sys_spawn : ℕ → ℕ → ℕ → ℕ → Call ℕ
  unfolding copy_from_user under_kernel_table spawn_from_path unwrap_or
  sys_spawn path_ptr path_len args_ptr args_len =
      if path_len == 0 || (ltb 255 path_len || ltb 255 args_len) then return u64_max else (do
        staged ← copy_from_user E path_ptr path_len
        elim (E.from_utf8 staged) [
          | none ↦ return u64_max
          | some path ↦ (do
            args ← if ltb 0 args_len then copy_from_user E args_ptr args_len else return []
            pid ← under_kernel_table (spawn_from_path staged args)
            return (unwrap_or pid u64_max))
        ])

  -- `scheduler::yield_now`: where another thread is switched to, the next that this one sees is the
  -- world in which it runs again.
  unfoldable pub yield_now : ℕ → Call (Unit {0})
  unfolding schedule
  yield_now round w = elim (schedule E.paging E.physical_memory_offset E.stack_pointer w.kernel) [
    | panic ↦ panic
    | stuck ↦ stuck
    | ok (none, k) ↦ return tt (record w { kernel = k })
    | ok (some s, k) ↦ return tt (E.resumed round (record w { kernel = k }))
  ]

  -- `while thread_alive(pid) { yield_now() }`, on fuel.
  unfoldable pub wait_loop : Pid → ℕ → ℕ → Call ℕ
  unfolding alive yield_now
  wait_loop pid zero round = λ w. stuck
  wait_loop pid (suc fuel) round = do
    running ← alive pid
    if running then (do yield_now round; wait_loop pid fuel (round + 1)) else return 0

  unfoldable pub sys_wait : Pid → ℕ → Call ℕ
  unfolding alive wait_loop
  sys_wait pid fuel = do
    running ← alive pid
    if not running then return u64_max else wait_loop pid fuel 0

  -- `fuel` is for the loop of `sys_wait`.
  unfoldable pub dispatch : ℕ → ℕ → ℕ → ℕ → ℕ → ℕ → Call ℕ
  unfolding sys_write sys_read exit_thread sys_open sys_close sys_spawn sys_wait
  dispatch fuel number arg1 arg2 arg3 arg4 =
      if number == Numbers.sys_write
      then sys_write E arg1 arg2 arg3
      else if number == Numbers.sys_read
      then sys_read E arg1 arg2 arg3
      else if number == Numbers.sys_open
      then sys_open E arg1 arg2
      else if number == Numbers.sys_close
      then sys_close arg1
      else if number == Numbers.sys_spawn
      then sys_spawn arg1 arg2 arg3 arg4
      else if number == Numbers.sys_wait
      then sys_wait arg1 fuel
      else if number == Numbers.sys_exit
      then exit_thread E
      else return u64_max
