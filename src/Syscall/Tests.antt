-- ===== src/Syscall/Tests.antt =====
-- System calls on concrete worlds.
use velora_os.Base.{
  ℕ, ◌+◌, ◌≡◌, ◌⊎◌, inr, Option, refl, true, false, List, ◌∷◌, none, some, ok, arith, replicate,
  take, drop,
}
use velora_os.Memory.Tests.{four_levels, tables}
use velora_os.Scheduler.Queue.{pop_front}
use velora_os.Scheduler.State.{boot_thread, thread_at}
use velora_os.Scheduler.Core.{Switch, retire, take_zombie, unwrap_or}
use velora_os.Scheduler.System.{Kernel, exit_current_thread, schedule, reap_zombie, reap_taken}
use velora_os.Scheduler.System.Tests.{kernel}
use velora_os.Scheduler.Tests.{spawned, running, running-WellFormed, exited, to_user, user_thread}
use velora_os.Scheduler.Settled.{Runs}
use velora_os.Scheduler.Settled.Switches.{After, schedule-After}
use velora_os.Keyboard
use velora_os.Keyboard.{InputQueue, contents}
use velora_os.Syscall.World.{World, Platform, returned, kill_current_thread}
use velora_os.Syscall.World.Laws.{Gone}
use velora_os.Syscall.Copy.{copy_from_user}
use velora_os.Syscall.Copy.Laws.{Usable, Reads, copy_from_user-Copies}
use velora_os.Syscall.Io.{sys_read_stdin}
use velora_os.Syscall.Io.Laws.{Delivers, sys_read_stdin-Reads}
use velora_os.Syscall.Process.{dispatch}
use velora_os.Syscall.Entry.{Cpu}
use velora_os.Syscall.Moves.{Moves}
use velora_os.Syscall.Moves.Processes.{dispatch-Moves, Resumes}

-- Two bytes wait; `a` is the older one.
abbrev typed : InputQueue
typed = record { bytes = b'a' ∷ b'b' ∷ replicate 126 0; head = 0; len = 2 }

-- The thread in slot 1 runs.
abbrev pub world : World
world = record {
  kernel = kernel;
  input = typed;
  screen = record {
    column_position = 0;
    color = 7;
    buffer = λ r c. record { ascii_character = 0; color = 0 };
  };
  frames = λ f j. 0;
}

-- The boot thread runs, and the thread in slot 1 has not finished; then that thread runs, and exits.
abbrev waiting : World
waiting = record world { kernel = record kernel { scheduler = some spawned } }

abbrev pub after_exit : Kernel
after_exit = record kernel {
  scheduler = some (record exited {
    threads =
        some boot_thread ∷ some (record user_thread { stack_pointer = 0x8000 }) ∷ replicate 14 none;
  });
  interrupts = false;
}

abbrev finished : World
finished = record world { kernel = after_exit }

-- The user page of `tables` is mapped.
abbrev user_world : World
user_world = record world { kernel = record kernel { cr3 = 1; tables = tables } }

abbrev pub platform : Platform
platform = record {
  paging = four_levels;
  translate_page = λ t page. some page;
  map_stack = λ root page f t a. none;
  map_to = λ root page f writable t a. none;
  from_utf8 = λ bytes. some bytes;
  disk = λ lba. replicate 512 0;
  physical_memory_offset = 0x18000000000;
  thread_trampoline = 0x100000;
  ring3_trampoline = 0x100100;
  alloc_stack = λ k. some 0x20000;
  stack_pointer = 0x8000;
  resumed = λ round w. finished;
}

running-Runs : Runs 0x1000 0x1000 kernel running
unfolding thread_at unwrap_or
running-Runs = record {
  installed = refl;
  formed = running-WellFormed;
  boot_shared = refl;
  owner = refl;
  in_cr3 = refl;
}

exits : exit_current_thread four_levels 0x18000000000 0x8000 kernel ≡ ok (to_user, after_exit)
unfolding exit_current_thread reap_zombie reap_taken take_zombie retire pop_front
exits = refl

-- While the caller waits, the thread in slot 1 exits, which resumes it.
resumes : Resumes platform 0x1000
unfolding thread_at unwrap_or
resumes round w settled = (
  kernel,
  after_exit,
  to_user,
  _,
  (0x1000, running, running-Runs),
  inr exits,
  refl,
  refl,
  refl,
  refl,
)

-- A wait.
dispatch-Moves_example : Moves 0x1000 0x1000 0x1000 (dispatch platform 8 6 257 0 0 0)
dispatch-Moves_example = dispatch-Moves platform 0x1000 resumes 8 6 257 0 0 0

no_zombie : reap_zombie four_levels 0x18000000000 kernel ≡ ok kernel
unfolding reap_zombie reap_taken take_zombie
no_zombie = refl

schedule-After_example :
    (r : Option Switch × Kernel) × (schedule four_levels 0x18000000000 0x8000 kernel ≡ ok r)
    × After 0x1000 r
schedule-After_example = schedule-After four_levels 0x18000000000 0x8000 running-Runs no_zombie

copy_from_user-Copies_example :
    let usable = Usable four_levels tables 1 false 0x400010 16 in
    (usable
      × ((bytes : List ℕ) × (copy_from_user platform 0x400010 16 user_world
            ≡ ok (returned bytes, user_world))
          × Reads four_levels tables 1 (λ f j. 0) 0x400010 16 bytes))
    ⊎ (¬ usable
        × (copy_from_user platform 0x400010 16 user_world
            ≡ kill_current_thread platform "syscall argument pointer not mapped for read"
                user_world))
copy_from_user-Copies_example =
    copy_from_user-Copies platform user_world 0x400010 16 (omega arith) (omega arith) (omega arith)

typed-IsValid : Keyboard.IsValid typed
typed-IsValid = record { slots = refl; head_in = omega arith; len_in = omega arith }

sys_read_stdin-Reads_example :
    let usable = Usable four_levels tables 1 true 0x400010 16 in
    (usable
      × ((q : InputQueue) × Keyboard.IsValid q
          × (contents q ≡ drop 16 (contents typed))
          × Delivers platform
              (record user_world { input = q })
              0x400010
              (take 16 (contents typed))
              (sys_read_stdin platform 0x400010 16 user_world)))
    ⊎ (¬ usable × Gone user_world (sys_read_stdin platform 0x400010 16 user_world))
sys_read_stdin-Reads_example =
    sys_read_stdin-Reads platform user_world 0x400010 16 refl typed-IsValid (omega arith)
      (omega arith) (omega arith)

-- A compiled call that adds its first two arguments and clobbers R11.
abbrev adder : Cpu → Cpu
adder m = record m {
  registers = record m.registers { rax = m.registers.rdi + m.registers.rsi; r11 = 0 };
}

abbrev cpu : Cpu
cpu = record {
  registers = record {
    rax = 1;
    rbx = 2;
    rcx = 3;
    rdx = 4;
    rsi = 5;
    rdi = 6;
    rbp = 7;
    r8 = 8;
    r9 = 9;
    r10 = 10;
    r11 = 11;
    r12 = 12;
    r13 = 13;
    r14 = 14;
    r15 = 15;
  };
  rsp = 0x9008;
  words = λ a. 0;
}
