-- ===== src/Scheduler/State.antt =====
-- The scheduler's data: threads, open files, the state behind SCHEDULER, and pids.
use velora_os.Base.{
  ℕ, ◌*◌, ◌/◌, ◌%◌, ◌^◌, Bool, true, false, ◌&&◌, List, ◌∷◌, Option, none, some, ltb, ◌==◌,
  replicate, get_or, bit_and, bit_or,
}
use velora_os.Scheduler.Queue
use velora_os.Scheduler.Queue.{ReadyQueue, ThreadId, max_threads}

abbrev pub stack_size : ℕ
stack_size = 64 * 1024

abbrev pub max_open_files : ℕ
max_open_files = 4

abbrev pub first_file_fd : ℕ
first_file_fd = 2

pub record OpenFile : Type 0 where
  pub bytes : List ℕ
  pub offset : ℕ

-- The entry point, the stack top, and the argument block's address and length.
pub record UserEntry : Type 0 where
  pub entry : ℕ
  pub stack_top : ℕ
  pub args_ptr : ℕ
  pub args_len : ℕ

-- Functions and frames are named by their addresses.
pub record Thread : Type 0 where
  pub stack_pointer : ℕ
  pub stack_base : ℕ
  pub stack_bytes : ℕ
  pub entry : Option ℕ
  pub page_table : Option ℕ
  pub kernel_stack_top : ℕ
  pub open_files : List (Option OpenFile)
  pub user_entry : Option UserEntry

pub record SchedulerState : Type 0 where
  pub threads : List (Option Thread)
  pub ready_queue : ReadyQueue
  pub current : ThreadId
  pub kernel_page_table : ℕ
  pub zombie : Option ThreadId
  pub slot_generations : List ℕ

abbrev pub no_files : List (Option OpenFile)
no_files = replicate max_open_files none

abbrev pub boot_thread : Thread
boot_thread = record {
  stack_pointer = 0;
  stack_base = 0;
  stack_bytes = 0;
  entry = none;
  page_table = none;
  kernel_stack_top = 0;
  open_files = no_files;
  user_entry = none;
}

-- The state that `init` installs; `cr3` is the table active at that moment.
unfoldable pub init : ℕ → SchedulerState
init cr3 = record {
  threads = some boot_thread ∷ replicate 15 none;
  ready_queue = Queue.new;
  current = 0;
  kernel_page_table = cr3;
  zombie = none;
  slot_generations = 1 ∷ replicate 15 0;
}

-- A pid is a `u64`: the shift drops what leaves the top.
abbrev pub Pid : Type 0
Pid = ℕ

unfoldable pub pack_pid : ThreadId → ℕ → Pid
pack_pid slot generation = bit_or (generation * 2 ^ 8 % 2 ^ 64) slot

unfoldable pub unpack_pid : Pid → ThreadId × ℕ
unpack_pid pid = (bit_and pid 0xFF, pid / 2 ^ 8)

-- The thread in a slot of the table: `none` for a free slot and for one past the end.
unfoldable pub thread_at : List (Option Thread) → ℕ → Option Thread
thread_at ts i = get_or ts i none

unfoldable pub is_some {ℓ} : {A : Type ℓ} → Option A → Bool
is_some none = false
is_some (some a) = true

unfoldable pub is_none {ℓ} : {A : Type ℓ} → Option A → Bool
is_none none = true
is_none (some a) = false

unfoldable pub thread_alive : SchedulerState → Pid → Bool
unfolding thread_at is_some unpack_pid
thread_alive s pid =
    let (slot, generation) = unpack_pid pid in
    ltb slot max_threads
    && (is_some (thread_at s.threads slot) && get_or s.slot_generations slot 0 == generation)
