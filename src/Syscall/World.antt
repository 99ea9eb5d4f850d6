-- ===== src/Syscall/World.antt =====
-- What a system call reads and changes, and how it may end: with a value for the caller, or with the
-- caller's exit.
pub mod Laws
use velora_os.Base.{
  ℕ, Bool, true, false, not, List, [], ◌∷◌, ◌++◌, Option, none, some, Outcome, ok, panic, stuck,
  expect, ◌==◌, set,
}
use velora_os.Memory.Paging.{Paging}
use velora_os.Memory.Frames.{FrameAllocator}
use velora_os.Memory.Walk.{Tables}
use velora_os.Scheduler.State.{SchedulerState, Thread, thread_at}
use velora_os.Scheduler.Core.{Switch}
use velora_os.Scheduler.System.{Kernel, TranslatePage, MapTo, exit_current_thread}
use velora_os.Keyboard.{InputQueue}
use velora_os.Vga.{Writer, write_string}
use Prim.Native.Char.{Char, code}
use Prim.Native.String.{String}

-- The code points of a text.
abbrev pub codes : String → List ℕ
codes String.[] = []
codes (String.◌∷◌ c s) = code c ∷ codes s

-- The kernel, the input queue, the screen, and the bytes of each physical frame.
pub record World : Type 0 where
  pub kernel : Kernel
  pub input : InputQueue
  pub screen : Writer
  pub frames : ℕ → ℕ → ℕ

-- What the calls use of code outside the repository, and what is fixed at boot: the x86_64 crate's
-- addresses and mappers, `core::str::from_utf8` as the characters of a valid text, the data disk, the
-- physical-memory window, the two trampolines' addresses, the heap's answer to the request for a
-- kernel stack, the stack pointer that a switch away saves, and what the world is when the calling
-- thread runs again after it has yielded for the n-th time in a call, from the world that it left.
pub record Platform : Type 0 where
  pub paging : Paging
  pub translate_page : TranslatePage
  pub map_stack : MapTo
  pub map_to : ℕ → ℕ → ℕ → Bool → Tables → FrameAllocator → Option (Tables × FrameAllocator)
  pub from_utf8 : List ℕ → Option (List ℕ)
  pub disk : ℕ → List ℕ
  pub physical_memory_offset : ℕ
  pub thread_trampoline : ℕ
  pub ring3_trampoline : ℕ
  pub alloc_stack : Kernel → Option ℕ
  pub stack_pointer : ℕ
  pub resumed : ℕ → World → World

-- A call that never returns has switched to another thread.
pub data Reply {ℓ} (A : Type ℓ) : Type ℓ where
  returned : A → Reply A
  exited : Switch → Reply A

abbrev pub Call {ℓ} : Type ℓ → Type ℓ
Call A = World → Outcome (Reply A × World)

infixl 5 ◌>>=◌ ◌>>◌
abbrev pub ◌>>=◌ {ℓ κ} : {A : Type ℓ} {B : Type κ} → Call A → (A → Call B) → Call B
(m >>= next) w = elim (m w) [
  | panic ↦ panic
  | stuck ↦ stuck
  | ok (reply, w') ↦ elim reply [ exited s ↦ ok (exited s, w') | returned a ↦ next a w' ]
]

abbrev pub ◌>>◌ {ℓ} : {B : Type ℓ} → Call (Unit {0}) → Call B → Call B
m >> after = m >>= (λ _. after)

abbrev pub return {ℓ} : {A : Type ℓ} → A → Call A
return a w = ok (returned a, w)

-- A step that only computes, and may panic.
abbrev pub lift {ℓ} : {A : Type ℓ} → Outcome A → Call A
lift m w = elim m [ panic ↦ panic | stuck ↦ stuck | ok a ↦ ok (returned a, w) ]

-- `print!` of a text: the writer under its lock.
unfoldable pub print : List ℕ → Call (Unit {0})
print text w = elim (write_string text w.screen) [
  | panic ↦ panic
  | stuck ↦ stuck
  | ok screen ↦ ok (returned tt, record w { screen = screen })
]

-- `scheduler::kernel_page_table`
unfoldable pub kernel_page_table : Kernel → Outcome ℕ
kernel_page_table k = elim (expect k.scheduler) [
  | panic ↦ panic
  | stuck ↦ stuck
  | ok s ↦ ok s.kernel_page_table
]

-- `if needs_switch { Cr3::write(table, flags) }`
unfoldable pub write_cr3 : Bool → ℕ → Call (Unit {0})
write_cr3 true table w = return tt (record w { kernel = record w.kernel { cr3 = table } })
write_cr3 false table w = return tt w

-- A block between the two writes of CR3.
unfoldable pub bracketed {ℓ} : {A : Type ℓ} → Bool → ℕ → ℕ → Call A → Call A
unfolding write_cr3
bracketed needs_switch table caller_page_table block = do
  write_cr3 needs_switch table
  result ← block
  write_cr3 needs_switch caller_page_table
  return result

-- What `sys_read_stdin`, `sys_open`, `sys_spawn` and `with_current_thread` do around a block that
-- needs the heap: the kernel's page table while it runs, the caller's after it.
unfoldable pub under_kernel_table {ℓ} : {A : Type ℓ} → Call A → Call A
unfolding kernel_page_table bracketed
under_kernel_table block w =
    (do
      table ← lift (kernel_page_table w.kernel)
      bracketed (not (w.kernel.cr3 == table)) table w.kernel.cr3 block)
      w

-- `f` on the running thread, in place.
unfoldable pub on_thread {ℓ} : {A : Type ℓ} → (Thread → Outcome (A × Thread)) → Call A
unfolding thread_at
on_thread f w =
    (do
      state ← lift (expect w.kernel.scheduler)
      thread ← lift (expect (thread_at state.threads state.current))
      (result, thread') ← lift (f thread)
      let threads = set state.threads state.current (some thread')
      λ w. return result (record w {
        kernel = record w.kernel { scheduler = some (record state { threads = threads }) };
      }))
      w

-- `scheduler::with_current_thread`
unfoldable pub with_current_thread {ℓ} : {A : Type ℓ} → (Thread → Outcome (A × Thread)) → Call A
unfolding under_kernel_table on_thread
with_current_thread f = under_kernel_table (on_thread f)

module _ (E : Platform) where
  -- `scheduler::exit_current_thread`, which never comes back.
  unfoldable pub exit_thread {ℓ} : {A : Type ℓ} → Call A
  exit_thread w =
      elim (exit_current_thread E.paging E.physical_memory_offset E.stack_pointer w.kernel) [
        | panic ↦ panic
        | stuck ↦ stuck
        | ok (s, k) ↦ ok (exited s, record w { kernel = k })
      ]

  -- `scheduler::kill_current_thread`
  unfoldable pub kill_current_thread {ℓ} : {A : Type ℓ} → String → Call A
  unfolding print exit_thread
  kill_current_thread reason = do
    print (codes "[proc]  thread killed: " ++ codes reason ++ (10 ∷ []))
    exit_thread
