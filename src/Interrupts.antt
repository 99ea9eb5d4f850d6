-- ===== src/Interrupts.antt =====
-- interrupts.rs: the interrupt descriptor table, and the handlers of exceptions and of the PIC's lines.
pub mod Laws
mod Tests
use velora_os.Base.{
  ℕ, ◌+◌, ◌≡◌, Bool, true, false, not, List, [], ◌∷◌, ◌++◌, Option, none, some, Outcome, ok, panic,
  ◌>>=◌, ◌>>◌, assert, ◌==◌, ltb, leb, ◌&&◌, if◌then◌else◌,
}
use velora_os.Executor.{TaskId, ArrayQueue}
use velora_os.Keyboard.Scancodes.{AtomicWaker, Decoder, Keys, println, add_scancode}
use velora_os.Memory.Paging.{Paging}
use velora_os.Scheduler.Core.{Switch}
use velora_os.Scheduler.System.{Kernel, tick}
use velora_os.Syscall.World.{kernel_page_table}

abbrev pub pic_1_offset : ℕ
pic_1_offset = 32

abbrev pub pic_2_offset : ℕ
pic_2_offset = pic_1_offset + 8

abbrev pub syscall_vector : ℕ
syscall_vector = 0x80

abbrev pub double_fault_ist_index : ℕ
double_fault_ist_index = 0

-- `InterruptIndex`
pub data InterruptIndex : Type 0 where
  timer keyboard : InterruptIndex

abbrev pub as_u8 : InterruptIndex → ℕ
as_u8 timer = pic_1_offset
as_u8 keyboard = pic_1_offset + 1

-- The handlers; `irq` is what the macro makes for a line, with the vector that it is given.
pub data Handler : Type 0 where
  breakpoint double_fault page_fault general_protection_fault : Handler
  timer_interrupt keyboard_interrupt : Handler
  irq : ℕ → Handler

-- What a gate leads to: a handler, or `entry` of syscall.rs.
pub data Target : Type 0 where
  to_handler : Handler → Target
  to_entry : Target

pub record Gate : Type 0 where
  pub target : Target
  pub stack_index : Option ℕ
  pub from_ring3 : Bool

-- `set_handler_fn`: a gate for the kernel, on the current stack.
abbrev pub set_handler_fn : Handler → Option Gate
set_handler_fn h = some (record { target = to_handler h; stack_index = none; from_ring3 = false })

-- The table by vector. The processor's exceptions have their architectural numbers.
unfoldable pub idt : ℕ → Option Gate
idt vector =
    if vector == 3
    then set_handler_fn breakpoint
    else if vector == 8
    then some (record {
      target = to_handler double_fault;
      stack_index = some double_fault_ist_index;
      from_ring3 = false;
    })
    else if vector == 14
    then set_handler_fn page_fault
    else if vector == 13
    then set_handler_fn general_protection_fault
    else if vector == as_u8 timer
    then set_handler_fn timer_interrupt
    else if vector == as_u8 keyboard
    then set_handler_fn keyboard_interrupt
    else if vector == pic_1_offset + 2
    then set_handler_fn (irq (pic_1_offset + 2))
    else if vector == pic_1_offset + 3
    then set_handler_fn (irq (pic_1_offset + 3))
    else if vector == pic_1_offset + 4
    then set_handler_fn (irq (pic_1_offset + 4))
    else if vector == pic_1_offset + 5
    then set_handler_fn (irq (pic_1_offset + 5))
    else if vector == pic_1_offset + 6
    then set_handler_fn (irq (pic_1_offset + 6))
    else if vector == pic_1_offset + 7
    then set_handler_fn (irq (pic_1_offset + 7))
    else if vector == pic_2_offset
    then set_handler_fn (irq pic_2_offset)
    else if vector == pic_2_offset + 1
    then set_handler_fn (irq (pic_2_offset + 1))
    else if vector == pic_2_offset + 2
    then set_handler_fn (irq (pic_2_offset + 2))
    else if vector == pic_2_offset + 3
    then set_handler_fn (irq (pic_2_offset + 3))
    else if vector == pic_2_offset + 4
    then set_handler_fn (irq (pic_2_offset + 4))
    else if vector == pic_2_offset + 5
    then set_handler_fn (irq (pic_2_offset + 5))
    else if vector == pic_2_offset + 6
    then set_handler_fn (irq (pic_2_offset + 6))
    else if vector == pic_2_offset + 7
    then set_handler_fn (irq (pic_2_offset + 7))
    else if vector == syscall_vector
    then some (record { target = to_entry; stack_index = none; from_ring3 = true })
    else none

module _ (A : ArrayQueue) (W : AtomicWaker) (D : Decoder) (show_task : TaskId → List ℕ) where
  -- The kernel, the keyboard's queues, and the vectors that the PICs were told of, the last first.
  pub record Machine : Type 0 where
    pub kernel : Kernel
    pub keys : Keys A W D show_task
    pub acknowledged : List ℕ

  unfoldable pub notify_end_of_interrupt : ℕ → Machine → Machine
  notify_end_of_interrupt vector m = record m { acknowledged = vector ∷ m.acknowledged }

  -- `Cr3::write` under a test
  unfoldable pub write_cr3 : Bool → ℕ → Machine → Machine
  write_cr3 needed table m =
      if needed then record m { kernel = record m.kernel { cr3 = table } } else m

  -- `add_scancode` from the handler. Its queues are on the heap, which the kernel's page table alone
  -- maps: under another table the first access is a page fault, and the handler of that panics.
  unfoldable pub push_scancode : ℕ → Machine → Outcome Machine
  unfolding add_scancode
  push_scancode scancode m = do
    table ← kernel_page_table m.kernel
    assert (m.kernel.cr3 == table)
    keys ← add_scancode A W D show_task scancode m.keys
    ok (record m { keys = keys })

  -- `scancode` is the byte at port 0x60.
  unfoldable pub keyboard_interrupt_handler : ℕ → Machine → Outcome Machine
  unfolding write_cr3 push_scancode notify_end_of_interrupt
  keyboard_interrupt_handler scancode m = do
    let interrupted_page_table = m.kernel.cr3
    table ← kernel_page_table m.kernel
    let switched = not (interrupted_page_table == table)
    m1 ← push_scancode scancode (write_cr3 switched table m)
    let m2 = write_cr3 switched interrupted_page_table m1
    ok (notify_end_of_interrupt (as_u8 keyboard) m2)

  -- The line is acknowledged before the scheduler may switch away.
  unfoldable pub timer_interrupt_handler :
      Paging → ℕ → ℕ → Machine → Outcome (Option Switch × Machine)
  unfolding notify_end_of_interrupt
  timer_interrupt_handler P offset pointer m = do
    let m1 = notify_end_of_interrupt (as_u8 timer) m
    (switch, kernel) ← tick P offset pointer m1.kernel
    ok (switch, record m1 { kernel = kernel })

  -- A handler's run up to a switch of threads: `frame` is the text that is printed of the stack frame.
  unfoldable pub handle :
      Paging → ℕ → ℕ → ℕ → List ℕ → Handler → Machine → Outcome (Option Switch × Machine)
  unfolding keyboard_interrupt_handler timer_interrupt_handler
  handle P offset pointer scancode frame breakpoint m = do
    keys ← println A W D show_task frame m.keys
    ok (none, record m { keys = keys })
  handle P offset pointer scancode frame double_fault m = panic
  handle P offset pointer scancode frame page_fault m = panic
  handle P offset pointer scancode frame general_protection_fault m = panic
  handle P offset pointer scancode frame timer_interrupt m =
      timer_interrupt_handler P offset pointer m
  handle P offset pointer scancode frame keyboard_interrupt m = do
    m' ← keyboard_interrupt_handler scancode m
    ok (none, m')
  handle P offset pointer scancode frame (irq vector) m =
      ok (none, notify_end_of_interrupt vector m)

  -- The processor takes a vector of the PICs: without a handler it resets the machine.
  unfoldable pub serve :
      Paging → ℕ → ℕ → ℕ → List ℕ → ℕ → Machine → Outcome (Option Switch × Machine)
  unfolding idt handle
  serve P offset pointer scancode frame vector m = elim (idt vector) [
    | none ↦ panic
    | some gate ↦ elim gate.target [
      | to_handler h ↦ handle P offset pointer scancode frame h m
      | to_entry ↦ panic
    ]
  ]
