-- ===== src/Interrupts/Tests.antt =====
-- The keyboard's line and the spurious one, on a concrete machine whose running thread has a page table
-- of its own.
use velora_os.Base.{◌≡◌, refl, inl, true, [], ◌∷◌, none, some, ok, arith}
use velora_os.Executor.Tests.{list_queue}
use velora_os.Keyboard.Runs.{cell, arrows, show, keys}
use velora_os.Keyboard.Wakeups.Queues.{KeysOk}
use velora_os.Interrupts.{Gate, to_entry, idt, Machine, serve}
use velora_os.Interrupts.Laws.{serve-line}
use velora_os.Memory.Tests.{four_levels}
use velora_os.Scheduler.System.Tests.{kernel}
use velora_os.Scheduler.Tests.{running}

abbrev machine : Machine list_queue cell arrows show
machine = record { kernel = record kernel { cr3 = 1 }; keys = keys; acknowledged = [] }

valid : KeysOk list_queue cell arrows show 7 keys (100, [])
valid = record {
  there = refl;
  fits = omega arith;
  room = omega arith;
  fits_codes = omega arith;
  only = (refl, tt);
  holder = inl refl;
  input = record { slots = refl; head_in = omega arith; len_in = omega arith };
  screen = record { column = omega arith };
}

serve-line_example :
    (m' : Machine list_queue cell arrows show) × (serve list_queue cell arrows show four_levels 0 0
        30 [] 33 machine
      ≡ ok (none, m'))
    × (m'.acknowledged ≡ 33 ∷ [])
    × (m'.kernel ≡ machine.kernel)
serve-line_example =
    serve-line list_queue cell arrows show four_levels 0 0 30 [] 7 machine running (100, []) refl
      valid 1 (omega arith) (omega arith)

abbrev syscall_gate : Gate
syscall_gate = record { target = to_entry; stack_index = none; from_ring3 = true }

installed : idt 0x80 ≡ some syscall_gate
unfolding idt
installed = refl
