-- ===== src/Interrupts/Laws.antt =====
-- The lines of the PICs, and who may use a gate.
use velora_os.Base.{
  ℕ, zero, suc, ◌+◌, ◌<◌, ◌≡◌, ◌↔◌, refl, inl, inr, true, List, ◌∷◌, none, some, ok, arith, ◌==◌,
  Bool-cases,
}
use velora_os.Executor.{TaskId, ArrayQueue}
use velora_os.Interrupts.{
  Gate, idt, Machine, serve, notify_end_of_interrupt, keyboard_interrupt_handler, push_scancode,
  write_cr3,
}
use velora_os.Keyboard.Scancodes.{AtomicWaker, Decoder, Keys, add_scancode}
use velora_os.Keyboard.Wakeups.Queues.{KeysOk, Pressed, add_scancode-Pressed}
use velora_os.Memory.Paging.{Paging}
use velora_os.Scheduler.State.{SchedulerState}
use velora_os.Scheduler.System.{Kernel}
use velora_os.Syscall.World.{kernel_page_table}

-- Ring 3 may raise the system calls' vector with a software interrupt, and no other.
pub idt-from_ring3 :
    (vector : ℕ) (gate : Gate) → idt vector ≡ some gate → (gate.from_ring3 ≡ true) ↔ (vector ≡ 0x80)
unfolding idt
idt-from_ring3 vector gate e = (λ h. ground arith, λ h. ground arith)

module _ (A : ArrayQueue) (W : AtomicWaker) (D : Decoder) (show_task : TaskId → List ℕ) (P : Paging)
    (offset pointer scancode : ℕ) (frame : List ℕ) where
  -- The lines with nothing to do.
  served :
      (line : ℕ) (m : Machine A W D show_task)
      → 1 < line
      → line < 16
      → serve A W D show_task P offset pointer scancode frame (32 + line) m
        ≡ ok (none, notify_end_of_interrupt A W D show_task (32 + line) m)
  unfolding serve
  served zero m low high = absurd (omega arith)
  served (suc zero) m low high = absurd (omega arith)
  served (suc (suc zero)) m low high = refl
  served (suc (suc (suc zero))) m low high = refl
  served (suc (suc (suc (suc zero)))) m low high = refl
  served (suc (suc (suc (suc (suc zero))))) m low high = refl
  served (suc (suc (suc (suc (suc (suc zero)))))) m low high = refl
  served (suc (suc (suc (suc (suc (suc (suc zero))))))) m low high = refl
  served (suc (suc (suc (suc (suc (suc (suc (suc zero)))))))) m low high = refl
  served (suc (suc (suc (suc (suc (suc (suc (suc (suc zero))))))))) m low high = refl
  served (suc (suc (suc (suc (suc (suc (suc (suc (suc (suc zero)))))))))) m low high = refl
  served (suc (suc (suc (suc (suc (suc (suc (suc (suc (suc (suc zero))))))))))) m low high = refl
  served (suc (suc (suc (suc (suc (suc (suc (suc (suc (suc (suc (suc zero)))))))))))) m low high =
      refl
  served (suc (suc (suc (suc (suc (suc (suc (suc (suc (suc (suc (suc (suc zero))))))))))))) m low
        high =
      refl
  served (suc (suc (suc (suc (suc (suc (suc (suc (suc (suc (suc (suc (suc (suc zero)))))))))))))) m
        low high =
      refl
  served
        (suc
          (suc (suc (suc (suc (suc (suc (suc (suc (suc (suc (suc (suc (suc (suc zero)))))))))))))))
        m low high =
      refl
  served
        (suc (
          suc
            (suc (suc (suc (suc (suc (suc (suc (suc (suc (suc (suc (suc (suc (suc n))))))))))))))))
        m low high =
      absurd (omega arith)

  table_of :
      (k : Kernel) (s : SchedulerState)
      → k.scheduler ≡ some s
      → kernel_page_table k ≡ ok s.kernel_page_table
  unfolding kernel_page_table
  table_of k s e = simp (e, kernel_page_table)

  push_scancode-ok :
      (m : Machine A W D show_task) (s : SchedulerState) (k : Keys A W D show_task)
      → m.kernel.scheduler ≡ some s
      → (m.kernel.cr3 == s.kernel_page_table) ≡ true
      → add_scancode A W D show_task scancode m.keys ≡ ok k
      → push_scancode A W D show_task scancode m ≡ ok (record m { keys = k })
  unfolding push_scancode
  push_scancode-ok m s k e here run = simp (table_of m.kernel s e, here, run, push_scancode)

  -- What the keyboard's handler needs: the scheduler, and the queues as they are after boot.
  module _ (task : TaskId) (m : Machine A W D show_task) (s : SchedulerState) (q : A.Queue)
      (scheduled : m.kernel.scheduler ≡ some s) (valid : KeysOk A W D show_task task m.keys q) where
    keyboard_interrupt_handler-returns :
        (m' : Machine A W D show_task) × (keyboard_interrupt_handler A W D show_task scancode m
          ≡ ok m')
        × (m'.acknowledged ≡ 33 ∷ m.acknowledged)
        × (m'.kernel ≡ m.kernel)
        × (add_scancode A W D show_task scancode m.keys ≡ ok m'.keys)
    unfolding keyboard_interrupt_handler write_cr3 notify_end_of_interrupt Pressed
    keyboard_interrupt_handler-returns =
        let (k', q', run, v', c, changed) =
          add_scancode-Pressed A W D show_task task scancode m.keys q valid in
        elim (Bool-cases (m.kernel.cr3 == s.kernel_page_table)) [
          | inl same ↦ (
            record m { keys = k'; acknowledged = 33 ∷ m.acknowledged },
            rw (table_of m.kernel s scheduled, same, push_scancode-ok m s k' scheduled same run)
                refl,
            refl,
            refl,
            run,
          )
          | inr other ↦ (
            record m { keys = k'; acknowledged = 33 ∷ m.acknowledged },
            rw
                (
                  table_of m.kernel s scheduled,
                  other,
                  push_scancode-ok
                      (record m { kernel = record m.kernel { cr3 = s.kernel_page_table } }) s k'
                      scheduled same_table run,
                )
                refl,
            refl,
            refl,
            run,
          )
        ]
      where
        same_table : (s.kernel_page_table == s.kernel_page_table) ≡ true
        same_table = ground arith

    -- Each line of the two PICs but the timer's has a handler, which returns whatever page table is
    -- active when the interrupt comes: it acknowledges exactly the vector of its own line, and leaves
    -- the kernel's state as it was, CR3 included. The scheduler is initialised, and the keyboard's
    -- queues are as after boot.
    pub serve-line :
        (line : ℕ)
        → 0 < line
        → line < 16
        → (m' : Machine A W D show_task) × (serve A W D show_task P offset pointer scancode frame
              (32 + line)
              m
            ≡ ok (none, m'))
          × (m'.acknowledged ≡ (32 + line) ∷ m.acknowledged)
          × (m'.kernel ≡ m.kernel)
    unfolding serve notify_end_of_interrupt
    serve-line zero low high = absurd (omega arith)
    serve-line (suc zero) low high =
        let (m', run, told, kernel, _) = keyboard_interrupt_handler-returns in
        (m', rw (run, serve) refl, told, kernel)
    serve-line (suc (suc n)) low high = (
      notify_end_of_interrupt A W D show_task (32 + suc (suc n)) m,
      served (suc (suc n)) m (omega arith) high,
      refl,
      refl,
    )
