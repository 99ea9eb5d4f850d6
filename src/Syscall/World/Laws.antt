-- ===== src/Syscall/World/Laws.antt =====
-- A call that has killed its caller does not go on, and has taken nothing from the keyboard.
use velora_os.Base.{
  ℕ, ◌≡◌, refl, sym, ap, ◌∙◌, Bool, true, false, not, ◌==◌, some, Outcome, ok, panic, stuck,
}
use velora_os.Scheduler.Core.{Switch}
use velora_os.Scheduler.System.{Kernel, exit_current_thread}
use velora_os.Scheduler.State.{SchedulerState}
use velora_os.Vga.{Writer, write_string}
use velora_os.Syscall.World.{
  World, Platform, Reply, returned, exited, Call, ◌>>=◌, ◌>>◌, print, exit_thread,
  kill_current_thread, bracketed, write_cr3, under_kernel_table, kernel_page_table, return, lift,
}
use Prim.Native.String.{String}

-- The world with another table in CR3.
abbrev pub at_table : ℕ → World → World
at_table c w = record w { kernel = record w.kernel { cr3 = c } }

module _ {ℓ κ} {A : Type ℓ} {B : Type κ} (E : Platform) where
  exit-then : (next : A → Call B) (w : World) → (exit_thread E >>= next) w ≡ exit_thread E w
  unfolding exit_thread
  exit-then next w =
      by_exit (exit_current_thread E.paging E.physical_memory_offset E.stack_pointer w.kernel)
    where
      by_exit :
          (o : Outcome (Switch × Kernel))
          → (elim (elim o as (λ _. Outcome (Reply A × World)) [
            | panic ↦ panic
            | stuck ↦ stuck
            | ok (s, k) ↦ ok (exited s, record w { kernel = k })
          ])
              as (λ _. Outcome (Reply B × World)) [
                | panic ↦ panic
                | stuck ↦ stuck
                | ok (reply, w') ↦ elim reply [
                  | exited s ↦ ok (exited s, w')
                  | returned a ↦ next a w'
                ]
              ])
            ≡ (elim o as (λ _. Outcome (Reply B × World)) [
              | panic ↦ panic
              | stuck ↦ stuck
              | ok (s, k) ↦ ok (exited s, record w { kernel = k })
            ])
      by_exit panic = refl
      by_exit stuck = refl
      by_exit (ok (s, k)) = refl

  -- What follows a kill is not reached.
  pub kill-then :
      (reason : String) (next : A → Call B) (w : World)
      → (kill_current_thread E reason >>= next) w ≡ kill_current_thread E reason w
  unfolding kill_current_thread print
  kill-then reason next w = by_screen (write_string _ w.screen)
    where
      by_screen :
          (o : Outcome Writer)
          → (elim (elim (elim o as (λ _. Outcome (Reply (Unit {0}) × World)) [
            | panic ↦ panic
            | stuck ↦ stuck
            | ok screen ↦ ok (returned tt, record w { screen = screen })
          ])
                as (λ _. Outcome (Reply A × World)) [
                  | panic ↦ panic
                  | stuck ↦ stuck
                  | ok (reply, w') ↦ elim reply [
                    | exited s ↦ ok (exited s, w')
                    | returned a ↦ exit_thread E w'
                  ]
                ])
              as (λ _. Outcome (Reply B × World)) [
                | panic ↦ panic
                | stuck ↦ stuck
                | ok (reply, w') ↦ elim reply [
                  | exited s ↦ ok (exited s, w')
                  | returned a ↦ next a w'
                ]
              ])
            ≡ (elim (elim o as (λ _. Outcome (Reply (Unit {0}) × World)) [
              | panic ↦ panic
              | stuck ↦ stuck
              | ok screen ↦ ok (returned tt, record w { screen = screen })
            ])
                as (λ _. Outcome (Reply B × World)) [
                  | panic ↦ panic
                  | stuck ↦ stuck
                  | ok (reply, w') ↦ elim reply [
                    | exited s ↦ ok (exited s, w')
                    | returned a ↦ exit_thread E w'
                  ]
                ])
      by_screen panic = refl
      by_screen stuck = refl
      by_screen (ok screen) = exit-then next (record w { screen = screen })

-- What follows a call that returns.
pub >>=-returned {ℓ κ} :
    {A : Type ℓ} {B : Type κ} (m : Call A) (next : A → Call B) (a : A) (w w' : World)
    → m w ≡ ok (returned a, w')
    → (m >>= next) w ≡ next a w'
>>=-returned {A = A} {B} m next a w w' e =
    ap
      (λ o. elim o as (λ _. Outcome (Reply B × World)) [
        | panic ↦ panic
        | stuck ↦ stuck
        | ok (reply, w') ↦ elim reply [ exited s ↦ ok (exited s, w') | returned a ↦ next a w' ]
      ])
      e

-- A block that leaves CR3 and the scheduler alone is run as it is, whichever table is active.
module _ {ℓ} {A : Type ℓ} where
  bracketed-runs :
      (needs_switch : Bool) (table : ℕ) (block : Call A) (a : A) (w w' : World)
      → ((c : ℕ) → block (at_table c w) ≡ ok (returned a, at_table c w'))
      → w'.kernel.cr3 ≡ w.kernel.cr3
      → bracketed needs_switch table w.kernel.cr3 block w ≡ ok (returned a, w')
  unfolding bracketed write_cr3
  bracketed-runs true table block a w w' e same =
      >>=-returned block (λ x. write_cr3 true w.kernel.cr3 >> return x) a (at_table table w)
        (at_table table w') (e table)
      ∙ ap (λ c. ok (returned a, at_table c w')) (sym same)
  bracketed-runs false table block a w w' e same =
      >>=-returned block (λ x. write_cr3 false w.kernel.cr3 >> return x) a w
        (at_table w.kernel.cr3 w') (e w.kernel.cr3)
      ∙ ap (λ c. ok (returned a, at_table c w')) (sym same)

  pub under_kernel_table-runs :
      (block : Call A) (a : A) (w w' : World) (s : SchedulerState)
      → w.kernel.scheduler ≡ some s
      → ((c : ℕ) → block (at_table c w) ≡ ok (returned a, at_table c w'))
      → w'.kernel.cr3 ≡ w.kernel.cr3
      → under_kernel_table block w ≡ ok (returned a, w')
  unfolding under_kernel_table kernel_page_table
  under_kernel_table-runs block a w w' s there e same =
      >>=-returned (lift (kernel_page_table w.kernel))
        (λ table. bracketed (not (w.kernel.cr3 == table)) table w.kernel.cr3 block)
        s.kernel_page_table w w (rw (there, kernel_page_table) refl)
      ∙ bracketed-runs (not (w.kernel.cr3 == s.kernel_page_table)) s.kernel_page_table block a w w'
          e same

-- The caller is gone, and the input queue is as it was.
abbrev pub Gone {ℓ} : {A : Type ℓ} → World → Outcome (Reply A × World) → Type 0
Gone w panic = Unit
Gone w stuck = Unit
Gone w (ok (returned a, w')) = ⊥
Gone w (ok (exited x, w')) = w'.input ≡ w.input

module _ {ℓ} (A : Type ℓ) (E : Platform) where
  exit-Gone : (w v : World) → w.input ≡ v.input → Gone v (exit_thread E {A = A} w)
  unfolding exit_thread
  exit-Gone w v e =
      by_exit (exit_current_thread E.paging E.physical_memory_offset E.stack_pointer w.kernel)
    where
      by_exit :
          (o : Outcome (Switch × Kernel))
          → Gone v (elim o as (λ _. Outcome (Reply A × World)) [
            | panic ↦ panic
            | stuck ↦ stuck
            | ok (s, k) ↦ ok (exited s, record w { kernel = k })
          ])
      by_exit panic = tt
      by_exit stuck = tt
      by_exit (ok (s, k)) = e

  pub kill-Gone : (reason : String) (w : World) → Gone w (kill_current_thread E {A = A} reason w)
  unfolding kill_current_thread print
  kill-Gone reason w = by_screen (write_string _ w.screen)
    where
      by_screen :
          (o : Outcome Writer)
          → Gone w
              (elim (elim o as (λ _. Outcome (Reply (Unit {0}) × World)) [
                | panic ↦ panic
                | stuck ↦ stuck
                | ok screen ↦ ok (returned tt, record w { screen = screen })
              ])
                as (λ _. Outcome (Reply A × World)) [
                  | panic ↦ panic
                  | stuck ↦ stuck
                  | ok (reply, w') ↦ elim reply [
                    | exited s ↦ ok (exited s, w')
                    | returned a ↦ exit_thread E w'
                  ]
                ])
      by_screen panic = tt
      by_screen stuck = tt
      by_screen (ok screen) = exit-Gone (record w { screen = screen }) w refl
