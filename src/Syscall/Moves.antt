-- ===== src/Syscall/Moves.antt =====
-- What every system call keeps: the scheduler's invariant, and the page table in CR3.
pub mod Calls
pub mod Processes
use velora_os.Base.{
  ℕ, Bool, true, false, not, ◌≡◌, refl, sym, ap, subst, List, Option, none, some, Outcome, ok,
  panic, stuck, ◌==◌, expect, Ensures, if◌then◌else◌, Option-cases, inl, inr,
}
use velora_os.Scheduler.State.{SchedulerState, Thread, thread_at}
use velora_os.Scheduler.Settled.{Runs, Settled, Runs-write, written}
use velora_os.Scheduler.Settled.Switches.{exit_current_thread-Settled}
use velora_os.Scheduler.System.{Kernel, exit_current_thread}
use velora_os.Scheduler.Core.{Switch}
use velora_os.Vga.{Writer, write_string}
use velora_os.Syscall.World.{
  World, Platform, Reply, returned, exited, Call, ◌>>=◌, ◌>>◌, return, lift, print,
  kernel_page_table, write_cr3, bracketed, under_kernel_table, on_thread, with_current_thread,
  exit_thread, kill_current_thread,
}
use Prim.Native.String.{String}

-- A call from the thread with the table `own`: where it returns, `b` is in CR3; where the thread is
-- gone, another runs with its own table.
abbrev pub Post {ℓ} : {A : Type ℓ} → ℕ → ℕ → Outcome (Reply A × World) → Type 0
Post own b panic = Unit
Post own b stuck = Unit
Post own b (ok (returned a, w)) = (s : SchedulerState) × Runs own b w.kernel s
Post own b (ok (exited x, w)) = Settled w.kernel

pub record Moves {ℓ} {A : Type ℓ} (own a b : ℕ) (m : Call A) : Type 0 where
  pub after : (w : World) (s : SchedulerState) → Runs own a w.kernel s → Post own b (m w)

module _ {ℓ κ} {A : Type ℓ} {B : Type κ} where
  pub >>=-Moves :
      {own : ℕ} (a b c : ℕ) (m : Call A) (next : A → Call B)
      → Moves own a b m
      → ((x : A) → Moves own b c (next x))
      → Moves own a c (m >>= next)
  >>=-Moves {own} a b c m next h k = record { after = λ w s r. by_reply (m w) (h.after w s r) }
    where
      by_reply :
          (o : Outcome (Reply A × World))
          → Post own b o
          → Post own c (elim o as (λ _. Outcome (Reply B × World)) [
            | panic ↦ panic
            | stuck ↦ stuck
            | ok (reply, w') ↦ elim reply [ exited x ↦ ok (exited x, w') | returned a ↦ next a w' ]
          ])
      by_reply panic p = tt
      by_reply stuck p = tt
      by_reply (ok (returned x, w')) (s', r') = (k x).after w' s' r'
      by_reply (ok (exited x, w')) p = p

module _ {ℓ} {A : Type ℓ} where
  pub >>-Moves :
      {own : ℕ} (a b c : ℕ) (m : Call (Unit {0})) (after : Call A)
      → Moves own a b m
      → Moves own b c after
      → Moves own a c (m >> after)
  >>-Moves a b c m after h k = >>=-Moves a b c m (λ _. after) h (λ _. k)

  pub return-Moves : (own a : ℕ) (x : A) → Moves own a a (return x)
  return-Moves own a x = record { after = λ w s r. (s, r) }

  pub lift-Moves : (own a : ℕ) (m : Outcome A) → Moves own a a (lift m)
  lift-Moves own a panic = record { after = λ w s r. tt }
  lift-Moves own a stuck = record { after = λ w s r. tt }
  lift-Moves own a (ok x) = record { after = λ w s r. (s, r) }

  pub if-Moves :
      {own a : ℕ} (b : Bool) (m m' : Call A)
      → Moves own a a m
      → Moves own a a m'
      → Moves own a a (if b then m else m')
  if-Moves true m m' h h' = h
  if-Moves false m m' h h' = h'

-- CR3 written, where the flag says so.
loaded :
    {own a : ℕ} {k : Kernel} {s : SchedulerState} (table : ℕ)
    → Runs own a k s
    → Runs own table (record k { cr3 = table }) s
loaded table r = record {
  installed = r.installed;
  formed = r.formed;
  boot_shared = r.boot_shared;
  owner = r.owner;
  in_cr3 = refl;
}

pub print-Moves : (own a : ℕ) (text : List ℕ) → Moves own a a (print text)
unfolding print
print-Moves own a text = record { after = λ w s r. by_screen w s r (write_string text w.screen) }
  where
    by_screen :
        (w : World) (s : SchedulerState)
        → Runs own a w.kernel s
        → (o : Outcome Writer)
        → Post own a (elim o as (λ _. Outcome (Reply (Unit {0}) × World)) [
          | panic ↦ panic
          | stuck ↦ stuck
          | ok screen ↦ ok (returned tt, record w { screen = screen })
        ])
    by_screen w s r panic = tt
    by_screen w s r stuck = tt
    by_screen w s r (ok x) = (s, r)

write_cr3-Moves : (own a table : ℕ) → Moves own a table (write_cr3 true table)
unfolding write_cr3
write_cr3-Moves own a table = record { after = λ w s r. (s, loaded table r) }

no_write-Moves : (own a table : ℕ) → Moves own a a (write_cr3 false table)
unfolding write_cr3
no_write-Moves own a table = record { after = λ w s r. (s, r) }

module _ {ℓ} {A : Type ℓ} where
  bracketed-Moves :
      {own : ℕ} (needs : Bool) (table a : ℕ) (block : Call A)
      → ((x : ℕ) → Moves own x x block)
      → Moves own a a (bracketed needs table a block)
  unfolding bracketed
  bracketed-Moves {own} true table a block h =
      >>-Moves a table a _ _ (write_cr3-Moves own a table) (
        >>=-Moves table table a block _ (h table)
          (λ x. >>-Moves table a a _ _ (write_cr3-Moves own table a) (return-Moves own a x)))
  bracketed-Moves {own} false table a block h = >>-Moves a a a _ _ (no_write-Moves own a table) (
      >>=-Moves a a a block _ (h a)
        (λ x. >>-Moves a a a _ _ (no_write-Moves own a a) (return-Moves own a x)))

  pub under_kernel_table-Moves :
      {own : ℕ} (a : ℕ) (block : Call A)
      → ((x : ℕ) → Moves own x x block)
      → Moves own a a (under_kernel_table block)
  unfolding under_kernel_table
  under_kernel_table-Moves {own} a block h = record {
    after = λ w s r.
        (>>=-Moves a a a (lift (kernel_page_table w.kernel))
            (λ table. bracketed (not (w.kernel.cr3 == table)) table w.kernel.cr3 block)
            (lift-Moves own a (kernel_page_table w.kernel))
            (λ table.
              subst (λ c. Moves own a a (bracketed (not (c == table)) table c block)) (sym r.in_cr3)
                (bracketed-Moves (not (a == table)) table a block h))).after
          w s r;
  }

module _ {ℓ} (A : Type ℓ) where
  pub exit_thread-Moves : (E : Platform) (own a : ℕ) → Moves own a a (exit_thread E {A = A})
  unfolding exit_thread
  exit_thread-Moves E own a = record {
    after = λ w s r.
        by_exit w (exit_current_thread E.paging E.physical_memory_offset E.stack_pointer w.kernel)
          (exit_current_thread-Settled E.paging E.physical_memory_offset E.stack_pointer r);
  }
    where
      by_exit :
          (w : World)
          → (o : Outcome (Switch × Kernel)) → Ensures (λ x. Settled x.1) o
          → Post {A = A} own a (elim o as (λ _. Outcome (Reply A × World)) [
            | panic ↦ panic
            | stuck ↦ stuck
            | ok (x, k) ↦ ok (exited x, record w { kernel = k })
          ])
      by_exit w panic p = tt
      by_exit w stuck p = tt
      by_exit w (ok (x, k)) p = p

  pub kill_current_thread-Moves :
      (E : Platform) (own a : ℕ) (reason : String)
      → Moves own a a (kill_current_thread E {A = A} reason)
  unfolding kill_current_thread
  kill_current_thread-Moves E own a reason =
      >>-Moves a a a (print _) (exit_thread E) (print-Moves own a _) (exit_thread-Moves E own a)

module _ {ℓ} (A : Type ℓ) (f : Thread → Outcome (A × Thread)) where
  -- `f` leaves the thread in its address space.
  abbrev pub KeepsTable : Type 0
  KeepsTable = (t : Thread) → Ensures (λ r. r.1.page_table ≡ t.page_table) (f t)

  put_back :
      {own a : ℕ} (w : World) (s : SchedulerState) (t : Thread)
      → Runs own a w.kernel s
      → thread_at s.threads s.current ≡ some t
      → (o : Outcome (A × Thread)) → Ensures (λ r. r.1.page_table ≡ t.page_table) o
      → Post {A = A} own a (
          (do
            (result, thread') ← lift o
            λ w. return result (record w {
              kernel = record w.kernel { scheduler = some (written s s.current thread') };
            }))
            w)
  put_back w s t r e panic p = tt
  put_back w s t r e stuck p = tt
  put_back w s t r e (ok (x, t')) p = (written s s.current t', Runs-write r s.current t t' e p)

  on_thread-Moves : (own a : ℕ) → KeepsTable → Moves own a a (on_thread f)
  unfolding on_thread
  on_thread-Moves own a h = record {
    after = λ w s r. elim (Option-cases (thread_at s.threads s.current)) [
      | inl e ↦ simp (r.installed, e, on_thread) tt
      | inr (t, e) ↦ simp (r.installed, e, on_thread) (put_back w s t r e (f t) (h t))
    ];
  }

  pub with_current_thread-Moves : (own a : ℕ) → KeepsTable → Moves own a a (with_current_thread f)
  unfolding with_current_thread
  with_current_thread-Moves own a h =
      under_kernel_table-Moves a (on_thread f) (λ x. on_thread-Moves own x h)
