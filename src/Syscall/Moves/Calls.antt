-- ===== src/Syscall/Moves/Calls.antt =====
-- The calls one by one: each keeps the invariant and gives the page table back.
use velora_os.Base.{
  ℕ, Bool, true, false, not, List, Option, none, some, Outcome, ok, panic, stuck, ltb, leb, ◌==◌,
  ◌||◌, min, length, if◌then◌else◌,
}
use velora_os.Memory.Walk.{user_range_ok}
use velora_os.Keyboard.{InputQueue}
use velora_os.Scheduler.State.{SchedulerState, first_file_fd}
use velora_os.Scheduler.Files.{open_file, read_open_file, close_file}
use velora_os.Scheduler.Core.{unwrap_or}
use velora_os.Scheduler.Settled.{Runs}
use velora_os.Scheduler.Files.Tables.{read_open_file-table, open_file-table, close_file-table}
use velora_os.Fs.Read.{read_file}
use velora_os.Syscall.Access.{load_bytes, store_bytes}
use velora_os.Syscall.World.{
  World, Platform, Reply, Call, ◌>>=◌, return, lift, codes, print, under_kernel_table,
  with_current_thread, kill_current_thread,
}
use velora_os.Syscall.Copy.{check_range, copy_from_user, copy_to_user}
use velora_os.Syscall.Io.{
  u64_max, drain, take_input, sys_write, deliver, sys_read_stdin, sys_read_file, sys_read, sys_open,
  sys_close,
}
use velora_os.Syscall.Moves.{
  Post, Moves, >>=-Moves, >>-Moves, return-Moves, lift-Moves, if-Moves, print-Moves,
  under_kernel_table-Moves, with_current_thread-Moves, kill_current_thread-Moves,
}
use Prim.Native.String.{String}

module _ (E : Platform) (own a : ℕ) where
  check_range-Moves :
      (reason : String) (ptr len : ℕ) (need_write : Bool)
      → Moves own a a (check_range E reason ptr len need_write)
  unfolding check_range
  check_range-Moves reason ptr len need_write = record {
    after = λ w s r.
        by_check w s r (user_range_ok E.paging w.kernel.tables w.kernel.cr3 ptr len need_write);
  }
    where
      by_check :
          (w : World) (s : SchedulerState)
          → Runs own a w.kernel s
          → (o : Outcome Bool)
          → Post own a (elim o as (λ _. Outcome (Reply (Unit {0}) × World)) [
            | panic ↦ panic
            | stuck ↦ stuck
            | ok fine ↦ if fine then return tt w else kill_current_thread E reason w
          ])
      by_check w s r panic = tt
      by_check w s r stuck = tt
      by_check w s r (ok true) = (s, r)
      by_check w s r (ok false) = (kill_current_thread-Moves (Unit {0}) E own a reason).after w s r

  -- A step that looks at the world, and may panic.
  peek-Moves {ℓ} : (A : Type ℓ) (f : World → Outcome A) → Moves own a a (λ w. lift (f w) w)
  peek-Moves A f = record { after = λ w s r. (lift-Moves own a (f w)).after w s r }

  pub copy_from_user-Moves : (ptr len : ℕ) → Moves own a a (copy_from_user E ptr len)
  unfolding copy_from_user
  copy_from_user-Moves ptr len =
      >>-Moves a a a _ _
        (check_range-Moves "syscall argument pointer not mapped for read" ptr len false)
        (peek-Moves (List ℕ)
          (λ w. load_bytes E.paging w.kernel.tables w.kernel.cr3 w.frames ptr len))

  copy_to_user-Moves : (ptr : ℕ) (bytes : List ℕ) → Moves own a a (copy_to_user E ptr bytes)
  unfolding copy_to_user
  copy_to_user-Moves ptr bytes =
      >>-Moves a a a _ _
        (check_range-Moves "syscall argument pointer not mapped for write" ptr (length bytes) true)
        (>>=-Moves a a a _ (λ frames w. return tt (record w { frames = frames }))
          (peek-Moves (ℕ → ℕ → ℕ)
            (λ w. store_bytes E.paging w.kernel.tables w.kernel.cr3 ptr bytes w.frames))
          (λ frames. record { after = λ w s r. (s, r) }))

  take_input-Moves : (b len : ℕ) → Moves own b b (take_input len)
  unfolding take_input
  take_input-Moves b len = record { after = λ w s r. by_input w s r (drain len w.input) }
    where
      by_input :
          (w : World) (s : SchedulerState)
          → Runs own b w.kernel s
          → (o : Outcome (List ℕ × InputQueue))
          → Post own b (elim o as (λ _. Outcome (Reply (List ℕ) × World)) [
            | panic ↦ panic
            | stuck ↦ stuck
            | ok (bytes, q) ↦ return bytes (record w { input = q })
          ])
      by_input w s r panic = tt
      by_input w s r stuck = tt
      by_input w s r (ok (bytes, q)) = (s, r)

  pub sys_write-Moves : (fd ptr len : ℕ) → Moves own a a (sys_write E fd ptr len)
  unfolding sys_write
  sys_write-Moves fd ptr len = if-Moves (not (fd == 1)) _ _ (return-Moves own a u64_max) (
      >>=-Moves a a a _ _ (copy_from_user-Moves ptr (min len 1024)) (λ staged.
        >>-Moves a a a _ _ (shown (E.from_utf8 staged)) (return-Moves own a (min len 1024))))
    where
      shown :
          (o : Option (List ℕ))
          → Moves own a a (elim o as (λ _. Call (Unit {0})) [
            | some s ↦ print s
            | none ↦ print (codes "<sys_write: invalid utf-8>")
          ])
      shown (some s) = print-Moves own a s
      shown none = print-Moves own a _

  deliver-Moves : (ptr : ℕ) (bytes : List ℕ) → Moves own a a (deliver E ptr bytes)
  unfolding deliver
  deliver-Moves ptr bytes =
      >>-Moves a a a _ _
        (if-Moves (ltb 0 (length bytes)) _ _ (copy_to_user-Moves ptr bytes) (return-Moves own a tt))
        (return-Moves own a (length bytes))

  sys_read_stdin-Moves : (ptr len : ℕ) → Moves own a a (sys_read_stdin E ptr len)
  unfolding sys_read_stdin
  sys_read_stdin-Moves ptr len =
      >>-Moves a a a _ _
        (check_range-Moves "sys_read: destination pointer not mapped for write" ptr len true)
        (>>=-Moves a a a _ _
          (under_kernel_table-Moves a (take_input len) (λ x. take_input-Moves x len))
          (λ bytes. deliver-Moves ptr bytes))

  sys_read_file-Moves : (fd ptr len : ℕ) → Moves own a a (sys_read_file E fd ptr len)
  unfolding sys_read_file
  sys_read_file-Moves fd ptr len =
      >>-Moves a a a _ _
        (check_range-Moves "sys_read: destination pointer not mapped for write" ptr len true)
        (>>=-Moves a a a _ _
          (with_current_thread-Moves (Option (List ℕ)) (read_open_file fd len) own a
            (read_open_file-table fd len))
          by_result)
    where
      by_result :
          (o : Option (List ℕ))
          → Moves own a a
              (elim o as (λ _. Call ℕ) [ some bytes ↦ deliver E ptr bytes | none ↦ return u64_max ])
      by_result (some bytes) = deliver-Moves ptr bytes
      by_result none = return-Moves own a u64_max

  pub sys_read-Moves : (fd ptr len : ℕ) → Moves own a a (sys_read E fd ptr len)
  unfolding sys_read
  sys_read-Moves fd ptr len = if-Moves (min len 256 == 0) _ _ (return-Moves own a 0) (
      if-Moves (fd == 0) _ _ (sys_read_stdin-Moves ptr (min len 256)) (
        if-Moves (leb first_file_fd fd) _ _ (sys_read_file-Moves fd ptr (min len 256))
          (return-Moves own a u64_max)))

  -- The end of `sys_open`, with the file's bytes.
  opened-Moves :
      (bytes : List ℕ)
      → Moves own a a (
          with_current_thread (λ t. ok (open_file bytes t))
          >>= (λ fd. return (unwrap_or fd u64_max)))
  opened-Moves bytes =
      >>=-Moves a a a _ _
        (with_current_thread-Moves (Option ℕ) (λ t. ok (open_file bytes t)) own a
          (open_file-table bytes))
        (λ fd. return-Moves own a (unwrap_or fd u64_max))

  pub sys_open-Moves : (path_ptr path_len : ℕ) → Moves own a a (sys_open E path_ptr path_len)
  unfolding sys_open
  sys_open-Moves path_ptr path_len =
      if-Moves (path_len == 0 || ltb 255 path_len) _ _ (return-Moves own a u64_max) (
        >>=-Moves a a a _ _ (copy_from_user-Moves path_ptr path_len)
          (λ staged. by_text staged (E.from_utf8 staged)))
    where
      by_file :
          (o : Option (List ℕ))
          → Moves own a a (elim o as (λ _. Call ℕ) [
            | none ↦ return u64_max
            | some bytes ↦
                with_current_thread (λ t. ok (open_file bytes t))
                >>= (λ fd. return (unwrap_or fd u64_max))
          ])
      by_file none = return-Moves own a u64_max
      by_file (some bytes) = opened-Moves bytes

      by_text :
          (staged : List ℕ) (o : Option (List ℕ))
          → Moves own a a (elim o as (λ _. Call ℕ) [
            | none ↦ return u64_max
            | some path ↦ under_kernel_table (lift (read_file E.disk staged)) >>= (λ found.
                elim found as (λ _. Call ℕ) [
                  | none ↦ return u64_max
                  | some bytes ↦
                      with_current_thread (λ t. ok (open_file bytes t))
                      >>= (λ fd. return (unwrap_or fd u64_max))
                ])
          ])
      by_text staged none = return-Moves own a u64_max
      by_text staged (some path) =
          >>=-Moves a a a _ _
            (under_kernel_table-Moves a (lift (read_file E.disk staged))
              (λ x. lift-Moves own x (read_file E.disk staged)))
            by_file

pub sys_close-Moves : (own a fd : ℕ) → Moves own a a (sys_close fd)
unfolding sys_close
sys_close-Moves own a fd =
    >>=-Moves a a a _ _
      (with_current_thread-Moves Bool (λ t. ok (close_file fd t)) own a (close_file-table fd))
      (λ closed. return-Moves own a (if closed then 0 else u64_max))
