-- ===== src/Syscall/Io.antt =====
-- syscall.rs: the calls on the console, the keyboard and files.
pub mod Laws
pub mod Files
mod Runs
use velora_os.Base.{
  ℕ, zero, suc, ◌-◌, ◌<◌, Bool, true, false, not, List, [], ◌∷◌, ◌||◌, Option, none, some, Outcome,
  ok, panic, stuck, ltb, leb, ◌==◌, min, length, if◌then◌else◌, u64_mod,
}
use velora_os.Keyboard.{InputQueue, pop}
use velora_os.Scheduler.State.{first_file_fd}
use velora_os.Scheduler.Core.{unwrap_or}
use velora_os.Scheduler.Files.{open_file, read_open_file, close_file}
use velora_os.Fs.Read.{read_file}
use velora_os.Syscall.World.{
  World, Platform, Call, ◌>>=◌, ◌>>◌, return, lift, codes, print, under_kernel_table,
  with_current_thread,
}
use velora_os.Syscall.Copy.{check_range, copy_from_user, copy_to_user}

-- `u64::MAX`, what a failed call returns.
abbrev pub u64_max : ℕ
u64_max = u64_mod - 1

-- `while count < len` of `sys_read_stdin`, with `n` bytes still wanted.
unfoldable pub drain : ℕ → InputQueue → Outcome (List ℕ × InputQueue)
drain zero q = ok ([], q)
drain (suc n) q = elim (pop q) [
  | panic ↦ panic
  | stuck ↦ stuck
  | ok (byte, q') ↦ more byte q' (drain n q')
]
  where
    more : Option ℕ → InputQueue → Outcome (List ℕ × InputQueue) → Outcome (List ℕ × InputQueue)
    more none q' rest = ok ([], q')
    more (some b) q' panic = panic
    more (some b) q' stuck = stuck
    more (some b) q' (ok (bytes, q'')) = ok (b ∷ bytes, q'')

unfoldable pub take_input : ℕ → Call (List ℕ)
unfolding drain
take_input len w = elim (drain len w.input) [
  | panic ↦ panic
  | stuck ↦ stuck
  | ok (bytes, q) ↦ return bytes (record w { input = q })
]

module _ (E : Platform) where
  unfoldable pub sys_write : ℕ → ℕ → ℕ → Call ℕ
  unfolding copy_from_user print
  sys_write fd ptr len = if not (fd == 1) then return u64_max else (do
    staged ← copy_from_user E ptr (min len 1024)
    elim (E.from_utf8 staged) [
      | some s ↦ print s
      | none ↦ print (codes "<sys_write: invalid utf-8>")
    ]
    return (min len 1024))

  -- `if !bytes.is_empty() { copy_to_user(..) }`, and the count.
  unfoldable pub deliver : ℕ → List ℕ → Call ℕ
  unfolding copy_to_user
  deliver ptr bytes = do
    if ltb 0 (length bytes) then copy_to_user E ptr bytes else return tt
    return (length bytes)

  unfoldable pub sys_read_stdin : ℕ → ℕ → Call ℕ
  unfolding check_range under_kernel_table take_input deliver
  sys_read_stdin ptr len = do
    check_range E "sys_read: destination pointer not mapped for write" ptr len true
    bytes ← under_kernel_table (take_input len)
    deliver ptr bytes

  unfoldable pub sys_read_file : ℕ → ℕ → ℕ → Call ℕ
  unfolding check_range with_current_thread read_open_file deliver
  sys_read_file fd ptr len = do
    check_range E "sys_read: destination pointer not mapped for write" ptr len true
    copied ← with_current_thread (read_open_file fd len)
    elim copied [ some bytes ↦ deliver ptr bytes | none ↦ return u64_max ]

  unfoldable pub sys_read : ℕ → ℕ → ℕ → Call ℕ
  unfolding sys_read_stdin sys_read_file
  sys_read fd ptr len =
      if min len 256 == 0
      then return 0
      else if fd == 0
      then sys_read_stdin ptr (min len 256)
      else if leb first_file_fd fd
      then sys_read_file fd ptr (min len 256)
      else return u64_max

  unfoldable pub sys_open : ℕ → ℕ → Call ℕ
  unfolding copy_from_user under_kernel_table with_current_thread open_file unwrap_or
  sys_open path_ptr path_len = if path_len == 0 || ltb 255 path_len then return u64_max else (do
    staged ← copy_from_user E path_ptr path_len
    elim (E.from_utf8 staged) [
      | none ↦ return u64_max
      | some path ↦ (do
        found ← under_kernel_table (lift (read_file E.disk staged))
        elim found [
          | none ↦ return u64_max
          | some bytes ↦ (do
            fd ← with_current_thread (λ t. ok (open_file bytes t))
            return (unwrap_or fd u64_max))
        ])
    ])

unfoldable pub sys_close : ℕ → Call ℕ
unfolding with_current_thread close_file
sys_close fd = do
  closed ← with_current_thread (λ t. ok (close_file fd t))
  return (if closed then 0 else u64_max)
