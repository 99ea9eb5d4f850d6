-- ===== src/Scheduler/Files.antt =====
-- The open files of one thread: the bodies that `open_file`, `read_open_file` and `close_file` run
-- under `with_current_thread`.
mod Tests
pub mod Laws
pub mod Tables
use velora_os.Base.{
  ℕ, ◌+◌, ◌-◌, ◌<◌, ◌≤◌, min, Bool, true, false, List, [], ◌∷◌, Option, none, some, Outcome, ok,
  panic, ◌>>=◌, ◌>>◌, assert, leb, ltb, get_elem?, get_or, set, length, take, drop, position,
  checked_sub,
}
use velora_os.Scheduler.State.{Thread, OpenFile, is_none, first_file_fd}

-- The file in a slot: `none` for an empty slot and past the end.
abbrev pub file_at : Thread → ℕ → Option OpenFile
file_at t slot = get_or t.open_files slot none

unfoldable pub open_file : List ℕ → Thread → Option ℕ × Thread
unfolding is_none
open_file bytes t = elim (position is_none t.open_files) [
  | none ↦ (none, t)
  | some slot ↦ (
    some (slot + first_file_fd),
    record t { open_files = set t.open_files slot (some (record { bytes = bytes; offset = 0 })) },
  )
]

-- The bytes copied stand for `count` and the contents of `buf[..count]`. `&data[offset..]` panics
-- where the offset lies past the end.
unfoldable pub read_open_file : ℕ → ℕ → Thread → Outcome (Option (List ℕ) × Thread)
read_open_file fd buf_len t = elim (checked_sub fd first_file_fd) [
  | none ↦ ok (none, t)
  | some slot ↦ elim (file_at t slot) [
    | none ↦ ok (none, t)
    | some file ↦ (do
      assert (leb file.offset (length file.bytes))
      let remaining = drop file.offset file.bytes
      let count = min (length remaining) buf_len
      ok (
        some (take count remaining),
        record t {
          open_files = set t.open_files slot (some (record file { offset = file.offset + count }));
        },
      ))
  ]
]

unfoldable pub close_file : ℕ → Thread → Bool × Thread
close_file fd t = elim (checked_sub fd first_file_fd) [
  | none ↦ (false, t)
  | some slot ↦ elim (file_at t slot) [
    | none ↦ (false, t)
    | some file ↦ (true, record t { open_files = set t.open_files slot none })
  ]
]
