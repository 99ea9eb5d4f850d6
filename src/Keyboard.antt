-- ===== src/Keyboard.antt =====
-- task/keyboard.rs: the input queue that feeds `sys_read`, and what a decoded key puts into it. The
-- decoder is the pc_keyboard crate's; the executor's scheduling of `print_keypresses` is not modelled.
pub mod Laws
pub mod Scancodes
pub mod Loop
pub mod Wakeups
pub mod Idle
pub mod Runs
mod Tests
use velora_os.Base.{
  ℕ, ◌+◌, ◌-◌, ◌%◌, ◌<◌, ◌≤◌, ◌≡◌, Bool, true, false, List, [], ◌∷◌, Option, none, some, Outcome,
  ok, panic, ◌>>=◌, expect, ltb, ◌==◌, if◌then◌else◌, replicate, get_elem?, set, length,
}
use velora_os.Base.Ring.{entries}

abbrev pub input_queue_capacity : ℕ
input_queue_capacity = 128

pub record InputQueue : Type 0 where
  pub bytes : List ℕ
  pub head : ℕ
  pub len : ℕ

unfoldable pub new : InputQueue
new = record { bytes = replicate input_queue_capacity 0; head = 0; len = 0 }

-- `self.bytes[index] = byte`
unfoldable pub store : List ℕ → ℕ → ℕ → Outcome (List ℕ)
store bytes index byte = if ltb index (length bytes) then ok (set bytes index byte) else panic

unfoldable pub push : ℕ → InputQueue → Outcome InputQueue
unfolding store
push byte q = if q.len == input_queue_capacity then ok q else (do
  let index = (q.head + q.len) % input_queue_capacity
  bytes ← store q.bytes index byte
  ok (record q { bytes = bytes; len = q.len + 1 }))

unfoldable pub pop : InputQueue → Outcome (Option ℕ × InputQueue)
pop q = if q.len == 0 then ok (none, q) else (do
  byte ← expect (get_elem? q.bytes q.head)
  ok (some byte, record q { head = (q.head + 1) % input_queue_capacity; len = q.len - 1 }))

-- The keys that the source names; every other key of the crate is `other`.
pub data KeyCode : Type 0 where
  arrow_up arrow_down arrow_right arrow_left : KeyCode
  home insert end page_up page_down : KeyCode
  f1 f2 f3 f4 f5 f6 f7 f8 f9 f10 f11 f12 : KeyCode
  l_shift r_shift l_control r_control caps_lock numpad_lock r_alt_gr r_control2 : KeyCode
  other : ℕ → KeyCode

-- `ESC [ n1 ~`
abbrev pub one_digit : ℕ → Option (List ℕ)
one_digit a = some (0x1B ∷ b'[' ∷ a ∷ b'~' ∷ [])

abbrev pub two_digits : ℕ → ℕ → Option (List ℕ)
two_digits a b = some (0x1B ∷ b'[' ∷ a ∷ b ∷ b'~' ∷ [])

abbrev pub letter : ℕ → Option (List ℕ)
letter a = some (0x1B ∷ b'[' ∷ a ∷ [])

unfoldable pub ansi_escape_sequence : KeyCode → Option (List ℕ)
ansi_escape_sequence arrow_up = letter b'A'
ansi_escape_sequence arrow_down = letter b'B'
ansi_escape_sequence arrow_right = letter b'C'
ansi_escape_sequence arrow_left = letter b'D'
ansi_escape_sequence home = one_digit b'1'
ansi_escape_sequence insert = one_digit b'2'
ansi_escape_sequence end = one_digit b'4'
ansi_escape_sequence page_up = one_digit b'5'
ansi_escape_sequence page_down = one_digit b'6'
ansi_escape_sequence f1 = two_digits b'1' b'1'
ansi_escape_sequence f2 = two_digits b'1' b'2'
ansi_escape_sequence f3 = two_digits b'1' b'3'
ansi_escape_sequence f4 = two_digits b'1' b'4'
ansi_escape_sequence f5 = two_digits b'1' b'5'
ansi_escape_sequence f6 = two_digits b'1' b'7'
ansi_escape_sequence f7 = two_digits b'1' b'8'
ansi_escape_sequence f8 = two_digits b'1' b'9'
ansi_escape_sequence f9 = two_digits b'2' b'0'
ansi_escape_sequence f10 = two_digits b'2' b'1'
ansi_escape_sequence f11 = two_digits b'2' b'3'
ansi_escape_sequence f12 = two_digits b'2' b'4'
ansi_escape_sequence _ = none

-- A character is its code point.
pub data DecodedKey : Type 0 where
  unicode : ℕ → DecodedKey
  raw_key : KeyCode → DecodedKey

unfoldable pub is_modifier : KeyCode → Bool
is_modifier l_shift = true
is_modifier r_shift = true
is_modifier l_control = true
is_modifier r_control = true
is_modifier caps_lock = true
is_modifier numpad_lock = true
is_modifier r_alt_gr = true
is_modifier r_control2 = true
is_modifier _ = false

-- `for &byte in sequence { push_input_byte(byte) }`
unfoldable pub push_all : List ℕ → InputQueue → Outcome InputQueue
unfolding push
push_all [] q = ok q
push_all (b ∷ bs) q = do q' ← push b q; push_all bs q'

-- The body of `print_keypresses` for one key: the character that `print!` echoes, and the queue.
unfoldable pub handle_key : DecodedKey → InputQueue → Outcome (Option ℕ × InputQueue)
unfolding push push_all ansi_escape_sequence is_modifier
handle_key (unicode c) q = do q' ← (if ltb c 128 then push c q else ok q); ok (some c, q')
handle_key (raw_key k) q = if is_modifier k then ok (none, q) else elim (ansi_escape_sequence k) [
  | none ↦ ok (none, q)
  | some sequence ↦ (do q' ← push_all sequence q; ok (none, q'))
]

-- The unread bytes, the oldest first.
abbrev pub contents : InputQueue → List ℕ
contents q = entries 0 input_queue_capacity q.bytes q.head q.len

pub record IsValid (q : InputQueue) : Type 0 where
  pub slots : length q.bytes ≡ input_queue_capacity
  pub head_in : q.head < input_queue_capacity
  pub len_in : q.len ≤ input_queue_capacity
