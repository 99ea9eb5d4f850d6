-- ===== src/Vga.antt =====
-- vga_buffer.rs: the 25 by 80 text screen and its writer.
pub mod Scroll
pub mod Laws
mod Tests
use velora_os.Base.{
  ℕ, zero, suc, ◌+◌, ◌-◌, ◌*◌, ◌%◌, ◌^◌, Bool, true, false, ◌&&◌, ◌||◌, List, [], ◌∷◌, Option, none,
  some, Outcome, ok, panic, ◌>>=◌, ◌>>◌, assert, expect, ltb, leb, ◌==◌, if◌then◌else◌, bit_or,
  checked_sub,
}

abbrev pub buffer_height : ℕ
buffer_height = 25

abbrev pub buffer_width : ℕ
buffer_width = 80

-- A `Color` is its `repr(u8)` number.
unfoldable pub color_code : ℕ → ℕ → ℕ
color_code foreground background = bit_or (background * 2 ^ 4 % 2 ^ 8) foreground

pub record ScreenChar : Type 0 where
  pub ascii_character : ℕ
  pub color : ℕ

-- The cell at a row and a column.
abbrev pub Buffer : Type 0
Buffer = ℕ → ℕ → ScreenChar

pub record Writer : Type 0 where
  pub column_position : ℕ
  pub color : ℕ
  pub buffer : Buffer

abbrev pub put : Buffer → ℕ → ℕ → ScreenChar → Buffer
put b row col v r c = if row == r && col == c then v else b r c

-- `chars[row][col]` panics out of bounds.
unfoldable pub write_cell : Buffer → ℕ → ℕ → ScreenChar → Outcome Buffer
write_cell b row col v = do
  assert (ltb row buffer_height && ltb col buffer_width)
  ok (put b row col v)

unfoldable pub read_cell : Buffer → ℕ → ℕ → Outcome ScreenChar
read_cell b row col = do assert (ltb row buffer_height && ltb col buffer_width); ok (b row col)

-- The inner loop of `new_line`, from `col` on, with `n` columns left.
unfoldable pub copy_row : ℕ → ℕ → ℕ → Buffer → Outcome Buffer
unfolding read_cell write_cell
copy_row row zero col b = ok b
copy_row row (suc n) col b = do
  character ← read_cell b row col
  above ← expect (checked_sub row 1)
  b' ← write_cell b above col character
  copy_row row n (col + 1) b'

-- Its outer loop, from `row` on, with `n` rows left.
unfoldable pub scroll : ℕ → ℕ → Buffer → Outcome Buffer
unfolding copy_row
scroll zero row b = ok b
scroll (suc n) row b = do b' ← copy_row row buffer_width 0 b; scroll n (row + 1) b'

-- The loop of `clear_row`, from `col` on, with `n` columns left.
unfoldable pub fill_row : ℕ → ScreenChar → ℕ → ℕ → Buffer → Outcome Buffer
unfolding write_cell
fill_row row blank zero col b = ok b
fill_row row blank (suc n) col b = do
  b' ← write_cell b row col blank
  fill_row row blank n (col + 1) b'

abbrev pub blank_cell : Writer → ScreenChar
blank_cell w = record { ascii_character = b' '; color = w.color }

unfoldable pub clear_row : ℕ → Writer → Outcome Writer
unfolding fill_row
clear_row row w = do
  b ← fill_row row (blank_cell w) buffer_width 0 w.buffer
  ok (record w { buffer = b })

unfoldable pub new_line : Writer → Outcome Writer
unfolding scroll clear_row
new_line w = do
  b ← scroll (buffer_height - 1) 1 w.buffer
  cleared ← clear_row (buffer_height - 1) (record w { buffer = b })
  ok (record cleared { column_position = 0 })

-- The last arm of `write_byte`, once the line has room.
unfoldable pub put_byte : ℕ → Writer → Outcome Writer
unfolding write_cell
put_byte byte w = do
  b ←
      write_cell w.buffer (buffer_height - 1) w.column_position
        (record { ascii_character = byte; color = w.color })
  ok (record w { buffer = b; column_position = w.column_position + 1 })

unfoldable pub write_byte : ℕ → Writer → Outcome Writer
unfolding new_line put_byte write_cell
write_byte byte w =
    if byte == 10
    then new_line w
    else if byte == 0x08
    then if ltb 0 w.column_position
      then (do
        let col = w.column_position - 1
        b ← write_cell w.buffer (buffer_height - 1) col (blank_cell w)
        ok (record w { buffer = b; column_position = col }))
      else ok w
    else (do
      w' ← (if leb buffer_width w.column_position then new_line w else ok w)
      put_byte byte w')

-- `' '..='~' | '\n' | '\u{8}'`
abbrev pub is_printed : ℕ → Bool
is_printed c = leb b' ' c && leb c b'~' || (c == 10 || c == 0x08)

-- A string is the code points of its characters.
unfoldable pub write_string : List ℕ → Writer → Outcome Writer
unfolding write_byte
write_string [] w = ok w
write_string (c ∷ cs) w = do
  w' ← write_byte (if is_printed c then c else 0xFE) w
  write_string cs w'
