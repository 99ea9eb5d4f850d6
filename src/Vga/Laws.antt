-- ===== src/Vga/Laws.antt =====
-- The writer: it never leaves the screen, and text lands where it should.
use velora_os.Base.{
  ℕ, zero, suc, ◌+◌, ◌-◌, ◌*◌, ◌/◌, ◌%◌, ◌^◌, ◌<◌, ◌≤◌, ◌≡◌, ◌≢◌, refl, ap, ◌∙◌, ◌⊎◌, inl, inr,
  true, false, ◌&&◌, List, [], ◌∷◌, ok, ◌>>=◌, arith, ltb, leb, ◌==◌, if◌then◌else◌, length, get_or,
  Bool-cases,
}
use velora_os.Base.Bits.{bit_or-shift}
use velora_os.Vga.{
  ScreenChar, Writer, put, new_line, put_byte, write_byte, write_string, color_code, blank_cell,
  is_printed,
}
use velora_os.Vga.Scroll.{write_cell-ok, new_line-Scrolled}

-- A colour byte made of two of the 16 colours gives both of them back.
pub color_code_lem :
    (foreground background : ℕ)
    → foreground < 16
    → background < 16
    → (color_code foreground background % 16 ≡ foreground)
      × (color_code foreground background / 16 ≡ background)
      × (color_code foreground background < 256)
unfolding color_code
color_code_lem f b hf hb =
    let small : b * 2 ^ 4 % 2 ^ 8 ≡ b * 2 ^ 4 = omega arith in
    let packed = bit_or-shift 4 b f (omega arith) in
    rw (small, packed) (omega arith, omega arith, omega arith)

-- The column is at most one past the last.
pub record IsValid (w : Writer) : Type 0 where
  pub column : w.column_position ≤ 80

abbrev pub after_put : ℕ → Writer → Writer
after_put byte w = record w {
  buffer = put w.buffer 24 w.column_position (record { ascii_character = byte; color = w.color });
  column_position = w.column_position + 1;
}

put_byte-ok :
    (byte : ℕ) (w : Writer) → w.column_position < 80 → put_byte byte w ≡ ok (after_put byte w)
unfolding put_byte
put_byte-ok byte w h =
    rw
      (
        write_cell-ok w.buffer 24 w.column_position
            (record { ascii_character = byte; color = w.color }) (omega arith) h,
        put_byte,
      )
      refl

-- On a line with room, an ordinary byte takes one cell.
write_byte-put :
    (byte : ℕ) (w : Writer)
    → byte ≢ 10
    → byte ≢ 8
    → w.column_position < 80
    → write_byte byte w ≡ ok (after_put byte w)
unfolding write_byte
write_byte-put byte w h k lt = ground (arith, put_byte-ok byte w lt)

abbrev erased : Writer → Writer
erased w = record w {
  buffer = put w.buffer 24 (w.column_position - 1) (blank_cell w);
  column_position = w.column_position - 1;
}

write_byte-erase :
    (w : Writer) → 0 < w.column_position → w.column_position ≤ 80 → write_byte 8 w ≡ ok (erased w)
unfolding write_byte
write_byte-erase w h k = ground (
  arith,
  write_cell-ok w.buffer 24 (w.column_position - 1) (blank_cell w) (omega arith) (omega arith),
)

-- On a line with room, a byte that is no line break and no backspace, then a backspace: the cell
-- is blank again, the column is back, and no other cell has changed.
pub write_byte-backspace :
    (byte : ℕ) (w : Writer)
    → byte ≢ 10
    → byte ≢ 8
    → w.column_position < 80
    → (w' : Writer) × ((write_byte byte w >>= write_byte 8) ≡ ok w')
      × (w'.column_position ≡ w.column_position)
      × (w'.color ≡ w.color)
      × (w'.buffer 24 w.column_position ≡ blank_cell w)
      × ((r c : ℕ) → (r ≢ 24) ⊎ (c ≢ w.column_position) → w'.buffer r c ≡ w.buffer r c)
write_byte-backspace byte w h k lt =
    let first = write_byte-put byte w h k lt in
    let second = write_byte-erase (after_put byte w) (omega arith) (omega arith) in
    (
      erased (after_put byte w),
      ap (λ m. m >>= write_byte 8) first ∙ second,
      omega arith,
      refl,
      ground arith,
      λ r c h. ground arith,
    )

write_byte-line : (w : Writer) → write_byte 10 w ≡ new_line w
unfolding write_byte
write_byte-line w = refl

write_byte-wrap :
    (byte : ℕ) (w : Writer)
    → byte ≢ 10
    → byte ≢ 8
    → 80 ≤ w.column_position
    → write_byte byte w ≡ (new_line w >>= put_byte byte)
unfolding write_byte
write_byte-wrap byte w h k le =
    let line : (byte == 10) ≡ false = ground arith in
    let back : (byte == 8) ≡ false = ground arith in
    let over : leb 80 w.column_position ≡ true = ground arith in
    rw (line, back, over, write_byte) refl

write_byte-stay : (w : Writer) → w.column_position ≡ 0 → write_byte 8 w ≡ ok w
unfolding write_byte
write_byte-stay w h = ground arith

-- No byte makes the writer panic or leave the screen.
pub write_byte-IsValid :
    (byte : ℕ) (w : Writer) → IsValid w → (w' : Writer) × (write_byte byte w ≡ ok w') × IsValid w'
write_byte-IsValid byte w v = elim (Bool-cases (byte == 10)) [
  | inl e ↦
      let (w', run, s) = new_line-Scrolled w in
      (
        w',
        ap (λ b. write_byte b w) {y = 10} (ground arith) ∙ write_byte-line w ∙ run,
        record { column = omega (arith, s.at_start) },
      )
  | inr e ↦ elim (Bool-cases (byte == 8)) [
    | inl e' ↦ by_erase (ground arith)
    | inr e' ↦ by_room (ground arith) (ground arith)
  ]
]
  where
    by_erase : byte ≡ 8 → (w' : Writer) × (write_byte byte w ≡ ok w') × IsValid w'
    by_erase e = elim (Bool-cases (w.column_position == 0)) [
      | inl z ↦ (w, ap (λ b. write_byte b w) e ∙ write_byte-stay w (ground arith), v)
      | inr z ↦ (
        erased w,
        ap (λ b. write_byte b w) e ∙ write_byte-erase w (ground arith) v.column,
        record { column = omega (arith, v.column) },
      )
    ]

    by_room : byte ≢ 10 → byte ≢ 8 → (w' : Writer) × (write_byte byte w ≡ ok w') × IsValid w'
    by_room h k = elim (Bool-cases (ltb w.column_position 80)) [
      | inl room ↦
          let lt : w.column_position < 80 = ground arith in
          (after_put byte w, write_byte-put byte w h k lt, record { column = omega arith })
      | inr none_ ↦
          let (w', run, s) = new_line-Scrolled w in
          (
            after_put byte w',
            write_byte-wrap byte w h k (ground arith)
                ∙ ap (λ m. m >>= put_byte byte) run
                ∙ put_byte-ok byte w' (omega (arith, s.at_start)),
            record { column = omega (arith, s.at_start) },
          )
    ]

-- From a column on the screen, no string makes the writer panic or leave the screen, whatever its
-- characters are.
pub write_string-IsValid :
    (cs : List ℕ) (w : Writer)
    → IsValid w
    → (w' : Writer) × (write_string cs w ≡ ok w') × IsValid w'
unfolding write_string
write_string-IsValid [] w v = (w, refl, v)
write_string-IsValid (c ∷ cs) w v =
    let (w1, e1, v1) = write_byte-IsValid (if is_printed c then c else 0xFE) w v in
    let (w2, e2, v2) = write_string-IsValid cs w1 v1 in
    (w2, ap (λ m. m >>= write_string cs) e1 ∙ e2, v2)

abbrev pub shown : ℕ → ℕ
shown c = if leb b' ' c && leb c b'~' then c else 0xFE

abbrev pub AllText : List ℕ → Type 0
AllText cs = (i : ℕ) → i < length cs → (get_or cs i 0 ≢ 10) × (get_or cs i 0 ≢ 8)

-- What is printed for a character that is no control character.
shown_byte : (c : ℕ) → c ≢ 10 → c ≢ 8 → (if is_printed c then c else 0xFE) ≡ shown c
shown_byte c h k = ground arith

off_cell :
    (w : Writer) (byte r c : ℕ)
    → (r ≢ 24) ⊎ (c ≢ w.column_position)
    → (after_put byte w).buffer r c ≡ w.buffer r c
off_cell w byte r c h = ground arith

on_cell :
    (w : Writer) (byte c : ℕ)
    → c ≡ w.column_position
    → (after_put byte w).buffer 24 c ≡ record { ascii_character = byte; color = w.color }
on_cell w byte c e = ground arith

-- Text that fits the line, without line breaks and backspaces, appears from the current column on, in
-- the current colour, with a block for each character outside printable ASCII; no other cell changes.
pub write_string-text :
    (cs : List ℕ) (w : Writer)
    → AllText cs
    → w.column_position + length cs ≤ 80
    → (w' : Writer) × (write_string cs w ≡ ok w')
      × (w'.column_position ≡ w.column_position + length cs)
      × (w'.color ≡ w.color)
      × ((i : ℕ)
          → i < length cs
          → w'.buffer 24 (w.column_position + i)
            ≡ record { ascii_character = shown (get_or cs i 0); color = w.color })
      × ((r c : ℕ)
          → (r ≢ 24) ⊎ ((c < w.column_position) ⊎ (w.column_position + length cs ≤ c))
          → w'.buffer r c ≡ w.buffer r c)
unfolding write_string
write_string-text [] w all fits =
    (w, refl, omega arith, refl, λ i lt. absurd (omega arith), λ r c h. refl)
write_string-text (c ∷ cs) w all fits =
    let byte : ℕ = if is_printed c then c else 0xFE in
    let (no_line, no_back) = all 0 (omega arith) in
    let first = write_byte-put byte w (ground arith) (ground arith) (omega arith) in
    let (w', e, col, colour, new, old) =
      write_string-text cs (after_put byte w) (λ i lt. all (suc i) (omega arith)) (omega arith) in
    (
      w',
      ap (λ m. m >>= write_string cs) first ∙ e,
      omega (arith, col),
      colour,
      by_index w' old new,
      λ r k h. old r k (omega arith) ∙ off_cell w byte r k (omega arith),
    )
  where
    char : ℕ → ℕ → ScreenChar
    char b k = record { ascii_character = b; color = k }

    by_index :
        (w' : Writer)
        → ((r k : ℕ)
            → (r ≢ 24) ⊎ ((k < w.column_position + 1) ⊎ (w.column_position + 1 + length cs ≤ k))
            → w'.buffer r k ≡ (after_put (if is_printed c then c else 0xFE) w).buffer r k)
        → ((i : ℕ)
            → i < length cs
            → w'.buffer 24 (w.column_position + 1 + i) ≡ char (shown (get_or cs i 0)) w.color)
        → (i : ℕ) → i < length (c ∷ cs)
        → w'.buffer 24 (w.column_position + i) ≡ char (shown (get_or (c ∷ cs) i 0)) w.color
    by_index w' old new zero lt =
        old 24 (w.column_position + 0) (inr (inl (omega arith)))
        ∙ on_cell w (if is_printed c then c else 0xFE) (w.column_position + 0) (omega arith)
        ∙ ap (λ b. char b w.color) (shown_byte c (all 0 (omega arith)).0 (all 0 (omega arith)).1)
    by_index w' old new (suc i) lt =
        ap (w'.buffer 24) {y = w.column_position + 1 + i} (omega arith) ∙ new i (omega arith)
