-- ===== src/Vga/Scroll.antt =====
-- The loops of `new_line`: what they leave in every cell.
use velora_os.Base.{
  ℕ, zero, suc, ◌+◌, ◌-◌, ◌<◌, ◌≡◌, refl, ap, ◌∙◌, ◌&&◌, Outcome, ok, ◌>>=◌, arith, ltb, leb, ◌==◌,
  if◌then◌else◌, checked_sub,
}
use velora_os.Vga.{
  Buffer, ScreenChar, Writer, put, write_cell, read_cell, copy_row, scroll, fill_row, clear_row,
  new_line, blank_cell,
}

pub write_cell-ok :
    (b : Buffer) (row col : ℕ) (v : ScreenChar)
    → row < 25
    → col < 80
    → write_cell b row col v ≡ ok (put b row col v)
unfolding write_cell
write_cell-ok b row col v hr hc = ground arith

copy_step :
    (row n col : ℕ) (b : Buffer)
    → 0 < row
    → row < 25
    → col < 80
    → copy_row row (suc n) col b ≡ copy_row row n (col + 1) (put b (row - 1) col (b row col))
unfolding copy_row read_cell write_cell checked_sub
copy_step row n col b lo hi lt = ground arith

copied :
    (b : Buffer) (row col r c : ℕ)
    → (0 < row) × (row < 25) × (col < 80)
    → (if r + 1 == row && (leb (col + 1) c && ltb c 80)
        then put b (row - 1) col (b row col) row c
        else put b (row - 1) col (b row col) r c)
      ≡ (if r + 1 == row && (leb col c && ltb c 80) then b row c else b r c)
copied b row col r c h = ground arith

fill_cell :
    (b : Buffer) (row col r c : ℕ) (blank : ScreenChar)
    → col < 80
    → (if r == row && (leb (col + 1) c && ltb c 80) then blank else put b row col blank r c)
      ≡ (if r == row && (leb col c && ltb c 80) then blank else b r c)
fill_cell b row col r c blank h = ground arith

moved :
    (b b1 : Buffer) (row n r c : ℕ)
    → c < 80
    → row + suc n ≡ 25
    → ((r c : ℕ) → b1 r c ≡ (if r + 1 == row && (leb 0 c && ltb c 80) then b row c else b r c))
    → (if leb (row + 1) (r + 1) && ltb (r + 1) 25 then b1 (r + 1) c else b1 r c)
      ≡ (if leb row (r + 1) && ltb (r + 1) 25 then b (r + 1) c else b r c)
moved b b1 row n r c lt e h = ground (arith, h r c, h (r + 1) c)

-- A row copied up, from `col` on.
copy_row-copies :
    (n row col : ℕ) (b : Buffer)
    → 0 < row
    → row < 25
    → col + n ≡ 80
    → (b' : Buffer) × (copy_row row n col b ≡ ok b')
      × ((r c : ℕ) → b' r c ≡ (if r + 1 == row && (leb col c && ltb c 80) then b row c else b r c))
unfolding copy_row
copy_row-copies zero row col b lo hi e = (b, refl, λ r c. ground arith)
copy_row-copies (suc n) row col b lo hi e =
    let b1 : Buffer = put b (row - 1) col (b row col) in
    let (b', e', h) = copy_row-copies n row (col + 1) b1 lo hi (omega arith) in
    (
      b',
      copy_step row n col b lo hi (omega arith) ∙ e',
      λ r c. h r c ∙ copied b row col r c (lo, hi, omega arith),
    )

fill_row-fills :
    (n row col : ℕ) (blank : ScreenChar) (b : Buffer)
    → row < 25
    → col + n ≡ 80
    → (b' : Buffer) × (fill_row row blank n col b ≡ ok b')
      × ((r c : ℕ) → b' r c ≡ (if r == row && (leb col c && ltb c 80) then blank else b r c))
unfolding fill_row
fill_row-fills zero row col blank b hi e = (b, refl, λ r c. ground arith)
fill_row-fills (suc n) row col blank b hi e =
    let (b', e', h) = fill_row-fills n row (col + 1) blank (put b row col blank) hi (omega arith) in
    (
      b',
      rw (write_cell-ok b row col blank hi (omega arith), fill_row) e',
      λ r c. h r c ∙ fill_cell b row col r c blank (omega arith),
    )

scroll-moves :
    (n row : ℕ) (b : Buffer)
    → 0 < row
    → row + n ≡ 25
    → (b' : Buffer) × (scroll n row b ≡ ok b')
      × ((r c : ℕ)
          → c < 80
          → b' r c ≡ (if leb row (r + 1) && ltb (r + 1) 25 then b (r + 1) c else b r c))
unfolding scroll
scroll-moves zero row b lo e = (b, refl, λ r c h. ground arith)
scroll-moves (suc n) row b lo e =
    let (b1, e1, h1) = copy_row-copies 80 row 0 b lo (omega arith) refl in
    let (b', e', h) = scroll-moves n (row + 1) b1 (omega arith) (omega arith) in
    (b', rw (e1, scroll) e', λ r c lt. h r c lt ∙ moved b b1 row n r c lt e h1)

-- What `new_line` leaves: every row moved up by one, and a blank bottom row.
pub record Scrolled (w w' : Writer) : Type 0 where
  pub moved_up : (r c : ℕ) → r < 24 → c < 80 → w'.buffer r c ≡ w.buffer (r + 1) c
  pub bottom : (c : ℕ) → c < 80 → w'.buffer 24 c ≡ blank_cell w
  pub at_start : w'.column_position ≡ 0
  pub same_color : w'.color ≡ w.color

unfilled :
    (r c : ℕ) (old new : ScreenChar)
    → r < 24
    → (if r == 24 && (leb 0 c && ltb c 80) then new else old) ≡ old
unfilled r c old new h = ground arith

filled :
    (c : ℕ) (old new : ScreenChar)
    → c < 80
    → (if 24 == 24 && (leb 0 c && ltb c 80) then new else old) ≡ new
filled c old new h = ground arith

within :
    (r : ℕ) (below here : ScreenChar)
    → r < 24
    → (if leb 1 (r + 1) && ltb (r + 1) 25 then below else here) ≡ below
within r below here h = ground arith

clear_row-runs :
    (w : Writer) (b2 : Buffer)
    → fill_row 24 (blank_cell w) 80 0 w.buffer ≡ ok b2
    → clear_row 24 w ≡ ok (record w { buffer = b2 })
unfolding clear_row
clear_row-runs w b2 e = ap (λ m. m >>= (λ b. ok (record w { buffer = b }))) e

new_line-runs :
    (w : Writer) (b1 b2 : Buffer)
    → scroll 24 1 w.buffer ≡ ok b1
    → fill_row 24 (blank_cell w) 80 0 b1 ≡ ok b2
    → new_line w ≡ ok (record w { buffer = b2; column_position = 0 })
unfolding new_line
new_line-runs w b1 b2 e1 e2 =
    ap (λ m. m >>= (λ b. clear_row 24 (record w { buffer = b }) >>= at_zero)) e1
    ∙ ap (λ m. m >>= at_zero) (clear_row-runs (record w { buffer = b1 }) b2 e2)
  where
    at_zero : Writer → Outcome Writer
    at_zero v = ok (record v { column_position = 0 })

-- `new_line` never panics, from any state of the writer: each row shows what the row under it showed,
-- the bottom row is blank in the current colour, and writing goes on in column 0.
pub new_line-Scrolled : (w : Writer) → (w' : Writer) × (new_line w ≡ ok w') × Scrolled w w'
new_line-Scrolled w =
    let (b1, e1, h1) = scroll-moves 24 1 w.buffer (omega arith) refl in
    let (b2, e2, h2) = fill_row-fills 80 24 0 (blank_cell w) b1 (omega arith) refl in
    (
      record w { buffer = b2; column_position = 0 },
      new_line-runs w b1 b2 e1 e2,
      record {
        moved_up = λ r c hr hc.
            h2 r c
            ∙ unfilled r c (b1 r c) (blank_cell w) hr
            ∙ h1 r c hc
            ∙ within r (w.buffer (r + 1) c) (w.buffer r c) hr;
        bottom = λ c hc. h2 24 c ∙ filled c (b1 24 c) (blank_cell w) hc;
        at_start = refl;
        same_color = refl;
      },
    )
