-- ===== src/Vga/Tests.antt =====
-- The writer on a concrete screen.
use velora_os.Base.{ℕ, zero, suc, ◌+◌, ◌<◌, ◌≤◌, ◌≡◌, ◌≢◌, ◌⊎◌, [], ◌∷◌, ok, arith, get_or}
use velora_os.Vga.{Writer, new_line, write_string}
use velora_os.Vga.Scroll.{Scrolled, new_line-Scrolled}
use velora_os.Vga.Laws.{AllText, shown, write_string-text}

abbrev writer : Writer
writer = record {
  column_position = 3;
  color = 14;
  buffer = λ r c. record { ascii_character = c; color = r };
}

new_line-Scrolled_example : (w' : Writer) × (new_line writer ≡ ok w') × Scrolled writer w'
new_line-Scrolled_example = new_line-Scrolled writer

hi-AllText : AllText (72 ∷ 9731 ∷ [])
hi-AllText zero lt = (λ e. omega (arith, e), λ e. omega (arith, e))
hi-AllText (suc zero) lt = (λ e. omega (arith, e), λ e. omega (arith, e))
hi-AllText (suc (suc i)) lt = absurd (omega arith)

write_string-text_example :
    (w' : Writer) × (write_string (72 ∷ 9731 ∷ []) writer ≡ ok w')
    × (w'.column_position ≡ 5)
    × (w'.color ≡ 14)
    × ((i : ℕ)
        → i < 2
        → w'.buffer 24 (3 + i)
          ≡ record { ascii_character = shown (get_or (72 ∷ 9731 ∷ []) i 0); color = 14 })
    × ((r c : ℕ) → (r ≢ 24) ⊎ ((c < 3) ⊎ (5 ≤ c)) → w'.buffer r c ≡ writer.buffer r c)
write_string-text_example = write_string-text (72 ∷ 9731 ∷ []) writer hi-AllText (omega arith)
