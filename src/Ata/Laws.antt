-- ===== src/Ata/Laws.antt =====
-- A read of one sector: the address that the drive sees, and the bytes that arrive.
use velora_os.Base.{
  ℕ, zero, suc, ◌+◌, ◌*◌, ◌/◌, ◌%◌, ◌^◌, ◌<◌, ◌≤◌, ◌≡◌, refl, ap, ap₂, ◌∙◌, Bool, true, false, not,
  ◌&&◌, List, [], ◌∷◌, ok, arith, ◌==◌, bit_and, bit_or, length, get_or,
}
use velora_os.Base.Bits.{bit_and-mask, bit_or-shift}
use velora_os.Ata.{
  Drive, primary, secondary, select_bit, Registers, Controller, Bus, status_err, status_drq,
  status_bsy, poll_busy, poll_data, read_words, select, cmd_read_sectors,
}

-- The 28-bit address in the registers.
abbrev pub addressed : Registers → ℕ
addressed r = r.drive_head % 16 * 2 ^ 24 + r.lba_high * 2 ^ 16 + r.lba_mid * 2 ^ 8 + r.lba_low

-- Bits 4 to 7 of the drive register: LBA mode, and which drive.
abbrev pub head_of : Drive → ℕ
head_of primary = 0xE
head_of secondary = 0xF

drive_head-shift :
    (drive : Drive) (x : ℕ)
    → x < 16
    → bit_or (bit_or 0xE0 (select_bit drive)) x ≡ head_of drive * 16 + x
unfolding select_bit
drive_head-shift primary x h = bit_or-shift 4 14 x h
drive_head-shift secondary x h = bit_or-shift 4 15 x h

-- For an address of 28 bits the registers hold the address, the drive that is asked for, a count of
-- one and the read command, each in a byte.
pub select-addressed :
    (drive : Drive) (lba : ℕ)
    → lba < 2 ^ 28
    → let r = select drive lba in
      (addressed r ≡ lba)
      × (r.drive_head / 16 ≡ head_of drive)
      × (r.sector_count ≡ 1)
      × (r.command ≡ cmd_read_sectors)
      × (r.lba_low < 256)
      × (r.lba_mid < 256)
      × (r.lba_high < 256)
      × (r.drive_head < 256)
unfolding select
select-addressed drive lba h =
    let low = bit_and-mask 8 lba 0xFF refl in
    let mid = bit_and-mask 8 (lba / 2 ^ 8) 0xFF refl in
    let high = bit_and-mask 8 (lba / 2 ^ 16) 0xFF refl in
    let top = bit_and-mask 4 (lba / 2 ^ 24) 0x0F refl in
    let head = drive_head-shift drive (bit_and (lba / 2 ^ 24) 0x0F) (omega (arith, top)) in
    let small = head_small drive in
    (
      omega (arith, low, mid, high, top, head),
      omega (arith, top, head),
      refl,
      refl,
      omega (arith, low),
      omega (arith, mid),
      omega (arith, high),
      omega (arith, top, head, small),
    )
  where
    head_small : (drive : Drive) → head_of drive < 16
    head_small primary = omega arith
    head_small secondary = omega arith

module _ (d : Controller) where
  -- What a status says.
  abbrev pub is_free : ℕ → Bool
  is_free j = bit_and (d.status j) status_bsy == 0

  abbrev pub has_error : ℕ → Bool
  has_error j = not (bit_and (d.status j) status_err == 0)

  abbrev pub has_data : ℕ → Bool
  has_data j = is_free j && not (bit_and (d.status j) status_drq == 0)

  abbrev read_up_to : ℕ → Bus → Bus
  read_up_to k b = record b { status_reads = b.status_reads + k + 1 }

  pub poll_busy-ok :
      (k n : ℕ) (b : Bus)
      → k < n
      → ((j : ℕ) → j < k → is_free (b.status_reads + j) ≡ false)
      → is_free (b.status_reads + k) ≡ true
      → poll_busy d n b ≡ ok (read_up_to k b)
  unfolding poll_busy
  poll_busy-ok k zero b lt busy free = absurd (omega arith)
  poll_busy-ok zero (suc n) b lt busy free =
      let now = ap is_free {x = b.status_reads} {y = b.status_reads + 0} (omega arith) ∙ free in
      rw (now, poll_busy) (ap (λ s. ok (record b { status_reads = s })) (omega arith))
  poll_busy-ok (suc k) (suc n) b lt busy free =
      let now =
        ap is_free {x = b.status_reads} {y = b.status_reads + 0} (omega arith)
        ∙ busy 0 (omega arith) in
      rw (now, poll_busy)
        (poll_busy-ok k n (record b { status_reads = b.status_reads + 1 }) (omega arith)
            (λ j le.
              ap is_free {x = b.status_reads + 1 + j} (omega arith) ∙ busy (suc j) (omega arith))
            (ap is_free {x = b.status_reads + 1 + k} (omega arith) ∙ free)
          ∙ ap (λ s. ok (record b { status_reads = s })) (omega arith))

  pub poll_data-ok :
      (m n : ℕ) (b : Bus)
      → m < n
      → ((j : ℕ) → j ≤ m → has_error (b.status_reads + j) ≡ false)
      → ((j : ℕ) → j < m → has_data (b.status_reads + j) ≡ false)
      → has_data (b.status_reads + m) ≡ true
      → poll_data d n b ≡ ok (read_up_to m b)
  unfolding poll_data
  poll_data-ok m zero b lt fine empty there = absurd (omega arith)
  poll_data-ok zero (suc n) b lt fine empty there =
      let good =
        ap has_error {x = b.status_reads} {y = b.status_reads + 0} (omega arith)
        ∙ fine 0 (omega arith) in
      let now = ap has_data {x = b.status_reads} {y = b.status_reads + 0} (omega arith) ∙ there in
      rw (good, now, poll_data) (ap (λ s. ok (record b { status_reads = s })) (omega arith))
  poll_data-ok (suc m) (suc n) b lt fine empty there =
      let good =
        ap has_error {x = b.status_reads} {y = b.status_reads + 0} (omega arith)
        ∙ fine 0 (omega arith) in
      let now =
        ap has_data {x = b.status_reads} {y = b.status_reads + 0} (omega arith)
        ∙ empty 0 (omega arith) in
      rw (good, now, poll_data)
        (poll_data-ok m n (record b { status_reads = b.status_reads + 1 }) (omega arith)
            (λ j le.
              ap has_error {x = b.status_reads + 1 + j} (omega arith) ∙ fine (suc j) (omega arith))
            (λ j le.
              ap has_data {x = b.status_reads + 1 + j} (omega arith) ∙ empty (suc j) (omega arith))
            (ap has_data {x = b.status_reads + 1 + m} (omega arith) ∙ there)
          ∙ ap (λ s. ok (record b { status_reads = s })) (omega arith))

  -- Words that are the little-endian pairs of a list of bytes arrive as that list.
  pub read_words-pairs :
      (n : ℕ) (xs : List ℕ) (b : Bus)
      → length xs ≡ n * 2
      → ((i : ℕ) → get_or xs i 0 < 256)
      → ((i : ℕ)
          → i < n
          → d.word b.registers (b.data_reads + i)
            ≡ get_or xs (i * 2) 0 + get_or xs (i * 2 + 1) 0 * 256)
      → (b' : Bus) × (read_words d n b ≡ (xs, b'))
  unfolding read_words
  read_words-pairs zero [] b len small words = (b, refl)
  read_words-pairs zero (x ∷ xs) b len small words = absurd (omega (arith, len))
  read_words-pairs (suc n) [] b len small words = absurd (omega (arith, len))
  read_words-pairs (suc n) (x ∷ []) b len small words = absurd (omega (arith, len))
  read_words-pairs (suc n) (x ∷ y ∷ xs) b len small words =
      let first : d.word b.registers b.data_reads ≡ x + y * 256 =
        ap (d.word b.registers) {x = b.data_reads} {y = b.data_reads + 0} (omega arith)
        ∙ words 0 (omega arith) in
      let low = bit_and-mask 8 (d.word b.registers b.data_reads) 0xFF refl in
      let (b', rest) =
        read_words-pairs n xs (record b { data_reads = b.data_reads + 1 }) (omega (arith, len))
          (λ i. small (suc (suc i)))
          (λ i lt.
            ap (d.word b.registers) {x = b.data_reads + 1 + i} (omega arith)
            ∙ words (suc i) (omega arith)
            ∙ ap₂ (λ i j. get_or (x ∷ y ∷ xs) i 0 + get_or (x ∷ y ∷ xs) j 0 * 256) {x = suc i * 2}
                {y = suc (suc (i * 2))} {u = suc i * 2 + 1} {v = suc (suc (i * 2 + 1))}
                (omega arith) (omega arith)) in
      (
        b',
        rw (rest, read_words)
            (ap₂ (λ p q. (p ∷ q ∷ xs, b')) (omega (arith, low, first, small 0))
              (omega (arith, first, small 0))),
      )
