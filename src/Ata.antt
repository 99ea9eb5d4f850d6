-- ===== src/Ata.antt =====
-- ata.rs: one sector by polling. The drive is a parameter: what the n-th read of the status port gives,
-- and the words that the data port gives for the registers written.
pub mod Laws
pub mod Sectors
mod Tests
use velora_os.Base.{
  ℕ, zero, suc, ◌+◌, ◌/◌, ◌^◌, Bool, true, false, not, ◌&&◌, List, [], ◌∷◌, Outcome, ok, panic,
  ◌>>=◌, ◌>>◌, assert, ltb, ◌==◌, bit_and, bit_or,
}

abbrev pub cmd_read_sectors : ℕ
cmd_read_sectors = 0x20

abbrev pub status_err : ℕ
status_err = 1

abbrev pub status_drq : ℕ
status_drq = 8

abbrev pub status_bsy : ℕ
status_bsy = 0x80

abbrev pub poll_attempts : ℕ
poll_attempts = 10000000

pub data Drive : Type 0 where
  primary secondary : Drive

unfoldable pub select_bit : Drive → ℕ
select_bit primary = 0
select_bit secondary = 0x10

-- The ports 0x1F2 to 0x1F7, as last written.
pub record Registers : Type 0 where
  pub sector_count : ℕ
  pub lba_low : ℕ
  pub lba_mid : ℕ
  pub lba_high : ℕ
  pub drive_head : ℕ
  pub command : ℕ

pub record Controller : Type 0 where
  pub status : ℕ → ℕ
  pub word : Registers → ℕ → ℕ

-- The registers, and how often the status port and the data port have been read.
pub record Bus : Type 0 where
  pub registers : Registers
  pub status_reads : ℕ
  pub data_reads : ℕ

-- The six writes, in the order of the ports; a value is cut to a byte.
unfoldable pub select : Drive → ℕ → Registers
unfolding select_bit
select drive lba = record {
  drive_head = bit_or (bit_or 0xE0 (select_bit drive)) (bit_and (lba / 2 ^ 24) 0x0F);
  sector_count = 1;
  lba_low = bit_and lba 0xFF;
  lba_mid = bit_and (lba / 2 ^ 8) 0xFF;
  lba_high = bit_and (lba / 2 ^ 16) 0xFF;
  command = cmd_read_sectors;
}

module _ (d : Controller) where
  -- The loop of `wait_until_not_busy`, with `n` attempts left.
  unfoldable pub poll_busy : ℕ → Bus → Outcome Bus
  poll_busy zero b = panic
  poll_busy (suc n) b = elim (bit_and (d.status b.status_reads) status_bsy == 0) [
    | true ↦ ok (record b { status_reads = b.status_reads + 1 })
    | false ↦ poll_busy n (record b { status_reads = b.status_reads + 1 })
  ]

  unfoldable pub wait_until_not_busy : Bus → Outcome Bus
  unfolding poll_busy
  wait_until_not_busy b = poll_busy poll_attempts b

  -- The loop of `wait_for_data`, with `n` attempts left.
  unfoldable pub poll_data : ℕ → Bus → Outcome Bus
  poll_data zero b = panic
  poll_data (suc n) b =
      let status = d.status b.status_reads in
      elim (not (bit_and status status_err == 0)) [
        | true ↦ panic
        | false ↦ elim (bit_and status status_bsy == 0 && not (bit_and status status_drq == 0)) [
          | true ↦ ok (record b { status_reads = b.status_reads + 1 })
          | false ↦ poll_data n (record b { status_reads = b.status_reads + 1 })
        ]
      ]

  unfoldable pub wait_for_data : Bus → Outcome Bus
  unfolding poll_data
  wait_for_data b = poll_data poll_attempts b

  -- `for word_bytes in buf.chunks_exact_mut(2)`, with `n` chunks left.
  unfoldable pub read_words : ℕ → Bus → List ℕ × Bus
  read_words zero b = ([], b)
  read_words (suc n) b =
      let word = d.word b.registers b.data_reads in
      let (bytes, b') = read_words n (record b { data_reads = b.data_reads + 1 }) in
      (bit_and word 0xFF ∷ word / 2 ^ 8 ∷ bytes, b')

  -- The command starts the data port over.
  unfoldable pub read_sector : Drive → ℕ → Bus → Outcome (List ℕ × Bus)
  unfolding wait_until_not_busy wait_for_data read_words select
  read_sector drive lba b = do
    assert (ltb lba (2 ^ 28))
    b1 ← wait_until_not_busy b
    b2 ← wait_for_data (record b1 { registers = select drive lba; data_reads = 0 })
    ok (read_words 256 b2)
