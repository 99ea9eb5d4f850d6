-- ===== src/Ata/Sectors.antt =====
-- The driver delivers the sector that it is asked for, which is what fs.rs takes it to be.
use velora_os.Base.{
  ℕ, ◌+◌, ◌*◌, ◌/◌, ◌^◌, ◌<◌, ◌≤◌, ◌≡◌, refl, ap, ◌∙◌, true, false, List, ok, arith, lt→ltb, length,
  get_or,
}
use velora_os.Fs.Read
use velora_os.Ata.{
  Drive, Registers, Controller, Bus, poll_attempts, cmd_read_sectors, select, read_sector,
  wait_until_not_busy, wait_for_data,
}
use velora_os.Ata.Laws.{
  addressed, head_of, select-addressed, is_free, has_error, has_data, poll_busy-ok, poll_data-ok,
  read_words-pairs,
}

-- A drive that is free at the status read `k` from `start` on, and has the data `m` reads later, with
-- no error reported before.
pub record Answers (d : Controller) (start k m : ℕ) : Type 0 where
  pub soon : k < poll_attempts
  pub soon_after : m < poll_attempts
  pub busy : (j : ℕ) → j < k → is_free d (start + j) ≡ false
  pub free : is_free d (start + k) ≡ true
  pub no_error : (j : ℕ) → j ≤ m → has_error d (start + k + 1 + j) ≡ false
  pub no_data : (j : ℕ) → j < m → has_data d (start + k + 1 + j) ≡ false
  pub data_there : has_data d (start + k + 1 + m) ≡ true

-- What the ATA standard promises of the read command: the words of the addressed sector, the low byte
-- first.
abbrev pub Serves : Controller → (ℕ → List ℕ) → Drive → Type 0
Serves d disk drive =
    (r : Registers)
    → r.drive_head / 16 ≡ head_of drive
    → r.sector_count ≡ 1
    → r.command ≡ cmd_read_sectors
    → (i : ℕ) → i < 256
    → d.word r i
      ≡ get_or (disk (addressed r)) (i * 2) 0 + get_or (disk (addressed r)) (i * 2 + 1) 0 * 256

-- From a drive that serves a disk of 512-byte sectors and answers within the attempts, the driver
-- reads the sector at any 28-bit address, byte for byte, without a panic, and gives `fs::read_sector`
-- what the file system's model reads there.
pub read_sector-disk :
    (d : Controller) (disk : ℕ → List ℕ) (drive : Drive) (lba k m : ℕ) (b : Bus)
    → lba < 2 ^ 28
    → Answers d b.status_reads k m
    → Serves d disk drive
    → length (disk lba) ≡ 512
    → ((i : ℕ) → get_or (disk lba) i 0 < 256)
    → (b' : Bus) × (read_sector d drive lba b ≡ ok (disk lba, b'))
      × (Read.read_sector disk lba ≡ ok (disk lba))
unfolding read_sector wait_until_not_busy wait_for_data Read.read_sector
read_sector-disk d disk drive lba k m b h ready serves len small =
    let (at_lba, head, count, command, _, _, _, _) = select-addressed drive lba h in
    let b1 : Bus = record b { status_reads = b.status_reads + k + 1 } in
    let b2 : Bus = record b1 { registers = select drive lba; data_reads = 0 } in
    let b3 : Bus = record b2 { status_reads = b2.status_reads + m + 1 } in
    let (b', run) = read_words-pairs d 256 (disk lba) b3 len small (λ i lt.
      ap (d.word (select drive lba)) (omega arith)
      ∙ serves (select drive lba) head count command i lt
      ∙ ap (λ a. get_or (disk a) (i * 2) 0 + get_or (disk a) (i * 2 + 1) 0 * 256) at_lba) in
    (
      b',
      rw
          (
            lt→ltb lba (2 ^ 28) h,
            poll_busy-ok d k poll_attempts b ready.soon ready.busy ready.free,
            poll_data-ok d m poll_attempts b2 ready.soon_after ready.no_error ready.no_data
                ready.data_there,
            run,
          )
          refl,
      rw (lt→ltb lba (2 ^ 28) h) refl,
    )
