-- ===== src/Fs/Read.antt =====
-- Reading the disk: the root directory, the cluster chain, and whole files.
use velora_os.Base.{
  ℕ, zero, suc, ◌+◌, ◌-◌, ◌*◌, ◌/◌, ◌%◌, ◌^◌, Bool, true, false, ◌||◌, List, [], ◌++◌, Option, none,
  some, Outcome, ok, stuck, ◌>>=◌, ◌>>◌, assert, ltb, leb, ◌==◌, if◌then◌else◌, min, length, take,
}
use velora_os.Fs.Volume.{
  BiosParameterBlock, DirEntry, found, end_of_directory, go_on, sector_size, read_u16, parse,
  first_fat_sector, first_root_dir_sector, root_dir_sector_count, cluster_to_lba, to_fat_83,
  scan_sector,
}

-- The filesystem drive: the bytes of each sector.
module _ (disk : ℕ → List ℕ) where
  -- `ata::read_sector` asserts a 28-bit address.
  unfoldable pub read_sector : ℕ → Outcome (List ℕ)
  read_sector lba = do assert (ltb lba (2 ^ 28)); ok (disk lba)

  -- `'sectors: for i in 0..sector_count`, with `n` sectors left.
  unfoldable pub scan_root : List ℕ → ℕ → ℕ → Outcome (Option DirEntry)
  scan_root name zero lba = ok none
  scan_root name (suc n) lba = do
    sector ← read_sector lba
    verdict ← scan_sector name (sector_size / 32) sector
    let rest = scan_root name n (lba + 1)
    elim verdict [ found e ↦ ok (some e) | end_of_directory ↦ ok none | go_on ↦ rest ]

  unfoldable pub find_in_root_dir : BiosParameterBlock → List ℕ → Outcome (Option DirEntry)
  find_in_root_dir bpb name = scan_root name (root_dir_sector_count bpb) (first_root_dir_sector bpb)

  unfoldable pub next_cluster : BiosParameterBlock → ℕ → Outcome (Option ℕ)
  next_cluster bpb cluster = do
    let fat_byte_offset = cluster * 2
    fat_sector ← read_sector (first_fat_sector bpb + fat_byte_offset / sector_size)
    entry ← read_u16 fat_sector (fat_byte_offset % sector_size)
    ok (if leb 0xFFF8 entry || entry == 0xFFF7 then none else some entry)

  -- `for i in 0..bpb.sectors_per_cluster`, with `n` sectors left: the data so far, and whether the
  -- file is complete. `sector[..take]` panics on a short sector.
  unfoldable pub read_cluster : ℕ → ℕ → ℕ → List ℕ → Outcome (Bool × List ℕ)
  read_cluster file_size zero lba bytes = ok (false, bytes)
  read_cluster file_size (suc n) lba bytes = do
    sector ← read_sector lba
    let remaining = file_size - length bytes
    let wanted = min remaining sector_size
    assert (leb wanted (length sector))
    let bytes' = bytes ++ take wanted sector
    let rest = read_cluster file_size n (lba + 1) bytes'
    if leb file_size (length bytes') then ok (true, bytes') else rest

  -- `loop`, on fuel.
  unfoldable pub read_chain : BiosParameterBlock → ℕ → ℕ → ℕ → List ℕ → Outcome (List ℕ)
  read_chain bpb file_size zero cluster bytes = stuck
  read_chain bpb file_size (suc fuel) cluster bytes = do
    first_lba ← cluster_to_lba bpb cluster
    (done, bytes') ← read_cluster file_size bpb.sectors_per_cluster first_lba bytes
    following ← (if done then ok none else next_cluster bpb cluster)
    elim following [ none ↦ ok bytes' | some next ↦ read_chain bpb file_size fuel next bytes' ]

  -- Every cluster with at least one sector adds 512 bytes or completes the file.
  unfoldable pub read_file : List ℕ → Outcome (Option (List ℕ))
  read_file name = elim (to_fat_83 name) [
    | none ↦ ok none
    | some fat_name ↦ (do
      boot_sector ← read_sector 0
      parsed ← parse boot_sector
      elim parsed [
        | none ↦ ok none
        | some bpb ↦ (do
          entry ← find_in_root_dir bpb fat_name
          elim entry [
            | none ↦ ok none
            | some e ↦ if e.file_size == 0 then ok (some []) else (do
              contents ←
                  read_chain bpb e.file_size (e.file_size / sector_size + 1) e.first_cluster []
              ok (some contents))
          ])
      ])
  ]
