-- ===== src/Fs/Tests.antt =====
-- The cluster chain on concrete volumes.
use velora_os.Base.{
  ℕ, Bool, true, false, ◌≡◌, refl, List, [], ◌∷◌, some, ok, stuck, arith, length, replicate,
  if◌then◌else◌, ◌==◌, checked_sub,
}
use velora_os.Fs.Names.{to_fat_83-padded}
use velora_os.Fs.Volume.{
  to_ascii_uppercase, to_fat_83, split_once, BiosParameterBlock, cluster_to_lba, first_data_sector,
  first_fat_sector, read_u16,
}
use velora_os.Fs.Read.{read_chain, next_cluster, read_sector}
use velora_os.Fs.Chains.{Reads, read_chain-Reads, read_chain-spins}

abbrev table : List ℕ
table = 2 ∷ 0 ∷ 2 ∷ 0 ∷ 2 ∷ 0 ∷ replicate 506 0

-- Every entry of the allocation table is 2.
abbrev disk : ℕ → List ℕ
disk lba = if lba == 1 then table else replicate 512 7

disk-length : (lba : ℕ) → length (disk lba) ≡ 512
disk-length lba = by_table (lba == 1)
  where
    by_table : (b : Bool) → length {A = ℕ} (if b then table else replicate 512 7) ≡ 512
    by_table true = refl
    by_table false = refl

abbrev volume : BiosParameterBlock
volume = record {
  reserved_sector_count = 1;
  num_fats = 1;
  root_entry_count = 16;
  fat_size_sectors = 1;
  sectors_per_cluster = 1;
}

abbrev broken : BiosParameterBlock
broken = record volume { sectors_per_cluster = 0 }

read_chain-Reads_example : Reads disk disk-length 700 (read_chain disk volume 700 2 2 [])
read_chain-Reads_example =
    read_chain-Reads disk disk-length volume 700 2 2 [] (omega arith) (omega arith) (omega arith)

broken_lba : cluster_to_lba broken 2 ≡ ok 3
unfolding cluster_to_lba checked_sub first_data_sector
broken_lba = refl

broken_next : next_cluster disk broken 2 ≡ ok (some 2)
unfolding next_cluster read_sector first_fat_sector read_u16
broken_next = refl

read_chain-spins_example : read_chain disk broken 700 1000 2 [] ≡ stuck
read_chain-spins_example = read_chain-spins disk broken 700 1000 2 3 [] refl broken_lba broken_next

to_fat_83-padded_example :
    to_fat_83 (b'e' ∷ b'c' ∷ b'h' ∷ b'o' ∷ b'.' ∷ b'e' ∷ b'l' ∷ b'f' ∷ [])
    ≡ some (b'E' ∷ b'C' ∷ b'H' ∷ b'O' ∷ 32 ∷ 32 ∷ 32 ∷ 32 ∷ b'E' ∷ b'L' ∷ b'F' ∷ [])
unfolding to_ascii_uppercase split_once
to_fat_83-padded_example =
    to_fat_83-padded (b'e' ∷ b'c' ∷ b'h' ∷ b'o' ∷ b'.' ∷ b'e' ∷ b'l' ∷ b'f' ∷ [])
