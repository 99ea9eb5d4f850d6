-- ===== src/Fs/Disks.antt =====
-- A small volume: a file of two clusters, behind a deleted entry of the same name.
use velora_os.Base.{
  ◌+◌, ◌^◌, ◌≤◌, ℕ, ◌≡◌, refl, Bool, true, false, List, [], ◌∷◌, ◌++◌, none, some, ok, arith,
  length, replicate, take, if◌then◌else◌, ◌==◌,
}
use velora_os.Fs.Volume.{
  BiosParameterBlock, DirEntry, to_fat_83, write_upper, to_ascii_uppercase, split_once, parse,
  read_u16, first_fat_sector, first_root_dir_sector, root_dir_sector_count, first_data_sector,
  bytes_eq,
}
use velora_os.Fs.Read.{read_sector, next_cluster, find_in_root_dir, read_file}
use velora_os.Fs.Directory.{lookup, is_file, entry_of, root_entries, find_in_root_dir-lookup}
use velora_os.Fs.Contents.{read_file-contents, content}

abbrev fill : ℕ → List ℕ → List ℕ
fill n xs = xs ++ replicate n 0

-- 512 bytes to a sector, 1 sector to a cluster, 1 reserved sector, 1 table of 1 sector, 16 entries.
abbrev boot : List ℕ
boot = replicate 11 0 ++ (0 ∷ 2 ∷ 1 ∷ 1 ∷ 0 ∷ 1 ∷ 16 ∷ 0 ∷ 0 ∷ 0 ∷ 0 ∷ 1 ∷ fill 489 [])

-- Cluster 2 leads to cluster 3, where the chain ends.
abbrev table : List ℕ
table = 0 ∷ 0 ∷ 0 ∷ 0 ∷ 3 ∷ 0 ∷ 0xFF ∷ 0xFF ∷ replicate 504 0

abbrev file_name : List ℕ
file_name = b'A' ∷ replicate 10 b' '

abbrev root : List ℕ
root =
    (0xE5 ∷ replicate 31 0)
    ++ file_name
    ++ replicate 15 0
    ++ (2 ∷ 0 ∷ 0x58 ∷ 2 ∷ 0 ∷ 0 ∷ replicate 448 0)

abbrev pub disk : ℕ → List ℕ
disk lba =
    if lba == 0
    then boot
    else if lba == 1
    then table
    else if lba == 2
    then root
    else replicate 512 lba

pub disk-length : (lba : ℕ) → length (disk lba) ≡ 512
disk-length lba = by_sector (lba == 0) (lba == 1) (lba == 2)
  where
    by_sector :
        (a b c : Bool)
        → length {A = ℕ}
            (if a then boot else if b then table else if c then root else replicate 512 lba)
          ≡ 512
    by_sector true b c = refl
    by_sector false true c = refl
    by_sector false false true = refl
    by_sector false false false = refl

abbrev pub volume : BiosParameterBlock
volume = record {
  reserved_sector_count = 1;
  num_fats = 1;
  root_entry_count = 16;
  fat_size_sectors = 1;
  sectors_per_cluster = 1;
}

abbrev file : DirEntry
file = record { first_cluster = 2; file_size = 600 }

named : to_fat_83 (b'a' ∷ []) ≡ some file_name
unfolding to_fat_83 write_upper to_ascii_uppercase split_once
named = refl

parsed : parse (disk 0) ≡ ok (some volume)
unfolding parse read_u16
parsed = refl

fits : first_root_dir_sector volume + root_dir_sector_count volume ≤ 2 ^ 28
unfolding first_root_dir_sector root_dir_sector_count first_fat_sector
fits = omega arith

listed :
    lookup file_name
      (root_entries disk (root_dir_sector_count volume) (first_root_dir_sector volume))
    ≡ some file
unfolding lookup is_file entry_of bytes_eq first_root_dir_sector root_dir_sector_count
    first_fat_sector
listed = refl

second : next_cluster disk volume 2 ≡ ok (some 3)
unfolding next_cluster read_sector first_fat_sector read_u16
second = refl

last : next_cluster disk volume 3 ≡ ok none
unfolding next_cluster read_sector first_fat_sector read_u16
last = refl

pub small_file :
    read_file disk (b'a' ∷ []) ≡ ok (some (take 600 (content disk disk-length volume (2 ∷ 3 ∷ []))))
unfolding first_data_sector first_root_dir_sector root_dir_sector_count first_fat_sector
small_file =
    read_file-contents disk disk-length volume (b'a' ∷ []) file_name file (3 ∷ []) named parsed
      (omega arith) fits listed
      (λ h. ((omega arith, omega arith), second, ((omega arith, omega arith), last)))

read_file-contents_example :
    read_file disk (b'a' ∷ []) ≡ ok (some (take 600 (content disk disk-length volume (2 ∷ 3 ∷ []))))
unfolding first_data_sector first_root_dir_sector root_dir_sector_count first_fat_sector
read_file-contents_example =
    read_file-contents disk disk-length volume (b'a' ∷ []) file_name file (3 ∷ []) named parsed
      (omega arith) fits listed
      (λ h. ((omega arith, omega arith), second, ((omega arith, omega arith), last)))

find_in_root_dir-lookup_example :
    find_in_root_dir disk volume file_name
    ≡ ok (
        lookup file_name
          (root_entries disk (root_dir_sector_count volume) (first_root_dir_sector volume)))
find_in_root_dir-lookup_example = find_in_root_dir-lookup disk disk-length volume file_name fits
