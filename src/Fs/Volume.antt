-- ===== src/Fs/Volume.antt =====
-- The volume's layout, 8.3 names and the root directory. Arithmetic is that of a build with overflow
-- checks; the drive is a parameter, the sector at each address.
use velora_os.Base.{
  ℕ, zero, suc, ◌+◌, ◌-◌, ◌*◌, ◌/◌, ◌^◌, Bool, true, false, ◌&&◌, ◌||◌, not, List, [], ◌∷◌, Option,
  none, some, Outcome, ok, ◌>>=◌, expect, ltb, leb, ◌==◌, if◌then◌else◌, get_elem?, set, length,
  take, drop, replicate, bit_and, checked_sub,
}

abbrev pub sector_size : ℕ
sector_size = 512

abbrev pub dir_entry_size : ℕ
dir_entry_size = 32

-- A slice out of bounds panics.
unfoldable pub read_u16 : List ℕ → ℕ → Outcome ℕ
read_u16 bytes offset = do
  b0 ← expect (get_elem? bytes offset)
  b1 ← expect (get_elem? bytes (offset + 1))
  ok (b0 + b1 * 2 ^ 8)

unfoldable pub read_u32 : List ℕ → ℕ → Outcome ℕ
read_u32 bytes offset = do
  b0 ← expect (get_elem? bytes offset)
  b1 ← expect (get_elem? bytes (offset + 1))
  b2 ← expect (get_elem? bytes (offset + 2))
  b3 ← expect (get_elem? bytes (offset + 3))
  ok (b0 + b1 * 2 ^ 8 + b2 * 2 ^ 16 + b3 * 2 ^ 24)

pub record BiosParameterBlock : Type 0 where
  pub reserved_sector_count : ℕ
  pub num_fats : ℕ
  pub root_entry_count : ℕ
  pub fat_size_sectors : ℕ
  pub sectors_per_cluster : ℕ

unfoldable pub parse : List ℕ → Outcome (Option BiosParameterBlock)
unfolding read_u16
parse boot_sector = do
  bytes_per_sector ← read_u16 boot_sector 0x0B
  if bytes_per_sector == sector_size
      then (do
        reserved ← read_u16 boot_sector 0x0E
        fats ← expect (get_elem? boot_sector 0x10)
        entries ← read_u16 boot_sector 0x11
        fat_size ← read_u16 boot_sector 0x16
        per_cluster ← expect (get_elem? boot_sector 0x0D)
        ok (
            some (record {
              reserved_sector_count = reserved;
              num_fats = fats;
              root_entry_count = entries;
              fat_size_sectors = fat_size;
              sectors_per_cluster = per_cluster;
            })))
      else ok none

unfoldable pub first_fat_sector : BiosParameterBlock → ℕ
first_fat_sector bpb = bpb.reserved_sector_count

-- `div_ceil`
unfoldable pub root_dir_sector_count : BiosParameterBlock → ℕ
root_dir_sector_count bpb =
    let root_dir_bytes = bpb.root_entry_count * dir_entry_size in
    (root_dir_bytes + (sector_size - 1)) / sector_size

unfoldable pub first_root_dir_sector : BiosParameterBlock → ℕ
unfolding first_fat_sector
first_root_dir_sector bpb = first_fat_sector bpb + bpb.num_fats * bpb.fat_size_sectors

unfoldable pub first_data_sector : BiosParameterBlock → ℕ
unfolding first_root_dir_sector root_dir_sector_count
first_data_sector bpb = first_root_dir_sector bpb + root_dir_sector_count bpb

-- `cluster as u32 - 2` panics below 2.
unfoldable pub cluster_to_lba : BiosParameterBlock → ℕ → Outcome ℕ
cluster_to_lba bpb cluster = do
  index ← expect (checked_sub cluster 2)
  ok (first_data_sector bpb + index * bpb.sectors_per_cluster)

-- `to_ascii_uppercase`
unfoldable pub to_ascii_uppercase : ℕ → ℕ
to_ascii_uppercase b = if leb b'a' b && leb b b'z' then b - 32 else b

-- `split_once('.')`: before and after the first dot.
unfoldable pub split_once : List ℕ → Option (List ℕ × List ℕ)
split_once [] = none
split_once (b ∷ bs) =
    if b == b'.'
    then some ([], bs)
    else elim (split_once bs) [ none ↦ none | some (base, ext) ↦ some (b ∷ base, ext) ]

-- `for (i, b) in bytes.enumerate() { name[at + i] = b.to_ascii_uppercase() }`
unfoldable pub write_upper : List ℕ → ℕ → List ℕ → List ℕ
unfolding to_ascii_uppercase
write_upper name at [] = name
write_upper name at (b ∷ bs) = write_upper (set name at (to_ascii_uppercase b)) (at + 1) bs

abbrev pub name_parts : List ℕ → List ℕ × List ℕ
name_parts name = elim (split_once name) [ none ↦ (name, []) | some parts ↦ parts ]

-- A name is its bytes.
unfoldable pub to_fat_83 : List ℕ → Option (List ℕ)
unfolding write_upper split_once
to_fat_83 name =
    let (base, ext) = name_parts name in
    if length base == 0 || (ltb 8 (length base) || ltb 3 (length ext))
    then none
    else some (write_upper (write_upper (replicate 11 b' ') 0 base) 8 ext)

pub record DirEntry : Type 0 where
  pub first_cluster : ℕ
  pub file_size : ℕ

-- What one directory entry makes the scan do.
pub data Verdict : Type 0 where
  found : DirEntry → Verdict
  end_of_directory : Verdict
  go_on : Verdict

unfoldable pub bytes_eq : List ℕ → List ℕ → Bool
bytes_eq [] [] = true
bytes_eq (x ∷ xs) (y ∷ ys) = x == y && bytes_eq xs ys
bytes_eq _ _ = false

unfoldable pub check_entry : List ℕ → List ℕ → Outcome Verdict
check_entry name entry = do
  first ← expect (get_elem? entry 0)
  attributes ← expect (get_elem? entry 0x0B)
  if first == 0x00
      then ok end_of_directory
      else if first == 0xE5
      then ok go_on
      else if attributes == 0x0F || not (bit_and attributes 0x08 == 0)
      then ok go_on
      else if not (bit_and attributes 0x10 == 0)
      then ok go_on
      else if bytes_eq (take 11 entry) name
      then (do
        cluster ← read_u16 entry 0x1A
        size ← read_u32 entry 0x1C
        ok (found (record { first_cluster = cluster; file_size = size })))
      else ok go_on

-- `for entry in sector.chunks_exact(32)`, with `n` chunks left.
unfoldable pub scan_sector : List ℕ → ℕ → List ℕ → Outcome Verdict
unfolding check_entry
scan_sector name zero bytes = ok go_on
scan_sector name (suc n) bytes = do
  verdict ← check_entry name (take dir_entry_size bytes)
  let rest = scan_sector name n (drop dir_entry_size bytes)
  elim verdict [ found e ↦ ok (found e) | end_of_directory ↦ ok end_of_directory | go_on ↦ rest ]
