-- ===== src/Fs/Directory.antt =====
-- The root directory as one list of entries, which the scan of its sectors searches.
use velora_os.Base.{
  ℕ, zero, suc, ◌+◌, ◌*◌, ◌^◌, ◌≤◌, ◌<◌, ◌≡◌, refl, ap, ◌∙◌, Bool, true, false, not, ◌&&◌, ◌||◌,
  List, [], ◌∷◌, ◌++◌, Option, none, some, ok, expect, arith, ltb, ◌==◌, lt→ltb, if◌then◌else◌,
  get_elem?, get_or, get_elem?-get_or, length, take, drop, length-take, length-drop, bit_and,
}
use velora_os.Fs.Volume.{
  BiosParameterBlock, DirEntry, Verdict, found, end_of_directory, go_on, read_u16, read_u32,
  bytes_eq, check_entry, scan_sector, first_root_dir_sector, root_dir_sector_count,
}
use velora_os.Fs.Read.{read_sector, scan_root, find_in_root_dir}

-- The byte `i` of an entry.
abbrev pub byte_of : List ℕ → ℕ → ℕ
byte_of entry i = get_or entry i 0

-- The entry is in use, and neither part of a long name, nor the volume's label, nor a directory.
unfoldable pub is_file : List ℕ → Bool
is_file entry =
    not (byte_of entry 0 == 0xE5)
    && (not (byte_of entry 11 == 0x0F)
        && (bit_and (byte_of entry 11) 0x08 == 0 && bit_and (byte_of entry 11) 0x10 == 0))

unfoldable pub entry_of : List ℕ → DirEntry
entry_of entry = record {
  first_cluster = byte_of entry 26 + byte_of entry 27 * 2 ^ 8;
  file_size =
      byte_of entry 28
      + byte_of entry 29 * 2 ^ 8
      + byte_of entry 30 * 2 ^ 16
      + byte_of entry 31 * 2 ^ 24;
}

-- The first file of that name, before the end mark.
unfoldable pub lookup : List ℕ → List (List ℕ) → Option DirEntry
unfolding is_file entry_of
lookup name [] = none
lookup name (entry ∷ rest) =
    if byte_of entry 0 == 0
    then none
    else if is_file entry && bytes_eq (take 11 entry) name
    then some (entry_of entry)
    else lookup name rest

-- The entries of a sector.
abbrev pub chunks : ℕ → List ℕ → List (List ℕ)
chunks zero bytes = []
chunks (suc n) bytes = take 32 bytes ∷ chunks n (drop 32 bytes)

-- The entries of `n` sectors from `lba` on.
abbrev pub root_entries : (ℕ → List ℕ) → ℕ → ℕ → List (List ℕ)
root_entries disk zero lba = []
root_entries disk (suc n) lba = chunks 16 (disk lba) ++ root_entries disk n (lba + 1)

entry_verdict : List ℕ → List ℕ → Verdict
entry_verdict name entry =
    if byte_of entry 0 == 0
    then end_of_directory
    else if is_file entry && bytes_eq (take 11 entry) name
    then found (entry_of entry)
    else go_on

byte :
    (entry : List ℕ) (i : ℕ) → i < length entry → expect (get_elem? entry i) ≡ ok (byte_of entry i)
byte entry i h = ap expect (get_elem?-get_or entry i 0 h)

check_entry-verdict :
    (name entry : List ℕ)
    → length entry ≡ 32
    → check_entry name entry ≡ ok (entry_verdict name entry)
unfolding check_entry entry_verdict is_file entry_of read_u16 read_u32
check_entry-verdict name entry h =
    rw
      (
        byte entry 0 (omega (arith, h)),
        byte entry 0x0B (omega (arith, h)),
        byte entry 26 (omega (arith, h)),
        byte entry 27 (omega (arith, h)),
        byte entry 28 (omega (arith, h)),
        byte entry 29 (omega (arith, h)),
        byte entry 30 (omega (arith, h)),
        byte entry 31 (omega (arith, h)),
        check_entry,
        read_u32,
      )
      (by_tests (byte_of entry 0 == 0) (byte_of entry 0 == 0xE5) (byte_of entry 11 == 0x0F)
        (bit_and (byte_of entry 11) 0x08 == 0) (bit_and (byte_of entry 11) 0x10 == 0)
        (bytes_eq (take 11 entry) name))
  where
    by_tests :
        (last free long label directory named : Bool)
        → (if last
            then ok end_of_directory
            else if free
            then ok go_on
            else if long || not label
            then ok go_on
            else if not directory
            then ok go_on
            else if named
            then ok (found (entry_of entry))
            else ok go_on)
          ≡ ok (
              if last
              then end_of_directory
              else if (not free && (not long && (label && directory))) && named
              then found (entry_of entry)
              else go_on)
    by_tests true free long label directory named = refl
    by_tests false true long label directory named = refl
    by_tests false false true label directory named = refl
    by_tests false false false false directory named = refl
    by_tests false false false true false named = refl
    by_tests false false false true true true = refl
    by_tests false false false true true false = refl

-- What is left to search once a sector gave this verdict.
settle : Verdict → Option DirEntry → Option DirEntry
settle (found e) rest = some e
settle end_of_directory rest = none
settle go_on rest = rest

lookup-settle :
    (name entry : List ℕ) (rest : List (List ℕ))
    → lookup name (entry ∷ rest) ≡ settle (entry_verdict name entry) (lookup name rest)
unfolding lookup settle entry_verdict
lookup-settle name entry rest =
    by_tests (byte_of entry 0 == 0) (is_file entry && bytes_eq (take 11 entry) name)
  where
    by_tests :
        (last here : Bool)
        → (if last then none else if here then some (entry_of entry) else lookup name rest)
          ≡ settle
              (if last then end_of_directory else if here then found (entry_of entry) else go_on)
              (lookup name rest)
    by_tests true here = refl
    by_tests false true = refl
    by_tests false false = refl

-- A sector's scan and the search of its entries.
scan_sector-settle :
    (name : List ℕ) (n : ℕ) (bytes : List ℕ) (rest : List (List ℕ))
    → 32 * n ≤ length bytes
    → (v : Verdict) × (scan_sector name n bytes ≡ ok v)
      × (lookup name (chunks n bytes ++ rest) ≡ settle v (lookup name rest))
unfolding scan_sector settle
scan_sector-settle name zero bytes rest h = (go_on, refl, refl)
scan_sector-settle name (suc n) bytes rest h =
    let entry : List ℕ = take 32 bytes in
    let (v, scanned, searched) =
      scan_sector-settle name n (drop 32 bytes) rest (omega (arith, length-drop 32 bytes)) in
    let checked : check_entry name entry ≡ ok (entry_verdict name entry) =
      check_entry-verdict name entry (omega (arith, length-take 32 bytes)) in
    rw (checked, scan_sector)
      (by_verdict (entry_verdict name entry) v scanned
        (lookup-settle name entry (chunks n (drop 32 bytes) ++ rest)) searched)
  where
    by_verdict :
        (first v : Verdict)
        → scan_sector name n (drop 32 bytes) ≡ ok v
        → lookup name (take 32 bytes ∷ (chunks n (drop 32 bytes) ++ rest))
          ≡ settle first (lookup name (chunks n (drop 32 bytes) ++ rest))
        → lookup name (chunks n (drop 32 bytes) ++ rest) ≡ settle v (lookup name rest)
        → (w : Verdict) × (elim first [
          | found e ↦ ok (found e)
          | end_of_directory ↦ ok end_of_directory
          | go_on ↦ scan_sector name n (drop 32 bytes)
        ]
            ≡ ok w)
          × (lookup name (take 32 bytes ∷ (chunks n (drop 32 bytes) ++ rest))
              ≡ settle w (lookup name rest))
    by_verdict (found e) v scanned here searched = (found e, refl, here)
    by_verdict end_of_directory v scanned here searched = (end_of_directory, refl, here)
    by_verdict go_on v scanned here searched = (v, scanned, here ∙ searched)

module _ (disk : ℕ → List ℕ) (sectors : (lba : ℕ) → length (disk lba) ≡ 512) where
  scan_root-lookup :
      (name : List ℕ) (n lba : ℕ)
      → lba + n ≤ 2 ^ 28
      → scan_root disk name n lba ≡ ok (lookup name (root_entries disk n lba))
  unfolding scan_root read_sector lookup settle
  scan_root-lookup name zero lba h = refl
  scan_root-lookup name (suc n) lba h =
      let near : ltb lba (2 ^ 28) ≡ true = lt→ltb lba (2 ^ 28) (omega arith) in
      let (v, scanned, searched) =
        scan_sector-settle name 16 (disk lba) (root_entries disk n (lba + 1))
          (omega (arith, sectors lba)) in
      rw (near, scanned, searched, scan_root, read_sector)
        (by_verdict v (scan_root-lookup name n (lba + 1) (omega arith)))
    where
      by_verdict :
          (v : Verdict)
          → scan_root disk name n (lba + 1) ≡ ok (lookup name (root_entries disk n (lba + 1)))
          → elim v [
            | found e ↦ ok (some e)
            | end_of_directory ↦ ok none
            | go_on ↦ scan_root disk name n (lba + 1)
          ]
            ≡ ok (settle v (lookup name (root_entries disk n (lba + 1))))
      by_verdict (found e) rest = refl
      by_verdict end_of_directory rest = refl
      by_verdict go_on rest = rest

  -- The scan of the root directory, sector by sector and entry by entry, never panics on a drive of
  -- 512-byte sectors whose directory lies below the 28-bit boundary, and finds what a search of all
  -- entries finds: the first one of that name before the end mark that is in use and a plain file.
  pub find_in_root_dir-lookup :
      (bpb : BiosParameterBlock) (name : List ℕ)
      → first_root_dir_sector bpb + root_dir_sector_count bpb ≤ 2 ^ 28
      → find_in_root_dir disk bpb name
        ≡ ok (
            lookup name (root_entries disk (root_dir_sector_count bpb) (first_root_dir_sector bpb)))
  unfolding find_in_root_dir
  find_in_root_dir-lookup bpb name h =
      scan_root-lookup name (root_dir_sector_count bpb) (first_root_dir_sector bpb) h
