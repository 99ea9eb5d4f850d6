-- ===== src/Fs/Contents.antt =====
-- What `read_file` returns: the bytes of the file's clusters in the order of the chain, cut at its size.
use velora_os.Base.{
  ℕ, zero, suc, ◌+◌, ◌-◌, ◌*◌, ◌/◌, ◌^◌, ◌≤◌, ◌<◌, ◌≡◌, ◌≢◌, refl, sym, ap, ap₂, ◌∙◌, inl, inr,
  Bool, true, false, List, [], ◌∷◌, ◌++◌, none, some, ok, ◌>>=◌, arith, leb, ◌==◌, min, lt→ltb,
  Bool-cases, if◌then◌else◌, length, take, length-append, take-length, append_assoc, append-nil,
  checked_sub,
}
use velora_os.Fs.Volume.{
  BiosParameterBlock, DirEntry, cluster_to_lba, first_data_sector, first_root_dir_sector,
  root_dir_sector_count, to_fat_83, parse, sector_size,
}
use velora_os.Fs.Read.{read_sector, read_cluster, read_chain, next_cluster, read_file}
use velora_os.Fs.Chains.{extended, length-extended, near_sector}
use velora_os.Fs.Directory.{lookup, root_entries, find_in_root_dir-lookup}

take-append-le : (n : ℕ) (xs ys : List ℕ) → n ≤ length xs → take n (xs ++ ys) ≡ take n xs
take-append-le zero xs ys h = refl
take-append-le (suc n) [] ys h = absurd (omega arith)
take-append-le (suc n) (x ∷ xs) ys h = ap (λ zs. x ∷ zs) (take-append-le n xs ys (omega arith))

take-append :
    (n : ℕ) (xs ys : List ℕ) → length xs ≤ n → take n (xs ++ ys) ≡ xs ++ take (n - length xs) ys
take-append n [] ys h = ap (λ k. take k ys) {y = n - 0} (omega arith)
take-append zero (x ∷ xs) ys h = absurd (omega arith)
take-append (suc n) (x ∷ xs) ys h =
    ap (λ zs. x ∷ zs)
      (take-append n xs ys (omega arith)
        ∙ ap (λ k. xs ++ take k ys) {y = suc n - suc (length xs)} (omega arith))

take_all : (n : ℕ) (xs : List ℕ) → length xs ≤ n → take n xs ≡ xs
take_all zero [] h = refl
take_all zero (x ∷ xs) h = absurd (omega arith)
take_all (suc n) [] h = refl
take_all (suc n) (x ∷ xs) h = ap (λ zs. x ∷ zs) (take_all n xs (omega arith))

module _ (disk : ℕ → List ℕ) (whole : (lba : ℕ) → length (disk lba) ≡ 512) where
  -- The bytes of `n` sectors from `lba` on.
  abbrev pub sectors : ℕ → ℕ → List ℕ
  sectors zero lba = []
  sectors (suc n) lba = disk lba ++ sectors n (lba + 1)

  length-sectors : (n lba : ℕ) → length (sectors n lba) ≡ n * 512
  length-sectors zero lba = refl
  length-sectors (suc n) lba =
      omega (
        arith,
        length-append (disk lba) (sectors n (lba + 1)),
        whole lba,
        length-sectors n (lba + 1),
      )

  extended-take :
      (size lba : ℕ) (bytes : List ℕ)
      → length bytes ≤ size
      → extended disk whole size lba bytes ≡ take size (bytes ++ disk lba)
  unfolding extended
  extended-take size lba bytes h =
      ap (λ k. bytes ++ take k (disk lba)) {y = min (length (disk lba)) (size - length bytes)}
        (omega (arith, whole lba))
      ∙ ap (λ xs. bytes ++ xs) (take-length (disk lba) (size - length bytes))
      ∙ sym (take-append size bytes (disk lba) h)

  -- A cluster is read to its end, or to the end of the file.
  read_cluster-sectors :
      (size n lba : ℕ) (bytes : List ℕ)
      → length bytes < size
      → lba + n ≤ 2 ^ 28
      → read_cluster disk size n lba bytes
        ≡ ok (leb size (length bytes + n * 512), take size (bytes ++ sectors n lba))
  unfolding read_cluster
  read_cluster-sectors size zero lba bytes h r =
      ap₂ (λ b xs. ok (b, xs)) (ground arith)
        (sym
          (take_all size (bytes ++ []) (omega (arith, length-append bytes [])) ∙ append-nil bytes))
  read_cluster-sectors size (suc n) lba bytes h r =
      near_sector disk whole size n lba bytes (lt→ltb lba (2 ^ 28) (omega arith))
      ∙ by_room (read_cluster-sectors size n (lba + 1) more) (leb size (length more)) refl
    where
      more : List ℕ
      more = extended disk whole size lba bytes

      more_length : length more ≡ min size (length bytes + 512)
      more_length = length-extended disk whole size lba bytes (omega arith)

      both : bytes ++ sectors (suc n) lba ≡ (bytes ++ disk lba) ++ sectors n (lba + 1)
      both = sym (append_assoc bytes (disk lba) (sectors n (lba + 1)))

      by_room :
          (length more < size
            → lba + 1 + n ≤ 2 ^ 28
            → read_cluster disk size n (lba + 1) more
              ≡ ok (leb size (length more + n * 512), take size (more ++ sectors n (lba + 1))))
          → (b : Bool) → leb size (length more) ≡ b
          → (if b then ok (true, more) else read_cluster disk size n (lba + 1) more)
            ≡ ok (leb size (length bytes + suc n * 512), take size (bytes ++ sectors (suc n) lba))
      by_room rest true e =
          ap₂ (λ b xs. ok (b, xs)) (ground (arith, more_length))
            (extended-take size lba bytes (omega arith)
              ∙ sym (
                  take-append-le size (bytes ++ disk lba) (sectors n (lba + 1))
                    (ground (arith, more_length, length-append bytes (disk lba), whole lba)))
              ∙ ap (take size) (sym both))
      by_room rest false e =
          let short : length bytes + 512 < size = ground (arith, more_length) in
          let same : more ≡ bytes ++ disk lba =
            extended-take size lba bytes (omega arith)
            ∙ take_all size (bytes ++ disk lba)
                (omega (arith, length-append bytes (disk lba), whole lba)) in
          rest (omega (arith, more_length)) (omega arith)
          ∙ ap₂ (λ b xs. ok (b, xs))
              (ap (leb size) {y = length bytes + suc n * 512} (omega (arith, more_length)))
              (ap (λ xs. take size (xs ++ sectors n (lba + 1))) same ∙ ap (take size) (sym both))

  module _ (bpb : BiosParameterBlock) where
    -- The first sector of a cluster; clusters 0 and 1 are reserved.
    abbrev pub first_lba : ℕ → ℕ
    first_lba cluster = first_data_sector bpb + (cluster - 2) * bpb.sectors_per_cluster

    abbrev pub Placed : ℕ → Type 0
    Placed cluster = (2 ≤ cluster) × (first_lba cluster + bpb.sectors_per_cluster ≤ 2 ^ 28)

    -- The allocation table leads from a cluster through these to the end of a chain.
    abbrev pub Chain : ℕ → List ℕ → Type 0
    Chain cluster [] = Placed cluster × (next_cluster disk bpb cluster ≡ ok none)
    Chain cluster (next ∷ rest) =
        Placed cluster × (next_cluster disk bpb cluster ≡ ok (some next)) × Chain next rest

    abbrev pub content : List ℕ → List ℕ
    content [] = []
    content (cluster ∷ rest) = sectors bpb.sectors_per_cluster (first_lba cluster) ++ content rest

    Chain-Placed : (cluster : ℕ) (rest : List ℕ) → Chain cluster rest → Placed cluster
    Chain-Placed cluster [] h = h.0
    Chain-Placed cluster (next ∷ rest) h = h.0

    cluster_to_lba-first :
        (cluster : ℕ) → 2 ≤ cluster → cluster_to_lba bpb cluster ≡ ok (first_lba cluster)
    unfolding cluster_to_lba checked_sub
    cluster_to_lba-first cluster h = ground arith

    -- The data up to the end of a cluster.
    with_cluster : ℕ → List ℕ → List ℕ
    with_cluster cluster bytes = bytes ++ sectors bpb.sectors_per_cluster (first_lba cluster)

    length-with_cluster :
        (cluster : ℕ) (bytes : List ℕ)
        → length (with_cluster cluster bytes) ≡ length bytes + bpb.sectors_per_cluster * 512
    unfolding with_cluster
    length-with_cluster cluster bytes = omega (
      arith,
      length-append bytes (sectors bpb.sectors_per_cluster (first_lba cluster)),
      length-sectors bpb.sectors_per_cluster (first_lba cluster),
    )

    -- One round of the loop.
    read_chain-round :
        (size fuel cluster : ℕ) (bytes : List ℕ)
        → length bytes < size
        → Placed cluster
        → read_chain disk bpb size (suc fuel) cluster bytes
          ≡ (if leb size (length (with_cluster cluster bytes))
              then ok none
              else next_cluster disk bpb cluster)
            >>= λ following. elim following [
              | none ↦ ok (take size (with_cluster cluster bytes))
              | some next ↦
                  read_chain disk bpb size fuel next (take size (with_cluster cluster bytes))
            ]
    unfolding read_chain with_cluster
    read_chain-round size fuel cluster bytes lt placed =
        rw
          (
            length-with_cluster cluster bytes,
            cluster_to_lba-first cluster placed.0,
            read_cluster-sectors size bpb.sectors_per_cluster (first_lba cluster) bytes lt placed.1,
            read_chain,
          )
          refl

    with_cluster-content :
        (cluster : ℕ) (rest bytes : List ℕ)
        → with_cluster cluster bytes ++ content rest ≡ bytes ++ content (cluster ∷ rest)
    unfolding with_cluster
    with_cluster-content cluster rest bytes =
        append_assoc bytes (sectors bpb.sectors_per_cluster (first_lba cluster)) (content rest)

    complete :
        (size cluster : ℕ) (rest bytes : List ℕ)
        → leb size (length (with_cluster cluster bytes)) ≡ true
        → take size (with_cluster cluster bytes) ≡ take size (bytes ++ content (cluster ∷ rest))
    complete size cluster rest bytes e =
        sym (take-append-le size (with_cluster cluster bytes) (content rest) (ground arith))
        ∙ ap (take size) (with_cluster-content cluster rest bytes)

    -- On a drive of 512-byte sectors and a volume with at least one sector to a cluster, the loop of
    -- `read_file` with fuel for the rest of the file adds the clusters of the chain in its order, all
    -- sectors of each, and cuts the result at the file's size; a chain that is too short gives a short
    -- file.
    pub read_chain-contents :
        (size fuel cluster : ℕ) (rest bytes : List ℕ)
        → 0 < bpb.sectors_per_cluster
        → length bytes < size
        → size < length bytes + fuel * 512
        → Chain cluster rest
        → read_chain disk bpb size fuel cluster bytes
          ≡ ok (take size (bytes ++ content (cluster ∷ rest)))
    read_chain-contents size zero cluster rest bytes pos lt enough chain = absurd (omega arith)
    read_chain-contents size (suc fuel) cluster [] bytes pos lt enough chain =
        read_chain-round size fuel cluster bytes lt chain.0
        ∙ elim (Bool-cases (leb size (length (with_cluster cluster bytes)))) [
          | inl e ↦ rw e (ap ok (complete size cluster [] bytes e))
          | inr e ↦
              rw (e, chain.1)
                (ap (λ xs. ok (take size xs))
                  (sym (append-nil (with_cluster cluster bytes))
                    ∙ with_cluster-content cluster [] bytes))
        ]
    read_chain-contents size (suc fuel) cluster (next ∷ rest) bytes pos lt enough chain =
        read_chain-round size fuel cluster bytes lt chain.0
        ∙ elim (Bool-cases (leb size (length (with_cluster cluster bytes)))) [
          | inl e ↦ rw e (ap ok (complete size cluster (next ∷ rest) bytes e))
          | inr e ↦
              let short : length (with_cluster cluster bytes) < size = ground arith in
              rw (e, chain.1, take_all size (with_cluster cluster bytes) (omega arith))
                (read_chain-contents size fuel next rest (with_cluster cluster bytes) pos short
                    (omega (arith, length-with_cluster cluster bytes)) chain.2
                  ∙ ap (λ xs. ok (take size xs)) (with_cluster-content cluster (next ∷ rest) bytes))
        ]

    enough_fuel : (size : ℕ) → size < 0 + (size / sector_size + 1) * 512
    enough_fuel size = omega arith

    -- The entries of the root directory.
    abbrev pub directory : List (List ℕ)
    directory = root_entries disk (root_dir_sector_count bpb) (first_root_dir_sector bpb)

    module _ (name fat_name : List ℕ) (e : DirEntry) (rest : List ℕ) where
      -- On a drive of 512-byte sectors, where the boot sector parses to a volume with at least one
      -- sector to a cluster and a root directory below the 28-bit boundary, and the name has an 8.3
      -- form: `read_file` of the first file of that name in the directory returns the bytes of its
      -- clusters, in the order of the chain, cut at the size that the entry gives; an empty file
      -- needs no chain.
      pub read_file-contents :
          to_fat_83 name ≡ some fat_name
          → parse (disk 0) ≡ ok (some bpb)
          → 0 < bpb.sectors_per_cluster
          → first_root_dir_sector bpb + root_dir_sector_count bpb ≤ 2 ^ 28
          → lookup fat_name directory ≡ some e
          → (e.file_size ≢ 0 → Chain e.first_cluster rest)
          → read_file disk name ≡ ok (some (take e.file_size (content (e.first_cluster ∷ rest))))
      unfolding read_file read_sector
      read_file-contents named parsed pos fits listed chain =
          rw
            (named, parsed, find_in_root_dir-lookup disk whole bpb fat_name fits, listed, read_file)
            (elim (Bool-cases (e.file_size == 0)) [
              | inl z ↦ rw z (
                  ap (λ k. ok (some (take k (content (e.first_cluster ∷ rest))))) {x = 0}
                    (ground arith))
              | inr s ↦
                  rw
                    (
                      s,
                      read_chain-contents e.file_size (e.file_size / sector_size + 1)
                          e.first_cluster rest [] pos (ground arith) (enough_fuel e.file_size)
                          (chain (λ z. ground arith)),
                    )
                    refl
            ])
