-- ===== src/Fs/Chains.antt =====
-- The loop of `read_file`: it ends, and it returns at most the bytes the directory entry promises.
use velora_os.Base.{
  ℕ, zero, suc, ◌+◌, ◌-◌, ◌*◌, ◌/◌, ◌%◌, ◌^◌, ◌≤◌, ◌<◌, ◌≡◌, refl, sym, ap, ◌⊎◌, inl, inr, Bool,
  true, false, List, ◌++◌, Option, none, some, Outcome, ok, panic, stuck, ◌>>=◌, arith, ltb, leb,
  if◌then◌else◌, min, subst, le→leb, Returns, expect-Returns, >>=-Returns, expect, checked_sub,
  length, take, length-append, length-take,
}
use velora_os.Fs.Volume.{
  BiosParameterBlock, cluster_to_lba, first_data_sector, first_fat_sector, read_u16, sector_size,
}
use velora_os.Fs.Read.{read_sector, read_cluster, read_chain, next_cluster}

module _ (disk : ℕ → List ℕ) (sectors : (lba : ℕ) → length (disk lba) ≡ 512) where
  -- What one cluster adds: the rest of the file, or all of its `n` sectors.
  abbrev pub Adds : ℕ → ℕ → List ℕ → Outcome (Bool × List ℕ) → Type 0
  Adds size n bytes r =
      (r ≡ panic)
      ⊎ ((bytes' : List ℕ) × (((r ≡ ok (true, bytes')) × (length bytes' ≡ size))
            ⊎ ((r ≡ ok (false, bytes'))
                × (length bytes' ≡ length bytes + n * 512)
                × (length bytes' < size))))

  -- The data with one more sector, cut at the file's size.
  unfoldable pub extended : ℕ → ℕ → List ℕ → List ℕ
  extended size lba bytes = bytes ++ take (min (size - length bytes) 512) (disk lba)

  pub length-extended :
      (size lba : ℕ) (bytes : List ℕ)
      → length bytes ≤ size
      → length (extended size lba bytes) ≡ min size (length bytes + 512)
  unfolding extended
  length-extended size lba bytes h = omega (
    arith,
    length-append bytes (take (min (size - length bytes) 512) (disk lba)),
    length-take (min (size - length bytes) 512) (disk lba),
    sectors lba,
  )

  far_sector :
      (size n lba : ℕ) (bytes : List ℕ)
      → ltb lba (2 ^ 28) ≡ false
      → read_cluster disk size (suc n) lba bytes ≡ panic
  unfolding read_cluster read_sector
  far_sector size n lba bytes e = rw (e, read_cluster, read_sector) refl

  pub near_sector :
      (size n lba : ℕ) (bytes : List ℕ)
      → ltb lba (2 ^ 28) ≡ true
      → read_cluster disk size (suc n) lba bytes ≡ (
          if leb size (length (extended size lba bytes))
          then ok (true, extended size lba bytes)
          else read_cluster disk size n (lba + 1) (extended size lba bytes))
  unfolding read_cluster read_sector extended
  near_sector size n lba bytes e =
      let whole : leb (min (size - length bytes) 512) (length (disk lba)) ≡ true =
        le→leb (min (size - length bytes) 512) (length (disk lba)) (omega (arith, sectors lba)) in
      rw (e, whole, read_cluster, read_sector) refl

  read_cluster-Adds :
      (size n lba : ℕ) (bytes : List ℕ)
      → length bytes < size
      → Adds size n bytes (read_cluster disk size n lba bytes)
  unfolding read_cluster
  read_cluster-Adds size zero lba bytes h = inr (bytes, inr (refl, omega arith, h))
  read_cluster-Adds size (suc n) lba bytes h =
      by_sector (λ lt. read_cluster-Adds size n (lba + 1) (extended size lba bytes) lt)
        (ltb lba (2 ^ 28)) refl
    where
      more : List ℕ
      more = extended size lba bytes

      size_more : length more ≡ min size (length bytes + 512)
      size_more = length-extended size lba bytes (omega arith)

      Rest : Type 0
      Rest = length more < size → Adds size n more (read_cluster disk size n (lba + 1) more)

      by_room :
          Rest
          → (b : Bool) → leb size (length more) ≡ b
          → Adds size
              (suc n)
              bytes
              (if b then ok (true, more) else read_cluster disk size n (lba + 1) more)
      by_room rest true e = inr (more, inl (refl, ground (arith, size_more)))
      by_room rest false e =
          let short : length more < size = ground arith in
          elim (rest short) [
            | inl p ↦ inl p
            | inr (bytes', inl d) ↦ inr (bytes', inl d)
            | inr (bytes', inr (r, len, lt)) ↦ inr (bytes', inr (r, omega (arith, size_more), lt))
          ]

      by_sector :
          Rest
          → (b : Bool) → ltb lba (2 ^ 28) ≡ b
          → Adds size (suc n) bytes (read_cluster disk size (suc n) lba bytes)
      by_sector rest false e = inl (far_sector size n lba bytes e)
      by_sector rest true e =
          subst (Adds size (suc n) bytes) (sym (near_sector size n lba bytes e))
            (by_room rest (leb size (length more)) refl)

  -- What the loop may return: a panic, or a part of the file.
  abbrev pub Reads : ℕ → Outcome (List ℕ) → Type 0
  Reads size r = (r ≡ panic) ⊎ ((bytes : List ℕ) × (r ≡ ok bytes) × (length bytes ≤ size))

  Reads-bind :
      {A : Type 0} (size : ℕ) (m : Outcome A) {next : A → Outcome (List ℕ)}
      → Returns m
      → ((a : A) → m ≡ ok a → Reads size (next a))
      → Reads size (m >>= next)
  Reads-bind size (ok a) h k = k a refl
  Reads-bind size panic h k = inl refl
  Reads-bind size stuck h k = absurd (h refl)

  cluster_to_lba-Returns :
      (bpb : BiosParameterBlock) (cluster : ℕ) → Returns (cluster_to_lba bpb cluster)
  unfolding cluster_to_lba
  cluster_to_lba-Returns bpb cluster =
      >>=-Returns (expect (checked_sub cluster 2))
        (λ i. ok (first_data_sector bpb + i * bpb.sectors_per_cluster))
        (expect-Returns (checked_sub cluster 2)) (λ i e. cc)

  sector_Returns : (lba : ℕ) → Returns (read_sector disk lba)
  unfolding read_sector
  sector_Returns lba = λ e. ground arith

  word_Returns : (xs : List ℕ) (i : ℕ) → Returns (read_u16 xs i)
  unfolding read_u16
  word_Returns xs i = λ e. ground arith

  next_cluster-Returns :
      (bpb : BiosParameterBlock) (cluster : ℕ) → Returns (next_cluster disk bpb cluster)
  unfolding next_cluster
  next_cluster-Returns bpb cluster =
      >>=-Returns (read_sector disk (first_fat_sector bpb + cluster * 2 / sector_size)) _
        (sector_Returns (first_fat_sector bpb + cluster * 2 / sector_size))
        (λ sector.
          >>=-Returns (read_u16 sector (cluster * 2 % sector_size)) _
            (word_Returns sector (cluster * 2 % sector_size)) (λ entry e. cc))

  read_cluster-Returns :
      (size n lba : ℕ) (bytes : List ℕ)
      → length bytes < size
      → Returns (read_cluster disk size n lba bytes)
  read_cluster-Returns size n lba bytes h = elim (read_cluster-Adds size n lba bytes h) [
    | inl p ↦ λ e. cc
    | inr (bytes', inl (r, _)) ↦ λ e. cc
    | inr (bytes', inr (r, _, _)) ↦ λ e. cc
  ]

  -- A cluster that was read: the file is complete, or it is longer by at least a sector.
  abbrev Got : ℕ → ℕ → Bool → List ℕ → Type 0
  Got size before b read =
      ((b ≡ true) × (length read ≡ size))
      ⊎ ((b ≡ false) × (before + 512 ≤ length read) × (length read < size))

  Got-facts :
      (size n : ℕ) (bytes : List ℕ)
      → length bytes < size
      → 0 < n
      → (got : Bool × List ℕ) → {r : Outcome (Bool × List ℕ)} → Adds size n bytes r
      → r ≡ ok got
      → Got size (length bytes) got.0 got.1
  Got-facts size n bytes lt pos got (inl p) e = absurd cc
  Got-facts size n bytes lt pos got (inr (read, inl (r, len))) e =
      let same : read ≡ got.1 = cc in
      let done : got.0 ≡ true = cc in inl (done, omega (arith, ap length same))
  Got-facts size n bytes lt pos got (inr (read, inr (r, len, short))) e =
      let same : read ≡ got.1 = cc in
      let done : got.0 ≡ false = cc in
      inr (done, omega (arith, ap length same), omega (arith, ap length same))

  read_on :
      (bpb : BiosParameterBlock) (size fuel cluster before : ℕ)
      → ((next : ℕ) (read : List ℕ)
          → length read < size
          → size < length read + fuel * 512
          → Reads size (read_chain disk bpb size fuel next read))
      → (b : Bool) (read : List ℕ) → Got size before b read
      → size < before + suc fuel * 512
      → Reads size (
          (if b then ok none else next_cluster disk bpb cluster) >>= λ following. elim following [
            | none ↦ ok read
            | some next ↦ read_chain disk bpb size fuel next read
          ])
  read_on bpb size fuel cluster before rest true read (inl (_, len)) enough =
      inr (read, refl, omega arith)
  read_on bpb size fuel cluster before rest true read (inr (e, _, _)) enough = absurd cc
  read_on bpb size fuel cluster before rest false read (inl (e, _)) enough = absurd cc
  read_on bpb size fuel cluster before rest false read (inr (_, longer, short)) enough =
      Reads-bind size (next_cluster disk bpb cluster) (next_cluster-Returns bpb cluster)
        (λ following e. by_next following)
    where
      by_next :
          (following : Option ℕ)
          → Reads size (elim following [
            | none ↦ ok read
            | some next ↦ read_chain disk bpb size fuel next read
          ])
      by_next none = inr (read, refl, omega arith)
      by_next (some next) = rest next read short (omega arith)

  -- On a drive of 512-byte sectors and a volume with at least one sector to a cluster, one round
  -- more than the rest of the file has sectors is enough for the loop of `read_file`: it panics
  -- or returns at most as many bytes as the directory entry says, and never runs on.
  pub read_chain-Reads :
      (bpb : BiosParameterBlock) (size fuel cluster : ℕ) (bytes : List ℕ)
      → 0 < bpb.sectors_per_cluster
      → length bytes < size
      → size < length bytes + fuel * 512
      → Reads size (read_chain disk bpb size fuel cluster bytes)
  unfolding read_chain
  read_chain-Reads bpb size zero cluster bytes pos lt enough = absurd (omega arith)
  read_chain-Reads bpb size (suc fuel) cluster bytes pos lt enough =
      Reads-bind size (cluster_to_lba bpb cluster) (cluster_to_lba-Returns bpb cluster) (λ lba e.
        Reads-bind size (read_cluster disk size bpb.sectors_per_cluster lba bytes)
          (read_cluster-Returns size bpb.sectors_per_cluster lba bytes lt)
          (λ got e'.
            read_on bpb size fuel cluster (length bytes)
              (λ next more. read_chain-Reads bpb size fuel next more pos) got.0 got.1
              (Got-facts size bpb.sectors_per_cluster bytes lt pos got
                (read_cluster-Adds size bpb.sectors_per_cluster lba bytes lt) e')
              enough))

-- A volume whose boot sector gives no sectors to a cluster, and a cluster that its table chains to
-- itself: the loop of `read_file` never ends, however much fuel it is given.
pub read_chain-spins :
    (disk : ℕ → List ℕ) (bpb : BiosParameterBlock) (size fuel cluster lba : ℕ) (bytes : List ℕ)
    → bpb.sectors_per_cluster ≡ 0
    → cluster_to_lba bpb cluster ≡ ok lba
    → next_cluster disk bpb cluster ≡ ok (some cluster)
    → read_chain disk bpb size fuel cluster bytes ≡ stuck
unfolding read_chain read_cluster
read_chain-spins disk bpb size zero cluster lba bytes z e n = refl
read_chain-spins disk bpb size (suc fuel) cluster lba bytes z e n =
    rw (e, n, z, read_chain, read_cluster)
      (read_chain-spins disk bpb size fuel cluster lba bytes z e n)
