-- ===== src/Syscall/Access/Laws.antt =====
-- What is written through the active page table is read back.
use velora_os.Base.{
  ℕ, zero, suc, ◌+◌, ◌<◌, ◌≡◌, ◌≢◌, refl, sym, ap, ◌∙◌, List, [], ◌∷◌, some, ok, arith, length,
  get_or,
}
use velora_os.Memory.Paging.{Paging}
use velora_os.Memory.Walk.{Tables, translate_addr}
use velora_os.Syscall.Access.{fetch, stored, load_bytes, store_bytes}

fetch-stored_self : (frames : ℕ → ℕ → ℕ) (p b : ℕ) → fetch (stored frames p b) p ≡ b
fetch-stored_self frames p b = ground arith

fetch-stored_ne :
    (frames : ℕ → ℕ → ℕ) (p b q : ℕ) → q ≢ p → fetch (stored frames p b) q ≡ fetch frames q
fetch-stored_ne frames p b q ne = ground arith

-- `at` gives the physical address behind each byte of a range, and no two bytes share one.
module _ (P : Paging) (tables : Tables) (cr3 : ℕ) (at : ℕ → ℕ) where
  abbrev pub Translates : ℕ → ℕ → Type 0
  Translates ptr n =
      (i : ℕ) → i < n → translate_addr P tables cr3 (ptr + i) ≡ ok (some (at (ptr + i)))

  abbrev pub Distinct : ℕ → ℕ → Type 0
  Distinct ptr n = (i j : ℕ) → i < j → j < n → at (ptr + i) ≢ at (ptr + j)

  first :
      (ptr n : ℕ) → Translates ptr (suc n) → translate_addr P tables cr3 ptr ≡ ok (some (at ptr))
  first ptr n t =
      ap (translate_addr P tables cr3) {y = ptr + 0} (omega arith)
      ∙ t 0 (omega arith)
      ∙ ap (λ a. ok (some (at a))) (omega arith)

  Translates-later : (ptr n : ℕ) → Translates ptr (suc n) → Translates (ptr + 1) n
  Translates-later ptr n t i lt =
      ap (translate_addr P tables cr3) {y = ptr + suc i} (omega arith)
      ∙ t (suc i) (omega arith)
      ∙ ap (λ a. ok (some (at a))) (omega arith)

  at_later : (ptr i : ℕ) → at (ptr + 1 + i) ≡ at (ptr + suc i)
  at_later ptr i = ap at (omega arith)

  Distinct-Translates-later : (ptr n : ℕ) → Distinct ptr (suc n) → Distinct (ptr + 1) n
  Distinct-Translates-later ptr n d i j lt le e =
      d (suc i) (suc j) (omega arith) (omega arith) (sym (at_later ptr i) ∙ e ∙ at_later ptr j)

  -- The range holds the bytes, and nothing else has changed.
  abbrev pub Written : (ℕ → ℕ → ℕ) → ℕ → List ℕ → (ℕ → ℕ → ℕ) → Type 0
  Written frames ptr bytes frames' =
      ((i : ℕ) → i < length bytes → fetch frames' (at (ptr + i)) ≡ get_or bytes i 0)
      × ((q : ℕ)
          → ((i : ℕ) → i < length bytes → q ≢ at (ptr + i))
          → fetch frames' q ≡ fetch frames q)

  pub store_bytes-Written :
      (bytes : List ℕ) (ptr : ℕ) (frames : ℕ → ℕ → ℕ)
      → Translates ptr (length bytes)
      → Distinct ptr (length bytes)
      → (frames' : ℕ → ℕ → ℕ) × (store_bytes P tables cr3 ptr bytes frames ≡ ok frames')
        × Written frames ptr bytes frames'
  unfolding store_bytes
  store_bytes-Written [] ptr frames t d = (frames, refl, (λ i lt. elim lt [ ], λ q ne. refl))
  store_bytes-Written (b ∷ bytes) ptr frames t d =
      let (frames', run, (each, others)) =
        store_bytes-Written bytes (ptr + 1) (stored frames (at ptr) b)
          (Translates-later ptr (length bytes) t)
          (Distinct-Translates-later ptr (length bytes) d) in
      (
        frames',
        rw (first ptr (length bytes) t, store_bytes) run,
        (
          λ i lt. at_index frames' each others i lt,
          λ q ne.
              others q (λ i lt e. ne (suc i) (omega arith) (e ∙ at_later ptr i))
              ∙ fetch-stored_ne frames (at ptr) b q
                  (λ e. ne 0 (omega arith) (e ∙ ap at (omega arith))),
        ),
      )
    where
      at_index :
          (frames' : ℕ → ℕ → ℕ)
          → ((i : ℕ) → i < length bytes → fetch frames' (at (ptr + 1 + i)) ≡ get_or bytes i 0)
          → ((q : ℕ)
              → ((i : ℕ) → i < length bytes → q ≢ at (ptr + 1 + i))
              → fetch frames' q ≡ fetch (stored frames (at ptr) b) q)
          → (i : ℕ) → i < suc (length bytes)
          → fetch frames' (at (ptr + i)) ≡ get_or (b ∷ bytes) i 0
      at_index frames' each others zero lt =
          ap (λ a. fetch frames' (at a)) (omega arith)
          ∙ others (at ptr) (λ i le e.
            d 0 (suc i) (omega arith) (omega arith) (ap at (omega arith) ∙ e ∙ at_later ptr i))
          ∙ fetch-stored_self frames (at ptr) b
      at_index frames' each others (suc i) lt =
          ap (fetch frames') (sym (at_later ptr i)) ∙ each i (omega arith)

  load_at :
      (bytes : List ℕ) (ptr : ℕ) (frames : ℕ → ℕ → ℕ)
      → Translates ptr (length bytes)
      → ((i : ℕ) → i < length bytes → fetch frames (at (ptr + i)) ≡ get_or bytes i 0)
      → load_bytes P tables cr3 frames ptr (length bytes) ≡ ok bytes
  unfolding load_bytes
  load_at [] ptr frames t each = refl
  load_at (b ∷ bytes) ptr frames t each =
      rw
        (
          first ptr (length bytes) t,
          load_at bytes (ptr + 1) frames (Translates-later ptr (length bytes) t)
              (λ i lt. ap (fetch frames) (at_later ptr i) ∙ each (suc i) (omega arith)),
          load_bytes,
        )
        (ap (λ x. ok (x ∷ bytes))
          (ap (λ a. fetch frames (at a)) (omega arith) ∙ each 0 (omega arith)))

  -- Where every byte of a range is mapped, and no two of them to the same physical address, writing
  -- bytes to the range does not fault, the same range then reads as these bytes, and no other physical
  -- address has changed.
  pub load_bytes-store_bytes :
      (bytes : List ℕ) (ptr : ℕ) (frames : ℕ → ℕ → ℕ)
      → Translates ptr (length bytes)
      → Distinct ptr (length bytes)
      → (frames' : ℕ → ℕ → ℕ) × (store_bytes P tables cr3 ptr bytes frames ≡ ok frames')
        × (load_bytes P tables cr3 frames' ptr (length bytes) ≡ ok bytes)
        × ((q : ℕ)
            → ((i : ℕ) → i < length bytes → q ≢ at (ptr + i))
            → fetch frames' q ≡ fetch frames q)
  load_bytes-store_bytes bytes ptr frames t d =
      let (frames', run, (each, others)) = store_bytes-Written bytes ptr frames t d in
      (frames', run, load_at bytes ptr frames' t each, others)
