-- ===== src/Elf/Contents.antt =====
-- What `map_segment` leaves in memory: the file's bytes at the segment's addresses, and zeros behind them.
use velora_os.Base.{
  ℕ, zero, suc, ◌+◌, ◌*◌, ◌/◌, ◌%◌, ◌^◌, ◌≤◌, ◌<◌, ◌≡◌, ◌≢◌, refl, sym, ap, ◌∙◌, Bool, List, [],
  ◌∷◌, Option, none, some, ok, arith, ltb, ◌==◌, if◌then◌else◌, get_or, length, drop, length-drop,
  ◌&&◌, subst,
}
use velora_os.Elf.Laws.{fill_page-reads, pages, map_segment-pages}
use velora_os.Elf.Segments.{Space, fill_page, map_page, map_pages, map_segment, ◌>>=◌, ◌>>◌}
use velora_os.Memory.Frames.{FrameAllocator, allocate_frame}
use velora_os.Memory.Frames.Laws.{
  pool, IsValid, Allocates, exhausted, hands_out, allocate_frame-Allocates,
}
use velora_os.Memory.Paging.{Paging}
use velora_os.Memory.Walk.{Tables}

abbrev pub All {ℓ} : {A : Type ℓ} → (A → Type 0) → List A → Type 0
All P [] = Unit
All P (x ∷ xs) = P x × All P xs

-- No frame stands in the list twice.
abbrev pub Distinct : List ℕ → Type 0
Distinct [] = Unit
Distinct (x ∷ xs) = All (λ y. y ≢ x) xs × Distinct xs

pub drop-All : (P : ℕ → Type 0) (n : ℕ) (xs : List ℕ) → All P xs → All P (drop n xs)
drop-All P zero xs h = h
drop-All P (suc n) [] h = tt
drop-All P (suc n) (x ∷ xs) h = drop-All P n xs h.1

pub drop-Distinct : (n : ℕ) (xs : List ℕ) → Distinct xs → Distinct (drop n xs)
drop-Distinct zero xs h = h
drop-Distinct (suc n) [] h = tt
drop-Distinct (suc n) (x ∷ xs) h = drop-Distinct n xs h.1

-- What is used of the crate's mapper for an address space: `map_to`, and the frame that a page is mapped
-- to. As its documentation gives it: a page that is not mapped is mapped to the frame, if the allocator
-- has frames for three page tables, which come off its pool; no other page changes.
pub record Mapper (P : Paging) : Type 0 where
  pub map_to : ℕ → ℕ → Bool → Tables → FrameAllocator → Option (Tables × FrameAllocator)
  pub frame_of : Tables → ℕ → Option ℕ
  pub maps :
      (page frame : ℕ) (writable : Bool) (t : Tables) (a : FrameAllocator)
      → frame_of t page ≡ none
      → IsValid a
      → 3 ≤ length (pool P a)
      → (t' : Tables) × (a' : FrameAllocator) × (taken : ℕ) × (map_to page frame writable t a
          ≡ some (t', a'))
        × (frame_of t' page ≡ some frame)
        × ((q : ℕ) → q ≢ page → frame_of t' q ≡ frame_of t q)
        × IsValid a'
        × (taken ≤ 3)
        × (pool P a' ≡ drop taken (pool P a))

module _ (P : Paging) (M : Mapper P) (file_bytes : List ℕ) (writable : Bool) (start : ℕ) where
  -- The address of page `k`.
  abbrev page_at : ℕ → ℕ
  page_at k = start + k * 4096

  -- Page `k` shows the file's bytes, and zeros behind the last one.
  abbrev pub Shows : Space → ℕ → Type 0
  Shows s k =
      (f : ℕ) × (M.frame_of s.tables (page_at k) ≡ some f)
      × ((j : ℕ) → j < 4096 → s.frames f j ≡ get_or file_bytes (k * 4096 + j) 0)

  record Ready (s : Space) (n : ℕ) : Type 0 where
    valid : IsValid s.allocator
    distinct : Distinct (pool P s.allocator)
    enough : 4 * n ≤ length (pool P s.allocator)

  -- One page: what is mapped, and what stays.
  MapsPage : Space → ℕ → ℕ → Type 0
  MapsPage s n i =
      (s' : Space) × (f : ℕ) × (map_page P M.map_to file_bytes writable start i s
        ≡ ok (some tt, s'))
      × Ready s' n
      × (M.frame_of s'.tables (page_at i) ≡ some f)
      × ((j : ℕ) → j < 4096 → s'.frames f j ≡ get_or file_bytes (i * 4096 + j) 0)
      × All (λ x. x ≢ f) (pool P s'.allocator)
      × ((q : ℕ) → q ≢ page_at i → M.frame_of s'.tables q ≡ M.frame_of s.tables q)
      × ((g : ℕ)
          → All (λ x. x ≢ g) (pool P s.allocator)
          → (All (λ x. x ≢ g) (pool P s'.allocator)) × ((j : ℕ) → s'.frames g j ≡ s.frames g j))

  -- The page's bytes, written through the physical-memory window.
  written : Space → ℕ → ℕ → ℕ → ℕ → ℕ
  written s i frame f j =
      if f == frame && ltb j 4096 then fill_page file_bytes (i * 4096) j else s.frames f j

  written-here :
      (s : Space) (i f j : ℕ) → j < 4096 → written s i f f j ≡ get_or file_bytes (i * 4096 + j) 0
  unfolding written
  written-here s i f j h = ground (arith, fill_page-reads file_bytes (i * 4096) j h)

  written-elsewhere : (s : Space) (i f g j : ℕ) → f ≢ g → written s i f g j ≡ s.frames g j
  unfolding written
  written-elsewhere s i f g j h = ground arith

  map_page-Maps :
      (s : Space) (n i : ℕ)
      → Ready s (suc n)
      → M.frame_of s.tables (page_at i) ≡ none
      → start + i * 4096 < 2 ^ 47
      → MapsPage s n i
  unfolding MapsPage map_page written
  map_page-Maps s n i ready unmapped low =
      by_frame (allocate_frame-Allocates P s.allocator ready.valid)
    where
      by_frame : Allocates P s.allocator (allocate_frame P s.allocator) → MapsPage s n i
      by_frame (exhausted e r) = absurd (omega (arith, ap length e, ready.enough))
      by_frame (hands_out f given split valid) =
          let rest : List ℕ = pool P (allocate_frame P s.allocator).1 in
          let distinct : Distinct (f ∷ rest) = subst Distinct split ready.distinct in
          let (t', a', taken, mapped, here, others, valid', few, left) =
            M.maps (page_at i) f writable s.tables (allocate_frame P s.allocator).1 unmapped valid
              (omega (arith, ap length split, ready.enough)) in
          (
            record { tables = t'; allocator = a'; frames = written s i f },
            f,
            rw (P.page_add-low start i low, given, mapped, map_page) refl,
            record {
              valid = valid';
              distinct = subst Distinct (sym left) (drop-Distinct taken rest distinct.1);
              enough =
                  omega
                    (arith, ap length split, ready.enough, ap length left, length-drop taken rest);
            },
            here,
            written-here s i f,
            subst (All (λ x. x ≢ f)) (sym left) (drop-All (λ x. x ≢ f) taken rest distinct.0),
            others,
            λ g fresh.
                let apart : All (λ x. x ≢ g) (f ∷ rest) = subst (All (λ x. x ≢ g)) split fresh in
                (
                  subst (All (λ x. x ≢ g)) (sym left) (drop-All (λ x. x ≢ g) taken rest apart.1),
                  λ j. written-elsewhere s i f g j apart.0,
                ),
          )

  -- The pages from `i` on, `n` of them.
  Loaded : Space → ℕ → ℕ → Type 0
  Loaded s n i =
      (s' : Space) × (map_pages P M.map_to file_bytes writable start n i s ≡ ok (some tt, s'))
      × ((k : ℕ) → k < n → Shows s' (i + k))
      × ((q : ℕ)
          → ((k : ℕ) → k < n → q ≢ page_at (i + k))
          → M.frame_of s'.tables q ≡ M.frame_of s.tables q)
      × ((g : ℕ) → All (λ x. x ≢ g) (pool P s.allocator) → (j : ℕ) → s'.frames g j ≡ s.frames g j)

  map_pages-Loaded :
      (s : Space) (n i : ℕ)
      → Ready s n
      → ((k : ℕ) → k < n → M.frame_of s.tables (page_at (i + k)) ≡ none)
      → start + (i + n) * 4096 ≤ 2 ^ 47
      → Loaded s n i
  unfolding Loaded map_pages MapsPage
  map_pages-Loaded s zero i ready unmapped low =
      (s, refl, λ k h. absurd (omega arith), λ q h. refl, λ g h j. refl)
  map_pages-Loaded s (suc n) i ready unmapped low =
      by_page
        (map_page-Maps s n i ready
          (subst (λ k. M.frame_of s.tables (page_at k) ≡ none) (omega arith)
            (unmapped 0 (omega arith)))
          (omega arith))
        (λ s' r u. map_pages-Loaded s' n (i + 1) r u (omega arith))
    where
      by_page :
          MapsPage s n i
          → ((s' : Space)
              → Ready s' n
              → ((k : ℕ) → k < n → M.frame_of s'.tables (page_at (i + 1 + k)) ≡ none)
              → Loaded s' n (i + 1))
          → Loaded s (suc n) i
      by_page (s1, f, ran, ready1, here, bytes, spent, others, kept) rest =
          let (s2, ran2, shows, others2, kept2) = rest s1 ready1 (λ k h.
            others (page_at (i + 1 + k)) (λ e. omega (arith, e))
            ∙ subst (λ m. M.frame_of s.tables (page_at m) ≡ none) (omega arith)
                (unmapped (suc k) (omega arith))) in
          (
            s2,
            rw (ran, map_pages, ◌>>◌, ◌>>=◌) ran2,
            shown s2
                (
                  f,
                  others2 (page_at i) (λ k h e. omega (arith, e)) ∙ here,
                  λ j h. kept2 f spent j ∙ bytes j h,
                )
                shows,
            λ q h.
                others2 q (λ k lt e. h (suc k) (omega arith) (e ∙ ap page_at (omega arith)))
                ∙ others q (λ e. h 0 (omega arith) (e ∙ ap page_at (omega arith))),
            λ g fresh j. kept2 g (kept g fresh).0 j ∙ (kept g fresh).1 j,
          )
        where
          shown :
              (s' : Space)
              → Shows s' i
              → ((k : ℕ) → k < n → Shows s' (i + 1 + k))
              → (k : ℕ) → k < suc n
              → Shows s' (i + k)
          shown s' first more zero h = subst (Shows s') (omega arith) first
          shown s' first more (suc k) h = subst (Shows s') (omega arith) (more k (omega arith))

module _ (P : Paging) (M : Mapper P) (file_bytes : List ℕ) (vaddr mem_size : ℕ) (writable : Bool)
    (s : Space) where
  pages-low :
      vaddr % 4096 ≡ 0 → vaddr + mem_size ≤ 2 ^ 47 → vaddr + (0 + pages mem_size) * 4096 ≤ 2 ^ 47
  pages-low aligned low = omega arith

  -- A non-empty, page-aligned segment in the lower half of the address space, none of whose pages is
  -- mapped, with a valid allocator whose frames are distinct and enough for each page and three page
  -- tables to it: `map_segment` succeeds. Then every byte of the segment is mapped and shows the file's
  -- byte, or zero behind the file's last one, and what was mapped before, to frames that the allocator
  -- did not have, is as it was.
  pub map_segment-Loads :
      0 < mem_size
      → vaddr % 4096 ≡ 0
      → vaddr + mem_size ≤ 2 ^ 47
      → IsValid s.allocator
      → Distinct (pool P s.allocator)
      → 4 * pages mem_size ≤ length (pool P s.allocator)
      → ((k : ℕ) → k < pages mem_size → M.frame_of s.tables (vaddr + k * 4096) ≡ none)
      → (s' : Space) × (map_segment P M.map_to file_bytes vaddr mem_size writable s
          ≡ ok (some tt, s'))
        × ((b : ℕ)
            → b < mem_size
            → (f : ℕ) × (M.frame_of s'.tables (vaddr + b / 4096 * 4096) ≡ some f)
              × (s'.frames f (b % 4096) ≡ get_or file_bytes b 0))
        × ((q f : ℕ)
            → M.frame_of s.tables q ≡ some f
            → All (λ x. x ≢ f) (pool P s.allocator)
            → (M.frame_of s'.tables q ≡ some f) × ((j : ℕ) → s'.frames f j ≡ s.frames f j))
  unfolding Loaded
  map_segment-Loads pos aligned low valid distinct enough unmapped =
      let (s', ran, shows, others, kept) =
        map_pages-Loaded P M file_bytes writable vaddr s (pages mem_size) 0
          (record { valid = valid; distinct = distinct; enough = enough })
          (λ k h.
            subst (λ m. M.frame_of s.tables (vaddr + m * 4096) ≡ none) (omega arith) (unmapped k h))
          (pages-low aligned low) in
      (
        s',
        map_segment-pages P M.map_to file_bytes vaddr mem_size writable s pos aligned low ∙ ran,
        λ b h.
            let (f, mapped, bytes) = shows (b / 4096) (omega arith) in
            (
              f,
              subst (λ m. M.frame_of s'.tables (vaddr + m * 4096) ≡ some f) (omega arith) mapped,
              bytes (b % 4096) (omega arith) ∙ ap (λ m. get_or file_bytes m 0) (omega arith),
            ),
        λ q f mapped fresh.
            (others q (λ k h e. absurd (absurd_page q f k mapped h e)) ∙ mapped, kept f fresh),
      )
    where
      absurd_page :
          (q f k : ℕ)
          → M.frame_of s.tables q ≡ some f
          → k < pages mem_size
          → q ≡ vaddr + (0 + k) * 4096
          → ⊥
      absurd_page q f k mapped h e =
          let none_there : M.frame_of s.tables q ≡ none =
            ap (M.frame_of s.tables) (e ∙ omega arith) ∙ unmapped k h in
          absurd (cc (none_there, mapped))
