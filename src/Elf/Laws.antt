-- ===== src/Elf/Laws.antt =====
-- The loader's pieces: reads stay in the file, and a page holds the segment's bytes and zeros.
use velora_os.Base.{
  ◌⊎◌, inl, inr, ◌*◌, ◌&&◌, ltb, Option-cases, ok, ℕ, zero, suc, ◌+◌, ◌-◌, ◌^◌, ◌≤◌, ◌<◌, ◌≡◌, refl,
  ap, ◌∙◌, Bool, true, false, List, [], ◌∷◌, Option, none, some, panic, arith, leb, if◌then◌else◌,
  get_or, length, checked_add, checked_add_fits, checked_sub, ◌==◌, ◌%◌, ◌/◌, u64_mod,
}
use velora_os.Elf.Reads.{range, little_endian, read_word}
use velora_os.Elf.Segments.{fill_page, Space, map_page, map_pages, map_segment, ◌>>=◌, ◌>>◌}
use velora_os.Memory.Paging.{Paging}
use velora_os.Memory.Frames.{FrameAllocator, allocate_frame}
use velora_os.Memory.Walk.{Tables}

-- A read succeeds exactly where its bytes are inside the file, whatever the base and the offset are.
range-lem :
    (n : ℕ) (bytes : List ℕ) (base offset : ℕ)
    → length bytes < u64_mod
    → range bytes base offset n
      ≡ (if leb (base + offset + n) (length bytes) then some (base + offset) else none)
unfolding range checked_add
range-lem n bytes base offset h = ground arith

-- In a file shorter than 2 ^ 64 bytes a field is read exactly where all its bytes are inside the
-- file, however large its base and offset are; then it is the little-endian number there.
pub read_word-Fits :
    (n : ℕ) (bytes : List ℕ) (base offset : ℕ)
    → length bytes < u64_mod
    → read_word n bytes base offset ≡ (
        if leb (base + offset + n) (length bytes)
        then some (little_endian bytes n (base + offset))
        else none)
unfolding read_word
read_word-Fits n bytes base offset h = ground (arith, range-lem n bytes base offset h)

get_or-past : (xs : List ℕ) (i : ℕ) → length xs ≤ i → get_or xs i 0 ≡ 0
get_or-past [] i h = refl
get_or-past (x ∷ xs) zero h = elim h [ ]
get_or-past (x ∷ xs) (suc i) h = get_or-past xs i (omega arith)

-- A page of a segment holds the file's bytes from the page's offset on, and zeros after the last one.
pub fill_page-reads :
    (file_bytes : List ℕ) (offset j : ℕ)
    → j < 4096
    → fill_page file_bytes offset j ≡ get_or file_bytes (offset + j) 0
unfolding fill_page
fill_page-reads file_bytes offset j h = ground (arith, get_or-past file_bytes (offset + j))

pub one_less : (a : ℕ) → 0 < a → checked_sub a 1 ≡ some (a - 1)
unfolding checked_sub
one_less a h = ground arith

-- The pages of a segment.
abbrev pub pages : ℕ → ℕ
pages mem_size = (mem_size + 4095) / 4096

module _ (P : Paging)
    (map_to : ℕ → ℕ → Bool → Tables → FrameAllocator → Option (Tables × FrameAllocator))
    (file_bytes : List ℕ) (vaddr mem_size : ℕ) (writable : Bool) (s : Space) where
  page_count :
      0 < mem_size
      → vaddr % 4096 ≡ 0
      → (P.page_containing (vaddr + mem_size - 1) - vaddr) / 4096 + 1 ≡ pages mem_size
  page_count pos aligned = omega (arith, P.page_containing_lem (vaddr + mem_size - 1))

  -- The checks pass, and the loop takes every page of the segment.
  pub map_segment-pages :
      0 < mem_size
      → vaddr % 4096 ≡ 0
      → vaddr + mem_size ≤ 2 ^ 47
      → map_segment P map_to file_bytes vaddr mem_size writable s
        ≡ map_pages P map_to file_bytes writable vaddr (pages mem_size) 0 s
  unfolding map_segment
  map_segment-pages pos aligned low =
      let nonempty : (mem_size == 0) ≡ false = ground arith in
      let page_start : (vaddr % 4096 == 0) ≡ true = ground arith in
      let below : leb 0x0000800000000000 vaddr ≡ false = ground arith in
      let bound = checked_add_fits vaddr mem_size (omega arith) in
      let last : checked_sub (vaddr + mem_size) 1 ≡ some (vaddr + mem_size - 1) =
        one_less (vaddr + mem_size) (omega arith) in
      let here : P.page_containing vaddr ≡ vaddr = omega (arith, P.page_containing_lem vaddr) in
      rw
        (
          nonempty,
          page_start,
          below,
          bound,
          last,
          P.try_new-low vaddr (omega arith),
          P.try_new-low (vaddr + mem_size - 1) (omega arith),
          here,
          map_segment,
        )
        (ap (λ n. map_pages P map_to file_bytes writable vaddr n 0 s) (page_count pos aligned))

-- What is used here of the crate's `map_to`, as its documentation gives it, with the frame that a page is
-- mapped to: it refuses a page that is mapped already, and leaves mapped pages mapped.
module _ (P : Paging)
    (map_to : ℕ → ℕ → Bool → Tables → FrameAllocator → Option (Tables × FrameAllocator))
    (frame_of : Tables → ℕ → Option ℕ)
    (refuses : (page f g : ℕ) (w : Bool) (t : Tables) (a : FrameAllocator)
      → frame_of t page ≡ some g
      → map_to page f w t a ≡ none)
    (keeps : (page f q g : ℕ) (w : Bool) (t t' : Tables) (a a' : FrameAllocator)
      → map_to page f w t a ≡ some (t', a')
      → frame_of t q ≡ some g
      → frame_of t' q ≡ some g) where
  module _ (file_bytes : List ℕ) (writable : Bool) (start : ℕ) where
    -- A page either panics or leaves the mapped pages mapped.
    MapsPage : Space → ℕ → Type 0
    MapsPage s i =
        (map_page P map_to file_bytes writable start i s ≡ panic)
        ⊎ ((s' : Space) × (map_page P map_to file_bytes writable start i s ≡ ok (some tt, s'))
            × (frame_of s.tables (start + i * 4096) ≡ none)
            × ((q g : ℕ) → frame_of s.tables q ≡ some g → frame_of s'.tables q ≡ some g))

    map_page-Maps : (s : Space) (i : ℕ) → start + i * 4096 < 2 ^ 47 → MapsPage s i
    unfolding MapsPage map_page
    map_page-Maps s i low = by_frame (allocate_frame P s.allocator).0 refl
      where
        by_frame : (o : Option ℕ) → (allocate_frame P s.allocator).0 ≡ o → MapsPage s i
        by_frame none e = inl (rw (P.page_add-low start i low, e, map_page) refl)
        by_frame (some f) e =
            elim (Option-cases
              (map_to (start + i * 4096) f writable s.tables (allocate_frame P s.allocator).1)) [
                | inl r ↦ inl (rw (P.page_add-low start i low, e, r, map_page) refl)
                | inr ((t', a'), r) ↦ inr (
                  record {
                    tables = t';
                    allocator = a';
                    frames = λ g j.
                        if g == f && ltb j 4096
                        then fill_page file_bytes (i * 4096) j
                        else s.frames g j;
                  },
                  rw (P.page_add-low start i low, e, r, map_page) refl,
                  elim (Option-cases (frame_of s.tables (start + i * 4096))) [
                    | inl free ↦ free
                    | inr (g, taken) ↦
                        let refused =
                          refuses (start + i * 4096) f g writable s.tables
                            (allocate_frame P s.allocator).1 taken in
                        absurd cc
                  ],
                  λ q g.
                      keeps (start + i * 4096) f q g writable s.tables t'
                        (allocate_frame P s.allocator).1 a' r,
                )
              ]

    -- The pages from `i` on, when the page `k` pages further is mapped.
    map_pages-panics :
        (n i k g : ℕ) (s : Space)
        → k < n
        → start + (i + n) * 4096 ≤ 2 ^ 47
        → frame_of s.tables (start + (i + k) * 4096) ≡ some g
        → map_pages P map_to file_bytes writable start n i s ≡ panic
    unfolding map_pages MapsPage
    map_pages-panics zero i k g s lt low taken = absurd (omega arith)
    map_pages-panics (suc n) i k g s lt low taken = elim (map_page-Maps s i (omega arith)) [
      | inl e ↦ rw (e, map_pages, ◌>>◌, ◌>>=◌) refl
      | inr (s', e, free, kept) ↦
          rw (e, map_pages, ◌>>◌, ◌>>=◌)
            (further s' k lt taken free (λ k'. map_pages-panics n (i + 1) k' g s')
              (kept (start + (i + k) * 4096) g taken))
    ]
      where
        further :
            (s' : Space) (k : ℕ)
            → k < suc n
            → frame_of s.tables (start + (i + k) * 4096) ≡ some g
            → frame_of s.tables (start + i * 4096) ≡ none
            → ((k' : ℕ)
                → k' < n
                → start + (i + 1 + n) * 4096 ≤ 2 ^ 47
                → frame_of s'.tables (start + (i + 1 + k') * 4096) ≡ some g
                → map_pages P map_to file_bytes writable start n (i + 1) s' ≡ panic)
            → frame_of s'.tables (start + (i + k) * 4096) ≡ some g
            → map_pages P map_to file_bytes writable start n (i + 1) s' ≡ panic
        further s' zero lt taken free rest there =
            let here : frame_of s.tables (start + i * 4096) ≡ some g =
              ap (frame_of s.tables) (omega arith) ∙ taken in
            absurd cc
        further s' (suc k) lt taken free rest there =
            rest k (omega arith) (omega arith) (ap (frame_of s'.tables) (omega arith) ∙ there)

  -- The loader panics on a non-empty, page-aligned segment in the lower half of the address space, one
  -- of whose pages, the first or a later one, is mapped already, as it is by an earlier segment that
  -- shares it, whatever frames are left.
  pub map_segment-panics :
      (file_bytes : List ℕ) (vaddr mem_size k g : ℕ) (writable : Bool) (s : Space)
      → 0 < mem_size
      → vaddr % 4096 ≡ 0
      → vaddr + mem_size ≤ 2 ^ 47
      → k < pages mem_size
      → frame_of s.tables (vaddr + k * 4096) ≡ some g
      → map_segment P map_to file_bytes vaddr mem_size writable s ≡ panic
  map_segment-panics file_bytes vaddr mem_size k g writable s pos aligned low lt taken =
      map_segment-pages P map_to file_bytes vaddr mem_size writable s pos aligned low
      ∙ map_pages-panics file_bytes writable vaddr (pages mem_size) 0 k g s lt (omega arith)
          (ap (frame_of s.tables) (omega arith) ∙ taken)
