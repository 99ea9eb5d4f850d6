-- ===== src/Elf/Segments.antt =====
-- `map_segment`: pages for a segment, filled from the file.
use velora_os.Base.{
  ℕ, zero, suc, ◌+◌, ◌-◌, ◌*◌, ◌/◌, ◌%◌, Bool, ◌&&◌, ◌||◌, not, List, Option, none, some, Outcome,
  ok, panic, stuck, ltb, leb, ◌==◌, if◌then◌else◌, min, get_or, length, checked_add, checked_sub,
  bit_and, u64_mod,
}
use velora_os.Memory.Paging.{Paging}
use velora_os.Memory.Frames.{FrameAllocator, allocate_frame}
use velora_os.Memory.Walk.{Tables}

abbrev pub page_size : ℕ
page_size = 4096

-- What the loader changes: the page tables, the allocator, and the bytes of each frame.
pub record Space : Type 0 where
  pub tables : Tables
  pub allocator : FrameAllocator
  pub frames : ℕ → ℕ → ℕ

-- A function that may return `None` with what it has changed so far.
abbrev pub Load {ℓ} : Type ℓ → Type ℓ
Load A = Space → Outcome (Option A × Space)

infixl 5 ◌>>=◌ ◌>>◌
abbrev pub ◌>>=◌ {ℓ κ} : {A : Type ℓ} {B : Type κ} → Load A → (A → Load B) → Load B
(m >>= next) s = elim (m s) [
  | panic ↦ panic
  | stuck ↦ stuck
  | ok (found, s') ↦ elim found [ none ↦ ok (none, s') | some a ↦ next a s' ]
]

abbrev pub ◌>>◌ {ℓ κ} : {A : Type ℓ} {B : Type κ} → Load A → Load B → Load B
m >> after = m >>= (λ _. after)

-- The operator `?`
abbrev pub try {ℓ} : {A : Type ℓ} → Option A → Load A
try o s = ok (o, s)

abbrev pub return {ℓ} : {A : Type ℓ} → A → Load A
return a s = ok (some a, s)

-- `write_bytes(dst, 0, PAGE_SIZE)`, then `copy_nonoverlapping` of at most a page from `offset` on.
unfoldable pub fill_page : List ℕ → ℕ → ℕ → ℕ
fill_page file_bytes offset j =
    if ltb offset (length file_bytes)
    then (let copy_len = min (length file_bytes - offset) page_size in
        if ltb j copy_len then get_or file_bytes (offset + j) 0 else 0)
    else 0

-- `!(align - 1)` on `u64`
unfoldable pub align_up : ℕ → ℕ → Option ℕ
align_up addr align = elim (checked_add addr (align - 1)) [
  | none ↦ none
  | some bumped ↦ some (bit_and bumped (u64_mod - 1 - (align - 1)))
]

module _ (P : Paging)
    (map_to : ℕ → ℕ → Bool → Tables → FrameAllocator → Option (Tables × FrameAllocator)) where
  -- One page: a fresh frame, mapped by the crate's `map_to` and filled. Both `expect`s panic.
  unfoldable pub map_page : List ℕ → Bool → ℕ → ℕ → Load (Unit {0})
  unfolding fill_page
  map_page file_bytes writable start_page i s =
      let (allocated, a) = allocate_frame P s.allocator in
      elim (P.page_add start_page i) [
        | none ↦ panic
        | some page ↦ elim allocated [
          | none ↦ panic
          | some frame ↦ elim (map_to page frame writable s.tables a) [
            | none ↦ panic
            | some (tables, a') ↦ ok (
              some tt,
              record {
                tables = tables;
                allocator = a';
                frames = λ f j.
                    if f == frame && ltb j page_size
                    then fill_page file_bytes (i * page_size) j
                    else s.frames f j;
              },
            )
          ]
        ]
      ]

  -- The loop over the pages from `i` on, with `n` pages left.
  unfoldable pub map_pages : List ℕ → Bool → ℕ → ℕ → ℕ → Load (Unit {0})
  unfolding map_page
  map_pages file_bytes writable start_page zero i = return tt
  map_pages file_bytes writable start_page (suc n) i = do
    map_page file_bytes writable start_page i
    map_pages file_bytes writable start_page n (i + 1)

  unfoldable pub map_segment : List ℕ → ℕ → ℕ → Bool → Load (Unit {0})
  unfolding map_pages
  map_segment file_bytes vaddr mem_size writable =
      if mem_size == 0
      then return tt
      else if not (vaddr % page_size == 0) || leb 0x0000800000000000 vaddr
      then try none
      else (do
        bound ← try (checked_add vaddr mem_size)
        last_byte ← try (checked_sub bound 1)
        first ← try (P.try_new vaddr)
        let start_page = P.page_containing first
        last ← try (P.try_new last_byte)
        let end_page = P.page_containing last
        let page_count = (end_page - start_page) / page_size + 1
        map_pages file_bytes writable start_page page_count 0)
