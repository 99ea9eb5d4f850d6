-- ===== src/Elf/Tests.antt =====
-- The loader on concrete bytes.
use velora_os.Base.{
  inl, inr, ap, sym, ◌∙◌, Option-cases, ℕ, ◌+◌, ◌*◌, ◌/◌, ◌%◌, ◌<◌, ◌≡◌, ◌≢◌, ◌==◌, ==_iff, ◌&&◌,
  Bool, true, Option, ok, get_or, refl, false, List, [], ◌∷◌, none, some, panic, arith, leb,
  if◌then◌else◌, length,
}
use velora_os.Memory.Tests.{four_levels, allocator, tables}
use velora_os.Elf.Reads.{read_word, little_endian}
use velora_os.Elf.Segments.{Space, map_segment}
use velora_os.Elf.Laws.{read_word-Fits, map_segment-panics}
use velora_os.Elf.Contents.{Mapper, All, map_segment-Loads}
use velora_os.Memory.Frames.{FrameAllocator}
use velora_os.Memory.Frames.Laws.{pool}
use velora_os.Memory.Walk.{Entry, Tables, frame, frame_not_present, huge_frame}

abbrev file : List ℕ
file = 0x7F ∷ 0x45 ∷ 0x4C ∷ 0x46 ∷ 2 ∷ 1 ∷ []

read_word-Fits_example :
    read_word 2 file 3 2
    ≡ (if leb (3 + 2 + 2) (length file) then some (little_endian file 2 (3 + 2)) else none)
read_word-Fits_example = read_word-Fits 2 file 3 2 (omega arith)

abbrev space : Space
space = record { tables = tables; allocator = allocator; frames = λ f j. 0 }

-- A page is mapped where the table of frame 0 says so.
abbrev pub frame_in : Entry → Option ℕ
frame_in e = elim e.target [ frame f ↦ some f | frame_not_present ↦ none | huge_frame ↦ none ]

abbrev pub entry_for : ℕ → Bool → Entry
entry_for f w = record { present = true; writable = w; user_accessible = true; target = frame f }

abbrev pub empty_entry : Entry
empty_entry = record {
  present = false;
  writable = false;
  user_accessible = false;
  target = frame_not_present;
}

abbrev pub mapped_at : ℕ → ℕ → Bool → Tables → Tables
mapped_at page f w t g i = if g == 0 && i == page then entry_for f w else t g i

pub mapped_self :
    (page f : ℕ) (w : Bool) (t : Tables) → frame_in (mapped_at page f w t 0 page) ≡ some f
mapped_self page f w t = rw ((==_iff page page).1 refl) refl

pub mapped_other :
    (page q f : ℕ) (w : Bool) (t : Tables)
    → q ≢ page
    → frame_in (mapped_at page f w t 0 q) ≡ frame_in (t 0 q)
mapped_other page q f w t ne = ground arith

abbrev pub one_table : Mapper four_levels
one_table = record {
  map_to = λ page f w t a. some (mapped_at page f w t, a);
  frame_of = λ t page. frame_in (t 0 page);
  maps = λ page f w t a unmapped valid enough. (
    mapped_at page f w t,
    a,
    0,
    refl,
    mapped_self page f w t,
    λ q ne. mapped_other page q f w t ne,
    valid,
    omega arith,
    refl,
  );
}

-- A mapper on the same table that refuses the pages that are mapped.
abbrev map_free : ℕ → ℕ → Bool → Tables → FrameAllocator → Option (Tables × FrameAllocator)
map_free page f w t a = elim (frame_in (t 0 page)) [
  | none ↦ some (mapped_at page f w t, a)
  | some g ↦ none
]

map_free-refuses :
    (page f g : ℕ) (w : Bool) (t : Tables) (a : FrameAllocator)
    → frame_in (t 0 page) ≡ some g
    → map_free page f w t a ≡ none
map_free-refuses page f g w t a e = rw (e, map_free) refl

map_free-keeps :
    (page f q g : ℕ) (w : Bool) (t t' : Tables) (a a' : FrameAllocator)
    → map_free page f w t a ≡ some (t', a')
    → frame_in (t 0 q) ≡ some g
    → frame_in (t' 0 q) ≡ some g
map_free-keeps page f q g w t t' a a' e there = elim (Option-cases (frame_in (t 0 page))) [
  | inl free ↦
      let ran : map_free page f w t a ≡ some (mapped_at page f w t, a) = rw (free, map_free) refl in
      let same : mapped_at page f w t ≡ t' = cc in
      let apart : q ≢ page =
        λ p. let here : frame_in (t 0 q) ≡ none = ap (λ x. frame_in (t 0 x)) p ∙ free in cc in
      ap (λ x. frame_in (x 0 q)) (sym same) ∙ mapped_other page q f w t apart ∙ there
  | inr (h, taken) ↦ let refused = map_free-refuses page f h w t a taken in absurd cc
]

abbrev pub four_frames : FrameAllocator
four_frames = record {
  memory_map = [];
  region_index = 0;
  next_frame_addr = 0;
  free_list = some (0x1000 ∷ 0x2000 ∷ 0x3000 ∷ 0x4000 ∷ []);
}

abbrev pub empty_space : Space
empty_space = record { tables = λ f i. empty_entry; allocator = four_frames; frames = λ f j. 0xCC }

-- The second page of the segment is mapped to the frame 0x9000.
abbrev shared_space : Space
shared_space = record empty_space { tables = mapped_at 0x401000 0x9000 false empty_space.tables }

map_segment-panics_example :
    map_segment four_levels map_free file 0x400000 0x1800 false shared_space ≡ panic
map_segment-panics_example =
    map_segment-panics four_levels map_free (λ t page. frame_in (t 0 page)) map_free-refuses
      map_free-keeps file 0x400000 0x1800 1 0x9000 false shared_space (omega arith) refl
      (omega arith) (omega arith) refl

map_segment-Loads_example :
    (s' : Space) × (map_segment four_levels one_table.map_to file 0x400000 8 false empty_space
      ≡ ok (some tt, s'))
    × ((b : ℕ)
        → b < 8
        → (f : ℕ) × (one_table.frame_of s'.tables (0x400000 + b / 4096 * 4096) ≡ some f)
          × (s'.frames f (b % 4096) ≡ get_or file b 0))
    × ((q f : ℕ)
        → one_table.frame_of empty_space.tables q ≡ some f
        → All (λ x. x ≢ f) (pool four_levels four_frames)
        → (one_table.frame_of s'.tables q ≡ some f)
          × ((j : ℕ) → s'.frames f j ≡ empty_space.frames f j))
map_segment-Loads_example =
    map_segment-Loads four_levels one_table file 0x400000 8 false empty_space (omega arith) refl
      (omega arith) (record { cursor = λ r e. absurd cc }) (omega arith) (omega arith) (λ k h. refl)
