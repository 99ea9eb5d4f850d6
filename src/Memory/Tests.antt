-- ===== src/Memory/Tests.antt =====
-- Runs of the memory operations on concrete tables, with 4-level paging as the documentation of the
-- x86_64 crate describes it.
use velora_os.Base.{
  ℕ, ◌+◌, ◌-◌, ◌*◌, ◌/◌, ◌%◌, ◌^◌, ◌≡◌, ◌<◌, ◌≤◌, refl, true, false, List, [], ◌∷◌, Option, none,
  some, ok, arith, ltb, leb, ◌==◌, if◌then◌else◌,
}
use velora_os.Memory.Paging.{Paging}
use velora_os.Memory.Frames.{FrameAllocator, Region, init, allocate_frame}
use velora_os.Memory.Frames.Laws.{
  IsValid, pool, init-pool, run, run_stack, run_refines, allocates, deallocates,
}
use velora_os.Memory.Walk.{Entry, Tables, frame, accessible, page_accessible, user_range_mapped}
use velora_os.Memory.Walk.Laws.{Decides, user_range_mapped-Decides}
use velora_os.Memory.Spaces.{
  unused_entry, shared_entries, set_table, new_address_space, free_address_space,
}
use velora_os.Memory.Spaces.Laws.{IsNew, free_address_space-new_address_space}

-- An address below 2 ^ 48 with bit 47 set is sign-extended; any other that is not canonical is refused.
abbrev pub canonical : ℕ → Option ℕ
canonical a =
    if ltb a (2 ^ 47)
    then some a
    else if ltb a (2 ^ 48)
    then some (a + (2 ^ 64 - 2 ^ 48))
    else if leb (2 ^ 64 - 2 ^ 47) a
    then some a
    else none

pub canonical-low : (a : ℕ) → a < 2 ^ 47 → canonical a ≡ some a
canonical-low a h = ground arith

abbrev pub four_levels : Paging
four_levels = record {
  try_new = canonical;
  frame_containing = λ a. a - a % 4096;
  page_containing = λ a. a - a % 4096;
  index = λ level a. a / 2 ^ (3 + 9 * level) % 512;
  page_offset = λ a. a % 4096;
  page_add = λ p n. canonical (p + n * 4096);
  try_new-low = canonical-low;
  frame_containing-aligned = λ a h. omega arith;
  page_containing_lem = λ a. refl;
  page_offset_lem = λ a. refl;
  page_add-low = λ p n h. canonical-low (p + n * 4096) h;
  index-lt = λ level a. omega arith;
  index-page = λ a. (omega arith, omega arith, omega arith, omega arith);
}

abbrev pub regions : List Region
regions =
    record { start_addr = 0; end_addr = 0x1000; usable = false }
    ∷ record { start_addr = 0x1000; end_addr = 0x3000; usable = true }
    ∷ record { start_addr = 0x5000; end_addr = 0x6000; usable = true }
    ∷ []

abbrev pub allocator : FrameAllocator
allocator = init regions

allocator-IsValid : IsValid allocator
allocator-IsValid = (init-pool four_levels regions).1

run_refines_example :
    run four_levels allocator
      (allocates ∷ allocates ∷ deallocates 0x1000 ∷ allocates ∷ allocates ∷ allocates ∷ [])
    ≡ run_stack
        (pool four_levels allocator)
        (allocates ∷ allocates ∷ deallocates 0x1000 ∷ allocates ∷ allocates ∷ allocates ∷ [])
run_refines_example =
    run_refines four_levels
      (allocates ∷ allocates ∷ deallocates 0x1000 ∷ allocates ∷ allocates ∷ allocates ∷ [])
      allocator allocator-IsValid

-- A user page at 0x400000: index 2 of the level-2 table, index 0 elsewhere.
abbrev pub user_entry : ℕ → Entry
user_entry f = record { present = true; writable = false; user_accessible = true; target = frame f }

abbrev pub tables : Tables
tables f i =
    if f == 1
    then (if i == 0 then user_entry 2 else unused_entry)
    else if f == 2
    then (if i == 0 then user_entry 3 else unused_entry)
    else if f == 3
    then (if i == 2 then user_entry 4 else unused_entry)
    else if f == 4
    then (if i == 0 then user_entry 0x7000 else unused_entry)
    else unused_entry

user_range_mapped-Decides_example :
    Decides four_levels tables 1 (user_range_mapped four_levels tables 1 0x400010 16 false) (
      (a : ℕ)
      → 0x400010 ≤ a
      → a < 0x400020
      → page_accessible four_levels tables 1 (a - a % 4096) false ≡ true)
user_range_mapped-Decides_example =
    user_range_mapped-Decides four_levels tables 1 0x400010 16 false (omega arith) (omega arith)

user_page : page_accessible four_levels tables 1 0x400010 false ≡ true
unfolding page_accessible accessible
user_page = refl

first_frame : pool four_levels allocator ≡ 0x1000 ∷ 0x2000 ∷ 0x5000 ∷ []
unfolding init
first_frame = refl

abbrev new_tables : Tables
new_tables f i = if f == 0x1000 then shared_entries 3 (tables 1) i else tables f i

new_tables-IsNew : IsNew four_levels 0x18000000000 1 tables 0x1000 new_tables
new_tables-IsNew = record {
  shared = λ i h. ground arith;
  empty = λ i h k. ground arith;
  others = λ f h. ground arith;
}

abbrev filled : Tables
filled =
    let blank = set_table tables 0x1000 (λ _. unused_entry) in
    set_table blank 0x1000 (shared_entries 3 (blank 1))

abbrev one_taken : FrameAllocator
one_taken = record {
  memory_map = regions;
  region_index = 1;
  next_frame_addr = 0x2000;
  free_list = none;
}

created :
    new_address_space four_levels 0x18000000000 1 tables allocator ≡ ok (0x1000, filled, one_taken)
unfolding new_address_space init allocate_frame
created = refl

free_address_space-new_address_space_example :
    (a'' : FrameAllocator) × (free_address_space filled
        (record { start = 0x400000; end = 0x401000 })
        four_levels
        0x1000
        0x18000000000
        one_taken
      ≡ ok a'')
    × (pool four_levels a'' ≡ pool four_levels allocator)
    × IsValid a''
free_address_space-new_address_space_example =
    free_address_space-new_address_space four_levels 0x18000000000 1 tables filled
      (record { start = 0x400000; end = 0x401000 }) allocator one_taken 0x1000 allocator-IsValid
      (λ e. omega (arith, e)) created
