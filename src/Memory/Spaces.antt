-- ===== src/Memory/Spaces.antt =====
-- Isolated address spaces: `new_address_space`, `free_address_space`, `free_table`.
pub mod Laws
use velora_os.Base.{
  ℕ, zero, suc, ◌+◌, ◌-◌, ◌*◌, ◌%◌, ◌^◌, Bool, true, false, ◌&&◌, ◌||◌, List, [], ◌∷◌, Option, none,
  some, Outcome, ok, panic, stuck, ◌>>=◌, expect, ltb, leb, ◌==◌, if◌then◌else◌, bit_or, u64_mod,
}
use velora_os.Memory.Paging.{Paging}
use velora_os.Memory.Frames.{FrameAllocator, allocate_frame, deallocate_frame}
use velora_os.Memory.Walk.{Entry, Tables, FrameResult, frame, frame_not_present, huge_frame}

-- `core::ops::Range<u64>`
pub record AddrRange : Type 0 where
  pub start : ℕ
  pub end : ℕ

abbrev pub contains : AddrRange → ℕ → Bool
contains r a = leb r.start a && ltb a r.end

-- An entry of `PageTable::new()`.
abbrev pub unused_entry : Entry
unused_entry = record {
  present = false;
  writable = false;
  user_accessible = false;
  target = frame_not_present;
}

abbrev pub set_table : Tables → ℕ → (ℕ → Entry) → Tables
set_table tables f table g = if f == g then table else tables g

-- The new top-level table: the two shared entries of the active one, and nothing else.
abbrev pub shared_entries : ℕ → (ℕ → Entry) → ℕ → Entry
shared_entries offset_index active i =
    if i == 0 || i == offset_index then active i else unused_entry

module _ (P : Paging) where
  -- `offset` is `physical_memory_offset`. Returns the new L4 frame, the tables and the allocator.
  unfoldable pub new_address_space :
      ℕ → ℕ → Tables → FrameAllocator → Outcome (ℕ × Tables × FrameAllocator)
  new_address_space offset cr3 tables a = do
    let (allocated, a') = allocate_frame P a
    new_l4_frame ← expect allocated
    let blank = set_table tables new_l4_frame (λ _. unused_entry)
    let offset_p4_index = P.index 4 offset
    let filled = set_table blank new_l4_frame (shared_entries offset_p4_index (blank cr3))
    ok (new_l4_frame, filled, a')

-- The loop over a table's entries from `i` on, `n` of them; `visit` is what is done with the frame
-- and the address of a present entry.
unfoldable pub each_present :
    (ℕ → ℕ → FrameAllocator → Outcome FrameAllocator)
    → (ℕ → Bool)
    → (ℕ → Entry)
    → (ℕ → ℕ)
    → ℕ
    → ℕ
    → FrameAllocator
    → Outcome FrameAllocator
each_present visit skips table child_addr zero i a = ok a
each_present visit skips table child_addr (suc n) i a = do
  a' ←
      if skips i
      then ok a
      else if (table i).present
      then elim (table i).target [ frame child ↦ visit child (child_addr i) a | _ ↦ panic ]
      else ok a
  each_present visit skips table child_addr n (i + 1) a'

module _ (tables : Tables) (borrowed : AddrRange) where
  -- At level 0 the frame is a data frame, at the address `base_addr`: the last branch of the loop.
  unfoldable pub free_table : ℕ → ℕ → ℕ → FrameAllocator → Outcome FrameAllocator
  unfolding each_present
  free_table zero f base_addr a =
      if contains borrowed base_addr then ok a else ok (deallocate_frame f a)
  free_table (suc l) f base_addr a = do
    let shift = 12 + 9 * l
    a' ←
        each_present (free_table l) (λ _. false) (tables f)
          (λ i. bit_or base_addr (i * 2 ^ shift % u64_mod)) 512 0 a
    ok (deallocate_frame f a')

  module _ (P : Paging) where
    unfoldable pub free_address_space : ℕ → ℕ → FrameAllocator → Outcome FrameAllocator
    free_address_space l4_frame offset a = do
      let offset_p4_index = P.index 4 offset
      a' ←
          each_present (free_table 3) (λ i. i == 0 || i == offset_p4_index) (tables l4_frame)
            (λ i. i * 2 ^ 39 % u64_mod) 512 0 a
      ok (deallocate_frame l4_frame a')
