-- ===== src/Memory/Spaces/Laws.antt =====
-- A new address space sees only what is shared, and gives back all it took.
use velora_os.Base.{
  ℕ, zero, suc, ◌+◌, ◌*◌, ◌%◌, ◌^◌, ◌≡◌, ◌≢◌, refl, sym, ap, ap₂, subst, u64_mod, ◌∙◌, ◌⊎◌, inl,
  inr, Bool, true, false, ◌||◌, List, ◌∷◌, none, Outcome, ok, arith, ◌==◌, Bool-cases,
}
use velora_os.Memory.Paging.{Paging}
use velora_os.Memory.Frames.{FrameAllocator, allocate_frame, deallocate_frame}
use velora_os.Memory.Frames.Laws.{
  IsValid, pool, Allocates, exhausted, hands_out, allocate_frame-Allocates, deallocate_frame-pool,
}
use velora_os.Memory.Walk.{Entry, Tables, walk, translate_addr}
use velora_os.Memory.Spaces.{
  AddrRange, unused_entry, shared_entries, set_table, new_address_space, each_present, free_table,
  free_address_space,
}

-- Where every entry is skipped or absent, the loop does nothing.
each_present-none :
    (visit : ℕ → ℕ → FrameAllocator → Outcome FrameAllocator) (skips : ℕ → Bool) (table : ℕ → Entry)
    (child_addr : ℕ → ℕ) (n i : ℕ) (a : FrameAllocator)
    → ((j : ℕ) → (skips j ≡ true) ⊎ ((table j).present ≡ false))
    → each_present visit skips table child_addr n i a ≡ ok a
unfolding each_present
each_present-none visit skips table child_addr zero i a h = refl
each_present-none visit skips table child_addr (suc n) i a h =
    ground (arith, h i, each_present-none visit skips table child_addr n (i + 1) a h)

module _ (P : Paging) where
  -- A frame set up by `new_address_space`, in the tables that it leaves.
  pub record IsNew (offset cr3 : ℕ) (tables : Tables) (l4_frame : ℕ) (tables' : Tables)
      : Type 0 where
    pub shared : (i : ℕ) → (i ≡ 0) ⊎ (i ≡ P.index 4 offset) → tables' l4_frame i ≡ tables cr3 i
    pub empty : (i : ℕ) → i ≢ 0 → i ≢ P.index 4 offset → tables' l4_frame i ≡ unused_entry
    pub others : (f : ℕ) → f ≢ l4_frame → tables' f ≡ tables f

  abbrev filled_tables : ℕ → ℕ → Tables → ℕ → Tables
  filled_tables index cr3 tables f =
      let blank = set_table tables f (λ _. unused_entry) in
      set_table blank f (shared_entries index (blank cr3))

  filled-IsNew :
      (offset cr3 : ℕ) (tables : Tables) (f : ℕ)
      → f ≢ cr3
      → IsNew offset cr3 tables f (filled_tables (P.index 4 offset) cr3 tables f)
  filled-IsNew offset cr3 tables f ne = record {
    shared = λ i h. ground arith;
    empty = λ i h k. ground arith;
    others = λ g h. ground arith;
  }

  -- With a frame left in a valid allocator that is not the active table, `new_address_space`
  -- succeeds: it takes that one frame, whose table shares the two entries and holds nothing else;
  -- no other table changes.
  pub new_address_space-IsNew :
      (offset cr3 : ℕ) (tables : Tables) (a : FrameAllocator) (f : ℕ) (rest : List ℕ)
      → IsValid a
      → pool P a ≡ f ∷ rest
      → f ≢ cr3
      → (tables' : Tables) × (a' : FrameAllocator) × (new_address_space P offset cr3 tables a
          ≡ ok (f, tables', a'))
        × (pool P a' ≡ rest)
        × IsValid a'
        × IsNew offset cr3 tables f tables'
  unfolding new_address_space
  new_address_space-IsNew offset cr3 tables a f rest v e ne =
      by_case (allocate_frame-Allocates P a v)
    where
      by_case :
          Allocates P a (allocate_frame P a)
          → (tables' : Tables) × (a' : FrameAllocator) × (new_address_space P offset cr3 tables a
              ≡ ok (f, tables', a'))
            × (pool P a' ≡ rest)
            × IsValid a'
            × IsNew offset cr3 tables f tables'
      by_case (exhausted e' r) = absurd (ground arith)
      by_case (hands_out g eg e' w) =
          let same : g ≡ f = cc in
          let left : pool P (allocate_frame P a).1 ≡ rest = cc in
          (
            filled_tables (P.index 4 offset) cr3 tables f,
            (allocate_frame P a).1,
            rw (eg, new_address_space)
                (ap
                  (λ x.
                    ok (x, filled_tables (P.index 4 offset) cr3 tables x, (allocate_frame P a).1))
                  same),
            left,
            w,
            filled-IsNew offset cr3 tables f ne,
          )

  -- An address outside the two shared top-level entries is not mapped in a new address space.
  pub new-translate :
      (offset cr3 : ℕ) (tables tables' : Tables) (f addr : ℕ)
      → IsNew offset cr3 tables f tables'
      → P.index 4 addr ≢ 0
      → P.index 4 addr ≢ P.index 4 offset
      → translate_addr P tables' f addr ≡ ok none
  unfolding translate_addr walk
  new-translate offset cr3 tables tables' f addr new h k = rw (new.empty (P.index 4 addr) h k) refl

  -- What a successful call has done.
  new_address_space-inv :
      (offset cr3 : ℕ) (tables tables' : Tables) (a a' : FrameAllocator) (f : ℕ)
      → IsValid a
      → f ≢ cr3
      → new_address_space P offset cr3 tables a ≡ ok (f, tables', a')
      → (pool P a ≡ f ∷ pool P a') × IsValid a' × IsNew offset cr3 tables f tables'
  unfolding new_address_space
  new_address_space-inv offset cr3 tables tables' a a' f v ne e =
      by_case (allocate_frame-Allocates P a v)
    where
      by_case :
          Allocates P a (allocate_frame P a)
          → (pool P a ≡ f ∷ pool P a') × IsValid a' × IsNew offset cr3 tables f tables'
      by_case (exhausted e' r) = absurd (ground arith)
      by_case (hands_out g eg e' w) =
          let done : new_address_space P offset cr3 tables a
              ≡ ok (g, filled_tables (P.index 4 offset) cr3 tables g, (allocate_frame P a).1) =
            rw (eg, new_address_space) refl in
          let same : g ≡ f = cc in
          let left : (allocate_frame P a).1 ≡ a' = cc in
          let filled : filled_tables (P.index 4 offset) cr3 tables g ≡ tables' = cc in
          (
            e' ∙ ap₂ (λ x y. x ∷ pool P y) same left,
            subst IsValid left w,
            subst (IsNew offset cr3 tables f)
                (ap (filled_tables (P.index 4 offset) cr3 tables) (sym same) ∙ filled)
                (filled-IsNew offset cr3 tables f ne),
          )

  -- Of the new table's entries the loop of `free_address_space` visits none.
  new_skips :
      (offset cr3 : ℕ) (tables tables' : Tables) (f : ℕ)
      → IsNew offset cr3 tables f tables'
      → (i : ℕ) → ((i == 0 || i == P.index 4 offset) ≡ true) ⊎ ((tables' f i).present ≡ false)
  new_skips offset cr3 tables tables' f new i =
      elim (Bool-cases (i == 0 || i == P.index 4 offset)) [
        | inl e ↦ inl e
        | inr e ↦ inr (ap (λ en. en.present) (new.empty i (ground arith) (ground arith)))
      ]

  -- Freed before anything is mapped in it, a new address space whose frame is not the active
  -- table gives back exactly the frame that it took: the pool of a valid allocator is as it was.
  pub free_address_space-new_address_space :
      (offset cr3 : ℕ) (tables tables' : Tables) (borrowed : AddrRange) (a a' : FrameAllocator)
      (f : ℕ)
      → IsValid a
      → f ≢ cr3
      → new_address_space P offset cr3 tables a ≡ ok (f, tables', a')
      → (a'' : FrameAllocator) × (free_address_space tables' borrowed P f offset a' ≡ ok a'')
        × (pool P a'' ≡ pool P a)
        × IsValid a''
  unfolding free_address_space
  free_address_space-new_address_space offset cr3 tables tables' borrowed a a' f v ne e =
      let (taken, w, new) = new_address_space-inv offset cr3 tables tables' a a' f v ne e in
      let (given, w') = deallocate_frame-pool P f a' w in
      let nothing =
        each_present-none (free_table tables' borrowed 3) (λ i. i == 0 || i == P.index 4 offset)
          (tables' f) (λ i. i * 2 ^ 39 % u64_mod) 512 0 a'
          (new_skips offset cr3 tables tables' f new) in
      (deallocate_frame f a', rw (nothing, free_address_space), given ∙ sym taken, w')
