-- ===== src/Userspace/Pages/Laws.antt =====
-- userspace.rs: what the page of a demonstration holds.
use velora_os.Base.{
  Bool, ◌∙◌, subst, ℕ, ◌+◌, ◌-◌, ◌%◌, ◌^◌, ◌≤◌, ◌<◌, ◌≡◌, ◌≢◌, ◌⊎◌, refl, ap, true, List, none,
  some, ok, arith, length, get_or,
}
use velora_os.Elf.Segments.{Space}
use velora_os.Elf.Contents.{Mapper, All}
use velora_os.Memory.Walk.{Tables}
use velora_os.Memory.Frames.{allocate_frame}
use velora_os.Memory.Frames.Laws.{
  pool, IsValid, Allocates, exhausted, hands_out, allocate_frame-Allocates,
}
use velora_os.Memory.Paging.{Paging}
use velora_os.Userspace.{build_echo_shellcode}
use velora_os.Userspace.Laws.{echo_code}
use velora_os.Userspace.Pages.{user_page_addr, copy_bytes, map_shellcode_page, map_demo_page}

copy_bytes-here :
    (code : List ℕ) (dst : ℕ) (frames : ℕ → ℕ → ℕ) (j : ℕ)
    → j < length code
    → copy_bytes code dst frames dst j ≡ get_or code j 0
unfolding copy_bytes
copy_bytes-here code dst frames j h =
    let inside : dst + j - dst ≡ j = omega arith in ground (arith, ap (λ i. get_or code i 0) inside)

copy_bytes-outside :
    (code : List ℕ) (dst : ℕ) (frames : ℕ → ℕ → ℕ) (f j : ℕ)
    → (f + j < dst) ⊎ (dst + length code ≤ f + j)
    → copy_bytes code dst frames f j ≡ frames f j
unfolding copy_bytes
copy_bytes-outside code dst frames f j out = ground arith

-- The mapper, with what `map_to` writes: bytes of frames that hold page tables already, which `is_table`
-- tells, or that the allocator has.
module _ (P : Paging) (M : Mapper P) (table_bytes : ℕ → ℕ → Bool → Space → ℕ → ℕ → ℕ)
    (is_table : Tables → ℕ → Type 0)
    (writes_tables : (page frame : ℕ) (writable : Bool) (s : Space) (g j : ℕ)
      → ¬ is_table s.tables g
      → All (λ x. x ≢ g) (pool P s.allocator)
      → table_bytes page frame writable s g j ≡ s.frames g j) where
  -- The page of `addr` shows the code from its first byte on; no other mapping has changed, and outside
  -- the code no byte of a frame that holds no page table and that the allocator did not have.
  abbrev pub Holds : Space → Space → ℕ → List ℕ → Type 0
  Holds s s' addr code =
      (f : ℕ) × (M.frame_of s'.tables (addr - addr % 4096) ≡ some f)
      × ((j : ℕ) → j < length code → s'.frames f j ≡ get_or code j 0)
      × ((g j : ℕ)
          → ¬ is_table s.tables g
          → All (λ x. x ≢ g) (pool P s.allocator)
          → (g + j < f) ⊎ (f + length code ≤ g + j)
          → s'.frames g j ≡ s.frames g j)
      × ((q : ℕ) → q ≢ addr - addr % 4096 → M.frame_of s'.tables q ≡ M.frame_of s.tables q)

  map_shellcode_page-Holds :
      (s : Space) (addr : ℕ) (code : List ℕ)
      → addr < 2 ^ 47
      → IsValid s.allocator
      → 4 ≤ length (pool P s.allocator)
      → M.frame_of s.tables (addr - addr % 4096) ≡ none
      → (s' : Space) × (map_shellcode_page P M.map_to table_bytes addr code s ≡ ok s')
        × Holds s s' addr code
  unfolding map_shellcode_page
  map_shellcode_page-Holds s addr code low valid enough unmapped =
      by_frame (allocate_frame-Allocates P s.allocator valid)
    where
      by_frame :
          Allocates P s.allocator (allocate_frame P s.allocator)
          → (s' : Space) × (map_shellcode_page P M.map_to table_bytes addr code s ≡ ok s')
            × Holds s s' addr code
      by_frame (exhausted e r) = absurd (omega (arith, ap length e))
      by_frame (hands_out f given split valid') =
          let asked : Space = record s { allocator = (allocate_frame P s.allocator).1 } in
          let page : ℕ = addr - addr % 4096 in
          let (t', a', taken, mapped, here, others, v, few, left) =
            M.maps page f true s.tables asked.allocator unmapped valid'
              (omega (arith, ap length split)) in
          let bytes : ℕ → ℕ → ℕ = table_bytes page f true asked in
          (
            record { tables = t'; allocator = a'; frames = copy_bytes code f bytes },
            rw
                (
                  P.try_new-low addr low,
                  P.page_containing_lem addr,
                  given,
                  mapped,
                  map_shellcode_page,
                )
                refl,
            (
              f,
              here,
              copy_bytes-here code f bytes,
              λ g j no_table spare out.
                  copy_bytes-outside code f bytes g j out
                  ∙ writes_tables page f true asked g j no_table
                      (subst (All (λ x. x ≢ g)) split spare).1,
              others,
            ),
          )

  -- Where the demonstration's page is not mapped, and a valid allocator has a frame for it and three
  -- for page tables, `map_demo_page` succeeds: the page shows the whole echo program for its address,
  -- which fits below the stack that the program starts with. No other mapping has changed, and outside
  -- the program no byte of a frame that holds no page table and that the allocator did not have;
  -- `map_to` writes only to page tables and to frames of the allocator.
  pub map_demo_page-Holds :
      (s : Space)
      → IsValid s.allocator
      → 4 ≤ length (pool P s.allocator)
      → M.frame_of s.tables user_page_addr ≡ none
      → (s' : Space) × (code : List ℕ) × (map_demo_page P M.map_to table_bytes s ≡ ok s')
        × (build_echo_shellcode user_page_addr ≡ ok code)
        × (length code ≤ 4096 - 16)
        × Holds s s' user_page_addr code
  unfolding map_demo_page
  map_demo_page-Holds s valid enough unmapped =
      let (code, built, short) = echo_code user_page_addr in
      let (s', ran, holds) =
        map_shellcode_page-Holds s user_page_addr code (omega arith) valid enough unmapped in
      (s', code, rw (built, map_demo_page) ran, built, omega (arith, short), holds)
