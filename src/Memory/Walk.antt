-- ===== src/Memory/Walk.antt =====
-- The page-table walks: `translate_addr`, `page_accessible` and `user_range_mapped`.
pub mod Laws
use velora_os.Base.{
  ℕ, zero, suc, ◌+◌, ◌-◌, ◌*◌, ◌/◌, ◌%◌, Bool, true, false, ◌&&◌, ◌||◌, not, List, [], ◌∷◌, Option,
  none, some, Outcome, ok, panic, stuck, ◌>>=◌, expect, ◌==◌, ltb, if◌then◌else◌, checked_add,
}
use velora_os.Memory.Paging.{Paging}

-- `PageTableEntry::frame`
pub data FrameResult : Type 0 where
  frame : ℕ → FrameResult
  frame_not_present : FrameResult
  huge_frame : FrameResult

-- A page-table entry, by its flags and its frame.
pub record Entry : Type 0 where
  pub present : Bool
  pub writable : Bool
  pub user_accessible : Bool
  pub target : FrameResult

-- The page table in each frame, through the physical-memory window: the entry at an index.
abbrev pub Tables : Type 0
Tables = ℕ → ℕ → Entry

-- `entry.flags().contains(required)`
unfoldable pub permits : Bool → Entry → Bool
permits need_write e = e.present && e.user_accessible && (not need_write || e.writable)

-- The loop of `translate_addr_inner` over the indexes that are left.
unfoldable pub walk : Tables → List ℕ → ℕ → Outcome (Option ℕ)
walk tables [] f = ok (some f)
walk tables (i ∷ is) f = elim (tables f i).target [
  | frame g ↦ walk tables is g
  | frame_not_present ↦ ok none
  | huge_frame ↦ panic
]

-- The loop of `page_accessible`.
unfoldable pub accessible : Bool → Tables → List ℕ → ℕ → Bool
unfolding permits
accessible need_write tables [] f = true
accessible need_write tables (i ∷ is) f =
    if permits need_write (tables f i)
    then elim (tables f i).target [ frame g ↦ accessible need_write tables is g | _ ↦ false ]
    else false

module _ (P : Paging) where
  abbrev pub table_indexes : ℕ → List ℕ
  table_indexes addr = P.index 4 addr ∷ P.index 3 addr ∷ P.index 2 addr ∷ P.index 1 addr ∷ []

  module _ (tables : Tables) (cr3 : ℕ) where
    unfoldable pub translate_addr : ℕ → Outcome (Option ℕ)
    translate_addr addr = do
      found ← walk tables (table_indexes addr) cr3
      ok (elim found [ none ↦ none | some f ↦ some (f + P.page_offset addr) ])

    unfoldable pub page_accessible : ℕ → Bool → Bool
    page_accessible addr need_write = accessible need_write tables (table_indexes addr) cr3

    -- The loop of `user_range_mapped`.
    unfoldable pub scan : Bool → ℕ → ℕ → ℕ → Outcome Bool
    scan need_write last zero page = stuck
    scan need_write last (suc fuel) page =
        let on = expect (P.page_add page 1) >>= scan need_write last fuel in
        if page_accessible page need_write then (if page == last then ok true else on) else ok false

    -- One round for each page of the range.
    unfoldable pub user_range_mapped : ℕ → ℕ → Bool → Outcome Bool
    user_range_mapped addr len need_write =
        if len == 0 then ok true else elim (checked_add addr (len - 1)) [
          | none ↦ ok false
          | some last_byte ↦ (do
            last ← expect (P.try_new last_byte)
            let first_page = P.page_containing addr
            let last_page = P.page_containing last
            scan need_write last_page ((last_page - first_page) / 4096 + 1) first_page)
        ]

    -- syscall.rs: `user_range_ok`
    unfoldable pub user_range_ok : ℕ → ℕ → Bool → Outcome Bool
    unfolding user_range_mapped
    user_range_ok ptr len need_write = if ptr == 0 then ok false else elim (P.try_new ptr) [
      | none ↦ ok false
      | some addr ↦ user_range_mapped addr len need_write
    ]
