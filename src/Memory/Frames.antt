-- ===== src/Memory/Frames.antt =====
-- `BootInfoFrameAllocator`: fresh frames from the boot memory map, freed frames before them.
pub mod Laws
use velora_os.Base.{
  ℕ, zero, suc, ◌+◌, ◌-◌, ◌*◌, ◌/◌, ◌%◌, Bool, true, false, ◌&&◌, List, [], ◌∷◌, ◌++◌, Option, none,
  some, ltb, leb, length, get_elem?, drop, if◌then◌else◌, Outcome, ok, panic, expect, ◌>>=◌,
}
use velora_os.Memory.Paging.{Paging}

-- `MemoryRegion`: `range.start_addr()`, `range.end_addr()`, and whether its type is `Usable`.
pub record Region : Type 0 where
  pub start_addr : ℕ
  pub end_addr : ℕ
  pub usable : Bool

-- The head of the free list is the end of the `Vec`, which `pop` takes.
pub record FrameAllocator : Type 0 where
  pub memory_map : List Region
  pub region_index : ℕ
  pub next_frame_addr : ℕ
  pub free_list : Option (List ℕ)

abbrev pub can_serve : Region → Bool
can_serve r = r.usable && ltb r.start_addr r.end_addr

-- The loop of `skip_to_next_usable_region` over the regions from `i` on: the index and the address
-- that it leaves.
unfoldable pub skip_from : List Region → ℕ → ℕ → ℕ × ℕ
skip_from [] i addr = (i, addr)
skip_from (r ∷ rs) i addr = if can_serve r then (i, r.start_addr) else skip_from rs (i + 1) addr

unfoldable pub skip_to_next_usable_region : FrameAllocator → FrameAllocator
unfolding skip_from
skip_to_next_usable_region a =
    let (i, addr) = skip_from (drop a.region_index a.memory_map) a.region_index a.next_frame_addr in
    record a { region_index = i; next_frame_addr = addr }

unfoldable pub init : List Region → FrameAllocator
unfolding skip_to_next_usable_region
init memory_map =
    skip_to_next_usable_region
      (record { memory_map = memory_map; region_index = 0; next_frame_addr = 0; free_list = none })

module _ (P : Paging) where
  -- The fresh path of `allocate_frame`, in the region `r`.
  unfoldable pub take_fresh : FrameAllocator → Region → Option ℕ × FrameAllocator
  unfolding skip_to_next_usable_region
  take_fresh a r =
      let frame = P.frame_containing a.next_frame_addr in
      let moved = record a { next_frame_addr = a.next_frame_addr + 4096 } in
      if leb r.end_addr moved.next_frame_addr
      then (
        some frame,
        skip_to_next_usable_region (record moved { region_index = a.region_index + 1 }),
      )
      else (some frame, moved)

  unfoldable pub allocate_fresh : FrameAllocator → Option ℕ × FrameAllocator
  unfolding take_fresh
  allocate_fresh a = elim (get_elem? a.memory_map a.region_index) [
    | none ↦ (none, a)
    | some r ↦ take_fresh a r
  ]

  unfoldable pub allocate_frame : FrameAllocator → Option ℕ × FrameAllocator
  unfolding allocate_fresh
  allocate_frame a = elim a.free_list [
    | none ↦ allocate_fresh a
    | some frames ↦ elim frames [
      | [] ↦ allocate_fresh a
      | frame ∷ rest ↦ (some frame, record a { free_list = some rest })
    ]
  ]

-- `get_or_insert_with(Vec::new).push(frame)`
unfoldable pub deallocate_frame : ℕ → FrameAllocator → FrameAllocator
deallocate_frame frame a = elim a.free_list [
  | none ↦ record a { free_list = some (frame ∷ []) }
  | some frames ↦ record a { free_list = some (frame ∷ frames) }
]

-- `GlobalFrameAllocator`: the same operations on FRAME_ALLOCATOR, which must have been installed.
module _ (P : Paging) where
  unfoldable pub global_allocate :
      Option FrameAllocator → Outcome (Option ℕ × Option FrameAllocator)
  global_allocate global = do
    a ← expect global
    let (frame, a') = allocate_frame P a
    ok (frame, some a')

unfoldable pub global_deallocate : ℕ → Option FrameAllocator → Outcome (Option FrameAllocator)
global_deallocate frame global = do a ← expect global; ok (some (deallocate_frame frame a))
