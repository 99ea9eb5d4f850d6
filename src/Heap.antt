-- ===== src/Heap.antt =====
-- allocator.rs: the kernel's heap.
pub mod Laws
mod Tests
use velora_os.Base.{
  ℕ, zero, suc, ◌+◌, ◌-◌, ◌*◌, ◌/◌, Bool, true, Option, none, some, Outcome, ok, panic, stuck,
  ◌>>=◌, expect,
}
use velora_os.Memory.Paging.{Paging}
use velora_os.Memory.Frames.{FrameAllocator, allocate_frame}
use velora_os.Memory.Walk.{Tables}

-- `HEAP_START`
abbrev pub heap_start : ℕ
heap_start = 0x444444440000

-- `HEAP_SIZE`
abbrev pub heap_size : ℕ
heap_size = 4 * 1024 * 1024

-- `Result<(), MapToError>`: the frame allocator is empty, or the crate's `map_to` has failed.
pub data HeapResult : Type 0 where
  done : HeapResult
  frame_allocation_failed : HeapResult
  map_to_failed : HeapResult

-- What `init_heap` changes; `heap` is the range that the global allocator has been given.
pub record HeapSpace : Type 0 where
  pub tables : Tables
  pub allocator : FrameAllocator
  pub heap : Option (ℕ × ℕ)

-- The operator `?` in the loop.
abbrev pub try_then :
    (HeapSpace → Outcome (HeapResult × HeapSpace))
    → HeapResult × HeapSpace
    → Outcome (HeapResult × HeapSpace)
try_then next (done, s) = next s
try_then next (frame_allocation_failed, s) = ok (frame_allocation_failed, s)
try_then next (map_to_failed, s) = ok (map_to_failed, s)

module _ (P : Paging)
    (map_to : ℕ → ℕ → Bool → Tables → FrameAllocator → Option (Tables × FrameAllocator)) where
  -- `?` on the frame, then on the crate's `map_to`, with the flags PRESENT and WRITABLE.
  unfoldable pub map_heap_page : ℕ → HeapSpace → HeapResult × HeapSpace
  map_heap_page page s =
      let (allocated, a) = allocate_frame P s.allocator in
      elim allocated [
        | none ↦ (frame_allocation_failed, record s { allocator = a })
        | some frame ↦ elim (map_to page frame true s.tables a) [
          | none ↦ (map_to_failed, record s { allocator = a })
          | some (tables, a') ↦ (done, record s { tables = tables; allocator = a' })
        ]
      ]

  -- The loop, with `n` pages left.
  unfoldable pub map_heap : ℕ → ℕ → HeapSpace → Outcome (HeapResult × HeapSpace)
  unfolding map_heap_page
  map_heap zero page s = ok (done, s)
  map_heap (suc n) page s = do
    next ← expect (P.page_add page 1)
    try_then (map_heap n next) (map_heap_page page s)

  -- `init` of the global allocator.
  abbrev pub with_heap : HeapResult × HeapSpace → HeapResult × HeapSpace
  with_heap (done, s) = (done, record s { heap = some (heap_start, heap_size) })
  with_heap (frame_allocation_failed, s) = (frame_allocation_failed, s)
  with_heap (map_to_failed, s) = (map_to_failed, s)

  unfoldable pub init_heap : HeapSpace → Outcome (HeapResult × HeapSpace)
  unfolding map_heap
  init_heap s = do
    start ← expect (P.try_new heap_start)
    bound ← expect (P.try_new (start + heap_size))
    last ← expect (P.try_new (bound - 1))
    let heap_start_page = P.page_containing start
    let heap_end_page = P.page_containing last
    r ← map_heap ((heap_end_page - heap_start_page) / 4096 + 1) heap_start_page s
    ok (with_heap r)
