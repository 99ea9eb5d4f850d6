-- ===== src/Userspace/Pages.antt =====
-- userspace.rs: the page of a demonstration.
pub mod Laws
use velora_os.Base.{
  ℕ, ◌+◌, ◌-◌, Bool, true, ◌&&◌, List, Option, none, some, Outcome, ok, panic, stuck, ◌>>=◌, expect,
  ltb, leb, if◌then◌else◌, get_or, length,
}
use velora_os.Elf.Segments.{Space}
use velora_os.Memory.Paging.{Paging}
use velora_os.Memory.Frames.{FrameAllocator, allocate_frame}
use velora_os.Memory.Walk.{Tables}
use velora_os.Userspace.{build_echo_shellcode}

-- `USER_PAGE_ADDR`
abbrev pub user_page_addr : ℕ
user_page_addr = 0x555555550000

-- `copy_nonoverlapping` to physical memory from `dst` on, by the frames' start addresses.
unfoldable pub copy_bytes : List ℕ → ℕ → (ℕ → ℕ → ℕ) → ℕ → ℕ → ℕ
copy_bytes code dst frames f j =
    if leb dst (f + j) && ltb (f + j) (dst + length code)
    then get_or code (f + j - dst) 0
    else frames f j

-- `table_bytes` is what the crate's `map_to` writes into physical memory: it zeroes the frames that it
-- takes for page tables, and sets entries.
module _ (P : Paging)
    (map_to : ℕ → ℕ → Bool → Tables → FrameAllocator → Option (Tables × FrameAllocator))
    (table_bytes : ℕ → ℕ → Bool → Space → ℕ → ℕ → ℕ) where
  -- `map_to` maps with the flags PRESENT, WRITABLE and USER_ACCESSIBLE.
  unfoldable pub map_shellcode_page : ℕ → List ℕ → Space → Outcome Space
  unfolding copy_bytes
  map_shellcode_page addr code s = do
    start ← expect (P.try_new addr)
    let page = P.page_containing start
    let (allocated, a) = allocate_frame P s.allocator
    frame ← expect allocated
    let asked : Space = record s { allocator = a }
    (tables, a') ← expect (map_to page frame true asked.tables asked.allocator)
    ok (record {
      tables = tables;
      allocator = a';
      frames = copy_bytes code frame (table_bytes page frame true asked);
    })

  unfoldable pub map_demo_page : Space → Outcome Space
  unfolding map_shellcode_page
  map_demo_page s = do
    code ← build_echo_shellcode user_page_addr
    map_shellcode_page user_page_addr code s
