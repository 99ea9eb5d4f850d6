-- ===== src/Elf/Loader.antt =====
-- `load`: the header's validation, the program headers, the stack and the arguments.
use velora_os.Base.{
  ℕ, zero, suc, ◌+◌, ◌-◌, Bool, true, false, not, List, [], Option, none, some, Outcome, ok, panic,
  stuck, ltb, ◌==◌, ◌&&◌, if◌then◌else◌, max, get_or, length, take, drop, leb, checked_add,
  checked_sub, checked_mul, bit_and,
}
use velora_os.Memory.Paging.{Paging}
use velora_os.Memory.Frames.{FrameAllocator}
use velora_os.Memory.Walk.{Tables}
use velora_os.Memory.Spaces.{new_address_space, free_address_space}
use velora_os.Elf.Reads.{read_u16, read_u32, read_u64}
use velora_os.Elf.Segments.{Space, Load, ◌>>=◌, ◌>>◌, try, return, page_size, align_up, map_segment}

abbrev pub et_exec : ℕ
et_exec = 2

abbrev pub em_x86_64 : ℕ
em_x86_64 = 0x3E

abbrev pub pt_load : ℕ
pt_load = 1

abbrev pub pf_w : ℕ
pf_w = 0x2

abbrev pub stack_size : ℕ
stack_size = page_size

abbrev pub args_size : ℕ
args_size = page_size

-- Where to start: the entry point, the stack's top, the argument block and its length.
pub record Start : Type 0 where
  pub entry : ℕ
  pub stack_top : ℕ
  pub args_ptr : ℕ
  pub args_len : ℕ

pub record LoadedElf : Type 0 where
  pub page_table : ℕ
  pub start : Start

-- `bytes.get(from..to)`
unfoldable pub slice : List ℕ → ℕ → ℕ → Option (List ℕ)
slice bytes from to =
    if leb from to && leb to (length bytes) then some (take (to - from) (drop from bytes)) else none

-- The fixed header: `None` is a read past the end, for which `?` returns.
unfoldable pub header_ok : List ℕ → Bool
header_ok bytes =
    not (ltb (length bytes) 64)
    && (get_or bytes 0 0 == 0x7F
        && (get_or bytes 1 0 == b'E'
            && (get_or bytes 2 0 == b'L'
                && (get_or bytes 3 0 == b'F'
                    && (get_or bytes 4 0 == 2
                        && (get_or bytes 5 0 == 1
                            && (is_word (read_u16 bytes 0 16) et_exec
                                && is_word (read_u16 bytes 0 18) em_x86_64)))))))
  where
    is_word : Option ℕ → ℕ → Bool
    is_word none w = false
    is_word (some v) w = v == w

module _ (P : Paging)
    (map_to : ℕ → ℕ → Bool → Tables → FrameAllocator → Option (Tables × FrameAllocator)) where
  -- One program header: the new `highest_mapped`.
  unfoldable pub load_segment : List ℕ → ℕ → ℕ → Load ℕ
  load_segment bytes ph highest_mapped = do
    kind ← try (read_u32 bytes ph 0)
    if kind == pt_load
        then (do
          p_flags ← try (read_u32 bytes ph 4)
          p_offset ← try (read_u64 bytes ph 8)
          p_vaddr ← try (read_u64 bytes ph 16)
          p_filesz ← try (read_u64 bytes ph 32)
          p_memsz ← try (read_u64 bytes ph 40)
          let writable = not (bit_and p_flags pf_w == 0)
          file_end ← try (checked_add p_offset p_filesz)
          file_bytes ← try (slice bytes p_offset file_end)
          map_segment P map_to file_bytes p_vaddr p_memsz writable
          segment_end ← try (checked_add p_vaddr p_memsz)
          return (max highest_mapped segment_end))
        else return highest_mapped

  -- The loop over the program headers from `i` on, with `n` left.
  unfoldable pub load_segments : List ℕ → ℕ → ℕ → ℕ → ℕ → ℕ → Load ℕ
  unfolding load_segment
  load_segments bytes phoff phentsize zero i highest_mapped = return highest_mapped
  load_segments bytes phoff phentsize (suc n) i highest_mapped = do
    skipped ← try (checked_mul i phentsize)
    ph ← try (checked_add phoff skipped)
    highest ← load_segment bytes ph highest_mapped
    load_segments bytes phoff phentsize n (i + 1) highest

  unfoldable pub load_segments_and_stack : List ℕ → List ℕ → Load Start
  unfolding load_segments
  load_segments_and_stack bytes args = do
    entry ← try (read_u64 bytes 0 24)
    phoff ← try (read_u64 bytes 0 32)
    phentsize ← try (read_u16 bytes 0 54)
    phnum ← try (read_u16 bytes 0 56)
    highest_mapped ← load_segments bytes phoff phentsize phnum 0 0
    aligned ← try (align_up highest_mapped page_size)
    stack_bottom ← try (checked_add aligned page_size)
    map_segment P map_to [] stack_bottom stack_size true
    stack_end ← try (checked_add stack_bottom stack_size)
    below ← try (checked_sub stack_end 16)
    stack_top ← try (P.try_new below)
    entry_point ← try (P.try_new entry)
    args_bottom ← try (checked_add stack_bottom stack_size)
    map_segment P map_to args args_bottom args_size false
    args_ptr ← try (P.try_new args_bottom)
    return (record {
      entry = entry_point;
      stack_top = stack_top;
      args_ptr = args_ptr;
      args_len = length args;
    })

-- `map_to` takes the root table of the mapper that it is called on.
module _ (P : Paging)
    (map_to : ℕ → ℕ → ℕ → Bool → Tables → FrameAllocator → Option (Tables × FrameAllocator)) where
  -- What follows `load_segments_and_stack`: on `None` the address space is freed.
  unfoldable pub finish : ℕ → ℕ → Option Start × Space → Outcome (Option LoadedElf × Space)
  finish offset l4_frame (some start, s) =
      ok (some (record { page_table = l4_frame; start = start }), s)
  finish offset l4_frame (none, s) =
      elim (free_address_space s.tables (record { start = 0; end = 0 }) P l4_frame offset
        s.allocator) [
          | panic ↦ panic
          | stuck ↦ stuck
          | ok a ↦ ok (none, record s { allocator = a })
        ]

  -- `offset` is `physical_memory_offset`, `cr3` the active table.
  unfoldable pub load : List ℕ → ℕ → ℕ → List ℕ → Space → Outcome (Option LoadedElf × Space)
  unfolding header_ok load_segments_and_stack finish
  load bytes offset cr3 args s =
      if header_ok bytes
      then elim (new_address_space P offset cr3 s.tables s.allocator) [
        | panic ↦ panic
        | stuck ↦ stuck
        | ok (l4_frame, tables, a) ↦
            elim (load_segments_and_stack P (map_to l4_frame) bytes args
              (record s { tables = tables; allocator = a })) [
                | panic ↦ panic
                | stuck ↦ stuck
                | ok r ↦ finish offset l4_frame r
              ]
      ]
      else ok (none, s)
