-- ===== src/Elf/Reads.antt =====
-- The checked little-endian reads of elf.rs.
use velora_os.Base.{
  ℕ, zero, suc, ◌+◌, ◌*◌, ◌^◌, List, Option, none, some, checked_add, leb, if◌then◌else◌, get_or,
  length,
}

-- `base.checked_add(offset)?`, `start.checked_add(n)?` and `bytes.get(start..end)?`: the start.
unfoldable pub range : List ℕ → ℕ → ℕ → ℕ → Option ℕ
range bytes base offset n = elim (checked_add base offset) [
  | none ↦ none
  | some start ↦ elim (checked_add start n) [
    | none ↦ none
    | some end ↦ if leb end (length bytes) then some start else none
  ]
]

-- `from_le_bytes` of the `n` bytes from `start` on.
unfoldable pub little_endian : List ℕ → ℕ → ℕ → ℕ
little_endian bytes zero start = 0
little_endian bytes (suc n) start = get_or bytes start 0 + 2 ^ 8 * little_endian bytes n (start + 1)

unfoldable pub read_word : ℕ → List ℕ → ℕ → ℕ → Option ℕ
unfolding range little_endian
read_word n bytes base offset = elim (range bytes base offset n) [
  | none ↦ none
  | some start ↦ some (little_endian bytes n start)
]

abbrev pub read_u16 : List ℕ → ℕ → ℕ → Option ℕ
read_u16 = read_word 2

abbrev pub read_u32 : List ℕ → ℕ → ℕ → Option ℕ
read_u32 = read_word 4

abbrev pub read_u64 : List ℕ → ℕ → ℕ → Option ℕ
read_u64 = read_word 8
