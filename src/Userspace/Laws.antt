-- ===== src/Userspace/Laws.antt =====
-- The loader reads back what the executable was built from.
use velora_os.Base.{ℕ, ◌^◌, ◌<◌, ◌≡◌, refl, ap, true, List, some, ok, arith, length, checked_add}
use velora_os.Elf.Reads.{read_word, read_u16, read_u32, read_u64, little_endian}
use velora_os.Elf.Loader.{header_ok, slice}
use velora_os.Userspace.{to_le_bytes, build_echo_shellcode, build_test_elf}

-- The code is 92 bytes long for every page.
pub echo_code : (a : ℕ) → (code : List ℕ) × (build_echo_shellcode a ≡ ok code) × (length code ≡ 92)
unfolding build_echo_shellcode
echo_code a = (_, refl, refl)

-- Eight little-endian bytes hold a 64-bit number.
eight_bytes : (a : ℕ) → a < 2 ^ 64 → little_endian (to_le_bytes 8 a) 8 0 ≡ a
unfolding little_endian to_le_bytes
eight_bytes a h = omega arith

-- What the loader reads of the file: the entry point, the offset, the size and the number of the
-- program headers, and of the one program header the kind, the flags, the offset, the address and the
-- two sizes.
abbrev pub Fields : ℕ → ℕ → List ℕ → Type 0
Fields a len file =
    (read_u64 file 0 24 ≡ some a)
    × (read_u64 file 0 32 ≡ some 64)
    × (read_u16 file 0 54 ≡ some 56)
    × (read_u16 file 0 56 ≡ some 1)
    × (read_u32 file 64 0 ≡ some 1)
    × (read_u32 file 64 4 ≡ some 7)
    × (read_u64 file 64 8 ≡ some 120)
    × (read_u64 file 64 16 ≡ some a)
    × (read_u64 file 64 32 ≡ some len)
    × (read_u64 file 64 40 ≡ some len)

-- For any 64-bit load address `build_test_elf` succeeds, the loader accepts the file's header, reads the
-- load address as the entry point and as the address of one writable segment of 92 bytes at offset 120,
-- and the bytes of that segment are the echo program for this address.
pub build_test_elf-Fields :
    (a : ℕ)
    → a < 2 ^ 64
    → (file : List ℕ) × (build_test_elf a ≡ ok file)
      × (header_ok file ≡ true)
      × Fields a 92 file
      × ((code : List ℕ) × (build_echo_shellcode a ≡ ok code) × (slice file 120 212 ≡ some code))
unfolding build_test_elf header_ok slice read_word build_echo_shellcode checked_add
build_test_elf-Fields a h =
    let same : little_endian (to_le_bytes 8 a) 8 0 ≡ a = eight_bytes a h in
    (
      _,
      refl,
      refl,
      (ap some same, refl, refl, refl, refl, refl, refl, ap some same, refl, refl),
      (_, refl, refl),
    )
