-- ===== src/Userspace.antt =====
-- userspace.rs: the machine code of the echo demo, and the executable that is built around it.
pub mod Demos
pub mod Pages
pub mod Ring3
pub mod Laws
mod Tests
use velora_os.Base.{
  ℕ, zero, suc, ◌+◌, ◌-◌, ◌*◌, ◌/◌, ◌%◌, ◌^◌, List, [], ◌∷◌, ◌++◌, Outcome, ok, panic, ◌>>=◌, ◌>>◌,
  assert, leb, ◌==◌, length, set, bit_or, if◌then◌else◌,
}
use velora_os.Syscall.Numbers

-- `to_le_bytes` on `n` bytes.
unfoldable pub to_le_bytes : ℕ → ℕ → List ℕ
to_le_bytes zero v = []
to_le_bytes (suc n) v = v % 256 ∷ to_le_bytes n (v / 256)

unfoldable pub mov_imm64 : List ℕ → ℕ → ℕ → List ℕ
unfolding to_le_bytes
mov_imm64 code reg_opcode value = code ++ (0x48 ∷ (0xB8 + reg_opcode) ∷ to_le_bytes 8 value)

unfoldable pub mov_r64_r64 : List ℕ → ℕ → ℕ → List ℕ
mov_r64_r64 code dst src = code ++ (0x48 ∷ 0x89 ∷ bit_or (bit_or 0xC0 (src * 2 ^ 3)) dst ∷ [])

abbrev pub rax : ℕ
rax = 0

abbrev pub rdx : ℕ
rdx = 2

abbrev pub rsi : ℕ
rsi = 6

abbrev pub rdi : ℕ
rdi = 7

-- The difference as an `i8`, then as the `u8` with the same bits.
unfoldable pub rel8 : ℕ → ℕ → Outcome ℕ
rel8 target_offset next_instruction_offset =
    if leb next_instruction_offset target_offset
    then (if leb (target_offset - next_instruction_offset) 127
        then ok (target_offset - next_instruction_offset)
        else panic)
    else if leb (next_instruction_offset - target_offset) 128
    then ok (256 - (next_instruction_offset - target_offset))
    else panic

-- `code[at..at + bytes.len()].copy_from_slice(bytes)`
unfoldable pub patch : List ℕ → ℕ → List ℕ → Outcome (List ℕ)
patch code at bytes =
    if leb (at + length bytes) (length code) then ok (over code at bytes) else panic
  where
    over : List ℕ → ℕ → List ℕ → List ℕ
    over code at [] = code
    over code at (b ∷ bs) = over (set code at b) (at + 1) bs

unfoldable pub build_echo_shellcode : ℕ → Outcome (List ℕ)
unfolding mov_imm64 rel8 patch
build_echo_shellcode page_addr = do
  let read_loop : ℕ = 0
  let code1 = mov_imm64 (mov_imm64 [] rax Numbers.sys_read) rdi 0
  let read_buf_patch_at = length code1 + 2
  let code2 =
      mov_imm64 (mov_imm64 code1 rsi 0) rdx 1 ++ (0xcd ∷ 0x80 ∷ []) ++ (0x48 ∷ 0x85 ∷ 0xc0 ∷ [])
  let jz_opcode_at = length code2
  let code3 = code2 ++ (0x74 ∷ 0x00 ∷ [])
  back ← rel8 read_loop (length code3)
  code4 ← patch code3 (jz_opcode_at + 1) (back ∷ [])
  let code5 = mov_imm64 (mov_imm64 code4 rax Numbers.sys_write) rdi 1
  let write_buf_patch_at = length code5 + 2
  let code6 = mov_imm64 (mov_imm64 code5 rsi 0) rdx 1 ++ (0xcd ∷ 0x80 ∷ [])
  let jmp_opcode_at = length code6
  let code7 = code6 ++ (0xeb ∷ 0x00 ∷ [])
  back' ← rel8 read_loop (length code7)
  code8 ← patch code7 (jmp_opcode_at + 1) (back' ∷ [])
  let buf_addr = page_addr + length code8
  code9 ← patch code8 read_buf_patch_at (to_le_bytes 8 buf_addr)
  code10 ← patch code9 write_buf_patch_at (to_le_bytes 8 buf_addr)
  ok (code10 ++ (0 ∷ []))

-- The fixed header.
unfoldable pub elf_header : ℕ → List ℕ
unfolding to_le_bytes
elf_header load_addr =
    (0x7f ∷ b'E' ∷ b'L' ∷ b'F' ∷ [])
    ++ (2 ∷ 1 ∷ 1 ∷ 0 ∷ [])
    ++ (0 ∷ 0 ∷ 0 ∷ 0 ∷ 0 ∷ 0 ∷ 0 ∷ 0 ∷ [])
    ++ to_le_bytes 2 2
    ++ to_le_bytes 2 0x3e
    ++ to_le_bytes 4 1
    ++ to_le_bytes 8 load_addr
    ++ to_le_bytes 8 64
    ++ to_le_bytes 8 0
    ++ to_le_bytes 4 0
    ++ to_le_bytes 2 64
    ++ to_le_bytes 2 56
    ++ to_le_bytes 2 1
    ++ to_le_bytes 2 0
    ++ to_le_bytes 2 0
    ++ to_le_bytes 2 0

-- The program header: one PT_LOAD segment, for a payload of that length.
unfoldable pub program_header : ℕ → ℕ → List ℕ
unfolding to_le_bytes
program_header load_addr payload_len =
    to_le_bytes 4 1
    ++ to_le_bytes 4 7
    ++ to_le_bytes 8 120
    ++ to_le_bytes 8 load_addr
    ++ to_le_bytes 8 load_addr
    ++ to_le_bytes 8 payload_len
    ++ to_le_bytes 8 payload_len
    ++ to_le_bytes 8 4096

unfoldable pub build_test_elf : ℕ → Outcome (List ℕ)
unfolding build_echo_shellcode elf_header program_header
build_test_elf load_addr = do
  payload ← build_echo_shellcode load_addr
  let elf = elf_header load_addr
  assert (length elf == 64)
  let elf' = elf ++ program_header load_addr (length payload)
  assert (length elf' == 120)
  ok (elf' ++ payload)
