-- ===== src/Userspace/Demos.antt =====
-- userspace.rs: the machine code of the demos that open a file, spawn a child and pass a bad pointer.
mod Tests
use velora_os.Base.{ℕ, ◌+◌, List, [], ◌∷◌, ◌++◌, Outcome, ok, ◌>>=◌, length, replicate}
use velora_os.Syscall.Numbers
use velora_os.Syscall.World.{codes}
use velora_os.Userspace.{to_le_bytes, mov_imm64, mov_r64_r64, patch, rax, rdx, rsi, rdi}

abbrev rcx : ℕ
rcx = 1

-- `int 0x80`
abbrev int80 : List ℕ
int80 = 0xcd ∷ 0x80 ∷ []

abbrev pub open_read_demo_path : List ℕ
open_read_demo_path = codes "HELLO.TXT"

abbrev open_read_demo_read_len : ℕ
open_read_demo_read_len = 64

abbrev bad_pointer : ℕ
bad_pointer = 0xdeadbeef

abbrev pub spawn_wait_child_path : List ℕ
spawn_wait_child_path = codes "GREET.ELF"

abbrev spawn_wait_done_msg : List ℕ
spawn_wait_done_msg = codes "spawn/wait demo: child finished, parent resumed" ++ (10 ∷ [])

unfoldable pub build_open_read_shellcode : ℕ → Outcome (List ℕ)
unfolding mov_imm64 mov_r64_r64 patch
build_open_read_shellcode page_addr = do
  let code1 = mov_imm64 [] rax Numbers.sys_open
  let path_ptr_patch_at = length code1 + 2
  let code2 = mov_imm64 (mov_imm64 code1 rdi 0) rsi (length open_read_demo_path) ++ int80
  let code3 = mov_imm64 (mov_r64_r64 code2 rdi rax) rax Numbers.sys_read
  let read_buf_patch_at = length code3 + 2
  let code4 = mov_imm64 (mov_imm64 code3 rsi 0) rdx open_read_demo_read_len ++ int80
  let code5 = mov_imm64 (mov_imm64 (mov_r64_r64 code4 rdx rax) rax Numbers.sys_write) rdi 1
  let write_buf_patch_at = length code5 + 2
  let code6 = mov_imm64 (mov_imm64 code5 rsi 0 ++ int80) rax Numbers.sys_exit ++ int80
  code7 ← patch code6 path_ptr_patch_at (to_le_bytes 8 (page_addr + length code6))
  let code8 = code7 ++ open_read_demo_path
  let buf_addr = page_addr + length code8
  code9 ← patch code8 read_buf_patch_at (to_le_bytes 8 buf_addr)
  code10 ← patch code9 write_buf_patch_at (to_le_bytes 8 buf_addr)
  ok (code10 ++ replicate open_read_demo_read_len 0)

unfoldable pub build_bad_pointer_shellcode : List ℕ
unfolding mov_imm64
build_bad_pointer_shellcode =
    mov_imm64 (mov_imm64 (mov_imm64 (mov_imm64 [] rax Numbers.sys_write) rdi 1) rsi bad_pointer) rdx
      10
    ++ int80

unfoldable pub build_spawn_wait_shellcode : ℕ → Outcome (List ℕ)
unfolding mov_imm64 mov_r64_r64 patch
build_spawn_wait_shellcode page_addr = do
  let code1 = mov_imm64 [] rax Numbers.sys_spawn
  let path_ptr_patch_at = length code1 + 2
  let code2 = mov_imm64 (mov_imm64 code1 rdi 0) rsi (length spawn_wait_child_path)
  let code3 = mov_imm64 (mov_imm64 code2 rdx 0) rcx 0 ++ int80
  let code4 = mov_imm64 (mov_r64_r64 code3 rdi rax) rax Numbers.sys_wait ++ int80
  let code5 = mov_imm64 (mov_imm64 code4 rax Numbers.sys_write) rdi 1
  let done_msg_patch_at = length code5 + 2
  let code6 = mov_imm64 (mov_imm64 code5 rsi 0) rdx (length spawn_wait_done_msg) ++ int80
  let code7 = mov_imm64 code6 rax Numbers.sys_exit ++ int80
  code8 ← patch code7 path_ptr_patch_at (to_le_bytes 8 (page_addr + length code7))
  let code9 = code8 ++ spawn_wait_child_path
  code10 ← patch code9 done_msg_patch_at (to_le_bytes 8 (page_addr + length code9))
  ok (code10 ++ spawn_wait_done_msg)
