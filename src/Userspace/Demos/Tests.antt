-- ===== src/Userspace/Demos/Tests.antt =====
-- The programs at a concrete page.
use velora_os.Base.{ℕ, ◌+◌, ◌≡◌, refl, List, Outcome, ok, panic, stuck, Option, some, none, length}
use velora_os.Elf.Loader.{slice}
use velora_os.Userspace.{to_le_bytes}
use velora_os.Userspace.Demos.{
  build_open_read_shellcode, build_bad_pointer_shellcode, build_spawn_wait_shellcode,
  open_read_demo_path, spawn_wait_child_path,
}

abbrev part : ℕ → ℕ → Outcome (List ℕ) → Option (List ℕ)
part first last panic = none
part first last stuck = none
part first last (ok code) = slice code first last

open_read_path : part 114 123 (build_open_read_shellcode 0x700000000000) ≡ some open_read_demo_path
unfolding build_open_read_shellcode slice
open_read_path = refl

bad_pointer_length : length build_bad_pointer_shellcode ≡ 42
unfolding build_bad_pointer_shellcode
bad_pointer_length = refl

spawn_wait_path :
    part 121 130 (build_spawn_wait_shellcode 0x700000000000) ≡ some spawn_wait_child_path
unfolding build_spawn_wait_shellcode slice
spawn_wait_path = refl

-- The address that `mov rdi` loads is that of the path.
spawn_wait_path_ptr :
    part 12 20 (build_spawn_wait_shellcode 0x700000000000)
    ≡ some (to_le_bytes 8 (0x700000000000 + 121))
unfolding build_spawn_wait_shellcode slice to_le_bytes
spawn_wait_path_ptr = refl
