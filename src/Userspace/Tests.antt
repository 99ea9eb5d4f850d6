-- ===== src/Userspace/Tests.antt =====
-- The demonstrations' page on a table in one frame, and the way into ring 3.
use velora_os.Memory.Frames.Laws.{pool}
use velora_os.Elf.Contents.{All}
use velora_os.Base.{
  ◌≢◌, ◌==◌, if◌then◌else◌, Bool, false, [], ◌∷◌, ℕ, ◌-◌, ◌≤◌, length, ◌≡◌, refl, List, ok, arith,
}
use velora_os.Userspace.{build_echo_shellcode}
use velora_os.Memory.Tests.{four_levels}
use velora_os.Elf.Segments.{Space}
use velora_os.Elf.Tests.{one_table, empty_space}
use velora_os.Userspace.Ring3.{Selectors, RingCpu, enter_ring3}
use velora_os.Userspace.Ring3.Laws.{enter_ring3-enters}
use velora_os.Userspace.Pages.{user_page_addr, map_demo_page}
use velora_os.Userspace.Pages.Laws.{Holds, map_demo_page-Holds}

abbrev is_first : ℕ → List ℕ → Bool
is_first g [] = false
is_first g (f ∷ fs) = f == g

is_first-All : (g : ℕ) (fs : List ℕ) → All (λ x. x ≢ g) fs → is_first g fs ≡ false
is_first-All g [] h = refl
is_first-All g (f ∷ fs) h = let apart : f ≢ g = h.0 in ground arith

-- The table in frame 0 gets a byte, and the first frame of the allocator is zeroed.
abbrev first_zeroed : ℕ → ℕ → Bool → Space → ℕ → ℕ → ℕ
first_zeroed page frame writable s g j =
    if g == 0 then 7 else if is_first g (pool four_levels s.allocator) then 0 else s.frames g j

-- Only frame 0 holds a page table.
first_zeroed-tables :
    (page frame : ℕ) (writable : Bool) (s : Space) (g j : ℕ)
    → ¬ (g ≡ 0)
    → All (λ x. x ≢ g) (pool four_levels s.allocator)
    → first_zeroed page frame writable s g j ≡ s.frames g j
first_zeroed-tables page frame writable s g j no_table spare =
    let not_first : is_first g (pool four_levels s.allocator) ≡ false =
      is_first-All g (pool four_levels s.allocator) spare in
    ground arith

map_demo_page-Holds_example :
    (s' : Space) × (code : List ℕ) × (map_demo_page four_levels one_table.map_to first_zeroed
        empty_space
      ≡ ok s')
    × (build_echo_shellcode user_page_addr ≡ ok code)
    × (length code ≤ 4096 - 16)
    × Holds four_levels one_table first_zeroed
        (λ t g. g ≡ 0)
        first_zeroed-tables
        empty_space
        s'
        user_page_addr
        code
map_demo_page-Holds_example =
    map_demo_page-Holds four_levels one_table first_zeroed (λ t g. g ≡ 0) first_zeroed-tables
      empty_space (record { cursor = λ r e. absurd cc }) (omega arith) refl

-- In the kernel, with an empty stack below 0x9000.
abbrev kernel_cpu : RingCpu
kernel_cpu = record {
  cpu = record {
    registers = record {
      rax = 1;
      rbx = 2;
      rcx = 3;
      rdx = 4;
      rsi = 5;
      rdi = 6;
      rbp = 7;
      r8 = 8;
      r9 = 9;
      r10 = 10;
      r11 = 11;
      r12 = 12;
      r13 = 13;
      r14 = 14;
      r15 = 15;
    };
    rsp = 0x9000;
    words = λ a. a;
  };
  rip = 0x200000;
  cs = 8;
  ss = 0;
  rflags = 2;
  ds = 0;
  es = 0;
  fs = 0;
  gs = 0;
}

abbrev ring3_selectors : Selectors
ring3_selectors = record { code_selector = 0x23; data_selector = 0x2B }

enter_ring3-enters_example :
    let m' = enter_ring3 ring3_selectors 0x400000 0x800000 0x700000 16 kernel_cpu in
    (m'.rip ≡ 0x400000)
    × (m'.cpu.rsp ≡ 0x800000)
    × (m'.cs ≡ 0x23)
    × (m'.ss ≡ 0x2B)
    × (m'.ds ≡ 0x2B)
    × (m'.es ≡ 0x2B)
    × (m'.fs ≡ 0x2B)
    × (m'.gs ≡ 0x2B)
    × (m'.rflags ≡ 0x202)
    × (m'.cpu.registers ≡ record kernel_cpu.cpu.registers { rdi = 0x700000; rsi = 16 })
    × ((a : ℕ) → 0x9000 ≤ a → m'.cpu.words a ≡ a)
enter_ring3-enters_example =
    enter_ring3-enters ring3_selectors 0x400000 0x800000 0x700000 16 kernel_cpu (omega arith)
      (omega arith)
