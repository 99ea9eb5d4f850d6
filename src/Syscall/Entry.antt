-- ===== src/Syscall/Entry.antt =====
-- syscall.rs: `entry`, instruction by instruction up to the `iretq`.
pub mod Laws
use velora_os.Base.{
  ℕ, ◌+◌, ◌-◌, ◌*◌, ◌%◌, ◌^◌, List, [], ◌∷◌, ◌==◌, if◌then◌else◌, bit_and, u64_mod,
}

-- The general-purpose registers other than RSP.
pub record Registers : Type 0 where
  pub rax : ℕ
  pub rbx : ℕ
  pub rcx : ℕ
  pub rdx : ℕ
  pub rsi : ℕ
  pub rdi : ℕ
  pub rbp : ℕ
  pub r8 : ℕ
  pub r9 : ℕ
  pub r10 : ℕ
  pub r11 : ℕ
  pub r12 : ℕ
  pub r13 : ℕ
  pub r14 : ℕ
  pub r15 : ℕ

-- With RSP, and memory as 8-byte words.
pub record Cpu : Type 0 where
  pub registers : Registers
  pub rsp : ℕ
  pub words : ℕ → ℕ

abbrev pub store : (ℕ → ℕ) → ℕ → ℕ → ℕ → ℕ
store words a v b = if a == b then v else words b

-- One `push` for each value, in order.
unfoldable pub push_each : List ℕ → Cpu → Cpu
push_each [] m = m
push_each (v ∷ vs) m =
    let top = (m.rsp + (u64_mod - 8)) % u64_mod in
    push_each vs (record m { rsp = top; words = store m.words top v })

-- `[rsp + k]`
abbrev pub at_rsp : Cpu → ℕ → ℕ
at_rsp m k = m.words ((m.rsp + k) % u64_mod)

-- The order of the pushes.
abbrev pub in_order : Registers → List ℕ
in_order r =
    r.rax ∷ r.rbx ∷ r.rcx ∷ r.rdx ∷ r.rsi ∷ r.rdi ∷ r.rbp ∷ r.r8 ∷ r.r9 ∷ r.r10 ∷ r.r11 ∷ r.r12
    ∷ r.r13 ∷ r.r14 ∷ r.r15 ∷ []

-- The five moves, `mov r15, rsp`, and `and rsp, -16`.
unfoldable pub set_up_call : Cpu → Cpu
set_up_call m = record m {
  registers = record m.registers {
    rdi = at_rsp m 112;
    rsi = at_rsp m 72;
    rdx = at_rsp m 80;
    rcx = at_rsp m 88;
    r8 = at_rsp m 96;
    r15 = m.rsp;
  };
  rsp = bit_and m.rsp (u64_mod - 16);
}

-- The fifteen pops: each takes the word that RSP then points at.
unfoldable pub pop_each : Cpu → Cpu
pop_each m = record {
  registers = record {
    r15 = at_rsp m 0;
    r14 = at_rsp m 8;
    r13 = at_rsp m 16;
    r12 = at_rsp m 24;
    r11 = at_rsp m 32;
    r10 = at_rsp m 40;
    r9 = at_rsp m 48;
    r8 = at_rsp m 56;
    rbp = at_rsp m 64;
    rdi = at_rsp m 72;
    rsi = at_rsp m 80;
    rdx = at_rsp m 88;
    rcx = at_rsp m 96;
    rbx = at_rsp m 104;
    rax = at_rsp m 112;
  };
  rsp = (m.rsp + 120) % u64_mod;
  words = m.words;
}

-- `call` is what the compiled `dispatch` does to the machine.
unfoldable pub entry : (Cpu → Cpu) → Cpu → Cpu
unfolding push_each set_up_call pop_each
entry call m =
    let done = call (set_up_call (push_each (in_order m.registers) m)) in
    let restored = record done { rsp = done.registers.r15 } in
    pop_each (record restored {
      words = store restored.words ((restored.rsp + 112) % u64_mod) restored.registers.rax;
    })
