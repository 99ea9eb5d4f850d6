-- ===== src/Userspace/Ring3.antt =====
-- userspace.rs: `enter_ring3`, the first entry of a thread into ring 3.
pub mod Laws
use velora_os.Base.{ℕ, ◌+◌, List, [], ◌∷◌}
use velora_os.Syscall.Entry.{Registers, Cpu, push_each, at_rsp}

-- `SegmentSelector`s of the GDT for ring 3, as numbers.
pub record Selectors : Type 0 where
  pub code_selector : ℕ
  pub data_selector : ℕ

-- The processor with the registers that `iretq` loads, and the data segments.
pub record RingCpu : Type 0 where
  pub cpu : Cpu
  pub rip : ℕ
  pub cs : ℕ
  pub ss : ℕ
  pub rflags : ℕ
  pub ds : ℕ
  pub es : ℕ
  pub fs : ℕ
  pub gs : ℕ

-- `set_reg` on the four data segments.
abbrev pub load_segments : ℕ → RingCpu → RingCpu
load_segments selector m = record m { ds = selector; es = selector; fs = selector; gs = selector }

-- RIP, CS, RFLAGS, RSP and SS from the top of the stack.
abbrev pub iretq : RingCpu → RingCpu
iretq m = record m {
  rip = at_rsp m.cpu 0;
  cs = at_rsp m.cpu 8;
  rflags = at_rsp m.cpu 16;
  cpu = record m.cpu { rsp = at_rsp m.cpu 24 };
  ss = at_rsp m.cpu 32;
}

-- The operands that the compiler puts into registers of its choice are the values themselves.
unfoldable pub enter_ring3 : Selectors → ℕ → ℕ → ℕ → ℕ → RingCpu → RingCpu
unfolding push_each
enter_ring3 user_selectors entry stack_top args_ptr args_len m =
    let loaded = load_segments user_selectors.data_selector m in
    let pushed =
      push_each
        (user_selectors.data_selector ∷ stack_top ∷ 0x202 ∷ user_selectors.code_selector ∷ entry
          ∷ [])
        (record m.cpu { registers = record m.cpu.registers { rdi = args_ptr; rsi = args_len } }) in
    iretq (record loaded { cpu = pushed })
