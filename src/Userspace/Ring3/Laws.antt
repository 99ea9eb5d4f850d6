-- ===== src/Userspace/Ring3/Laws.antt =====
-- userspace.rs: the processor behind `enter_ring3`.
use velora_os.Base.{
  ℕ, ◌+◌, ◌-◌, ◌*◌, ◌≤◌, ◌<◌, ◌≡◌, refl, ap, ◌∙◌, List, [], ◌∷◌, arith, length, get_or, u64_mod,
}
use velora_os.Syscall.Entry.{Cpu, push_each, at_rsp}
use velora_os.Syscall.Entry.Laws.{push_each-Pushed}
use velora_os.Userspace.Ring3.{Selectors, RingCpu, enter_ring3}

-- `push` keeps the other registers.
push_each-registers : (vs : List ℕ) (m : Cpu) → (push_each vs m).registers ≡ m.registers
unfolding push_each
push_each-registers [] m = refl
push_each-registers (v ∷ vs) m = push_each-registers vs _

-- The word at `k` bytes above the new top.
pushed_word :
    (vs : List ℕ) (m : Cpu) (i k : ℕ)
    → 8 * length vs ≤ m.rsp
    → m.rsp < u64_mod
    → i < length vs
    → k + 8 * (i + 1) ≡ 8 * length vs
    → at_rsp (push_each vs m) k ≡ get_or vs i 0
pushed_word vs m i k lo hi lt at_ =
    let (rsp, slots, above) = push_each-Pushed vs m lo hi in
    ap (push_each vs m).words {y = m.rsp - 8 * (i + 1)} (omega arith) ∙ slots i lt

-- `enter_ring3`, on a stack with room for five words: the processor runs the given entry on the given
-- stack with the selectors of ring 3 in every segment register and interrupts enabled, RDI and RSI hold
-- the arguments, and nothing at or above the kernel's stack pointer has changed.
pub enter_ring3-enters :
    (g : Selectors) (entry stack_top args_ptr args_len : ℕ) (m : RingCpu)
    → 40 ≤ m.cpu.rsp
    → m.cpu.rsp < u64_mod
    → let m' = enter_ring3 g entry stack_top args_ptr args_len m in
      (m'.rip ≡ entry)
      × (m'.cpu.rsp ≡ stack_top)
      × (m'.cs ≡ g.code_selector)
      × (m'.ss ≡ g.data_selector)
      × (m'.ds ≡ g.data_selector)
      × (m'.es ≡ g.data_selector)
      × (m'.fs ≡ g.data_selector)
      × (m'.gs ≡ g.data_selector)
      × (m'.rflags ≡ 0x202)
      × (m'.cpu.registers ≡ record m.cpu.registers { rdi = args_ptr; rsi = args_len })
      × ((a : ℕ) → m.cpu.rsp ≤ a → m'.cpu.words a ≡ m.cpu.words a)
unfolding enter_ring3
enter_ring3-enters g entry stack_top args_ptr args_len m lo hi =
    let vs : List ℕ = g.data_selector ∷ stack_top ∷ 0x202 ∷ g.code_selector ∷ entry ∷ [] in
    let start : Cpu = record m.cpu {
      registers = record m.cpu.registers { rdi = args_ptr; rsi = args_len };
    } in
    let (rsp, slots, above) = push_each-Pushed vs start (omega arith) hi in
    let word : (i k : ℕ)
        → i < 5
        → k + 8 * (i + 1) ≡ 40
        → at_rsp (push_each vs start) k ≡ get_or vs i 0 =
      λ i k. pushed_word vs start i k (omega arith) hi in
    (
      word 4 0 (omega arith) refl,
      word 1 24 (omega arith) refl,
      word 3 8 (omega arith) refl,
      word 0 32 (omega arith) refl,
      refl,
      refl,
      refl,
      refl,
      word 2 16 (omega arith) refl,
      push_each-registers vs start,
      above,
    )
