-- ===== src/Syscall/Entry/Laws.antt =====
-- A system call gives every register back but RAX.
use velora_os.Base.{
  ℕ, zero, suc, ◌+◌, ◌-◌, ◌*◌, ◌%◌, ◌<◌, ◌≤◌, ◌≡◌, refl, ap, ◌∙◌, List, [], ◌∷◌, arith, u64_mod,
  length, get_or,
}
use velora_os.Syscall.Entry.{Cpu, store, push_each, in_order, set_up_call}

store_self : (f : ℕ → ℕ) (a b v : ℕ) → a ≡ b → store f a v b ≡ v
store_self f a b v e = ground arith

store_below : (f : ℕ → ℕ) (a b v : ℕ) → a < b → store f a v b ≡ f b
store_below f a b v h = ground arith

-- The values lie below the old top of the stack, the first the highest.
abbrev pub Pushed : List ℕ → Cpu → Cpu → Type 0
Pushed vs m m' =
    (m'.rsp ≡ m.rsp - 8 * length vs)
    × ((i : ℕ) → i < length vs → m'.words (m.rsp - 8 * (i + 1)) ≡ get_or vs i 0)
    × ((a : ℕ) → m.rsp ≤ a → m'.words a ≡ m.words a)

pub push_each-Pushed :
    (vs : List ℕ) (m : Cpu) → 8 * length vs ≤ m.rsp → m.rsp < u64_mod → Pushed vs m (push_each vs m)
unfolding push_each
push_each-Pushed [] m lo hi = (omega arith, λ i lt. elim lt [ ], λ a le. refl)
push_each-Pushed (v ∷ vs) m lo hi =
    let top : ℕ = (m.rsp + (u64_mod - 8)) % u64_mod in
    let below : top ≡ m.rsp - 8 = omega arith in
    let m' : Cpu = record m { rsp = top; words = store m.words top v } in
    let (rsp, slots, above) = push_each-Pushed vs m' (omega arith) (omega arith) in
    (
      omega arith,
      λ i lt. at_index top below slots above i lt,
      λ a le. above a (omega arith) ∙ store_below m.words top a v (omega arith),
    )
  where
    at_index :
        (top : ℕ)
        → top ≡ m.rsp - 8
        → ((i : ℕ)
            → i < length vs
            → (push_each vs (record m { rsp = top; words = store m.words top v })).words
                (top - 8 * (i + 1))
              ≡ get_or vs i 0)
        → ((a : ℕ)
            → top ≤ a
            → (push_each vs (record m { rsp = top; words = store m.words top v })).words a
              ≡ store m.words top v a)
        → (i : ℕ) → i < suc (length vs)
        → (push_each vs (record m { rsp = top; words = store m.words top v })).words
            (m.rsp - 8 * (i + 1))
          ≡ get_or (v ∷ vs) i 0
    at_index top below slots above zero lt =
        above (m.rsp - 8 * (0 + 1)) (omega arith)
        ∙ store_self m.words top (m.rsp - 8 * (0 + 1)) v (omega arith)
    at_index top below slots above (suc i) lt =
        ap (push_each vs (record m { rsp = top; words = store m.words top v })).words (omega arith)
        ∙ slots i (omega arith)

-- What the System V ABI promises of the compiled `dispatch`: it returns its result in RAX, keeps R15 and
-- RSP, and does not write the 17 words from RSP up, its caller's frame.
pub record IsCompiled (dispatch : ℕ → ℕ → ℕ → ℕ → ℕ → ℕ) (call : Cpu → Cpu) : Type 0 where
  pub result :
      (m : Cpu)
      → (call m).registers.rax
        ≡ dispatch m.registers.rdi m.registers.rsi m.registers.rdx m.registers.rcx m.registers.r8
  pub keeps_r15 : (m : Cpu) → (call m).registers.r15 ≡ m.registers.r15
  pub keeps_frame : (m : Cpu) (a : ℕ) → m.rsp ≤ a → a < m.rsp + 136 → (call m).words a ≡ m.words a

module _ (dispatch : ℕ → ℕ → ℕ → ℕ → ℕ → ℕ) (call : Cpu → Cpu) (c : IsCompiled dispatch call) where
  -- The machine at the `call`.
  abbrev at_call : Cpu → Cpu
  at_call m = set_up_call (push_each (in_order m.registers) m)
