-- ===== src/Scheduler/Context/Laws.antt =====
-- A switch away and back resumes a thread where it was; a new thread starts at the trampoline.
use velora_os.Base.{ℕ, ◌+◌, ◌-◌, ◌%◌, ◌<◌, ◌≤◌, ◌≡◌, ◌≢◌, refl, ap, ◌∙◌, ◌⊎◌, arith, u64_mod}
use velora_os.Scheduler.State.{stack_size}
use velora_os.Scheduler.Context.{
  Machine, push, save, restore, switch_to, build_initial_stack, store,
}

-- The seven words of a switched-away frame at `sp`, for the registers of `m`, with the return address.
pub record IsFrame (words : ℕ → ℕ) (sp : ℕ) (m : Machine) (return_address : ℕ) : Type 0 where
  pub at_r15 : words sp ≡ m.r15
  pub at_r14 : words (sp + 8) ≡ m.r14
  pub at_r13 : words (sp + 16) ≡ m.r13
  pub at_r12 : words (sp + 24) ≡ m.r12
  pub at_rbx : words (sp + 32) ≡ m.rbx
  pub at_rbp : words (sp + 40) ≡ m.rbp
  pub at_ret : words (sp + 48) ≡ return_address

at : (f : ℕ → ℕ) {a b v : ℕ} → a ≡ b → f b ≡ v → f a ≡ v
at f e h = ap f e ∙ h

push-rsp : (v : ℕ) (m : Machine) → 8 ≤ m.rsp → m.rsp < u64_mod → (push v m).rsp ≡ m.rsp - 8
unfolding push
push-rsp v m lo hi = omega arith

store_self : (f : ℕ → ℕ) (a b v : ℕ) → a ≡ b → store f a v b ≡ v
store_self f a b v e = ground arith

store_ne : (f : ℕ → ℕ) (a b v : ℕ) → a ≢ b → store f a v b ≡ f b
store_ne f a b v h = ground arith

-- `restore` reads a frame back.
pub restore-IsFrame :
    (m0 m : Machine) (ra : ℕ)
    → m0.rsp + 56 < u64_mod
    → IsFrame m0.words m0.rsp m ra
    → let r = restore m0 in
      (r.r15 ≡ m.r15)
      × (r.r14 ≡ m.r14)
      × (r.r13 ≡ m.r13)
      × (r.r12 ≡ m.r12)
      × (r.rbx ≡ m.rbx)
      × (r.rbp ≡ m.rbp)
      × (r.rip ≡ ra)
      × (r.rsp ≡ m0.rsp + 56)
      × (r.cr3 ≡ m0.cr3)
unfolding restore
restore-IsFrame m0 m ra h f = (
  f.at_r15,
  at m0.words (omega arith) f.at_r14,
  at m0.words (omega arith) f.at_r13,
  at m0.words (omega arith) f.at_r12,
  at m0.words (omega arith) f.at_rbx,
  at m0.words (omega arith) f.at_rbp,
  at m0.words (omega arith) f.at_ret,
  omega arith,
  refl,
)

-- `save` builds a frame below the return address, and writes nothing else.
pub save-IsFrame :
    (m : Machine)
    → 48 ≤ m.rsp
    → m.rsp < u64_mod
    → ((save m).rsp ≡ m.rsp - 48)
      × IsFrame (save m).words (m.rsp - 48) m (m.words m.rsp)
      × ((a : ℕ) → (a < m.rsp - 48) ⊎ (m.rsp ≤ a) → (save m).words a ≡ m.words a)
unfolding save
save-IsFrame m lo hi = (
  omega arith,
  record {
    at_r15 = ground arith;
    at_r14 = ground arith;
    at_r13 = ground arith;
    at_r12 = ground arith;
    at_rbx = ground arith;
    at_rbp = ground arith;
    at_ret = ground arith;
  },
  λ a h. ground arith,
)

-- What a thread finds when it runs again: its registers, past the return, in the address space asked for.
pub record Resumed (m r : Machine) (page_table : ℕ) : Type 0 where
  pub back : r.rip ≡ m.words m.rsp
  pub stack : r.rsp ≡ m.rsp + 8
  pub space : r.cr3 ≡ page_table
  pub same_rbp : r.rbp ≡ m.rbp
  pub same_rbx : r.rbx ≡ m.rbx
  pub same_r12 : r.r12 ≡ m.r12
  pub same_r13 : r.r13 ≡ m.r13
  pub same_r14 : r.r14 ≡ m.r14
  pub same_r15 : r.r15 ≡ m.r15

-- A switch from any machine whose own stack lies off the frame at `sp` reads that frame.
switch_to-IsFrame :
    (m' m : Machine) (sp page_table ra : ℕ)
    → 48 ≤ m'.rsp
    → m'.rsp < u64_mod
    → sp + 56 < u64_mod
    → (m'.rsp ≤ sp) ⊎ (sp + 96 < m'.rsp)
    → IsFrame m'.words sp m ra
    → let r = (switch_to sp page_table m').1 in
      (r.r15 ≡ m.r15)
      × (r.r14 ≡ m.r14)
      × (r.r13 ≡ m.r13)
      × (r.r12 ≡ m.r12)
      × (r.rbx ≡ m.rbx)
      × (r.rbp ≡ m.rbp)
      × (r.rip ≡ ra)
      × (r.rsp ≡ sp + 56)
      × (r.cr3 ≡ page_table)
unfolding switch_to
switch_to-IsFrame m' m sp page_table ra lo hi h off f =
    let (_, _, keeps) = save-IsFrame m' lo hi in
    restore-IsFrame (record (save m') { cr3 = page_table; rsp = sp }) m ra h
      (record {
        at_r15 = keeps sp (omega arith) ∙ f.at_r15;
        at_r14 = keeps (sp + 8) (omega arith) ∙ f.at_r14;
        at_r13 = keeps (sp + 16) (omega arith) ∙ f.at_r13;
        at_r12 = keeps (sp + 24) (omega arith) ∙ f.at_r12;
        at_rbx = keeps (sp + 32) (omega arith) ∙ f.at_rbx;
        at_rbp = keeps (sp + 40) (omega arith) ∙ f.at_rbp;
        at_ret = keeps (sp + 48) (omega arith) ∙ f.at_ret;
      })

-- The words at and above a switched-away frame, up to its return address, are the same.
abbrev pub FrameKept : (ℕ → ℕ) → (ℕ → ℕ) → ℕ → Type 0
FrameKept f g sp = (a : ℕ) → sp ≤ a → a ≤ sp + 48 → g a ≡ f a

IsFrame-kept :
    (f g : ℕ → ℕ) (m : Machine) (ra : ℕ) {sp sp' : ℕ}
    → sp ≡ sp'
    → IsFrame f sp' m ra
    → FrameKept f g sp
    → IsFrame g sp m ra
IsFrame-kept f g m ra {sp} {sp'} e h kept = record {
  at_r15 = kept sp (omega arith) (omega arith) ∙ at f e h.at_r15;
  at_r14 = kept (sp + 8) (omega arith) (omega arith) ∙ at f (omega arith) h.at_r14;
  at_r13 = kept (sp + 16) (omega arith) (omega arith) ∙ at f (omega arith) h.at_r13;
  at_r12 = kept (sp + 24) (omega arith) (omega arith) ∙ at f (omega arith) h.at_r12;
  at_rbx = kept (sp + 32) (omega arith) (omega arith) ∙ at f (omega arith) h.at_rbx;
  at_rbp = kept (sp + 40) (omega arith) (omega arith) ∙ at f (omega arith) h.at_rbp;
  at_ret = kept (sp + 48) (omega arith) (omega arith) ∙ at f (omega arith) h.at_ret;
}

-- A thread that switched away, and that is switched back to with its saved stack pointer while
-- its frame is untouched, resumes behind its call with its callee-saved registers, in the address
-- space asked for, whatever ran between. Both stacks have room for a frame and lie apart.
pub switch_to-Resumed :
    (m m' : Machine) (new_stack elsewhere page_table : ℕ)
    → 48 ≤ m.rsp
    → m.rsp + 8 < u64_mod
    → 48 ≤ m'.rsp
    → m'.rsp < u64_mod
    → (m'.rsp + 48 ≤ m.rsp) ⊎ (m.rsp + 48 < m'.rsp)
    → let (saved, away) = switch_to new_stack elsewhere m in
      FrameKept away.words m'.words saved → Resumed m (switch_to saved page_table m').1 page_table
unfolding switch_to
switch_to-Resumed m m' new_stack elsewhere page_table lo hi lo' hi' off kept =
    let (at_sp, f, _) = save-IsFrame m lo (omega arith) in
    let frame : IsFrame m'.words (save m).rsp m (m.words m.rsp) =
      IsFrame-kept (save m).words m'.words m (m.words m.rsp) at_sp f kept in
    let (e15, e14, e13, e12, ebx, ebp, eip, esp, e3) =
      switch_to-IsFrame m' m (save m).rsp page_table (m.words m.rsp) lo' hi' (omega arith)
        (omega arith) frame in
    record {
      back = eip;
      stack = omega arith;
      space = e3;
      same_rbp = ebp;
      same_rbx = ebx;
      same_r12 = e12;
      same_r13 = e13;
      same_r14 = e14;
      same_r15 = e15;
    }

-- The registers of a thread that has never run.
abbrev pub new_registers : ℕ → Machine
new_registers trampoline = record {
  rsp = 0;
  rbp = 0;
  rbx = 0;
  r12 = 0;
  r13 = 0;
  r14 = 0;
  r15 = 0;
  rip = trampoline;
  cr3 = 0;
  words = λ _. 0;
}

build-IsFrame :
    (trampoline base : ℕ) (words : ℕ → ℕ)
    → let (built, sp) = build_initial_stack trampoline base words in
      (sp + 64 ≡ base + stack_size) × IsFrame built sp (new_registers trampoline) trampoline
unfolding build_initial_stack
build-IsFrame trampoline base words = (
  omega arith,
  record {
    at_r15 = ground arith;
    at_r14 = ground arith;
    at_r13 = ground arith;
    at_r12 = ground arith;
    at_rbx = ground arith;
    at_rbp = ground arith;
    at_ret = ground arith;
  },
)

-- The first switch into a thread whose stack `build_initial_stack` prepared on a 16-aligned base,
-- and nothing has touched since, enters the trampoline with clear callee-saved registers, and
-- with the stack alignment of a called function.
pub switch_to-new_thread :
    (m : Machine) (trampoline base page_table : ℕ) (words : ℕ → ℕ)
    → base % 16 ≡ 0
    → base + stack_size < u64_mod
    → 48 ≤ m.rsp
    → m.rsp < u64_mod
    → (m.rsp ≤ base) ⊎ (base + stack_size + 48 ≤ m.rsp)
    → let (built, sp) = build_initial_stack trampoline base words in
      FrameKept built m.words sp
      → let r = (switch_to sp page_table m).1 in
        (r.rip ≡ trampoline)
        × (r.rsp % 16 ≡ 8)
        × (r.rsp ≡ base + stack_size - 8)
        × (r.cr3 ≡ page_table)
        × (r.rbp ≡ 0)
        × (r.rbx ≡ 0)
        × (r.r12 ≡ 0)
        × (r.r13 ≡ 0)
        × (r.r14 ≡ 0)
        × (r.r15 ≡ 0)
switch_to-new_thread m trampoline base page_table words al hi lo hi' off kept =
    let (at_sp, f) = build-IsFrame trampoline base words in
    let built = (build_initial_stack trampoline base words).0 in
    let sp = (build_initial_stack trampoline base words).1 in
    let frame = IsFrame-kept built m.words (new_registers trampoline) trampoline refl f kept in
    let (e15, e14, e13, e12, ebx, ebp, eip, esp, e3) =
      switch_to-IsFrame m (new_registers trampoline) sp page_table trampoline lo hi' (omega arith)
        (omega arith) frame in
    (eip, omega (arith, esp), omega (arith, esp), e3, ebp, ebx, e12, e13, e14, e15)
