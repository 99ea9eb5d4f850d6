-- ===== src/Scheduler/Context.antt =====
-- context.rs: the register-context switch, instruction by instruction, and the frame that
-- `build_initial_stack` lays down for a thread that has never run.
pub mod Laws
use velora_os.Base.{ℕ, ◌+◌, ◌-◌, ◌*◌, ◌%◌, ◌^◌, List, [], ◌∷◌, ◌==◌, if◌then◌else◌, u64_mod}
use velora_os.Scheduler.State.{stack_size}

-- The registers that the switch touches, and memory as 8-byte words.
pub record Machine : Type 0 where
  pub rsp : ℕ
  pub rbp : ℕ
  pub rbx : ℕ
  pub r12 : ℕ
  pub r13 : ℕ
  pub r14 : ℕ
  pub r15 : ℕ
  pub rip : ℕ
  pub cr3 : ℕ
  pub words : ℕ → ℕ

abbrev pub store : (ℕ → ℕ) → ℕ → ℕ → ℕ → ℕ
store words a v b = if a == b then v else words b

unfoldable pub push : ℕ → Machine → Machine
push v m =
    let top = (m.rsp + (u64_mod - 8)) % u64_mod in
    record m { rsp = top; words = store m.words top v }

-- What `rsp` points at, and `rsp` past it.
abbrev pub top : Machine → ℕ
top m = m.words m.rsp

unfoldable pub drop_top : Machine → Machine
drop_top m = record m { rsp = (m.rsp + 8) % u64_mod }

-- The six pushes.
unfoldable pub save : Machine → Machine
unfolding push
save m = push m.r15 (push m.r14 (push m.r13 (push m.r12 (push m.rbx (push m.rbp m)))))

-- The six pops and the `ret`.
unfoldable pub restore : Machine → Machine
unfolding drop_top
restore m0 =
    let m1 = drop_top (record m0 { r15 = top m0 }) in
    let m2 = drop_top (record m1 { r14 = top m1 }) in
    let m3 = drop_top (record m2 { r13 = top m2 }) in
    let m4 = drop_top (record m3 { r12 = top m3 }) in
    let m5 = drop_top (record m4 { rbx = top m4 }) in
    let m6 = drop_top (record m5 { rbp = top m5 }) in drop_top (record m6 { rip = top m6 })

-- At entry `rsp` points at the return address. The number is what `mov [rdi], rsp` writes to
-- `old_stack_slot`.
unfoldable pub switch_to : ℕ → ℕ → Machine → ℕ × Machine
unfolding save restore
switch_to new_stack new_page_table m =
    let saved = save m in
    (saved.rsp, restore (record saved { cr3 = new_page_table; rsp = new_stack }))

-- `dst.sub(i).write(word)` for each word of the frame, from the highest address down.
unfoldable pub write_down : (ℕ → ℕ) → ℕ → List ℕ → ℕ → ℕ
write_down words dst [] = words
write_down words dst (w ∷ ws) = write_down (store words dst w) (dst - 8) ws

-- The new words, and the address of the `r15` slot.
unfoldable pub build_initial_stack : ℕ → ℕ → (ℕ → ℕ) → (ℕ → ℕ) × ℕ
unfolding write_down
build_initial_stack thread_trampoline stack_base words =
    let frame_top = stack_base + stack_size - 16 in
    let frame : List ℕ = thread_trampoline ∷ 0 ∷ 0 ∷ 0 ∷ 0 ∷ 0 ∷ 0 ∷ [] in
    (write_down words frame_top frame, frame_top - (7 - 1) * 8)
