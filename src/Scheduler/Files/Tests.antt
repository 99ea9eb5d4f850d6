-- ===== src/Scheduler/Files/Tests.antt =====
-- Runs of the file operations and of the context switch on concrete values.
use velora_os.Base.{
  ℕ, zero, suc, ◌+◌, ◌-◌, ◌≡◌, ◌≤◌, ◌%◌, length, refl, inl, inr, [], ◌∷◌, none, some, ok, arith,
  take, drop,
}
use velora_os.Scheduler.State.{Thread, OpenFile, boot_thread, stack_size}
use velora_os.Scheduler.Files.{file_at}
use velora_os.Scheduler.Files.Laws.{IsValid, reads, reads-stream, sum}
use velora_os.Scheduler.Context.{Machine, switch_to, build_initial_stack}
use velora_os.Scheduler.Context.Laws.{Resumed, switch_to-Resumed, switch_to-new_thread}

abbrev greeting : OpenFile
greeting = record { bytes = 72 ∷ 105 ∷ 33 ∷ []; offset = 1 }

abbrev reader : Thread
reader = record boot_thread { open_files = none ∷ some greeting ∷ none ∷ none ∷ [] }

reader-IsValid : IsValid reader
reader-IsValid = record { slots = refl; within = in_slot }
  where
    in_slot : (i : ℕ) (f : OpenFile) → file_at reader i ≡ some f → f.offset ≤ length f.bytes
    in_slot zero f e = cc
    in_slot (suc zero) f e = let same : greeting ≡ f = cc in ground arith
    in_slot (suc (suc zero)) f e = cc
    in_slot (suc (suc (suc zero))) f e = cc
    in_slot (suc (suc (suc (suc i)))) f e = cc

reads-stream_example :
    (t' : Thread) × (reads 3 (1 ∷ 5 ∷ []) reader
      ≡ ok (take (sum (1 ∷ 5 ∷ [])) (drop 1 greeting.bytes), t'))
reads-stream_example = reads-stream 1 (1 ∷ 5 ∷ []) reader greeting reader-IsValid refl

-- A machine that runs with its stack at 4096.
abbrev machine : Machine
machine = record {
  rsp = 4096;
  rbp = 1;
  rbx = 2;
  r12 = 3;
  r13 = 4;
  r14 = 5;
  r15 = 6;
  rip = 0;
  cr3 = 0x1000;
  words = λ a. a + 1;
}

-- Another thread, on a stack at 8192, over the memory that the first one's switch left.
abbrev other_machine : Machine
other_machine = record machine { rsp = 8192; words = (switch_to 8000 0x2000 machine).1.words }

switch_to-Resumed_example :
    Resumed machine (switch_to (switch_to 8000 0x2000 machine).0 0x1000 other_machine).1 0x1000
switch_to-Resumed_example =
    switch_to-Resumed machine other_machine 8000 0x2000 0x1000 (omega arith) (omega arith)
      (omega arith) (omega arith) (inr (omega arith)) (λ a lo hi. refl)

-- A stack at 16384 for a trampoline at 64.
abbrev new_stack : (ℕ → ℕ) × ℕ
new_stack = build_initial_stack 64 16384 (λ _. 9)

abbrev starter : Machine
starter = record machine { words = new_stack.0 }

switch_to-new_thread_example :
    let r = (switch_to new_stack.1 0x3000 starter).1 in
    (r.rip ≡ 64)
    × (r.rsp % 16 ≡ 8)
    × (r.rsp ≡ 16384 + stack_size - 8)
    × (r.cr3 ≡ 0x3000)
    × (r.rbp ≡ 0)
    × (r.rbx ≡ 0)
    × (r.r12 ≡ 0)
    × (r.r13 ≡ 0)
    × (r.r14 ≡ 0)
    × (r.r15 ≡ 0)
switch_to-new_thread_example =
    switch_to-new_thread starter 64 16384 0x3000 (λ _. 9) refl (omega arith) (omega arith)
      (omega arith) (inl (omega arith)) (λ a lo hi. refl)
