-- ===== src/Syscall/Io/Files.antt =====
-- Opening a file and reading it through system calls: the path from the volume to the caller's buffer.
use velora_os.Base.{
  ℕ, zero, suc, ◌+◌, ◌^◌, ◌<◌, ◌≤◌, ◌≡◌, refl, ap, ◌∙◌, inl, inr, true, false, ◌||◌, List, [], ◌∷◌,
  Option, none, some, Outcome, ok, arith, leb, ltb, ◌==◌, min, if◌then◌else◌, length-take, take,
  drop, set,
}
use velora_os.Fs.Read.{read_file}
use velora_os.Memory.Walk.{user_range_ok}
use velora_os.Scheduler.State.{
  SchedulerState, Thread, OpenFile, thread_at, first_file_fd, max_open_files,
}
use velora_os.Scheduler.Core.{unwrap_or}
use velora_os.Scheduler.Files.{file_at, open_file, read_open_file}
use velora_os.Scheduler.Files.Laws.{
  IsValid, Opens, table_full, opens, open_file-Opens, read_open_file-ok, with_file, advance,
}
use velora_os.Syscall.World.{
  World, Platform, returned, Call, ◌>>=◌, return, lift, on_thread, with_current_thread,
  under_kernel_table,
}
use velora_os.Syscall.World.Laws.{>>=-returned, under_kernel_table-runs}
use velora_os.Syscall.Copy.{check_range, copy_from_user}
use velora_os.Syscall.Copy.Laws.{Usable, user_range_ok-Usable, check_range-true}
use velora_os.Syscall.Io.{u64_max, deliver, sys_read_file, sys_read, sys_open}
use velora_os.Syscall.Io.Laws.{Delivers, deliver-Delivers}
use Prim.Native.String.{String}

thread_at-set :
    (ts : List (Option Thread)) (i : ℕ) {t : Thread} (t' : Thread)
    → thread_at ts i ≡ some t
    → thread_at (set ts i (some t')) i ≡ some t'
unfolding thread_at
thread_at-set [] i t' e = absurd cc
thread_at-set (o ∷ ts) zero t' e = refl
thread_at-set (o ∷ ts) (suc i) t' e = thread_at-set ts i t' e

-- The running thread replaced.
abbrev pub with_thread : SchedulerState → Thread → SchedulerState
with_thread s t = record s { threads = set s.threads s.current (some t) }

abbrev pub replaced : World → SchedulerState → Thread → World
replaced w s t = record w { kernel = record w.kernel { scheduler = some (with_thread s t) } }

-- A function on the running thread runs whichever table is active, and the table is as it was.
with_current_thread-runs {ℓ} :
    {A : Type ℓ} (f : Thread → Outcome (A × Thread)) (a : A) (w : World) (s : SchedulerState)
    (t t' : Thread)
    → w.kernel.scheduler ≡ some s
    → thread_at s.threads s.current ≡ some t
    → f t ≡ ok (a, t')
    → with_current_thread f w ≡ ok (returned a, replaced w s t')
unfolding with_current_thread on_thread
with_current_thread-runs f a w s t t' there here run =
    under_kernel_table-runs (on_thread f) a w (replaced w s t') s there
      (λ c. simp (there, here, run, on_thread)) refl

module _ (E : Platform) (w : World) (s : SchedulerState) (t : Thread)
    (there : w.kernel.scheduler ≡ some s) (here : thread_at s.threads s.current ≡ some t)
    (valid : IsValid t) where
  message : String
  message = "sys_read: destination pointer not mapped for write"

  accepted :
      (ptr len : ℕ)
      → 0 < ptr
      → 0 < len
      → ptr + len ≤ 2 ^ 47
      → Usable E.paging w.kernel.tables w.kernel.cr3 true ptr len
      → user_range_ok E.paging w.kernel.tables w.kernel.cr3 ptr len true ≡ ok true
  accepted ptr len nonnull pos fits u =
      elim (user_range_ok-Usable E.paging w.kernel.tables w.kernel.cr3 ptr len true nonnull pos
        fits) [ inl (e, u') ↦ e | inr (e, no_) ↦ absurd (no_ u) ]

  abbrev deliver_some : ℕ → Option (List ℕ) → Call ℕ
  deliver_some ptr copied = elim copied [ some bytes ↦ deliver E ptr bytes | none ↦ return u64_max ]

  -- A read of an open file into a buffer that the caller may write.
  sys_read_file-Delivers :
      (slot ptr len : ℕ) (f : OpenFile)
      → file_at t slot ≡ some f
      → 0 < ptr
      → 0 < len
      → ptr + len ≤ 2 ^ 47
      → Usable E.paging w.kernel.tables w.kernel.cr3 true ptr len
      → Delivers E
          (replaced w s (with_file t slot (advance len f)))
          ptr
          (take len (drop f.offset f.bytes))
          (sys_read_file E (slot + first_file_fd) ptr len w)
  unfolding sys_read_file message
  sys_read_file-Delivers slot ptr len f open_ nonnull pos fits u =
      let t' : Thread = with_file t slot (advance len f) in
      let bytes : List ℕ = take len (drop f.offset f.bytes) in
      let fine : user_range_ok E.paging w.kernel.tables w.kernel.cr3 ptr len true ≡ ok true =
        accepted ptr len nonnull pos fits u in
      let (frames, stored, delivered) =
        deliver-Delivers E (replaced w s t') ptr len bytes nonnull fits
          (omega (arith, length-take len (drop f.offset f.bytes))) u in
      (
        frames,
        stored,
        >>=-returned (check_range E message ptr len true)
              (λ _.
                with_current_thread (read_open_file (slot + first_file_fd) len)
                >>= deliver_some ptr)
              tt w w (check_range-true E w message ptr len true fine)
            ∙ >>=-returned (with_current_thread (read_open_file (slot + first_file_fd) len))
                (deliver_some ptr) (some bytes) w (replaced w s t')
                (with_current_thread-runs (read_open_file (slot + first_file_fd) len) (some bytes) w
                  s t t' there here (read_open_file-ok slot len f valid open_).0)
            ∙ delivered,
      )

  -- What `sys_open` does with the bytes of the file that it has found.
  abbrev keep : List ℕ → Call ℕ
  keep bytes =
      with_current_thread (λ t. ok (open_file bytes t)) >>= λ fd. return (unwrap_or fd u64_max)

  abbrev with_found : Option (List ℕ) → Call ℕ
  with_found found = elim found [ none ↦ return u64_max | some bytes ↦ keep bytes ]

  abbrev with_text : List ℕ → Option (List ℕ) → Call ℕ
  with_text staged text = elim text [
    | none ↦ return u64_max
    | some path ↦ under_kernel_table (lift (read_file E.disk staged)) >>= with_found
  ]

  sys_open-found :
      (path_ptr path_len slot : ℕ) (staged text bytes : List ℕ)
      → 0 < path_len
      → path_len ≤ 255
      → copy_from_user E path_ptr path_len w ≡ ok (returned staged, w)
      → E.from_utf8 staged ≡ some text
      → read_file E.disk staged ≡ ok (some bytes)
      → (open_file bytes t).0 ≡ some (slot + first_file_fd)
      → sys_open E path_ptr path_len w
        ≡ ok (returned (slot + first_file_fd), replaced w s (open_file bytes t).1)
  unfolding sys_open unwrap_or
  sys_open-found path_ptr path_len slot staged text bytes pos short copied utf8 found opened =
      let guard : (path_len == 0 || ltb 255 path_len) ≡ false = ground arith in
      ap (λ b. (if b then return u64_max else rest) w) guard
      ∙ >>=-returned (copy_from_user E path_ptr path_len)
          (λ staged. with_text staged (E.from_utf8 staged)) staged w w copied
      ∙ ap (λ o. with_text staged o w) utf8
      ∙ >>=-returned (under_kernel_table (lift (read_file E.disk staged))) with_found (some bytes) w
          w
          (under_kernel_table-runs (lift (read_file E.disk staged)) (some bytes) w w s there
            (λ c. rw (found, lift) refl) refl)
      ∙ >>=-returned (with_current_thread (λ t. ok (open_file bytes t)))
          (λ fd. return (unwrap_or fd u64_max)) (open_file bytes t).0 w
          (replaced w s (open_file bytes t).1)
          (with_current_thread-runs (λ t. ok (open_file bytes t)) (open_file bytes t).0 w s t
            (open_file bytes t).1 there here refl)
      ∙ ap (λ o. ok (returned (unwrap_or o u64_max), replaced w s (open_file bytes t).1)) opened
    where
      rest : Call ℕ
      rest = copy_from_user E path_ptr path_len >>= λ staged. with_text staged (E.from_utf8 staged)

module _ (E : Platform) where
  -- `sys_read` of a descriptor of a file.
  sys_read-file :
      (fd ptr len : ℕ) (w : World)
      → 0 < len
      → first_file_fd ≤ fd
      → sys_read E fd ptr len w ≡ sys_read_file E fd ptr (min len 256) w
  unfolding sys_read
  sys_read-file fd ptr len w pos file =
      let some_bytes : (min len 256 == 0) ≡ false = ground arith in
      let no_keyboard : (fd == 0) ≡ false = ground arith in
      let a_file : leb first_file_fd fd ≡ true = ground arith in
      rw (some_bytes, no_keyboard, a_file, sys_read) refl

  -- A running thread with a free slot in a valid file table opens a path of at most 255 bytes, which
  -- `copy_from_user` copies, which is a text, and under which the volume has a file; then it reads the
  -- descriptor that it got, into a buffer below the canonical boundary that it may write. Both calls
  -- return: the buffer holds the first bytes of the file, as many as were asked for, 256 at most, or
  -- the whole file, their number is the result, and CR3 is as it was.
  pub sys_read-sys_open :
      (w : World) (s : SchedulerState) (t : Thread) (path_ptr path_len free ptr len : ℕ)
      (staged text bytes : List ℕ)
      → w.kernel.scheduler ≡ some s
      → thread_at s.threads s.current ≡ some t
      → IsValid t
      → free < max_open_files
      → file_at t free ≡ none
      → 0 < path_len
      → path_len ≤ 255
      → copy_from_user E path_ptr path_len w ≡ ok (returned staged, w)
      → E.from_utf8 staged ≡ some text
      → read_file E.disk staged ≡ ok (some bytes)
      → 0 < ptr
      → 0 < len
      → ptr + min len 256 ≤ 2 ^ 47
      → Usable E.paging w.kernel.tables w.kernel.cr3 true ptr (min len 256)
      → (fd : ℕ) × (w1 : World) × (w2 : World) × (sys_open E path_ptr path_len w
          ≡ ok (returned fd, w1))
        × (w1.kernel.cr3 ≡ w.kernel.cr3)
        × Delivers E w2 ptr (take (min len 256) bytes) (sys_read E fd ptr len w1)
        × (w2.kernel.cr3 ≡ w.kernel.cr3)
  sys_read-sys_open w s t path_ptr path_len free ptr len staged text bytes there here valid lt
        vacant pos short copied utf8 found nonnull wanted fits u =
      by_slot (open_file-Opens bytes valid)
    where
      by_slot :
          Opens bytes t (open_file bytes t)
          → (fd : ℕ) × (w1 : World) × (w2 : World) × (sys_open E path_ptr path_len w
              ≡ ok (returned fd, w1))
            × (w1.kernel.cr3 ≡ w.kernel.cr3)
            × Delivers E w2 ptr (take (min len 256) bytes) (sys_read E fd ptr len w1)
            × (w2.kernel.cr3 ≡ w.kernel.cr3)
      by_slot (table_full full e) = let (f, taken) = full free lt in absurd (cc (vacant, taken))
      by_slot (opens slot in_table was_free opened valid' holds others) =
          let t1 : Thread = (open_file bytes t).1 in
          let w1 : World = replaced w s t1 in
          let file : OpenFile = record { bytes = bytes; offset = 0 } in
          let (frames, stored, delivered) =
            sys_read_file-Delivers E w1 (with_thread s t1) t1 refl
              (thread_at-set s.threads s.current t1 here) valid' slot ptr (min len 256) file holds
              nonnull (omega arith) fits u in
          (
            slot + first_file_fd,
            w1,
            replaced w1 (with_thread s t1) (with_file t1 slot (advance (min len 256) file)),
            sys_open-found E w s t there here valid path_ptr path_len slot staged text bytes pos
                short copied utf8 found opened,
            refl,
            (
              frames,
              stored,
              sys_read-file (slot + first_file_fd) ptr len w1 wanted (omega arith) ∙ delivered,
            ),
            refl,
          )
