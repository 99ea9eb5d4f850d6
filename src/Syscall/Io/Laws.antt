-- ===== src/Syscall/Io/Laws.antt =====
-- What `sys_read` takes from the keyboard, and when.
use velora_os.Base.{
  ℕ, zero, suc, ◌+◌, ◌^◌, ◌<◌, ◌≤◌, ◌≡◌, ◌⊎◌, subst, Outcome, lt→ltb, if◌then◌else◌, refl, sym, ap,
  ◌∙◌, inl, inr, true, false, List, [], ◌∷◌, some, ok, arith, length, length-take, take, drop,
}
use velora_os.Keyboard.{InputQueue, IsValid, contents}
use velora_os.Keyboard.Laws.{pop-Pops}
use velora_os.Scheduler.State.{SchedulerState}
use velora_os.Syscall.World.{
  World, Platform, Reply, returned, Call, ◌>>=◌, ◌>>◌, return, under_kernel_table,
}
use velora_os.Syscall.World.Laws.{>>=-returned, under_kernel_table-runs, Gone, kill-Gone, kill-then}
use velora_os.Syscall.Access.{store_bytes}
use velora_os.Syscall.Copy.{check_range, copy_to_user}
use velora_os.Syscall.Copy.Laws.{
  Usable, user_range_ok-Usable, copy_to_user-Stores, after_check, check_range-true,
  check_range-false,
}
use velora_os.Memory.Walk.{user_range_ok}
use Prim.Native.String.{String}
use velora_os.Syscall.Io.{deliver, drain, take_input, sys_read_stdin}

-- What the loop of `sys_read_stdin` leaves.
abbrev pub Drains : ℕ → InputQueue → Type 0
Drains n q =
    (q' : InputQueue) × (drain n q ≡ ok (take n (contents q), q'))
    × IsValid q'
    × (contents q' ≡ drop n (contents q))

-- On a valid queue the loop never panics: it takes the oldest `n` bytes, or all where there are
-- fewer, in the order in which they came, and leaves the rest.
pub drain-Drains : (n : ℕ) (q : InputQueue) → IsValid q → Drains n q
unfolding drain
drain-Drains zero q v = (q, refl, v, refl)
drain-Drains (suc n) q v = elim (pop-Pops q v) [
  | inl (c, e) ↦ (q, rw (e, c, drain) refl, v, rw c refl)
  | inr (b, r, e, v', c) ↦
      let (q', run, v'', left) = drain-Drains n r v' in
      (q', rw (e, run, c, drain) refl, v'', rw c left)
]

module _ (E : Platform) (w : World) where
  -- The bytes are in the caller's buffer, and their number is returned.
  abbrev pub Delivers : ℕ → List ℕ → Outcome (Reply ℕ × World) → Type 0
  Delivers ptr bytes o =
      (frames : ℕ → ℕ → ℕ) × (store_bytes E.paging w.kernel.tables w.kernel.cr3 ptr bytes w.frames
        ≡ ok frames)
      × (o ≡ ok (returned (length bytes), record w { frames = frames }))

  pub deliver-Delivers :
      (ptr len : ℕ) (bytes : List ℕ)
      → 0 < ptr
      → ptr + len ≤ 2 ^ 47
      → length bytes ≤ len
      → Usable E.paging w.kernel.tables w.kernel.cr3 true ptr len
      → Delivers ptr bytes (deliver E ptr bytes w)
  unfolding deliver store_bytes
  deliver-Delivers ptr len [] nonnull fits short u = (w.frames, refl, refl)
  deliver-Delivers ptr len (b ∷ bytes) nonnull fits short u =
      let (frames, run, copied) =
        copy_to_user-Stores E w ptr (b ∷ bytes) nonnull (omega arith) (omega arith)
          (λ a lo hi. u a lo (omega arith)) in
      let count : Call ℕ = return (length (b ∷ bytes)) in
      (
        frames,
        run,
        ap (λ t. ((if t then copy_to_user E ptr (b ∷ bytes) else return tt) >> count) w)
              (lt→ltb 0 (suc (length bytes)) (omega arith))
            ∙ >>=-returned (copy_to_user E ptr (b ∷ bytes)) (λ _. count) tt w
                (record w { frames = frames }) copied,
      )

module _ (E : Platform) (w : World) where
  message : String
  message = "sys_read: destination pointer not mapped for write"

  -- The call, once the caller's buffer has passed the check.
  takes :
      (ptr len : ℕ) (q : InputQueue) (bytes : List ℕ) (s : SchedulerState)
      → w.kernel.scheduler ≡ some s
      → user_range_ok E.paging w.kernel.tables w.kernel.cr3 ptr len true ≡ ok true
      → drain len w.input ≡ ok (bytes, q)
      → sys_read_stdin E ptr len w ≡ deliver E ptr bytes (record w { input = q })
  unfolding sys_read_stdin take_input message
  takes ptr len q bytes s there fine run =
      >>=-returned (check_range E message ptr len true)
        (λ _. under_kernel_table (take_input len) >>= deliver E ptr) tt w w
        (check_range-true E w message ptr len true fine)
      ∙ >>=-returned (under_kernel_table (take_input len)) (deliver E ptr) bytes w
          (record w { input = q })
          (under_kernel_table-runs (take_input len) bytes w (record w { input = q }) s there
            (λ c. rw (run, take_input) refl) refl)

  refused :
      (ptr len : ℕ)
      → user_range_ok E.paging w.kernel.tables w.kernel.cr3 ptr len true ≡ ok false
      → Gone w (sys_read_stdin E ptr len w)
  unfolding sys_read_stdin message
  refused ptr len bad =
      let rest : Unit {0} → Call ℕ = λ _. under_kernel_table (take_input len) >>= deliver E ptr in
      subst (Gone w)
        (sym (
          ap (λ o. after_check o (rest tt)) (check_range-false E w message ptr len true bad)
          ∙ kill-then E message rest w))
        (kill-Gone ℕ E message w)

  -- `sys_read` of the keyboard into a non-empty buffer below the canonical boundary, at any address
  -- but null, on a valid input queue. Where the caller may write the whole buffer, the call returns:
  -- the oldest `len` bytes of the queue, or all where there are fewer, are in the buffer in the order
  -- in which they came, their number is the result, exactly they have left the queue, and nothing
  -- else has changed, CR3 included. Where the caller may not, the call does not return to it, and no
  -- byte has left the queue.
  pub sys_read_stdin-Reads :
      (ptr len : ℕ) {s : SchedulerState}
      → w.kernel.scheduler ≡ some s
      → IsValid w.input
      → 0 < ptr
      → 0 < len
      → ptr + len ≤ 2 ^ 47
      → let usable = Usable E.paging w.kernel.tables w.kernel.cr3 true ptr len in
        (usable
          × ((q : InputQueue) × IsValid q
              × (contents q ≡ drop len (contents w.input))
              × Delivers E
                  (record w { input = q })
                  ptr
                  (take len (contents w.input))
                  (sys_read_stdin E ptr len w)))
        ⊎ (¬ usable × Gone w (sys_read_stdin E ptr len w))
  sys_read_stdin-Reads ptr len {s} there v nonnull pos fits =
      elim (user_range_ok-Usable E.paging w.kernel.tables w.kernel.cr3 ptr len true nonnull pos
        fits) [
          | inl (e, u) ↦
              let (q, run, v', left) = drain-Drains len w.input v in
              let (frames, stored, delivered) =
                deliver-Delivers E (record w { input = q }) ptr len (take len (contents w.input))
                  nonnull fits (omega (arith, length-take len (contents w.input))) u in
              inl (
                u,
                (
                  q,
                  v',
                  left,
                  (
                    frames,
                    stored,
                    takes ptr len q (take len (contents w.input)) s there e run ∙ delivered,
                  ),
                ),
              )
          | inr (e, u) ↦ inr (u, refused ptr len e)
        ]
