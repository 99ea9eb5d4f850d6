-- ===== src/Syscall/Copy/Rounds.antt =====
-- What `copy_to_user` writes, `copy_from_user` reads back.
use velora_os.Base.{
  ℕ, ◌+◌, ◌-◌, ◌%◌, ◌^◌, ◌<◌, ◌≤◌, ◌≡◌, ◌≢◌, ◌⊎◌, inl, inr, refl, sym, ap, ◌∙◌, subst, Bool, true,
  false, List, [], ◌∷◌, none, some, Outcome, ok, panic, stuck, arith, length, if◌then◌else◌,
}
use velora_os.Memory.Walk.{
  Tables, Entry, FrameResult, frame, frame_not_present, huge_frame, table_indexes, permits,
  accessible, page_accessible, translate_addr, user_range_ok,
}
use velora_os.Syscall.Access.{load_bytes, store_bytes, fetch}
use velora_os.Syscall.Access.Laws.{Translates, load_bytes-store_bytes}
use velora_os.Syscall.World.{
  World, Platform, Reply, returned, Call, ◌>>=◌, lift, kill_current_thread,
}
use velora_os.Syscall.World.Laws.{kill-then}
use velora_os.Syscall.Copy.{copy_from_user, copy_to_user}
use velora_os.Syscall.Copy.Laws.{
  Usable, Usable-translates, user_range_ok-Usable, after_check, check_range-true, check_range-false,
  copies, accepted, copy_to_user-Stores, message,
}

-- A page that may be written may be read.
permits-read : (e : Entry) → permits true e ≡ true → permits false e ≡ true
unfolding permits
permits-read e h = ground arith

abbrev on_entry : Bool → FrameResult → (ℕ → Bool) → Bool
on_entry b t go = if b then elim t [ frame g ↦ go g | _ ↦ false ] else false

on_entry-read :
    (b b' : Bool) (t : FrameResult) (go go' : ℕ → Bool)
    → (b ≡ true → b' ≡ true)
    → ((g : ℕ) → go g ≡ true → go' g ≡ true)
    → on_entry b t go ≡ true
    → on_entry b' t go' ≡ true
on_entry-read false b' t go go' h k e = absurd cc
on_entry-read true b' (frame g) go go' h k e = rw (h refl) (k g e)
on_entry-read true b' frame_not_present go go' h k e = absurd cc
on_entry-read true b' huge_frame go go' h k e = absurd cc

accessible-read :
    (tables : Tables) (is : List ℕ) (f : ℕ)
    → accessible true tables is f ≡ true
    → accessible false tables is f ≡ true
unfolding accessible
accessible-read tables [] f h = refl
accessible-read tables (i ∷ is) f h =
    on_entry-read (permits true (tables f i)) (permits false (tables f i)) (tables f i).target
      (accessible true tables is) (accessible false tables is) (permits-read (tables f i))
      (accessible-read tables is) h

module _ (E : Platform) (w : World) where
  Usable-read :
      (ptr n : ℕ)
      → Usable E.paging w.kernel.tables w.kernel.cr3 true ptr n
      → Usable E.paging w.kernel.tables w.kernel.cr3 false ptr n
  unfolding page_accessible
  Usable-read ptr n u a lo hi =
      accessible-read w.kernel.tables (table_indexes E.paging (a - a % 4096)) w.kernel.cr3
        (u a lo hi)

  -- The physical address behind an address.
  abbrev physical : ℕ → ℕ
  physical a = elim (translate_addr E.paging w.kernel.tables w.kernel.cr3 a) [
    | ok found ↦ elim found [ some p ↦ p | none ↦ 0 ]
    | panic ↦ 0
    | stuck ↦ 0
  ]

  abbrev pub At : ℕ → ℕ → Type 0
  At a p = translate_addr E.paging w.kernel.tables w.kernel.cr3 a ≡ ok (some p)

  physical-At : (a p : ℕ) → At a p → At a (physical a)
  physical-At a p e = rw (e, physical) refl

  abbrev with_frames : (ℕ → ℕ → ℕ) → World
  with_frames frames = record w { frames = frames }

  -- The copy dies where the range is refused.
  dies_to :
      (ptr : ℕ) (bytes : List ℕ)
      → user_range_ok E.paging w.kernel.tables w.kernel.cr3 ptr (length bytes) true ≡ ok false
      → copy_to_user E ptr bytes w
        ≡ kill_current_thread E "syscall argument pointer not mapped for write" w
  unfolding copy_to_user
  dies_to ptr bytes e =
      let write : World → Outcome (Reply (ℕ → ℕ → ℕ) × World) =
        λ w. lift (store_bytes E.paging w.kernel.tables w.kernel.cr3 ptr bytes w.frames) w in
      let finish : (ℕ → ℕ → ℕ) → Call (Unit {0}) =
        λ f w. ok (returned tt, record w { frames = f }) in
      ap (λ o. after_check o (write >>= finish))
        (check_range-false E w "syscall argument pointer not mapped for write" ptr (length bytes)
          true e)
      ∙ kill-then E "syscall argument pointer not mapped for write" (λ _. write >>= finish) w

  abbrev pub CopiesBack : ℕ → List ℕ → Type 0
  CopiesBack ptr bytes =
      (frames : ℕ → ℕ → ℕ) × (copy_to_user E ptr bytes w
        ≡ ok (returned tt, record w { frames = frames }))
      × (copy_from_user E ptr (length bytes) (record w { frames = frames })
          ≡ ok (returned bytes, record w { frames = frames }))
      × ((q : ℕ)
          → ((i p : ℕ) → i < length bytes → At (ptr + i) p → q ≢ p)
          → fetch frames q ≡ fetch w.frames q)

  copies_back :
      (ptr : ℕ) (bytes : List ℕ)
      → 0 < ptr
      → 0 < length bytes
      → ptr + length bytes ≤ 2 ^ 47
      → ((i j p : ℕ) → i < j → j < length bytes → At (ptr + i) p → ¬ At (ptr + j) p)
      → Usable E.paging w.kernel.tables w.kernel.cr3 true ptr (length bytes)
      → CopiesBack ptr bytes
  copies_back ptr bytes nonnull pos fits apart u =
      let (frames, run, done) = copy_to_user-Stores E w ptr bytes nonnull pos fits u in
      let mapped : Translates E.paging w.kernel.tables w.kernel.cr3 physical ptr (length bytes) =
        λ i lt.
          let (p, e) =
            Usable-translates E.paging w.kernel.tables w.kernel.cr3 true ptr (length bytes)
              (ptr + i) u (omega arith) (omega arith) in
          physical-At (ptr + i) p e in
      let (frames', run', load, others) =
        load_bytes-store_bytes E.paging w.kernel.tables w.kernel.cr3 physical bytes ptr w.frames
          mapped
          (λ i j lt le same.
            apart i j (physical (ptr + i)) lt le (mapped i (omega arith))
              (mapped j le ∙ ap (λ p. ok (some p)) (sym same))) in
      let one : frames' ≡ frames = cc in
      let read =
        subst
          (λ f. load_bytes E.paging w.kernel.tables w.kernel.cr3 f ptr (length bytes) ≡ ok bytes)
          one load in
      (
        frames,
        done,
        copies E (with_frames frames) ptr (length bytes) bytes
            (check_range-true E (with_frames frames) (message E (with_frames frames)) ptr
              (length bytes) false
              (accepted E (with_frames frames) ptr (length bytes) false nonnull pos fits
                (Usable-read ptr (length bytes) u)))
            read,
        λ q h.
            subst (λ f. fetch f q ≡ fetch w.frames q) one
              (others q (λ i lt. h i (physical (ptr + i)) lt (mapped i lt))),
      )

  -- A copy of some bytes to a range below the canonical boundary, at any address but null, where no two
  -- addresses of the range share a physical one. Where the caller may write the whole range, the copy
  -- returns, a copy of the range from the caller then gives the same bytes back, and no other byte of
  -- physical memory has changed; where the caller may not, the copy kills it.
  pub copy_from_user-copy_to_user :
      (ptr : ℕ) (bytes : List ℕ)
      → 0 < ptr
      → 0 < length bytes
      → ptr + length bytes ≤ 2 ^ 47
      → ((i j p : ℕ) → i < j → j < length bytes → At (ptr + i) p → ¬ At (ptr + j) p)
      → let usable = Usable E.paging w.kernel.tables w.kernel.cr3 true ptr (length bytes) in
        (usable × CopiesBack ptr bytes)
        ⊎ (¬ usable
            × (copy_to_user E ptr bytes w
                ≡ kill_current_thread E "syscall argument pointer not mapped for write" w))
  copy_from_user-copy_to_user ptr bytes nonnull pos fits apart =
      elim (user_range_ok-Usable E.paging w.kernel.tables w.kernel.cr3 ptr (length bytes) true
        nonnull pos fits) [
          | inl (e, u) ↦ inl (u, copies_back ptr bytes nonnull pos fits apart u)
          | inr (e, u) ↦ inr (u, dies_to ptr bytes e)
        ]
