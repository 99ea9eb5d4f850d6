-- ===== src/Syscall/Copy/Laws.antt =====
-- A checked copy from ring 3 never faults.
use velora_os.Base.{
  ℕ, zero, suc, ◌+◌, ◌-◌, ◌%◌, ◌^◌, ◌<◌, ◌≤◌, ◌≡◌, ◌⊎◌, inl, inr, refl, sym, ap, ◌∙◌, Bool, true,
  false, List, [], ◌∷◌, some, Outcome, ok, panic, arith, ◌==◌, length, get_or, stuck,
}
use velora_os.Memory.Paging.{Paging}
use velora_os.Memory.Walk.{
  Tables, table_indexes, translate_addr, page_accessible, accessible, user_range_mapped,
  user_range_ok,
}
use velora_os.Memory.Walk.Laws.{page_accessible-translates, user_range_mapped-Decides}
use velora_os.Syscall.Access.{load_bytes, store_bytes, fetch, stored}
use velora_os.Syscall.World.{
  World, Platform, Reply, returned, exited, Call, ◌>>=◌, lift, kill_current_thread,
}
use velora_os.Syscall.World.Laws.{kill-then, >>=-returned}
use Prim.Native.String.{String}
use velora_os.Syscall.Copy.{check_range, copy_from_user, copy_to_user}

-- The rest of a call after a check.
abbrev pub after_check {ℓ} :
    {A : Type ℓ} → Outcome (Reply (Unit {0}) × World) → Call A → Outcome (Reply A × World)
after_check o next = elim o [
  | panic ↦ panic
  | stuck ↦ stuck
  | ok (reply, w') ↦ elim reply [ exited s ↦ ok (exited s, w') | returned a ↦ next w' ]
]

module _ (P : Paging) (tables : Tables) (cr3 : ℕ) where
  page_indexes : (a : ℕ) → table_indexes P (a - a % 4096) ≡ table_indexes P a
  page_indexes a = let (e4, e3, e2, e1) = P.index-page a in rw (e4, e3, e2, e1) refl

  page_accessible-page :
      (a : ℕ) (w : Bool)
      → page_accessible P tables cr3 (a - a % 4096) w ≡ page_accessible P tables cr3 a w
  unfolding page_accessible
  page_accessible-page a w = ap (λ is. accessible w tables is cr3) (page_indexes a)

  -- Every byte of the range lies on a page that the caller may use.
  abbrev pub Usable : Bool → ℕ → ℕ → Type 0
  Usable w ptr n =
      (a : ℕ) → ptr ≤ a → a < ptr + n → page_accessible P tables cr3 (a - a % 4096) w ≡ true

  Usable-later : (w : Bool) (ptr n : ℕ) → Usable w ptr (suc n) → Usable w (ptr + 1) n
  Usable-later w ptr n u a lo hi = u a (omega arith) (omega arith)

  pub Usable-translates :
      (w : Bool) (ptr n a : ℕ)
      → Usable w ptr n
      → ptr ≤ a
      → a < ptr + n
      → (p : ℕ) × (translate_addr P tables cr3 a ≡ ok (some p))
  Usable-translates w ptr n a u lo hi =
      let (f, e) =
        page_accessible-translates P tables cr3 a w (sym (page_accessible-page a w) ∙ u a lo hi) in
      (f + a % 4096, e)

  -- The bytes behind the range.
  abbrev pub Reads : (ℕ → ℕ → ℕ) → ℕ → ℕ → List ℕ → Type 0
  Reads frames ptr n bytes =
      (length bytes ≡ n)
      × ((i : ℕ)
          → i < n
          → (p : ℕ) × (translate_addr P tables cr3 (ptr + i) ≡ ok (some p))
            × (get_or bytes i 0 ≡ fetch frames p))

  load_bytes-Reads :
      (w : Bool) (frames : ℕ → ℕ → ℕ) (n ptr : ℕ)
      → Usable w ptr n
      → (bytes : List ℕ) × (load_bytes P tables cr3 frames ptr n ≡ ok bytes)
        × Reads frames ptr n bytes
  unfolding load_bytes
  load_bytes-Reads w frames zero ptr u = ([], refl, (refl, λ i lt. elim lt [ ]))
  load_bytes-Reads w frames (suc n) ptr u =
      let (p, e) = Usable-translates w ptr (suc n) ptr u (omega arith) (omega arith) in
      let (bytes, run, (len, each)) =
        load_bytes-Reads w frames n (ptr + 1) (Usable-later w ptr n u) in
      (fetch frames p ∷ bytes, rw (e, run, load_bytes) refl, (ap suc len, at_index p bytes e each))
    where
      at_index :
          (p : ℕ) (bytes : List ℕ)
          → translate_addr P tables cr3 ptr ≡ ok (some p)
          → ((i : ℕ)
              → i < n
              → (p : ℕ) × (translate_addr P tables cr3 (ptr + 1 + i) ≡ ok (some p))
                × (get_or bytes i 0 ≡ fetch frames p))
          → (i : ℕ) → i < suc n
          → (q : ℕ) × (translate_addr P tables cr3 (ptr + i) ≡ ok (some q))
            × (get_or (fetch frames p ∷ bytes) i 0 ≡ fetch frames q)
      at_index p bytes e each zero lt =
          (p, ap (translate_addr P tables cr3) (omega arith) ∙ e, refl)
      at_index p bytes e each (suc i) lt =
          let (q, e', b) = each i (omega arith) in
          (q, ap (translate_addr P tables cr3) (omega arith) ∙ e', b)

  pub store_bytes-Usable :
      (w : Bool) (bytes : List ℕ) (ptr : ℕ) (frames : ℕ → ℕ → ℕ)
      → Usable w ptr (length bytes)
      → (frames' : ℕ → ℕ → ℕ) × (store_bytes P tables cr3 ptr bytes frames ≡ ok frames')
  unfolding store_bytes
  store_bytes-Usable w [] ptr frames u = (frames, refl)
  store_bytes-Usable w (b ∷ bytes) ptr frames u =
      let (p, e) = Usable-translates w ptr (suc (length bytes)) ptr u (omega arith) (omega arith) in
      let (frames', run) =
        store_bytes-Usable w bytes (ptr + 1) (stored frames p b)
          (Usable-later w ptr (length bytes) u) in
      (frames', rw (e, store_bytes) run)

  -- `user_range_ok` on a range below the canonical boundary.
  pub user_range_ok-Usable :
      (ptr len : ℕ) (w : Bool)
      → 0 < ptr
      → 0 < len
      → ptr + len ≤ 2 ^ 47
      → ((user_range_ok P tables cr3 ptr len w ≡ ok true) × Usable w ptr len)
        ⊎ ((user_range_ok P tables cr3 ptr len w ≡ ok false) × ¬ Usable w ptr len)
  unfolding user_range_ok
  user_range_ok-Usable ptr len w nonnull pos fits =
      let there : (ptr == 0) ≡ false = ground arith in
      let runs : user_range_ok P tables cr3 ptr len w ≡ user_range_mapped P tables cr3 ptr len w =
        rw (there, P.try_new-low ptr (omega arith), user_range_ok) refl in
      elim (user_range_mapped-Decides P tables cr3 ptr len w pos fits) [
        | inl (e, u) ↦ inl (runs ∙ e, u)
        | inr (e, u) ↦ inr (runs ∙ e, u)
      ]

module _ (E : Platform) (w : World) where
  pub check_range-true :
      (reason : String) (ptr len : ℕ) (need_write : Bool)
      → user_range_ok E.paging w.kernel.tables w.kernel.cr3 ptr len need_write ≡ ok true
      → check_range E reason ptr len need_write w ≡ ok (returned tt, w)
  unfolding check_range
  check_range-true reason ptr len need_write e = rw (e, check_range) refl

  pub check_range-false :
      (reason : String) (ptr len : ℕ) (need_write : Bool)
      → user_range_ok E.paging w.kernel.tables w.kernel.cr3 ptr len need_write ≡ ok false
      → check_range E reason ptr len need_write w ≡ kill_current_thread E reason w
  unfolding check_range
  check_range-false reason ptr len need_write e = rw (e, check_range) refl

  abbrev pub message : String
  message = "syscall argument pointer not mapped for read"

  pub copies :
      (ptr len : ℕ) (bytes : List ℕ)
      → check_range E message ptr len false w ≡ ok (returned tt, w)
      → load_bytes E.paging w.kernel.tables w.kernel.cr3 w.frames ptr len ≡ ok bytes
      → copy_from_user E ptr len w ≡ ok (returned bytes, w)
  unfolding copy_from_user
  copies ptr len bytes e run =
      ap
        (λ o.
          after_check o
            (λ w. lift (load_bytes E.paging w.kernel.tables w.kernel.cr3 w.frames ptr len) w))
        e
      ∙ rw (run, lift) refl

  dies :
      (ptr len : ℕ)
      → check_range E message ptr len false w ≡ kill_current_thread E message w
      → copy_from_user E ptr len w ≡ kill_current_thread E message w
  unfolding copy_from_user
  dies ptr len e =
      ap
        (λ o.
          after_check o
            (λ w. lift (load_bytes E.paging w.kernel.tables w.kernel.cr3 w.frames ptr len) w))
        e
      ∙ kill-then E message
          (λ _ w. lift (load_bytes E.paging w.kernel.tables w.kernel.cr3 w.frames ptr len) w) w

  -- `copy_from_user` of a non-empty range below the canonical boundary, from any pointer but null,
  -- never faults: where every byte of the range lies on a page that the caller may read it returns the
  -- bytes behind the range and changes nothing; where some byte does not, it kills the caller.
  pub copy_from_user-Copies :
      (ptr len : ℕ)
      → 0 < ptr
      → 0 < len
      → ptr + len ≤ 2 ^ 47
      → let usable = Usable E.paging w.kernel.tables w.kernel.cr3 false ptr len in
        (usable
          × ((bytes : List ℕ) × (copy_from_user E ptr len w ≡ ok (returned bytes, w))
              × Reads E.paging w.kernel.tables w.kernel.cr3 w.frames ptr len bytes))
        ⊎ (¬ usable
            × (copy_from_user E ptr len w
                ≡ kill_current_thread E "syscall argument pointer not mapped for read" w))
  copy_from_user-Copies ptr len nonnull pos fits =
      elim (user_range_ok-Usable E.paging w.kernel.tables w.kernel.cr3 ptr len false nonnull pos
        fits) [
          | inl (e, u) ↦
              let (bytes, run, reads) =
                load_bytes-Reads E.paging w.kernel.tables w.kernel.cr3 false w.frames len ptr u in
              inl (
                u,
                (bytes, copies ptr len bytes (check_range-true message ptr len false e) run, reads),
              )
          | inr (e, u) ↦ inr (u, dies ptr len (check_range-false message ptr len false e))
        ]

  -- The check of a range that the caller may write, or read.
  pub accepted :
      (ptr len : ℕ) (need_write : Bool)
      → 0 < ptr
      → 0 < len
      → ptr + len ≤ 2 ^ 47
      → Usable E.paging w.kernel.tables w.kernel.cr3 need_write ptr len
      → user_range_ok E.paging w.kernel.tables w.kernel.cr3 ptr len need_write ≡ ok true
  accepted ptr len need_write nonnull pos fits u =
      elim (user_range_ok-Usable E.paging w.kernel.tables w.kernel.cr3 ptr len need_write nonnull
        pos fits) [ inl (e, u') ↦ e | inr (e, no_) ↦ absurd (no_ u) ]

  -- `copy_to_user` under the same conditions, for a range that the caller may write.
  pub copy_to_user-Stores :
      (ptr : ℕ) (bytes : List ℕ)
      → 0 < ptr
      → 0 < length bytes
      → ptr + length bytes ≤ 2 ^ 47
      → Usable E.paging w.kernel.tables w.kernel.cr3 true ptr (length bytes)
      → (frames : ℕ → ℕ → ℕ) × (store_bytes E.paging w.kernel.tables w.kernel.cr3 ptr bytes w.frames
          ≡ ok frames)
        × (copy_to_user E ptr bytes w ≡ ok (returned tt, record w { frames = frames }))
  unfolding copy_to_user
  copy_to_user-Stores ptr bytes nonnull pos fits u =
      let (frames, run) =
        store_bytes-Usable E.paging w.kernel.tables w.kernel.cr3 true bytes ptr w.frames u in
      let write : World → Outcome (Reply (ℕ → ℕ → ℕ) × World) =
        λ w. lift (store_bytes E.paging w.kernel.tables w.kernel.cr3 ptr bytes w.frames) w in
      let finish : (ℕ → ℕ → ℕ) → Call (Unit {0}) =
        λ f w. ok (returned tt, record w { frames = f }) in
      (
        frames,
        run,
        ap (λ o. after_check o (write >>= finish))
              (check_range-true "syscall argument pointer not mapped for write" ptr (length bytes)
                true (accepted ptr (length bytes) true nonnull pos fits u))
            ∙ >>=-returned write finish frames w w (rw (run, lift) refl),
      )
