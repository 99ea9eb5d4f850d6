-- ===== src/Memory/Walk/Laws.antt =====
-- What a successful check of a user range promises.
use velora_os.Base.{
  ℕ, zero, suc, ◌+◌, ◌-◌, ◌*◌, ◌/◌, ◌%◌, ◌^◌, ◌<◌, ◌≤◌, ◌≡◌, refl, ap, ◌∙◌, max, ◌⊎◌, inl, inr,
  Bool, true, false, List, [], ◌∷◌, some, Outcome, ok, arith, ◌==◌, Bool-cases, checked_add_fits,
}
use velora_os.Memory.Paging.{Paging}
use velora_os.Memory.Walk.{
  Tables, FrameResult, frame, frame_not_present, huge_frame, walk, accessible, table_indexes,
  translate_addr, page_accessible, scan, user_range_mapped,
}

accessible-walk :
    (need_write : Bool) (tables : Tables) (is : List ℕ) (f : ℕ)
    → accessible need_write tables is f ≡ true
    → (g : ℕ) × (walk tables is f ≡ ok (some g))
unfolding accessible walk
accessible-walk w tables [] f h = (f, refl)
accessible-walk w tables (i ∷ is) f h =
    by_target (tables f i).target refl (λ g. accessible-walk w tables is g)
  where
    by_target :
        (t : FrameResult)
        → (tables f i).target ≡ t
        → ((g : ℕ) → accessible w tables is g ≡ true → (g' : ℕ) × (walk tables is g ≡ ok (some g')))
        → (g : ℕ) × (walk tables (i ∷ is) f ≡ ok (some g))
    by_target (frame g) e ih = let (g', e') = ih g (ground arith) in (g', rw (e, walk) e')
    by_target frame_not_present e ih = absurd (ground arith)
    by_target huge_frame e ih = absurd (ground arith)

module _ (P : Paging) (tables : Tables) (cr3 : ℕ) where
  -- An address that `page_accessible` accepts is mapped: the walk of `translate_addr` finds its
  -- frame, and meets neither a missing table nor a huge page, on which it would panic.
  pub page_accessible-translates :
      (addr : ℕ) (need_write : Bool)
      → page_accessible P tables cr3 addr need_write ≡ true
      → (f : ℕ) × (translate_addr P tables cr3 addr ≡ ok (some (f + addr % 4096)))
  unfolding page_accessible translate_addr
  page_accessible-translates addr w h =
      let (f, e) = accessible-walk w tables (table_indexes P addr) cr3 h in
      (f, rw (e, P.page_offset_lem addr))

  -- A test of the pages from `page` on, `n` more after it.
  abbrev pub AllAccessible : Bool → ℕ → ℕ → Type 0
  AllAccessible w n page = (i : ℕ) → i ≤ n → page_accessible P tables cr3 (page + i * 4096) w ≡ true

  abbrev pub Decides : Outcome Bool → Type 0 → Type 0
  Decides r Q = ((r ≡ ok true) × Q) ⊎ ((r ≡ ok false) × ¬ Q)

  accessible_at :
      (w : Bool) {p q : ℕ} {b : Bool}
      → p ≡ q
      → page_accessible P tables cr3 q w ≡ b
      → page_accessible P tables cr3 p w ≡ b
  accessible_at w e h = ap (λ p. page_accessible P tables cr3 p w) e ∙ h

  refuted :
      (w : Bool) (n page : ℕ)
      → page_accessible P tables cr3 page w ≡ false
      → ¬ AllAccessible w n page
  refuted w n page no_ all =
      let first = accessible_at w {p = page} (omega arith) (all 0 (omega arith)) in cc

  later_pages :
      (w : Bool) (n page : ℕ)
      → page_accessible P tables cr3 page w ≡ true
      → AllAccessible w n (page + 1 * 4096)
      → AllAccessible w (suc n) page
  later_pages w n page yes_ rest zero le = accessible_at w (omega arith) yes_
  later_pages w n page yes_ rest (suc i) le = accessible_at w (omega arith) (rest i (omega arith))

  scan-Decides :
      (w : Bool) (n page last : ℕ)
      → last ≡ page + n * 4096
      → last < 2 ^ 47
      → Decides (scan P tables cr3 w last (suc n) page) (AllAccessible w n page)
  unfolding scan
  scan-Decides w zero page last e h = elim (Bool-cases (page_accessible P tables cr3 page w)) [
    | inl yes_ ↦ inl (ground arith, λ i le. accessible_at w (omega arith) yes_)
    | inr no_ ↦ inr (ground arith, refuted w zero page no_)
  ]
  scan-Decides w (suc n) page last e h = elim (Bool-cases (page_accessible P tables cr3 page w)) [
    | inl yes_ ↦
        let step = P.page_add-low page 1 (omega arith) in
        let go_on : scan P tables cr3 w last (suc (suc n)) page
            ≡ scan P tables cr3 w last (suc n) (page + 1 * 4096) =
          ground (arith, step) in
        elim (scan-Decides w n (page + 1 * 4096) last (omega arith) h) [
          | inl (r, all) ↦ inl (go_on ∙ r, later_pages w n page yes_ all)
          | inr (r, none_) ↦ inr (
            go_on ∙ r,
            λ all. none_ (λ i le. accessible_at w (omega arith) (all (suc i) (omega arith))),
          )
        ]
    | inr no_ ↦ inr (ground arith, refuted w (suc n) page no_)
  ]

  -- For a non-empty range below the canonical boundary `user_range_mapped` returns, and accepts
  -- exactly the ranges of which every byte lies on an accessible page.
  pub user_range_mapped-Decides :
      (addr len : ℕ) (w : Bool)
      → 0 < len
      → addr + len ≤ 2 ^ 47
      → Decides (user_range_mapped P tables cr3 addr len w) (
          (a : ℕ)
          → addr ≤ a
          → a < addr + len
          → page_accessible P tables cr3 (a - a % 4096) w ≡ true)
  unfolding user_range_mapped
  user_range_mapped-Decides addr len w pos fits =
      let sum = checked_add_fits addr (len - 1) (omega arith) in
      let last : ℕ = addr + (len - 1) in
      let canonical = P.try_new-low last (omega arith) in
      let p : ℕ = addr - addr % 4096 in
      let q : ℕ = last - last % 4096 in
      let n : ℕ = (q - p) / 4096 in
      let nonempty : (len == 0) ≡ false = ground arith in
      let runs : user_range_mapped P tables cr3 addr len w ≡ scan P tables cr3 w q (n + 1) p =
        rw
          (
            nonempty,
            sum,
            canonical,
            P.page_containing_lem last,
            P.page_containing_lem addr,
            user_range_mapped,
          )
          refl in
      let counted : scan P tables cr3 w q (n + 1) p ≡ scan P tables cr3 w q (suc n) p =
        ap (λ k. scan P tables cr3 w q k p) (omega arith) in
      elim (scan-Decides w n p q (omega arith) (omega arith)) [
        | inl (r, all) ↦ inl (
          runs ∙ counted ∙ r,
          λ a lo hi. accessible_at w (omega arith) (all ((a - a % 4096 - p) / 4096) (omega arith)),
        )
        | inr (r, none_) ↦ inr (
          runs ∙ counted ∙ r,
          λ all. none_ (λ i le.
              accessible_at w (omega arith)
                (all (max addr (p + i * 4096)) (omega arith) (omega arith))),
        )
      ]
