-- ===== src/Heap/Laws.antt =====
-- allocator.rs: the pages of the heap.
use velora_os.Base.{
  ℕ, zero, suc, ◌+◌, ◌-◌, ◌*◌, ◌/◌, ◌%◌, ◌^◌, ◌≤◌, ◌<◌, ◌≡◌, ◌≢◌, ◌⊎◌, inl, inr, refl, sym, ap, ◌∙◌,
  true, List, ◌∷◌, none, some, ok, arith, length, length-drop, subst,
}
use velora_os.Elf.Contents.{Mapper, All, Distinct, drop-All, drop-Distinct}
use velora_os.Heap.{
  HeapResult, HeapSpace, done, heap_start, heap_size, map_heap_page, map_heap, with_heap, init_heap,
}
use velora_os.Memory.Frames.{allocate_frame}
use velora_os.Memory.Frames.Laws.{
  pool, IsValid, Allocates, exhausted, hands_out, allocate_frame-Allocates,
}
use velora_os.Memory.Paging.{Paging}

module _ (P : Paging) (M : Mapper P) where
  record Ready (s : HeapSpace) (n : ℕ) : Type 0 where
    valid : IsValid s.allocator
    distinct : Distinct (pool P s.allocator)
    enough : 4 * n ≤ length (pool P s.allocator)

  -- One page: its frame came off the pool, and is not on it any more.
  MapsPage : HeapSpace → ℕ → ℕ → Type 0
  MapsPage s n page =
      (s' : HeapSpace) × (f : ℕ) × (map_heap_page P M.map_to page s ≡ (done, s'))
      × Ready s' n
      × (M.frame_of s'.tables page ≡ some f)
      × ((g : ℕ)
          → All (λ x. x ≢ g) (pool P s.allocator)
          → (f ≢ g) × All (λ x. x ≢ g) (pool P s'.allocator))
      × All (λ x. x ≢ f) (pool P s'.allocator)
      × ((q : ℕ) → q ≢ page → M.frame_of s'.tables q ≡ M.frame_of s.tables q)

  map_heap_page-Maps :
      (s : HeapSpace) (n page : ℕ)
      → Ready s (suc n)
      → M.frame_of s.tables page ≡ none
      → MapsPage s n page
  unfolding MapsPage map_heap_page
  map_heap_page-Maps s n page ready unmapped =
      by_frame (allocate_frame-Allocates P s.allocator ready.valid)
    where
      by_frame : Allocates P s.allocator (allocate_frame P s.allocator) → MapsPage s n page
      by_frame (exhausted e r) = absurd (omega (arith, ap length e, ready.enough))
      by_frame (hands_out f given split valid) =
          let rest : List ℕ = pool P (allocate_frame P s.allocator).1 in
          let distinct : Distinct (f ∷ rest) = subst Distinct split ready.distinct in
          let (t', a', taken, mapped, here, others, valid', few, left) =
            M.maps page f true s.tables (allocate_frame P s.allocator).1 unmapped valid
              (omega (arith, ap length split, ready.enough)) in
          (
            record s { tables = t'; allocator = a' },
            f,
            rw (given, mapped, map_heap_page) refl,
            record {
              valid = valid';
              distinct = subst Distinct (sym left) (drop-Distinct taken rest distinct.1);
              enough =
                  omega
                    (arith, ap length split, ready.enough, ap length left, length-drop taken rest);
            },
            here,
            λ g fresh.
                let apart : All (λ x. x ≢ g) (f ∷ rest) = subst (All (λ x. x ≢ g)) split fresh in
                (
                  apart.0,
                  subst (All (λ x. x ≢ g)) (sym left) (drop-All (λ x. x ≢ g) taken rest apart.1),
                ),
            subst (All (λ x. x ≢ f)) (sym left) (drop-All (λ x. x ≢ f) taken rest distinct.0),
            others,
          )

  -- Page `k` from `start` on is mapped to the frame `f`.
  abbrev pub At : HeapSpace → ℕ → ℕ → ℕ → Type 0
  At s start k f = M.frame_of s.tables (start + k * 4096) ≡ some f

  -- The pages from `start` on, `n` of them: each is mapped, no two to one frame, and no other has changed.
  abbrev pub Mapped : HeapSpace → HeapSpace → ℕ → ℕ → Type 0
  Mapped s s' n start =
      ((k : ℕ) → k < n → (f : ℕ) × At s' start k f)
      × ((k j f g : ℕ) → k < j → j < n → At s' start k f → At s' start j g → f ≢ g)
      × ((q : ℕ)
          → ((k : ℕ) → k < n → q ≢ start + k * 4096)
          → M.frame_of s'.tables q ≡ M.frame_of s.tables q)

  -- Moreover each page has a frame of the pool.
  Maps : HeapSpace → ℕ → ℕ → Type 0
  Maps s n start =
      (s' : HeapSpace) × (map_heap P M.map_to n start s ≡ ok (done, s'))
      × Mapped s s' n start
      × ((k f g : ℕ) → k < n → At s' start k f → All (λ x. x ≢ g) (pool P s.allocator) → f ≢ g)

  module _ (s : HeapSpace) (n start f : ℕ) (first : M.frame_of s.tables start ≡ some f) where
    first_page : At s start 0 f
    first_page = subst (λ a. M.frame_of s.tables a ≡ some f) (omega arith) first

    later_page : (k : ℕ) {g : ℕ} → At s start (suc k) g → At s (start + 1 * 4096) k g
    later_page k {g} = subst (λ a. M.frame_of s.tables a ≡ some g) (omega arith)

    each_page :
        ((k : ℕ) → k < n → (g : ℕ) × At s (start + 1 * 4096) k g)
        → (k : ℕ) → k < suc n
        → (g : ℕ) × At s start k g
    each_page more zero h = (f, first_page)
    each_page more (suc k) h =
        let (g, e) = more k (omega arith) in
        (g, subst (λ a. M.frame_of s.tables a ≡ some g) (omega arith) e)

    apart_pages :
        ((k g : ℕ) → k < n → At s (start + 1 * 4096) k g → g ≢ f)
        → ((k j g h : ℕ)
            → k < j
            → j < n
            → At s (start + 1 * 4096) k g
            → At s (start + 1 * 4096) j h
            → g ≢ h)
        → (k j g h : ℕ) → k < j
        → j < suc n
        → At s start k g
        → At s start j h
        → g ≢ h
    apart_pages new apart k zero g h lt le eg eh = absurd (omega arith)
    apart_pages new apart zero (suc j) g h lt le eg eh =
        let same : some f ≡ some g = sym first_page ∙ eg in
        let other : h ≢ f = new j h (omega arith) (later_page j eh) in λ e. other (cc (e, same))
    apart_pages new apart (suc k) (suc j) g h lt le eg eh =
        apart k j g h (omega arith) (omega arith) (later_page k eg) (later_page j eh)

    pooled :
        (free : ℕ → Type 0)
        → ((g : ℕ) → free g → f ≢ g)
        → ((k g h : ℕ) → k < n → At s (start + 1 * 4096) k g → free h → g ≢ h)
        → (k g h : ℕ) → k < suc n
        → At s start k g
        → free h
        → g ≢ h
    pooled free first_new later zero g h lt e spare =
        let same : some f ≡ some g = sym first_page ∙ e in
        let new : f ≢ h = first_new h spare in λ q. new (cc (q, same))
    pooled free first_new later (suc k) g h lt e spare =
        later k g h (omega arith) (later_page k e) spare

  map_heap-Maps :
      (s : HeapSpace) (n start : ℕ)
      → Ready s n
      → ((k : ℕ) → k < n → M.frame_of s.tables (start + k * 4096) ≡ none)
      → start + (n + 1) * 4096 ≤ 2 ^ 47
      → Maps s n start
  unfolding Maps map_heap MapsPage
  map_heap-Maps s zero start ready unmapped low = (
    s,
    refl,
    (λ k h. absurd (omega arith), λ k j f g h h'. absurd (omega arith), λ q h. refl),
    λ k f g h. absurd (omega arith),
  )
  map_heap-Maps s (suc n) start ready unmapped low =
      by_page
        (map_heap_page-Maps s n start ready
          (subst (λ a. M.frame_of s.tables a ≡ none) (omega arith) (unmapped 0 (omega arith))))
        (λ s' r u. map_heap-Maps s' n (start + 1 * 4096) r u (omega arith))
    where
      by_page :
          MapsPage s n start
          → ((s' : HeapSpace)
              → Ready s' n
              → ((k : ℕ) → k < n → M.frame_of s'.tables (start + 1 * 4096 + k * 4096) ≡ none)
              → Maps s' n (start + 1 * 4096))
          → Maps s (suc n) start
      by_page (s1, f, ran, ready1, here, from_pool, spent, others) rest =
          let (s2, ran2, (each, apart, others2), from_pool2) = rest s1 ready1 (λ k h.
            others (start + 1 * 4096 + k * 4096) (λ e. omega (arith, e))
            ∙ subst (λ a. M.frame_of s.tables a ≡ none) (omega arith)
                (unmapped (suc k) (omega arith))) in
          let first : M.frame_of s2.tables start ≡ some f =
            others2 start (λ k h e. omega (arith, e)) ∙ here in
          (
            s2,
            rw (P.page_add-low start 1 (omega arith), ran, map_heap) ran2,
            (
              each_page s2 n start f first each,
              apart_pages s2 n start f first (λ k g lt e. from_pool2 k g f lt e spent) apart,
              λ q h.
                  others2 q (λ k lt e. h (suc k) (omega arith) (e ∙ omega arith))
                  ∙ others q (λ e. h 0 (omega arith) (e ∙ omega arith)),
            ),
            pooled s2 n start f first (λ g. All (λ x. x ≢ g) (pool P s.allocator))
                (λ g spare. (from_pool g spare).0)
                (λ k g h lt e spare. from_pool2 k g h lt e (from_pool h spare).1),
          )

  -- The two ends of the heap's pages.
  init_heap-pages :
      (s : HeapSpace) (r : HeapResult × HeapSpace)
      → map_heap P M.map_to 1024 heap_start s ≡ ok r
      → init_heap P M.map_to s ≡ ok (with_heap P M.map_to r)
  unfolding init_heap
  init_heap-pages s r run =
      rw
        (
          P.try_new-low heap_start (omega arith),
          P.try_new-low (heap_start + heap_size) (omega arith),
          P.try_new-low (heap_start + heap_size - 1) (omega arith),
          P.page_containing_lem heap_start,
          P.page_containing_lem (heap_start + heap_size - 1),
          run,
        )
        refl

  -- With a valid allocator whose frames are distinct, and enough for each page of the heap and three
  -- page tables to it, where no page of the heap is mapped: `init_heap` succeeds and gives the global
  -- allocator the heap's range. Then every byte of the range is mapped, no two pages of it to one
  -- frame, and what is mapped outside the range is as it was.
  pub init_heap-Maps :
      (s : HeapSpace)
      → IsValid s.allocator
      → Distinct (pool P s.allocator)
      → 4 * 1024 ≤ length (pool P s.allocator)
      → ((k : ℕ) → k < 1024 → M.frame_of s.tables (heap_start + k * 4096) ≡ none)
      → (s' : HeapSpace) × (init_heap P M.map_to s ≡ ok (done, s'))
        × (s'.heap ≡ some (heap_start, heap_size))
        × ((a : ℕ)
            → heap_start ≤ a
            → a < heap_start + heap_size
            → (f : ℕ) × (M.frame_of s'.tables (a - a % 4096) ≡ some f))
        × ((k j f g : ℕ) → k < j → j < 1024 → At s' heap_start k f → At s' heap_start j g → f ≢ g)
        × ((q : ℕ)
            → (q < heap_start) ⊎ (heap_start + heap_size ≤ q)
            → M.frame_of s'.tables q ≡ M.frame_of s.tables q)
  unfolding Maps
  init_heap-Maps s valid distinct enough unmapped =
      let (s', ran, (each, apart, others), from_pool) =
        map_heap-Maps s 1024 heap_start
          (record { valid = valid; distinct = distinct; enough = omega (arith, enough) }) unmapped
          (omega arith) in
      (
        record s' { heap = some (heap_start, heap_size) },
        init_heap-pages s (done, s') ran,
        refl,
        λ a lo hi.
            let (f, e) = each ((a - a % 4096 - heap_start) / 4096) (omega arith) in
            (f, subst (λ p. M.frame_of s'.tables p ≡ some f) (omega arith) e),
        apart,
        λ q out.
            others q (λ k lt e. elim out [ inl lo ↦ omega (arith, e) | inr hi ↦ omega (arith, e) ]),
      )
