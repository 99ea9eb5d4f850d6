-- ===== src/Memory/Frames/Laws.antt =====
-- The allocator is a stack of frames: what was freed, and under it every usable frame not yet used.
use velora_os.Base.{
  ℕ, zero, suc, ◌+◌, ◌-◌, ◌/◌, ◌<◌, ◌≤◌, ◌≡◌, refl, sym, ap, ap₂, ◌∙◌, inl, inr, List, [], ◌∷◌,
  ◌++◌, Option, none, some, arith, leb, get_elem?, drop, if◌then◌else◌, drop-nil_at, drop-cons_at,
  Option-cases, Bool-cases, leb→le,
}
use velora_os.Memory.Paging.{Paging}
use velora_os.Memory.Frames.{
  Region, FrameAllocator, can_serve, skip_from, skip_to_next_usable_region, init, take_fresh,
  allocate_fresh, allocate_frame, deallocate_frame,
}

-- The free list, the next to be handed out first.
abbrev pub freed : Option (List ℕ) → List ℕ
freed none = []
freed (some frames) = frames

module _ (P : Paging) where
  -- `n` frames in a row.
  abbrev pub frames_from : ℕ → ℕ → List ℕ
  frames_from zero addr = []
  frames_from (suc n) addr = P.frame_containing addr ∷ frames_from n (addr + 4096)

  -- The frames of `[addr, end)`.
  abbrev pub frames_between : ℕ → ℕ → List ℕ
  frames_between addr end = frames_from ((end - addr + 4095) / 4096) addr

  abbrev pub usable_frames : List Region → List ℕ
  usable_frames [] = []
  usable_frames (r ∷ rs) =
      (if can_serve r then frames_between r.start_addr r.end_addr else []) ++ usable_frames rs

  abbrev pub fresh_at : List Region → ℕ → ℕ → List ℕ
  fresh_at m i addr = elim (get_elem? m i) [
    | none ↦ []
    | some r ↦ frames_between addr r.end_addr ++ usable_frames (drop (i + 1) m)
  ]

  -- All the frames that the allocator still has, in the order in which it hands them out.
  abbrev pub pool : FrameAllocator → List ℕ
  pool a = freed a.free_list ++ fresh_at a.memory_map a.region_index a.next_frame_addr

-- The cursor stands inside its region.
abbrev pub CursorIn : List Region → ℕ → ℕ → Type 0
CursorIn m i addr = (r : Region) → get_elem? m i ≡ some r → addr < r.end_addr

pub record IsValid (a : FrameAllocator) : Type 0 where
  pub cursor : CursorIn a.memory_map a.region_index a.next_frame_addr

module _ (P : Paging) where
  fresh_at-none : (m : List Region) (i addr : ℕ) → get_elem? m i ≡ none → fresh_at P m i addr ≡ []
  fresh_at-none m i addr e = rw (e, fresh_at)

  fresh_at-some :
      (m : List Region) (i addr : ℕ) (r : Region)
      → get_elem? m i ≡ some r
      → fresh_at P m i addr ≡ frames_between P addr r.end_addr ++ usable_frames P (drop (i + 1) m)
  fresh_at-some m i addr r e = rw (e, fresh_at)

  cursor_at :
      (m : List Region) (i addr : ℕ) (r : Region)
      → get_elem? m i ≡ some r
      → addr < r.end_addr
      → CursorIn m i addr
  cursor_at m i addr r e lt r' e' = let same : r ≡ r' = cc in ground arith

  skip_from_lem :
      (m rs : List Region) (i addr : ℕ)
      → drop i m ≡ rs
      → let (j, addr') = skip_from rs i addr in
        (fresh_at P m j addr' ≡ usable_frames P rs) × CursorIn m j addr'
  unfolding skip_from
  skip_from_lem m [] i addr e =
      let none_at = drop-nil_at i m e in (fresh_at-none m i addr none_at, λ r e'. cc)
  skip_from_lem m (r ∷ rs) i addr e =
      let (here, rest) = drop-cons_at i m e in
      elim (Bool-cases (can_serve r)) [
        | inl serves ↦
            rw (serves, skip_from)
              (
                fresh_at-some m i r.start_addr r here
                    ∙ ap (λ xs. frames_between P r.start_addr r.end_addr ++ usable_frames P xs)
                        rest,
                cursor_at m i r.start_addr r here (ground arith),
              )
        | inr skips ↦ rw (skips, skip_from) (skip_from_lem m rs (i + 1) addr rest)
      ]

  -- `skip_to_next_usable_region` passes over regions without a usable frame only.
  skip_lem :
      (a : FrameAllocator)
      → let b = skip_to_next_usable_region a in
        (fresh_at P b.memory_map b.region_index b.next_frame_addr
          ≡ usable_frames P (drop a.region_index a.memory_map))
        × IsValid b
  unfolding skip_to_next_usable_region
  skip_lem a =
      let (f, c) =
        skip_from_lem a.memory_map (drop a.region_index a.memory_map) a.region_index
          a.next_frame_addr refl in
      (f, record { cursor = c })

  -- `init` starts with every frame of the usable regions, each region's in order.
  pub init-pool : (m : List Region) → (pool P (init m) ≡ usable_frames P m) × IsValid (init m)
  unfolding init skip_to_next_usable_region
  init-pool m =
      skip_lem (record { memory_map = m; region_index = 0; next_frame_addr = 0; free_list = none })

  frames_between-cons :
      (addr end : ℕ)
      → addr < end
      → frames_between P addr end ≡ P.frame_containing addr ∷ frames_between P (addr + 4096) end
  frames_between-cons addr end h =
      ap (λ n. frames_from P n addr) {y = suc ((end - (addr + 4096) + 4095) / 4096)} (omega arith)

  frames_between-nil : (addr end : ℕ) → end ≤ addr → frames_between P addr end ≡ []
  frames_between-nil addr end h = ap (λ n. frames_from P n addr) {y = 0} (omega arith)

  -- The fresh path takes the first fresh frame.
  take_fresh_lem :
      (a : FrameAllocator) (r : Region)
      → IsValid a
      → get_elem? a.memory_map a.region_index ≡ some r
      → let (frame, b) = take_fresh P a r in
        (f : ℕ) × (frame ≡ some f)
        × (fresh_at P a.memory_map a.region_index a.next_frame_addr
            ≡ f ∷ fresh_at P b.memory_map b.region_index b.next_frame_addr)
        × (b.free_list ≡ a.free_list)
        × IsValid b
  unfolding take_fresh
  take_fresh_lem a r v e =
      let here = fresh_at-some a.memory_map a.region_index a.next_frame_addr r e in
      let split = frames_between-cons a.next_frame_addr r.end_addr (v.cursor r e) in
      let frame = P.frame_containing a.next_frame_addr in
      let later = usable_frames P (drop (a.region_index + 1) a.memory_map) in
      elim (Bool-cases (leb r.end_addr (a.next_frame_addr + 4096))) [
        | inl last ↦
            let (skipped, valid) = skip_lem (record a {
              region_index = a.region_index + 1;
              next_frame_addr = a.next_frame_addr + 4096;
            }) in
            rw (last, take_fresh)
              (
                frame,
                refl,
                here
                    ∙ ap (λ xs. xs ++ later)
                        (split
                          ∙ ap (λ xs. frame ∷ xs)
                              (frames_between-nil (a.next_frame_addr + 4096) r.end_addr
                                (leb→le _ _ last)))
                    ∙ ap (λ xs. frame ∷ xs) (sym skipped),
                refl,
                valid,
              )
        | inr more ↦
            rw (more, take_fresh)
              (
                frame,
                refl,
                here
                    ∙ ap (λ xs. xs ++ later) split
                    ∙ ap (λ xs. frame ∷ xs)
                        (sym (
                          fresh_at-some a.memory_map a.region_index (a.next_frame_addr + 4096) r
                            e)),
                refl,
                record {
                  cursor =
                      cursor_at a.memory_map a.region_index (a.next_frame_addr + 4096) r e
                        (ground arith);
                },
              )
      ]

  -- What `allocate_frame` may do with the pool: hand out its first frame, or find it empty.
  pub data Allocates (a : FrameAllocator) (r : Option ℕ × FrameAllocator) : Type 0 where
    exhausted : pool P a ≡ [] → r ≡ (none, a) → Allocates a r
    hands_out : (f : ℕ) → r.0 ≡ some f → pool P a ≡ f ∷ pool P r.1 → IsValid r.1 → Allocates a r

  allocate_fresh-Allocates :
      (a : FrameAllocator) → IsValid a → freed a.free_list ≡ [] → Allocates a (allocate_fresh P a)
  unfolding allocate_fresh
  allocate_fresh-Allocates a v e = elim (Option-cases (get_elem? a.memory_map a.region_index)) [
    | inl past ↦
        rw (past, allocate_fresh)
          (exhausted (rw e (fresh_at-none a.memory_map a.region_index a.next_frame_addr past)) refl)
    | inr (r, here) ↦
        let (f, ef, split, kept, valid) = take_fresh_lem a r v here in
        rw (here, allocate_fresh) (hands_out f ef (rw (kept, e) split) valid)
  ]

  on_fresh : (a : FrameAllocator) → freed a.free_list ≡ [] → allocate_frame P a ≡ allocate_fresh P a
  unfolding allocate_frame
  on_fresh a e = ground arith

  on_freed :
      (a : FrameAllocator) (f : ℕ) (fs : List ℕ)
      → freed a.free_list ≡ f ∷ fs
      → allocate_frame P a ≡ (some f, record a { free_list = some fs })
  unfolding allocate_frame
  on_freed a f fs e = ground arith

  -- `allocate_frame` hands out the first frame of the pool, and fails only where the pool is empty.
  pub allocate_frame-Allocates : (a : FrameAllocator) → IsValid a → Allocates a (allocate_frame P a)
  allocate_frame-Allocates a v = by_list (freed a.free_list) refl
    where
      by_list : (fs : List ℕ) → freed a.free_list ≡ fs → Allocates a (allocate_frame P a)
      by_list [] e = rw (on_fresh a e) (allocate_fresh-Allocates a v e)
      by_list (f ∷ fs) e = rw (on_freed a f fs e) (
          hands_out f refl
            (ap (λ xs. xs ++ fresh_at P a.memory_map a.region_index a.next_frame_addr) e)
            (record { cursor = v.cursor }))

  -- `deallocate_frame` puts the frame on top of the pool.
  pub deallocate_frame-pool :
      (f : ℕ) (a : FrameAllocator)
      → IsValid a
      → (pool P (deallocate_frame f a) ≡ f ∷ pool P a) × IsValid (deallocate_frame f a)
  unfolding deallocate_frame
  deallocate_frame-pool f a v = elim (Option-cases a.free_list) [
    | inl e ↦ rw (e, deallocate_frame) (refl, record { cursor = v.cursor })
    | inr (frames, e) ↦ rw (e, deallocate_frame) (refl, record { cursor = v.cursor })
  ]

-- Calls of the allocator, and what each allocation returns.
pub data Call : Type 0 where
  allocates : Call
  deallocates : ℕ → Call

module _ (P : Paging) where
  pub run : FrameAllocator → List Call → List (Option ℕ)
  run a [] = []
  run a (allocates ∷ cs) = let (frame, b) = allocate_frame P a in frame ∷ run b cs
  run a (deallocates f ∷ cs) = run (deallocate_frame f a) cs

-- The specification: a stack of frames.
pub run_stack : List ℕ → List Call → List (Option ℕ)
run_stack s [] = []
run_stack [] (allocates ∷ cs) = none ∷ run_stack [] cs
run_stack (f ∷ s) (allocates ∷ cs) = some f ∷ run_stack s cs
run_stack s (deallocates f ∷ cs) = run_stack (f ∷ s) cs

module _ (P : Paging) where
  -- No sequence of calls tells a valid allocator from the stack of its pool: freed frames come
  -- back first, the last one freed before the others, and then the fresh frames of the memory
  -- map, in order and once.
  pub run_refines :
      (cs : List Call) (a : FrameAllocator) → IsValid a → run P a cs ≡ run_stack (pool P a) cs
  unfolding run run_stack
  run_refines [] a v = refl
  run_refines (allocates ∷ cs) a v = by_case (run_refines cs) (allocate_frame-Allocates P a v)
    where
      by_case :
          ((b : FrameAllocator) → IsValid b → run P b cs ≡ run_stack (pool P b) cs)
          → Allocates P a (allocate_frame P a)
          → run P a (allocates ∷ cs) ≡ run_stack (pool P a) (allocates ∷ cs)
      by_case ih (exhausted e r) =
          ap (λ x. x.0 ∷ run P x.1 cs) r
          ∙ ap (λ xs. none ∷ xs) (ih a v ∙ ap (λ s. run_stack s cs) e)
          ∙ sym (ap (λ s. run_stack s (allocates ∷ cs)) e)
      by_case ih (hands_out f ef e w) =
          ap₂ ◌∷◌ ef (ih _ w) ∙ sym (ap (λ s. run_stack s (allocates ∷ cs)) e)
  run_refines (deallocates f ∷ cs) a v =
      let (e, w) = deallocate_frame-pool P f a v in
      run_refines cs (deallocate_frame f a) w ∙ ap (λ s. run_stack s cs) e
