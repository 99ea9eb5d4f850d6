-- ===== src/Scheduler/Files/Laws.antt =====
-- What the descriptor table promises: a file reads back in full, in order, and once.
use velora_os.Base.{
  ℕ, zero, suc, ◌+◌, ◌-◌, ◌<◌, ◌≤◌, ◌≡◌, ◌≢◌, refl, sym, ap, ◌∙◌, inl, inr, min, true, false, List,
  [], ◌∷◌, ◌++◌, Option, none, some, ok, Outcome, ◌>>=◌, arith, length, take, drop, set, get_or,
  get_or-set, get_or-set_self, get_or-set_ne, length-drop, length-set, position, le→leb,
  take-length, drop-length, take-add, drop-drop, checked_sub_add, Option-cases,
}
use velora_os.Scheduler.State.{Thread, OpenFile, is_none, first_file_fd, max_open_files}
use velora_os.Scheduler.Files.{open_file, read_open_file, close_file, file_at}

-- A table of four slots, with every read position within its file.
pub record IsValid (t : Thread) : Type 0 where
  pub slots : length t.open_files ≡ max_open_files
  pub within : (i : ℕ) (f : OpenFile) → file_at t i ≡ some f → f.offset ≤ length f.bytes

file-lt :
    (fs : List (Option OpenFile)) (i : ℕ) (f : OpenFile) → get_or fs i none ≡ some f → i < length fs
file-lt [] i f e = cc
file-lt (g ∷ fs) zero f e = omega arith
file-lt (g ∷ fs) (suc i) f e = omega (arith, file-lt fs i f e)

free_slot :
    (fs : List (Option OpenFile)) (i : ℕ)
    → position is_none fs ≡ some i
    → (i < length fs) × (get_or fs i none ≡ none)
unfolding is_none
free_slot [] i h = cc
free_slot (none ∷ fs) zero h = (omega arith, refl)
free_slot (none ∷ fs) (suc i) h = cc
free_slot (some f ∷ fs) zero h = ground arith
free_slot (some f ∷ fs) (suc i) h = ground (arith, free_slot fs i)

no_free_slot :
    (fs : List (Option OpenFile)) (i : ℕ)
    → position is_none fs ≡ none
    → i < length fs
    → (f : OpenFile) × (get_or fs i none ≡ some f)
unfolding is_none
no_free_slot [] i e h = elim h [ ]
no_free_slot (none ∷ fs) i e h = cc
no_free_slot (some f ∷ fs) zero e h = (f, refl)
no_free_slot (some f ∷ fs) (suc i) e h = no_free_slot fs i (ground arith) (omega arith)

-- A write to a slot keeps the table valid, if what it writes is.
write-IsValid :
    (t : Thread) (slot : ℕ) (o : Option OpenFile)
    → IsValid t
    → slot < length t.open_files
    → ((f : OpenFile) → o ≡ some f → f.offset ≤ length f.bytes)
    → IsValid (record t { open_files = set t.open_files slot o })
write-IsValid t slot o v lt h = record {
  slots = omega (arith, v.slots, length-set t.open_files slot o);
  within = λ i f e. ground (arith, h f, v.within i f, get_or-set t.open_files slot i o none lt);
}

abbrev fresh_file : List ℕ → OpenFile
fresh_file bytes = record { bytes = bytes; offset = 0 }

-- What `open_file` may do: refuse where every slot holds a file, or take a free slot.
pub data Opens (bytes : List ℕ) (t : Thread) (r : Option ℕ × Thread) : Type 0 where
  table_full :
      ((i : ℕ) → i < max_open_files → (f : OpenFile) × (file_at t i ≡ some f))
      → r ≡ (none, t)
      → Opens bytes t r
  opens :
      (slot : ℕ)
      → slot < max_open_files
      → file_at t slot ≡ none
      → r.0 ≡ some (slot + first_file_fd)
      → IsValid r.1
      → file_at r.1 slot ≡ some (record { bytes = bytes; offset = 0 })
      → ((i : ℕ) → i ≢ slot → file_at r.1 i ≡ file_at t i)
      → Opens bytes t r

abbrev pub or_empty : Option (List ℕ) → List ℕ
or_empty none = []
or_empty (some bs) = bs

abbrev pub sum : List ℕ → ℕ
sum [] = 0
sum (n ∷ ns) = n + sum ns

-- On a valid file table `open_file` refuses only where all four slots hold files; else it returns
-- the descriptor of a slot that was free, which now holds the whole file, at its start, the table
-- stays valid, and the other files stay.
pub open_file-Opens : (bytes : List ℕ) {t : Thread} → IsValid t → Opens bytes t (open_file bytes t)
unfolding open_file
open_file-Opens bytes {t} v = elim (Option-cases (position is_none t.open_files)) [
  | inl e ↦
      rw (e, open_file)
        (table_full (λ i lt. no_free_slot t.open_files i e (omega (arith, v.slots))) refl)
  | inr (slot, e) ↦
      let (lt, free) = free_slot t.open_files slot e in
      rw (e, open_file)
        (opens slot (omega (arith, v.slots)) free refl
          (write-IsValid t slot (some (fresh_file bytes)) v lt (λ f e'. ground arith))
          (get_or-set_self t.open_files slot (some (fresh_file bytes)) none lt)
          (λ i ne.
            get_or-set_ne t.open_files slot i (some (fresh_file bytes)) none (λ e'. ne (sym e'))))
]

-- The file, after a read of at most `n` bytes.
abbrev pub advance : ℕ → OpenFile → OpenFile
advance n f = record f { offset = f.offset + min (length f.bytes - f.offset) n }

abbrev pub with_file : Thread → ℕ → OpenFile → Thread
with_file t slot f = record t { open_files = set t.open_files slot (some f) }

-- A read of an open file never panics: it returns the next bytes, at most `n`, and moves past them.
pub read_open_file-ok :
    {t : Thread} (slot n : ℕ) (f : OpenFile)
    → IsValid t
    → file_at t slot ≡ some f
    → (read_open_file (slot + first_file_fd) n t
        ≡ ok (some (take n (drop f.offset f.bytes)), with_file t slot (advance n f)))
      × IsValid (with_file t slot (advance n f))
unfolding read_open_file
read_open_file-ok {t} slot n f v e =
    let inside = v.within slot f e in
    (
      rw
          (
            checked_sub_add slot first_file_fd,
            e,
            le→leb f.offset (length f.bytes) inside,
            take-length (drop f.offset f.bytes) n,
            length-drop f.offset f.bytes,
            read_open_file,
          )
          refl,
      write-IsValid t slot (some (advance n f)) v (file-lt t.open_files slot f e)
          (λ g e'. ground (arith, inside)),
    )

-- Several reads in a row, each with the size of its buffer: the bytes that they return, in order.
pub reads : ℕ → List ℕ → Thread → Outcome (List ℕ × Thread)
reads fd [] t = ok ([], t)
reads fd (n ∷ ns) t = do
  (got, t') ← read_open_file fd n t
  (rest, t'') ← reads fd ns t'
  ok (or_empty got ++ rest, t'')

advance-left :
    (n : ℕ) (f : OpenFile)
    → f.offset ≤ length f.bytes
    → drop (advance n f).offset f.bytes ≡ drop n (drop f.offset f.bytes)
advance-left n f h =
    sym (drop-drop f.offset (min (length f.bytes - f.offset) n) f.bytes)
    ∙ ap (λ k. drop (min k n) (drop f.offset f.bytes)) (sym (length-drop f.offset f.bytes))
    ∙ drop-length (drop f.offset f.bytes) n

-- On a valid file table, reading an open file in pieces of any sizes never panics and returns the
-- bytes from the read position on, each once and in order, as many as the sizes add up to.
pub reads-stream :
    (slot : ℕ) (ns : List ℕ) (t : Thread) (f : OpenFile)
    → IsValid t
    → file_at t slot ≡ some f
    → (t' : Thread) × (reads (slot + first_file_fd) ns t
        ≡ ok (take (sum ns) (drop f.offset f.bytes), t'))
unfolding reads
reads-stream slot [] t f v e = (t, refl)
reads-stream slot (n ∷ ns) t f v e =
    let (r, v') = read_open_file-ok slot n f v e in
    let (t', rest) = reads-stream slot ns (with_file t slot (advance n f)) (advance n f) v' (
      get_or-set_self t.open_files slot (some (advance n f)) none
        (file-lt t.open_files slot f e)) in
    (
      t',
      rw (r, rest, advance-left n f (v.within slot f e))
          (ap (λ bs. ok (bs, t')) (sym (take-add n (sum ns) (drop f.offset f.bytes)))),
    )

abbrev pub without_file : Thread → ℕ → Thread
without_file t slot = record t { open_files = set t.open_files slot none }

close-open :
    (t : Thread) (slot : ℕ) (f : OpenFile)
    → file_at t slot ≡ some f
    → close_file (slot + first_file_fd) t ≡ (true, without_file t slot)
unfolding close_file
close-open t slot f e = rw (checked_sub_add slot first_file_fd, e, close_file)

close-none :
    (t : Thread) (slot : ℕ)
    → file_at t slot ≡ none
    → close_file (slot + first_file_fd) t ≡ (false, t)
unfolding close_file
close-none t slot e = rw (checked_sub_add slot first_file_fd, e, close_file)

-- On a valid file table, closing an open descriptor succeeds and frees its slot, so that a second
-- close of it fails; the table stays valid, and the other files stay.
pub close_file-ok :
    {t : Thread} (slot : ℕ) (f : OpenFile)
    → IsValid t
    → file_at t slot ≡ some f
    → (t' : Thread) × (close_file (slot + first_file_fd) t ≡ (true, t'))
      × IsValid t'
      × (file_at t' slot ≡ none)
      × (close_file (slot + first_file_fd) t' ≡ (false, t'))
      × ((i : ℕ) → i ≢ slot → file_at t' i ≡ file_at t i)
close_file-ok {t} slot f v e =
    let lt = file-lt t.open_files slot f e in
    let gone = get_or-set_self t.open_files slot none none lt in
    (
      without_file t slot,
      close-open t slot f e,
      write-IsValid t slot none v lt (λ g e'. cc),
      gone,
      close-none (without_file t slot) slot gone,
      λ i ne. get_or-set_ne t.open_files slot i none none (λ e'. ne (sym e')),
    )
