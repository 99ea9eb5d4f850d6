-- ===== src/Fs/Names.antt =====
-- 8.3 names: the upper-case base padded to eight bytes, then the upper-case extension padded to three.
use velora_os.Base.{
  ℕ, zero, suc, ◌+◌, ◌-◌, ◌≤◌, ◌≡◌, refl, sym, ap, ap₂, ◌∙◌, inl, inr, Bool, false, ◌||◌, List, [],
  ◌∷◌, ◌++◌, none, some, arith, ltb, ◌==◌, Bool-cases, length, length-append, length-map, map, set,
  drop, replicate, append_assoc, append-nil, length-replicate, if◌then◌else◌,
}
use velora_os.Fs.Volume.{to_fat_83, to_ascii_uppercase, write_upper, name_parts}

abbrev pub spaces : ℕ → List ℕ
spaces n = replicate n b' '

-- Spaces up to `n` bytes.
abbrev pub padded : ℕ → List ℕ → List ℕ
padded n xs = xs ++ spaces (n - length xs)

set-append :
    (pre rest : List ℕ) (x v : ℕ) → set (pre ++ (x ∷ rest)) (length pre) v ≡ pre ++ (v ∷ rest)
set-append [] rest x v = refl
set-append (p ∷ pre) rest x v = ap (λ xs. p ∷ xs) (set-append pre rest x v)

-- Where the loop writes, and what it leaves.
write_upper-at :
    (bs pre rest : List ℕ)
    → length bs ≤ length rest
    → write_upper (pre ++ rest) (length pre) bs
      ≡ pre ++ (map to_ascii_uppercase bs ++ drop (length bs) rest)
unfolding write_upper
write_upper-at [] pre rest h = refl
write_upper-at (b ∷ bs) pre [] h = elim h [ ]
write_upper-at (b ∷ bs) pre (r ∷ rest) h =
    let u : ℕ = to_ascii_uppercase b in
    ap₂ (λ name at. write_upper name at bs) {u = length pre + 1} {v = length (pre ++ (u ∷ []))}
      (set-append pre rest r u ∙ sym (append_assoc pre (u ∷ []) rest))
      (omega (arith, length-append pre (u ∷ [])))
    ∙ write_upper-at bs (pre ++ (u ∷ [])) rest (omega arith)
    ∙ append_assoc pre (u ∷ []) (map to_ascii_uppercase bs ++ drop (length bs) rest)

drop-replicate : (k n : ℕ) → drop k (spaces (k + n)) ≡ spaces n
drop-replicate zero n = ap (λ m. spaces m) (omega arith)
drop-replicate (suc k) n =
    ap (λ m. drop (suc k) (spaces m)) {y = suc (k + n)} (omega arith) ∙ drop-replicate k n

replicate-add : (m n : ℕ) → spaces (m + n) ≡ spaces m ++ spaces n
replicate-add zero n = ap (λ k. spaces k) (omega arith)
replicate-add (suc m) n =
    ap (λ k. spaces k) {y = suc (m + n)} (omega arith) ∙ ap (λ xs. b' ' ∷ xs) (replicate-add m n)

spaces_after :
    (xs : List ℕ) (n k : ℕ)
    → length xs ≤ n
    → drop (length xs) (spaces (n + k)) ≡ spaces (n - length xs) ++ spaces k
spaces_after xs n k h =
    ap (λ m. drop (length xs) (spaces m)) {y = length xs + (n - length xs + k)} (omega arith)
    ∙ drop-replicate (length xs) (n - length xs + k)
    ∙ replicate-add (n - length xs) k

length-padded : (n : ℕ) (xs : List ℕ) → length xs ≤ n → length (padded n xs) ≡ n
length-padded n xs h = omega (
  arith,
  length-append xs (spaces (n - length xs)),
  length-replicate {A = ℕ} (n - length xs) b' ',
)

written :
    (base ext : List ℕ)
    → length base ≤ 8
    → length ext ≤ 3
    → write_upper (write_upper (spaces 11) 0 base) 8 ext
      ≡ padded 8 (map to_ascii_uppercase base) ++ padded 3 (map to_ascii_uppercase ext)
written base ext hb he =
    let ub = map to_ascii_uppercase base in
    let ue = map to_ascii_uppercase ext in
    let lb : length ub ≡ length base = length-map base to_ascii_uppercase in
    let le : length ue ≡ length ext = length-map ext to_ascii_uppercase in
    let first : write_upper (spaces 11) 0 base ≡ padded 8 ub ++ spaces 3 =
      write_upper-at base [] (spaces 11) (omega (arith, length-replicate {A = ℕ} 11 b' '))
      ∙ ap (λ xs. ub ++ xs)
          (spaces_after base 8 3 hb ∙ ap (λ k. spaces (8 - k) ++ spaces 3) (sym lb))
      ∙ sym (append_assoc ub (spaces (8 - length ub)) (spaces 3)) in
    ap₂ (λ name at. write_upper name at ext) {u = 8} {v = length (padded 8 ub)} first
      (omega (arith, length-padded 8 ub, lb))
    ∙ write_upper-at ext (padded 8 ub) (spaces 3) (omega (arith, length-replicate {A = ℕ} 3 b' '))
    ∙ ap (λ xs. padded 8 ub ++ (ue ++ xs))
        (spaces_after ext 3 0 he
          ∙ append-nil (spaces (3 - length ext))
          ∙ ap (λ k. spaces (3 - k)) (sym le))

-- A name whose base is empty or longer than eight bytes, or whose extension is longer than three, has
-- no 8.3 form; any other has the upper-case base and extension, padded with spaces to eight and three
-- bytes.
pub to_fat_83-padded :
    (name : List ℕ)
    → let parts = name_parts name in
      to_fat_83 name ≡ (
        if length parts.0 == 0 || (ltb 8 (length parts.0) || ltb 3 (length parts.1))
        then none
        else some (
            padded 8 (map to_ascii_uppercase parts.0) ++ padded 3 (map to_ascii_uppercase parts.1)))
unfolding to_fat_83
to_fat_83-padded name = by_fit (name_parts name).0 (name_parts name).1
  where
    unfit : List ℕ → List ℕ → Bool
    unfit base ext = length base == 0 || (ltb 8 (length base) || ltb 3 (length ext))

    fits : (base ext : List ℕ) → unfit base ext ≡ false → (length base ≤ 8) × (length ext ≤ 3)
    fits base ext e = ground arith

    by_fit :
        (base ext : List ℕ)
        → (if unfit base ext
            then none
            else some (write_upper (write_upper (spaces 11) 0 base) 8 ext))
          ≡ (if unfit base ext
              then none
              else some
                  (padded 8 (map to_ascii_uppercase base) ++ padded 3 (map to_ascii_uppercase ext)))
    by_fit base ext = elim (Bool-cases (unfit base ext)) [
      | inl e ↦ rw e refl
      | inr e ↦ let (hb, he) = fits base ext e in rw (e, written base ext hb he) refl
    ]
