-- ===== src/Keyboard/Laws.antt =====
-- The input queue is a FIFO of at most 128 bytes that keeps the oldest and drops what does not fit.
use velora_os.Base.{
  ℕ, zero, suc, ◌+◌, ◌-◌, ◌%◌, ◌<◌, ◌≤◌, ◌≡◌, ◌⊎◌, inl, inr, refl, sym, ap, ◌∙◌, Bool, true, false,
  List, [], ◌∷◌, ◌++◌, Option, none, some, Outcome, ok, ◌>>=◌, >>=-ok, arith, length, take, set,
  length-set, get_or, get_elem?-get_or, length-replicate, append-nil, append_assoc, Bool-cases, ltb,
  if◌then◌else◌,
}
use velora_os.Base.Ring.{entries, entries-push, entries-mod, length-entries}
use velora_os.Keyboard.{
  InputQueue, new, push, pop, push_all, handle_key, contents, IsValid, DecodedKey, unicode, raw_key,
  ansi_escape_sequence, is_modifier, store,
}

pub length-contents : (q : InputQueue) → length (contents q) ≡ q.len
length-contents q = length-entries 0 128 q.bytes q.head q.len

-- A fresh queue is valid and empty.
pub new-IsValid : IsValid new × (contents new ≡ [])
unfolding new
new-IsValid = (omega (arith, length-replicate {A = ℕ} 128 0), refl)

abbrev pushed : InputQueue → ℕ → InputQueue
pushed q byte = record q { bytes = set q.bytes ((q.head + q.len) % 128) byte; len = q.len + 1 }

pushed-contents :
    (q : InputQueue) (byte : ℕ)
    → IsValid q
    → q.len < 128
    → contents (pushed q byte) ≡ contents q ++ (byte ∷ [])
pushed-contents q byte v h =
    ap (entries 0 128 (set q.bytes ((q.head + q.len) % 128) byte) q.head) {y = suc q.len}
      (omega arith)
    ∙ entries-push 0 128 q.bytes q.head q.len byte (omega arith) h

push-room : (q : InputQueue) (byte : ℕ) → IsValid q → q.len < 128 → push byte q ≡ ok (pushed q byte)
unfolding push store
push-room q byte v h = ground arith

push-full : (q : InputQueue) (byte : ℕ) → q.len ≡ 128 → push byte q ≡ ok q
unfolding push
push-full q byte e = ground arith

take-fits : (xs : List ℕ) (n : ℕ) → length xs ≤ n → take n xs ≡ xs
take-fits [] zero h = refl
take-fits [] (suc n) h = refl
take-fits (x ∷ xs) zero h = elim h [ ]
take-fits (x ∷ xs) (suc n) h = ap (λ ys. x ∷ ys) (take-fits xs n (omega arith))

take-long : (xs ys : List ℕ) → take (length xs) (xs ++ ys) ≡ xs
take-long [] ys = ground arith
take-long (x ∷ xs) ys = ap (λ zs. x ∷ zs) (take-long xs ys)

-- The specification of a push: append, and keep the first 128.
abbrev pub Pushes : InputQueue → List ℕ → InputQueue → Type 0
Pushes q bs q' = IsValid q' × (contents q' ≡ take 128 (contents q ++ bs))

full-take : (q : InputQueue) (bs : List ℕ) → q.len ≡ 128 → contents q ≡ take 128 (contents q ++ bs)
full-take q bs e =
    sym (take-long (contents q) bs) ∙ ap (λ n. take n (contents q ++ bs)) (length-contents q ∙ e)

-- Bytes pushed one after the other into a valid queue are appended as far as they fit: there is
-- no panic, every unread byte stays, and the rest is dropped.
pub push_all-Pushes :
    (bs : List ℕ) (q : InputQueue)
    → IsValid q
    → (q' : InputQueue) × (push_all bs q ≡ ok q') × Pushes q bs q'
unfolding push_all
push_all-Pushes [] q v = (
  q,
  refl,
  (
    v,
    sym (
        ap (take 128) (append-nil (contents q))
        ∙ take-fits (contents q) 128 (omega (arith, length-contents q, v.len_in))),
  ),
)
push_all-Pushes (b ∷ bs) q v = elim (Bool-cases (ltb q.len 128)) [
  | inl e ↦
      let lt : q.len < 128 = ground arith in
      let next : IsValid (pushed q b) = record {
        slots = omega (arith, v.slots, length-set q.bytes ((q.head + q.len) % 128) b);
        head_in = v.head_in;
        len_in = omega arith;
      } in
      let (q', run, (w, c)) = push_all-Pushes bs (pushed q b) next in
      (
        q',
        ap (λ m. m >>= push_all bs) (push-room q b v lt) ∙ run,
        (
          w,
          c
              ∙ ap (λ xs. take 128 (xs ++ bs)) (pushed-contents q b v lt)
              ∙ ap (take 128) (append_assoc (contents q) (b ∷ []) bs),
        ),
      )
  | inr e ↦
      let is_full : q.len ≡ 128 = ground (arith, v.len_in) in
      let (q', run, (w, c)) = push_all-Pushes bs q v in
      (
        q',
        ap (λ m. m >>= push_all bs) (push-full q b is_full) ∙ run,
        (w, c ∙ sym (full-take q bs is_full) ∙ full-take q (b ∷ bs) is_full),
      )
]

abbrev or_empty : Option (List ℕ) → List ℕ
or_empty none = []
or_empty (some bs) = bs

-- The bytes that a key stands for: an ASCII character, or the escape sequence of a key without one.
abbrev pub key_bytes : DecodedKey → List ℕ
key_bytes (unicode c) = if ltb c 128 then c ∷ [] else []
key_bytes (raw_key k) = if is_modifier k then [] else or_empty (ansi_escape_sequence k)

-- What is echoed to the screen.
abbrev pub echoed : DecodedKey → Option ℕ
echoed (unicode c) = some c
echoed (raw_key k) = none

handle_key-runs :
    (key : DecodedKey) (q q' : InputQueue)
    → push_all (key_bytes key) q ≡ ok q'
    → handle_key key q ≡ ok (echoed key, q')
unfolding handle_key push_all
handle_key-runs (unicode c) q q' e =
    ap (λ m. m >>= (λ r. ok (some c, r))) (by_range (ltb c 128) ∙ e)
  where
    by_range : (b : Bool) → (if b then push c q else ok q) ≡ push_all (if b then c ∷ [] else []) q
    by_range true = sym (>>=-ok (push c q))
    by_range false = refl
handle_key-runs (raw_key k) q q' e = by_key (is_modifier k) (ansi_escape_sequence k) e
  where
    silent : InputQueue → Outcome (Option ℕ × InputQueue)
    silent r = ok (none, r)

    by_key :
        (b : Bool) (o : Option (List ℕ))
        → push_all (if b then [] else or_empty o) q ≡ ok q'
        → (if b then silent q else elim o as (λ _. Outcome (Option ℕ × InputQueue)) [
          | none ↦ silent q
          | some sequence ↦ push_all sequence q >>= silent
        ])
          ≡ silent q'
    by_key true o h = ap (λ m. m >>= silent) h
    by_key false none h = ap (λ m. m >>= silent) h
    by_key false (some sequence) h = ap (λ m. m >>= silent) h

-- On a valid queue every key is handled without a panic: a character is echoed, and the bytes
-- that the key stands for join the queue as far as they fit.
pub handle_key-Pushes :
    (key : DecodedKey) (q : InputQueue)
    → IsValid q
    → (q' : InputQueue) × (handle_key key q ≡ ok (echoed key, q')) × Pushes q (key_bytes key) q'
handle_key-Pushes key q v =
    let (q', run, p) = push_all-Pushes (key_bytes key) q v in (q', handle_key-runs key q q' run, p)

abbrev popped : InputQueue → InputQueue
popped q = record q { head = (q.head + 1) % 128; len = q.len - 1 }

popped-contents :
    (q : InputQueue) (n : ℕ)
    → q.head < 128
    → q.len ≡ suc n
    → contents q ≡ get_or q.bytes q.head 0 ∷ contents (popped q)
popped-contents q n h e =
    ap (entries 0 128 q.bytes q.head) e
    ∙ ap (λ k. get_or q.bytes k 0 ∷ entries 0 128 q.bytes (q.head + 1) n) (omega arith)
    ∙ ap (λ es. get_or q.bytes q.head 0 ∷ es) (sym (entries-mod 0 128 q.bytes (q.head + 1) n))
    ∙ ap (λ k. get_or q.bytes q.head 0 ∷ entries 0 128 q.bytes ((q.head + 1) % 128) k) (omega arith)

-- What `pop` may return.
abbrev pub Pops : InputQueue → Type 0
Pops q =
    ((contents q ≡ []) × (pop q ≡ ok (none, q)))
    ⊎ ((byte : ℕ) × (r : InputQueue) × (pop q ≡ ok (some byte, r))
        × IsValid r
        × (contents q ≡ byte ∷ contents r))

pop_cases : (q : InputQueue) (n : ℕ) → q.len ≡ n → IsValid q → Pops q
unfolding pop
pop_cases q zero e v = inl (ap (entries 0 128 q.bytes q.head) e, ground arith)
pop_cases q (suc n) e v = inr (
  get_or q.bytes q.head 0,
  popped q,
  ground (arith, get_elem?-get_or q.bytes q.head 0),
  omega arith,
  popped-contents q n v.head_in e,
)

-- On a valid queue `pop` never panics: it takes the oldest unread byte, and returns `None` only
-- where there is none.
pub pop-Pops : (q : InputQueue) → IsValid q → Pops q
pop-Pops q v = pop_cases q q.len refl v
