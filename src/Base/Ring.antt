-- ===== src/Base/Ring.antt =====
-- A fixed array read as a circular buffer. `scheduler::ReadyQueue` and `keyboard::InputQueue` share
-- this shape: `head`, `len`, and an array of `cap` slots that the indices go round.
use velora_os.Base.Lists.{length, get_or, set, get_or-set_self, get_or-set_ne}
use Prim.Native.Nat.{ℕ, zero, suc, ◌+◌, ◌-◌, ◌%◌, ◌<◌, ◌≤◌}
use mathlib.Core.Path.{◌≡◌, refl, sym, ap, ap₂, ◌∙◌}
use mathlib.Core.Logic.{◌≢◌}
use mathlib.Core.List.{List, [], ◌∷◌, ◌++◌}
use native.Mathlib.Omega.{arith}
use native.Mathlib.Nat.{mod-add-mod, mod-mod, mod-lt}

-- Two indices less than one turn apart name different slots.
pub turn_ne : (cap i k : ℕ) → 0 < k → k < cap → i % cap ≢ (i + k) % cap
turn_ne cap i k hp hk = λ e. grind arith

module _ {ℓ} {A : Type ℓ} (d : A) (cap : ℕ) where
  -- The `n` entries from slot `i` on, going round at `cap`, the oldest first.
  abbrev pub entries : List A → ℕ → ℕ → List A
  entries xs i zero = []
  entries xs i (suc n) = get_or xs (i % cap) d ∷ entries xs (i + 1) n

  pub length-entries : (xs : List A) (i n : ℕ) → length (entries xs i n) ≡ n
  length-entries xs i zero = refl
  length-entries xs i (suc n) = ap suc (length-entries xs (i + 1) n)

  -- A write to a slot that no entry occupies is not seen.
  entries-set :
      (xs : List A) (i n k : ℕ) (v : A)
      → ((j : ℕ) → j < n → k ≢ (i + j) % cap)
      → entries (set xs k v) i n ≡ entries xs i n
  entries-set xs i zero k v h = refl
  entries-set xs i (suc n) k v h =
      ap₂ ◌∷◌
        (get_or-set_ne xs k (i % cap) v d
          (λ e. h 0 (omega arith) (e ∙ ap (λ t. t % cap) (omega arith))))
        (entries-set xs (i + 1) n k v
          (λ j lt e. h (suc j) (omega arith) (e ∙ ap (λ t. t % cap) (omega arith))))

  -- One more entry at the end.
  entries-suc :
      (xs : List A) (i n : ℕ)
      → entries xs i (suc n) ≡ entries xs i n ++ (get_or xs ((i + n) % cap) d ∷ [])
  entries-suc xs i zero = ap (λ t. get_or xs (t % cap) d ∷ []) (omega arith)
  entries-suc xs i (suc n) =
      ap (λ es. get_or xs (i % cap) d ∷ es)
        (entries-suc xs (i + 1) n
          ∙ ap (λ t. entries xs (i + 1) n ++ (get_or xs (t % cap) d ∷ [])) (omega arith))

  -- Writing the slot just past the entries appends to them.
  pub entries-push :
      (xs : List A) (i n : ℕ) (v : A)
      → cap ≤ length xs
      → n < cap
      → entries (set xs ((i + n) % cap) v) i (suc n) ≡ entries xs i n ++ (v ∷ [])
  entries-push xs i n v hs hn =
      entries-suc (set xs ((i + n) % cap) v) i n
      ∙ ap₂ (λ es w. es ++ (w ∷ []))
          (entries-set xs i n ((i + n) % cap) v (λ j lt e.
            turn_ne cap (i + j) (n - j) (omega arith) (omega arith)
              (sym e ∙ ap (λ t. t % cap) (omega arith))))
          (get_or-set_self xs ((i + n) % cap) v d
            (omega (arith, mod-lt (i + n) {m = cap} (omega arith))))

  -- The entries depend on the first index only up to whole turns.
  pub entries-mod : (xs : List A) (i n : ℕ) → entries xs (i % cap) n ≡ entries xs i n
  entries-mod xs i n = go n (i % cap) i (mod-mod i cap)
    where
      go : (n i j : ℕ) → i % cap ≡ j % cap → entries xs i n ≡ entries xs j n
      go zero i j e = refl
      go (suc n) i j e = ap₂ ◌∷◌ (ap (λ t. get_or xs t d) e) (
          go n (i + 1) (j + 1)
            (sym (mod-add-mod i cap 1) ∙ ap (λ t. (t + 1) % cap) e ∙ mod-add-mod j cap 1))
