-- ===== src/Base/Count.antt =====
-- Counting the entries of a list of numbers slot by slot.
use velora_os.Base.Lists.{length, count}
use velora_os.Base.Tests.{◌==◌, ltb, if◌then◌else◌}
use Prim.Native.Nat.{ℕ, zero, suc, ◌+◌, ◌≤◌}
use mathlib.Core.Path.{◌≡◌, refl}
use mathlib.Core.List.{List, [], ◌∷◌}
use native.Mathlib.Omega.{arith}

-- 1 for the slot itself, 0 for every other.
abbrev pub one_at : ℕ → ℕ → ℕ
one_at x i = if x == i then 1 else 0

-- The entries below `n`, counted slot by slot.
pub total : ℕ → List ℕ → ℕ
total zero xs = 0
total (suc n) xs = total n xs + count n xs

total-nil : (n : ℕ) → total n [] ≡ 0
unfolding total
total-nil zero = refl
total-nil (suc n) = omega (arith, total-nil n)

total-cons : (n x : ℕ) (xs : List ℕ) → total n (x ∷ xs) ≡ total n xs + (if ltb x n then 1 else 0)
unfolding total
total-cons zero x xs = ground arith
total-cons (suc n) x xs = ground (arith, total-cons n x xs)

-- Where no entry lies past `n`, the slots below `n` hold the whole list.
pub total-length :
    (n : ℕ) (xs : List ℕ) → ((i : ℕ) → n ≤ i → count i xs ≡ 0) → total n xs ≡ length xs
total-length n [] h = total-nil n
total-length n (x ∷ xs) h =
    ground (arith, total-cons n x xs, h x, total-length n xs (λ i le. omega (arith, h i le)))

-- Where no slot holds two entries, and slot `c` none, there is room for one more below `n`.
pub total_room :
    (n c : ℕ) (xs : List ℕ)
    → ((i : ℕ) → count i xs + one_at c i ≤ 1)
    → total n xs + (if ltb c n then 1 else 0) ≤ n
unfolding total
total_room zero c xs h = ground arith
total_room (suc n) c xs h = ground (arith, h n, total_room n c xs h)
