-- ===== src/Base/Words.antt =====
-- Checked arithmetic on 64-bit words: `u64` and `usize`.
use velora_os.Base.Tests.{ltb, if◌then◌else◌}
use Prim.Native.Nat.{ℕ, ◌+◌, ◌-◌, ◌*◌, ◌^◌, ◌<◌}
use mathlib.Core.Path.{◌≡◌}
use mathlib.Core.Option.{Option, none, some}
use native.Mathlib.Omega.{arith}

abbrev pub u64_mod : ℕ
u64_mod = 2 ^ 64

unfoldable pub checked_sub : ℕ → ℕ → Option ℕ
checked_sub a b = if ltb a b then none else some (a - b)

unfoldable pub checked_add : ℕ → ℕ → Option ℕ
checked_add a b = if ltb (a + b) u64_mod then some (a + b) else none

unfoldable pub checked_mul : ℕ → ℕ → Option ℕ
checked_mul a b = if ltb (a * b) u64_mod then some (a * b) else none

pub checked_sub_add : (a b : ℕ) → checked_sub (a + b) b ≡ some a
unfolding checked_sub
checked_sub_add a b = ground arith

pub checked_sub_lt : (a b : ℕ) → a < b → checked_sub a b ≡ none
unfolding checked_sub
checked_sub_lt a b h = ground arith

pub checked_add-some : (a b : ℕ) {c : ℕ} → checked_add a b ≡ some c → (c ≡ a + b) × (c < u64_mod)
unfolding checked_add
checked_add-some a b h = ground arith

pub checked_add_fits : (a b : ℕ) → a + b < u64_mod → checked_add a b ≡ some (a + b)
unfolding checked_add
checked_add_fits a b h = ground arith
