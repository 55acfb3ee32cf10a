-- ===== src/Prelude/Int.antt =====
-- Go's `int`, as an integer: `negsuc n` is -(n + 1).
use Prim.Native.Nat.{ℕ, zero, suc}
use mathlib.Core.Bool.{Bool, true, false}

pub data ℤ : Type 0 where
  pos : ℕ → ℤ
  negsuc : ℕ → ℤ

-- `d < 0`
abbrev pub is_negative : ℤ → Bool
is_negative (pos n) = false
is_negative (negsuc n) = true

-- `d - 1`
abbrev pub less_one : ℤ → ℤ
less_one (pos zero) = negsuc zero
less_one (pos (suc n)) = pos n
less_one (negsuc n) = negsuc (suc n)

-- `d + 1`
abbrev pub plus_one : ℤ → ℤ
plus_one (pos n) = pos (suc n)
plus_one (negsuc zero) = pos zero
plus_one (negsuc (suc n)) = negsuc n

-- -n
abbrev pub minus : ℕ → ℤ
minus zero = pos zero
minus (suc n) = negsuc n
