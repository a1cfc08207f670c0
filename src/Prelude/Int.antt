-- ===== src/Prelude/Int.antt =====
-- Python's integers: signed numbers over the native numbers.
use Prim.Native.Nat.{ℕ, suc, ◌*◌, ◌-◌, ◌^◌}
use mathlib.Core.Bool.{Bool, false}
use dropbox_governed_executi.Prelude.Tests.{nat_eq, leb}

-- `negsuc n` is -(n + 1).
pub data ℤ : Type 0 where
  pos : ℕ → ℤ
  negsuc : ℕ → ℤ

abbrev pub int_eq : ℤ → ℤ → Bool
int_eq (pos a) (pos b) = nat_eq a b
int_eq (negsuc a) (negsuc b) = nat_eq a b
int_eq _ _ = false

-- `n <= z`, for a number `n` that is not negative.
abbrev pub at_least : ℕ → ℤ → Bool
at_least n (pos a) = leb n a
at_least n (negsuc a) = false

-- `z * 2 ** k`
unfoldable pub scale : ℤ → ℕ → ℤ
scale (pos n) k = pos (n * 2 ^ k)
scale (negsuc n) k = negsuc (suc n * 2 ^ k - 1)
