-- ===== src/Shared/Int.antt =====
-- Signed integers over the native numbers, under the library's name. A socket id, a member token, an
-- error code and an `i64` option are signed in the program.
use Prim.Native.Nat.{ℕ}
use mathlib.Core.Path.{◌≡◌}
use mathlib.Core.Logic.{◌↔◌}
use mathlib.Core.Bool.{Bool, true, false}
use native.Mathlib.Omega.{arith}
use bilbycast_libsrt_rs.Shared.Tests.{ltb, ◌==◌}

-- `negsuc n` is -(n + 1).
pub data ℤ : Type 0 where
  pos : ℕ → ℤ
  negsuc : ℕ → ℤ

-- The value of a nonnegative integer.
abbrev pub pos_part : ℤ → ℕ
pos_part (pos n) = n
pos_part (negsuc n) = 0

-- `a == b` of two signed integers.
abbrev pub eqb : ℤ → ℤ → Bool
eqb (pos a) (pos b) = a == b
eqb (negsuc a) (negsuc b) = a == b
eqb _ _ = false

-- `a >= 0`
abbrev pub is_nonneg : ℤ → Bool
is_nonneg (pos a) = true
is_nonneg (negsuc a) = false

-- `a > 0`
abbrev pub is_positive : ℤ → Bool
is_positive (pos a) = ltb 0 a
is_positive (negsuc a) = false

pub eqb_iff : (a b : ℤ) → (eqb a b ≡ true) ↔ (a ≡ b)
eqb_iff (pos a) (pos b) = ground arith
eqb_iff (negsuc a) (negsuc b) = ground arith
eqb_iff (pos a) (negsuc b) = ground arith
eqb_iff (negsuc a) (pos b) = ground arith

pub eqb_refl : (a : ℤ) → eqb a a ≡ true
eqb_refl (pos a) = ground arith
eqb_refl (negsuc a) = ground arith
