-- ===== src/Base/Words.antt =====
-- Machine words as native numbers, and the `s32` results that the functions return.
use Prim.Native.Nat.{ℕ, zero, suc, ◌+◌, ◌-◌, ◌*◌, ◌%◌, ◌^◌, ◌<◌}
use mathlib.Core.Bool.{Bool, true, false}
use native.Mathlib.Omega.{arith}
use mathlib.Core.List.{List}
use fastboot3ds.Base.Lists.{get_or}

abbrev pub u32_mod : ℕ
u32_mod = 2 ^ 32

abbrev pub u32 : ℕ → ℕ
u32 x = x % u32_mod

-- `a + b` and `a - b` on `u32`.
abbrev pub add32 : ℕ → ℕ → ℕ
add32 a b = (a + b) % u32_mod

abbrev pub sub32 : ℕ → ℕ → ℕ
sub32 a b = (a + u32_mod - b) % u32_mod

-- `~a` on `u32`.
abbrev pub not32 : ℕ → ℕ
not32 a = u32_mod - 1 - a

-- A value of `s32`; `negsuc n` is -(n + 1).
pub data ℤ : Type 0 where
  pos : ℕ → ℤ
  negsuc : ℕ → ℤ

-- -n
abbrev pub neg : ℕ → ℤ
neg zero = pos 0
neg (suc n) = negsuc n

abbrev pub is_neg : ℤ → Bool
is_neg (pos n) = false
is_neg (negsuc n) = true

-- The little-endian word at a byte offset.
unfoldable pub le32_at : List ℕ → ℕ → ℕ
le32_at b i =
    get_or b i 0
    + get_or b (i + 1) 0 * 2 ^ 8
    + get_or b (i + 2) 0 * 2 ^ 16
    + get_or b (i + 3) 0 * 2 ^ 24

-- Every number of the sequence is a byte.
abbrev pub AreBytes : List ℕ → Type 0
AreBytes b = (i : ℕ) → get_or b i 0 < 256

pub le32_at_bound : (b : List ℕ) (i : ℕ) → AreBytes b → le32_at b i < u32_mod
unfolding le32_at
le32_at_bound b i h = omega (arith, h i, h (i + 1), h (i + 2), h (i + 3))
