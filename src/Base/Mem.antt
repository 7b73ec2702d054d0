-- ===== src/Base/Mem.antt =====
-- Bytes as numbers, the bytes of a literal, and comparison of byte sequences.
use Prim.Native.Nat.{ℕ, ◌+◌}
use Prim.Native.Char.{code}
use Prim.Native.String.{String}
use mathlib.Core.Path.{◌≡◌, refl}
use mathlib.Core.Logic.{◌↔◌, ◌≢◌}
use mathlib.Core.Bool.{Bool, true, false, ◌&&◌}
use mathlib.Core.List.{List, [], ◌∷◌, ◌++◌}
use native.Mathlib.Omega.{arith}
use fastboot3ds.Base.Tests.{◌==◌, if◌then◌else◌}
use fastboot3ds.Base.Lists.{take, drop, length}

abbrev pub Bytes : Type 0
Bytes = List ℕ

-- The code points of a literal: its bytes, since the program's literals are ASCII.
abbrev pub codes : String → Bytes
codes String.[] = []
codes (String.◌∷◌ c s) = code c ∷ codes s

-- Equality of byte sequences, the `memcmp(…) == 0` of two whole arrays.
unfoldable pub bytes_eq : Bytes → Bytes → Bool
bytes_eq [] [] = true
bytes_eq [] (y ∷ ys) = false
bytes_eq (x ∷ xs) [] = false
bytes_eq (x ∷ xs) (y ∷ ys) = x == y && bytes_eq xs ys

pub bytes_eq_refl : (xs : Bytes) → bytes_eq xs xs ≡ true
unfolding bytes_eq
bytes_eq_refl [] = refl
bytes_eq_refl (x ∷ xs) = ground (arith, bytes_eq_refl xs)

pub bytes_eq→eq : (xs ys : Bytes) → bytes_eq xs ys ≡ true → xs ≡ ys
unfolding bytes_eq
bytes_eq→eq [] [] h = refl
bytes_eq→eq [] (y ∷ ys) h = cc
bytes_eq→eq (x ∷ xs) [] h = cc
bytes_eq→eq (x ∷ xs) (y ∷ ys) h = ground (arith, bytes_eq→eq xs ys)

pub bytes_eq_iff : (xs ys : Bytes) → (bytes_eq xs ys ≡ true) ↔ (xs ≡ ys)
bytes_eq_iff xs ys = (bytes_eq→eq xs ys, λ e. rw e (bytes_eq_refl ys))

-- Bytes stored at an offset of a memory.
unfoldable pub put_at : ℕ → Bytes → Bytes → Bytes
put_at offset got mem = take offset mem ++ got ++ drop (offset + length got) mem

-- The C string at the start of a memory: what comes before the terminating NUL.
unfoldable pub c_str : Bytes → Bytes
c_str [] = []
c_str (c ∷ cs) = if c == 0 then [] else c ∷ c_str cs

-- No byte of the sequence is NUL.
unfoldable pub NoNul : Bytes → Type 0
NoNul [] = Unit {0}
NoNul (c ∷ cs) = (c ≢ 0) × NoNul cs

pub c_str-append : (text rest : Bytes) → NoNul text → c_str (text ++ (0 ∷ rest)) ≡ text
unfolding c_str NoNul
c_str-append [] rest n = refl
c_str-append (c ∷ cs) rest n = ground (arith, c_str-append cs rest n.1)

pub NoNul-append : (a b : Bytes) → NoNul a → NoNul b → NoNul (a ++ b)
unfolding NoNul
NoNul-append [] b n m = m
NoNul-append (c ∷ cs) b n m = (n.0, NoNul-append cs b n.1 m)

pub NoNul-left : (a b : Bytes) → NoNul (a ++ b) → NoNul a
unfolding NoNul
NoNul-left [] b n = tt
NoNul-left (c ∷ cs) b n = (n.0, NoNul-left cs b n.1)

pub NoNul-right : (a b : Bytes) → NoNul (a ++ b) → NoNul b
unfolding NoNul
NoNul-right [] b n = n
NoNul-right (c ∷ cs) b n = NoNul-right cs b n.1
