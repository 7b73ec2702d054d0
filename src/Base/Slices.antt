-- ===== src/Base/Slices.antt =====
-- Parts of lists that were put together, and bytes stored in the middle of a memory.
use Prim.Native.Nat.{ℕ, zero, suc, ◌+◌, ◌≤◌}
use mathlib.Core.Path.{◌≡◌, refl, ap, sym, ◌∙◌}
use mathlib.Core.List.{List, [], ◌∷◌, ◌++◌, append_assoc}
use native.Mathlib.Omega.{arith}
use fastboot3ds.Base.Lists.{length, take, drop, length-append, length-take, length-drop}
use fastboot3ds.Base.Mem.{Bytes, put_at}

module _ {ℓ} {A : Type ℓ} where
  pub take-append : (a b : List A) (n : ℕ) → n ≤ length a → take n (a ++ b) ≡ take n a
  take-append [] b zero le = refl
  take-append [] b (suc n) le = absurd (omega arith)
  take-append (x ∷ a) b zero le = refl
  take-append (x ∷ a) b (suc n) le = ap (λ t. x ∷ t) (take-append a b n (omega arith))

  pub take-append_length : (a b : List A) (n : ℕ) → n ≡ length a → take n (a ++ b) ≡ a
  take-append_length [] b zero e = refl
  take-append_length [] b (suc n) e = absurd (omega arith)
  take-append_length (x ∷ a) b zero e = absurd (omega arith)
  take-append_length (x ∷ a) b (suc n) e = ap (λ t. x ∷ t) (take-append_length a b n (omega arith))

  pub drop-append : (a b : List A) (n k : ℕ) → n ≡ length a + k → drop n (a ++ b) ≡ drop k b
  drop-append [] b n k e = let same : n ≡ k = omega arith in ap (λ m. drop m b) same
  drop-append (x ∷ a) b zero k e = absurd (omega arith)
  drop-append (x ∷ a) b (suc n) k e = drop-append a b n k (omega arith)

  pub take-take : (n k : ℕ) (a : List A) → n ≤ k → take n (take k a) ≡ take n a
  take-take zero k a le = refl
  take-take (suc n) zero a le = absurd (omega arith)
  take-take (suc n) (suc k) [] le = refl
  take-take (suc n) (suc k) (x ∷ a) le = ap (λ t. x ∷ t) (take-take n k a (omega arith))

  -- A slice that lies in the first part.
  pub slice-append :
      (a b : List A) (k n : ℕ) → k + n ≤ length a → take n (drop k (a ++ b)) ≡ take n (drop k a)
  slice-append a b zero n le = take-append a b n (omega arith)
  slice-append [] b (suc k) n le = absurd (omega arith)
  slice-append (x ∷ a) b (suc k) n le = slice-append a b k n (omega arith)

  drop_none : (n : ℕ) → drop {A = A} n [] ≡ []
  drop_none zero = refl
  drop_none (suc n) = refl

  pub drop-drop : (m n k : ℕ) (xs : List A) → k ≡ n + m → drop m (drop n xs) ≡ drop k xs
  drop-drop m zero k xs e = let same : m ≡ k = omega (arith, e) in ap (λ i. drop i xs) same
  drop-drop m (suc n) k [] e = drop_none m ∙ sym (drop_none k)
  drop-drop m (suc n) zero (x ∷ xs) e = absurd (omega arith)
  drop-drop m (suc n) (suc k) (x ∷ xs) e = drop-drop m n k xs (omega (arith, e))

-- Bytes stored in front of bytes that were stored before.
pub put_at-put_at :
    (n : ℕ) (new src mem : Bytes)
    → n + length new ≤ length mem
    → put_at n new (put_at (n + length new) src mem)
      ≡ take n mem ++ (new ++ (src ++ drop (n + length new + length src) mem))
unfolding put_at
put_at-put_at n new src mem le =
    let d = drop (n + length new + length src) mem in
    let t = take (n + length new) mem in
    let all = append_assoc t src d in
    let long : n + length new ≡ length t = omega (arith, length-take (n + length new) mem) in
    let front =
      ap (take n) all
      ∙ take-append t (src ++ d) n (omega arith)
      ∙ take-take n (n + length new) mem (omega arith) in
    let back =
      ap (drop (n + length new)) all ∙ drop-append t (src ++ d) (n + length new) 0 (omega arith) in
    rw (front, back) (append_assoc (take n mem) new (src ++ d))

pub length-put_at :
    (n : ℕ) (got mem : Bytes) → n + length got ≤ length mem → length (put_at n got mem) ≡ length mem
unfolding put_at
length-put_at n got mem le = omega (
  arith,
  length-append (take n mem ++ got) (drop (n + length got) mem),
  length-append (take n mem) got,
  length-take n mem,
  length-drop (n + length got) mem,
  le,
)
