-- ===== src/Fs/Sectors.antt =====
-- Buffers that are made of sectors.
use fastboot3ds.Base.{
  ℕ, zero, suc, ◌+◌, ◌*◌, ◌<◌, ◌≡◌, refl, ap, ◌∙◌, sym, [], ◌∷◌, ◌++◌, Bytes, take, drop, drop-drop,
  length, take_all, arith,
}
use fastboot3ds.Fs.World.{sector_of}

-- The sectors of a read hold 512 bytes each.
unfoldable pub AreWhole : {W : Type 0} → (W → ℕ → Bytes) → ℕ → ℕ → W → Type 0
AreWhole block s n w = (i : ℕ) → i < n → length (block w (s + i)) ≡ 512

pub take_split : (m n k : ℕ) (xs : Bytes) → k ≡ m + n → take k xs ≡ take m xs ++ take n (drop m xs)
take_split zero n k xs e = let same : k ≡ n = omega (arith, e) in ap (λ i. take i xs) same
take_split (suc m) n zero xs e = absurd (omega arith)
take_split (suc m) zero (suc k) [] e = refl
take_split (suc m) (suc n) (suc k) [] e = refl
take_split (suc m) n (suc k) (x ∷ xs) e = ap (λ t. x ∷ t) (take_split m n k xs (omega (arith, e)))

pub sectors_agree :
    (n m : ℕ) (a b : Bytes)
    → m ≡ n * 512
    → ((i : ℕ) → i < n → sector_of a i ≡ sector_of b i)
    → take m a ≡ take m b
sectors_agree zero m a b e same = let none_left : m ≡ 0 = omega (arith, e) in rw none_left refl
sectors_agree (suc n) m a b e same =
    take_split 512 (n * 512) m a (omega (arith, e))
    ∙ ap (λ t. t ++ take (n * 512) (drop 512 a)) (same 0 (omega arith))
    ∙ ap (λ t. take 512 b ++ t)
        (sectors_agree n (n * 512) (drop 512 a) (drop 512 b) refl (λ i lt. next_agree i lt))
    ∙ sym (take_split 512 (n * 512) m b (omega (arith, e)))
  where
    next_agree : (i : ℕ) → i < n → sector_of (drop 512 a) i ≡ sector_of (drop 512 b) i
    next_agree i lt =
        ap (take 512) (drop-drop (i * 512) 512 (suc i * 512) a (omega arith))
        ∙ same (suc i) (omega (arith, lt))
        ∙ sym (ap (take 512) (drop-drop (i * 512) 512 (suc i * 512) b (omega arith)))

-- Two buffers of the same sectors are the same.
pub sectors_eq :
    (n : ℕ) (a b : Bytes)
    → length a ≡ n * 512
    → length b ≡ n * 512
    → ((i : ℕ) → i < n → sector_of a i ≡ sector_of b i)
    → a ≡ b
sectors_eq n a b la lb same =
    sym (take_all (n * 512) a (omega (arith, la)))
    ∙ sectors_agree n (n * 512) a b refl same
    ∙ take_all (n * 512) b (omega (arith, lb))
