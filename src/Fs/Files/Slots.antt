-- ===== src/Fs/Files/Slots.antt =====
-- `findUnusedFileSlot` and `findUnusedDirSlot` find the first slot that is not in use.
use fastboot3ds.Base.{
  ℕ, zero, suc, ◌+◌, ◌≤◌, ◌<◌, ◌≡◌, refl, Bool, true, false, none, some, List, [], ◌∷◌, length,
  get_or, set, arith, if◌then◌else◌,
}
use fastboot3ds.Fs.Files.{first_free}

-- How many slots are in use.
abbrev pub count_used : List Bool → ℕ
count_used [] = 0
count_used (b ∷ bs) = (if b then 1 else 0) + count_used bs

pub count_used-le : (bs : List Bool) → count_used bs ≤ length bs
count_used-le [] = omega arith
count_used-le (true ∷ bs) = omega (arith, count_used-le bs)
count_used-le (false ∷ bs) = omega (arith, count_used-le bs)

-- Slot `i` is the first that is free.
pub record IsFirstFree (bs : List Bool) (i : ℕ) : Type 0 where
  pub inside : i < length bs
  pub free : get_or bs i false ≡ false
  pub before : (j : ℕ) → j < i → get_or bs j false ≡ true

pub first_free-some :
    (k : ℕ) (bs : List Bool) (r : ℕ)
    → first_free k bs ≡ some r
    → (i : ℕ) × (r ≡ k + i) × IsFirstFree bs i
unfolding first_free
first_free-some k [] r h = cc
first_free-some k (false ∷ bs) r h =
    (0, ground arith, record { inside = omega arith; free = refl; before = λ j l. elim l [ ] })
first_free-some k (true ∷ bs) r h =
    let (i, e, f) = first_free-some (k + 1) bs r h in
    (
      suc i,
      omega arith,
      record { inside = omega (arith, f.inside); free = f.free; before = before i f },
    )
  where
    before : (i : ℕ) → IsFirstFree bs i → (j : ℕ) → j < suc i → get_or (true ∷ bs) j false ≡ true
    before i f zero l = refl
    before i f (suc j) l = f.before j (omega arith)

-- The search fails only if all slots are in use.
pub first_free-none : (k : ℕ) (bs : List Bool) → first_free k bs ≡ none → count_used bs ≡ length bs
unfolding first_free
first_free-none k [] h = refl
first_free-none k (false ∷ bs) h = cc
first_free-none k (true ∷ bs) h = omega (arith, first_free-none (k + 1) bs h)

pub count_used-set-true :
    (bs : List Bool) (i : ℕ)
    → i < length bs
    → get_or bs i false ≡ false
    → count_used (set bs i true) ≡ count_used bs + 1
count_used-set-true [] i h e = elim h [ ]
count_used-set-true (false ∷ bs) zero h e = omega arith
count_used-set-true (true ∷ bs) zero h e = cc
count_used-set-true (b ∷ bs) (suc i) h e = omega (arith, count_used-set-true bs i (omega arith) e)

pub count_used-set-false :
    (bs : List Bool) (i : ℕ)
    → get_or bs i false ≡ true
    → count_used (set bs i false) + 1 ≡ count_used bs
count_used-set-false [] i e = cc
count_used-set-false (false ∷ bs) zero e = cc
count_used-set-false (true ∷ bs) zero e = omega arith
count_used-set-false (b ∷ bs) (suc i) e = omega (arith, count_used-set-false bs i e)
