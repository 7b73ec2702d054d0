-- ===== src/Partitions/Search.antt =====
-- `findPartition`: the loop finds the first entry in use that has the name.
use fastboot3ds.Base.{
  ℕ, zero, suc, ◌+◌, ◌<◌, ◌≡◌, ◌≢◌, refl, sym, ap, ◌∙◌, none, some, List, [], ◌∷◌, Bytes, bytes_eq,
  bytes_eq_refl, bytes_eq→eq, length, get_or, arith, ◌==◌, inl, inr, Bool-cases, ◌&&◌,
  if◌then◌else◌,
}
use fastboot3ds.Partitions.{Partition, zeroed, find_from}

abbrev pub name_at : List Partition → ℕ → Bytes
name_at ps i = (get_or ps i zeroed).name

-- The two tests of a round are one comparison of the names.
same_name :
    (name : Bytes) (p : Partition)
    → (length p.name == length name && bytes_eq name p.name) ≡ bytes_eq name p.name
same_name name p = elim (Bool-cases (bytes_eq name p.name)) [
  | inl e ↦ rw e (ground (arith, ap length (bytes_eq→eq name p.name e)))
  | inr e ↦ rw e (ground arith)
]

find_from-cons :
    (name : Bytes) (k : ℕ) (p : Partition) (ps : List Partition)
    → find_from name k (p ∷ ps)
      ≡ (if bytes_eq name p.name then some k else find_from name (k + 1) ps)
unfolding find_from
find_from-cons name k p ps = rw (same_name name p)

find_from_hit :
    (name : Bytes) (k : ℕ) (p : Partition) (ps : List Partition)
    → p.name ≡ name
    → find_from name k (p ∷ ps) ≡ some k
find_from_hit name k p ps e =
    ground (arith, find_from-cons name k p ps, bytes_eq_refl name, ap (bytes_eq name) e)

find_from_miss :
    (name : Bytes) (k : ℕ) (p : Partition) (ps : List Partition)
    → p.name ≢ name
    → find_from name k (p ∷ ps) ≡ find_from name (k + 1) ps
find_from_miss name k p ps ne = elim (Bool-cases (bytes_eq name p.name)) [
  | inl e ↦ absurd (ne (sym (bytes_eq→eq name p.name e)))
  | inr e ↦ ground (arith, find_from-cons name k p ps)
]

find_from-nil : (name : Bytes) (k : ℕ) → find_from name k [] ≡ none
unfolding find_from
find_from-nil name k = refl

-- No entry has the name where the search fails.
pub find_from-none :
    (name : Bytes) (k : ℕ) (ps : List Partition)
    → find_from name k ps ≡ none
    → (i : ℕ) → i < length ps
    → name_at ps i ≢ name
find_from-none name k [] h i lt e = elim lt [ ]
find_from-none name k (p ∷ ps) h zero lt e = cc (find_from_hit name k p ps e)
find_from-none name k (p ∷ ps) h (suc i) lt e = elim (Bool-cases (bytes_eq name p.name)) [
  | inl same ↦ cc (find_from_hit name k p ps (sym (bytes_eq→eq name p.name same)))
  | inr other ↦
      find_from-none name (k + 1) ps (ground (arith, find_from-cons name k p ps)) i (omega arith) e
]

-- The first entry that has the name is the one that the search returns.
pub find_from_first :
    (name : Bytes) (k : ℕ) (ps : List Partition) (i : ℕ)
    → i < length ps
    → name_at ps i ≡ name
    → ((j : ℕ) → j < i → name_at ps j ≢ name)
    → find_from name k ps ≡ some (k + i)
find_from_first name k [] i lt e before = elim lt [ ]
find_from_first name k (p ∷ ps) zero lt e before =
    find_from_hit name k p ps e ∙ ap some (omega arith)
find_from_first name k (p ∷ ps) (suc i) lt e before =
    find_from_miss name k p ps (before 0 (omega arith))
    ∙ find_from_first name (k + 1) ps i (omega arith) e (λ j l. before (suc j) (omega arith))
    ∙ ap some (omega arith)

-- What the search returns is an entry that has the name.
pub find_from-some :
    (name : Bytes) (k : ℕ) (ps : List Partition) (r : ℕ)
    → find_from name k ps ≡ some r
    → (i : ℕ) × (r ≡ k + i) × (i < length ps) × (name_at ps i ≡ name)
find_from-some name k [] r h = cc (find_from-nil name k)
find_from-some name k (p ∷ ps) r h = elim (Bool-cases (bytes_eq name p.name)) [
  | inl e ↦
      (0, ground (arith, find_from-cons name k p ps), omega arith, sym (bytes_eq→eq name p.name e))
  | inr e ↦
      let (i, q, lt, n) =
        find_from-some name (k + 1) ps r (ground (arith, find_from-cons name k p ps)) in
      (suc i, omega arith, omega arith, n)
]
