-- ===== src/Partitions/Find.antt =====
-- `partitionFind` returns the first entry that holds the whole range of sectors.
use fastboot3ds.Base.{
  ℕ, zero, suc, ◌+◌, ◌≤◌, ◌<◌, ◌≡◌, Option, none, some, List, [], ◌∷◌, length, get_or, arith, inl,
  inr, Bool-cases, u32_mod, true, false,
}
use fastboot3ds.Partitions.{Partition, zeroed, Table, holds_range, range_from, partition_find}

-- The sectors from `sector` on, `count` of them, lie within the partition.
abbrev pub Holds : ℕ → ℕ → Partition → Type 0
Holds sector count p = (p.sector ≤ sector) × (sector + count ≤ p.sector + p.count)

-- The last sector of each entry has a number of 32 bits.
abbrev pub AllFit : List Partition → Type 0
AllFit [] = Unit
AllFit (p ∷ ps) = (p.sector + p.count < u32_mod) × AllFit ps

-- What the loop at index `k` returns for the entries from there on.
abbrev pub FirstHolder : ℕ → ℕ → List Partition → ℕ → Option ℕ → Type 0
FirstHolder sector count ps k none =
    (i : ℕ) → i < length ps → ¬ Holds sector count (get_or ps i zeroed)
FirstHolder sector count ps k (some r) =
    (i : ℕ) × (r ≡ k + i)
    × (i < length ps)
    × Holds sector count (get_or ps i zeroed)
    × ((j : ℕ) → j < i → ¬ Holds sector count (get_or ps j zeroed))

holds_range_sound :
    (sector count : ℕ) (p : Partition)
    → sector + count < u32_mod
    → p.sector + p.count < u32_mod
    → holds_range sector count p ≡ true
    → Holds sector count p
unfolding holds_range
holds_range_sound sector count p h k e = ground arith

holds_range_complete :
    (sector count : ℕ) (p : Partition)
    → sector + count < u32_mod
    → p.sector + p.count < u32_mod
    → holds_range sector count p ≡ false
    → ¬ Holds sector count p
unfolding holds_range
holds_range_complete sector count p h k e w = ground (arith, w.0, w.1)

range_from_lem :
    (sector count k : ℕ) (ps : List Partition)
    → sector + count < u32_mod
    → AllFit ps
    → FirstHolder sector count ps k (range_from sector count k ps)
unfolding range_from
range_from_lem sector count k [] h fit = λ i lt. elim lt [ ]
range_from_lem sector count k (p ∷ ps) h fit = elim (Bool-cases (holds_range sector count p)) [
  | inl e ↦
      rw e
        (0, omega arith, omega arith, holds_range_sound sector count p h fit.0 e, λ j l. elim l [ ])
  | inr e ↦ rw e (
      later (range_from sector count (k + 1) ps) (holds_range_complete sector count p h fit.0 e)
        (range_from_lem sector count (k + 1) ps h fit.1))
]
  where
    later :
        (o : Option ℕ)
        → ¬ Holds sector count p
        → FirstHolder sector count ps (k + 1) o
        → FirstHolder sector count (p ∷ ps) k o
    later none miss f = λ i lt. skip i lt
      where
        skip : (i : ℕ) → i < length (p ∷ ps) → ¬ Holds sector count (get_or (p ∷ ps) i zeroed)
        skip zero lt = miss
        skip (suc i) lt = f i (omega arith)
    later (some r) miss (i, e', lt, w, before) = (suc i, omega arith, omega arith, w, skip)
      where
        skip : (j : ℕ) → j < suc i → ¬ Holds sector count (get_or (p ∷ ps) j zeroed)
        skip zero l = miss
        skip (suc j) l = before j (omega arith)

-- For a range and partitions whose ends have numbers of 32 bits, `partitionFind` returns the
-- index of the first entry that the range lies in, and fails only where it lies in none.
pub partition_find_lem :
    (t : Table) (sector count : ℕ)
    → sector + count < u32_mod
    → AllFit t.parts
    → FirstHolder sector count t.parts 0 (partition_find t sector count)
unfolding partition_find
partition_find_lem t sector count h fit = range_from_lem sector count 0 t.parts h fit
