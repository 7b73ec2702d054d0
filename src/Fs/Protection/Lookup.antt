-- ===== src/Fs/Protection/Lookup.antt =====
-- `getNandProtRegion` finds the first region of the table that meets the range.
use native.Mathlib.Decide.{ℕ_discrete}
use fastboot3ds.Base.{
  ℕ, zero, suc, ◌+◌, ◌≤◌, ◌<◌, ◌≡◌, Option, none, some, List, get_or, arith, inl, inr, Bool-cases,
  true, false, ◌%◌, u32_mod, ltb, leb, not32,
}
use fastboot3ds.Fs.State.{Fs, Region, no_region}
use fastboot3ds.Fs.Protection.{region_at, overlaps, region_from, get_nand_prot_region}

-- The sector lies in the region.
abbrev pub Inside : ℕ → Region → Type 0
Inside k r = (r.sector ≤ k) × (k < r.sector + r.count)

-- The sectors from `s` up to `e` meet the region.
abbrev pub Meets : ℕ → ℕ → Region → Type 0
Meets s e r = (s < r.sector + r.count) × (r.sector < e)

-- The ends of the regions in use have numbers of 32 bits.
abbrev pub RegionsFit : Fs → Type 0
RegionsFit fs =
    (i : ℕ) → i < fs.num_regions → (region_at fs i).sector + (region_at fs i).count < u32_mod

-- Some region in use holds the sector.
abbrev pub Protected : Fs → ℕ → Type 0
Protected fs k = (i : ℕ) × (i < fs.num_regions) × Inside k (region_at fs i)

-- What a search over the regions from `i` on, `left` of them, returns.
abbrev pub FirstMeet : List Region → ℕ → ℕ → ℕ → ℕ → Option ℕ → Type 0
FirstMeet rs s e left i none = (j : ℕ) → i ≤ j → j < i + left → ¬ Meets s e (get_or rs j no_region)
FirstMeet rs s e left i (some m) =
    (i ≤ m)
    × (m < i + left)
    × Meets s e (get_or rs m no_region)
    × ((j : ℕ) → i ≤ j → j < m → ¬ Meets s e (get_or rs j no_region))

overlaps_sound :
    (s e : ℕ) (r : Region) → r.sector + r.count < u32_mod → overlaps s e r ≡ true → Meets s e r
unfolding overlaps
overlaps_sound s e r fit h = ground arith

overlaps_complete :
    (s e : ℕ) (r : Region) → r.sector + r.count < u32_mod → overlaps s e r ≡ false → ¬ Meets s e r
unfolding overlaps
overlaps_complete s e r fit h m = ground (arith, m.0, m.1)

region_from_lem :
    (rs : List Region) (s e left i : ℕ)
    → ((j : ℕ)
        → i ≤ j
        → j < i + left
        → (get_or rs j no_region).sector + (get_or rs j no_region).count < u32_mod)
    → FirstMeet rs s e left i (region_from rs s e left i)
unfolding region_from
region_from_lem rs s e zero i fit = λ j lo hi. absurd (omega arith)
region_from_lem rs s e (suc left) i fit = elim (Bool-cases (overlaps s e (get_or rs i no_region))) [
  | inl hit ↦
      rw hit
        (omega arith, omega arith, overlaps_sound s e _ here hit, λ j lo hi. absurd (omega arith))
  | inr miss ↦ rw miss (
      later (region_from rs s e left (i + 1)) (overlaps_complete s e _ here miss)
        (region_from_lem rs s e left (i + 1) (λ j lo hi. fit j (omega arith) (omega arith))))
]
  where
    here : (get_or rs i no_region).sector + (get_or rs i no_region).count < u32_mod
    here = fit i (omega arith) (omega arith)

    later :
        (o : Option ℕ)
        → ¬ Meets s e (get_or rs i no_region)
        → FirstMeet rs s e left (i + 1) o
        → FirstMeet rs s e (suc left) i o
    later none miss f = λ j lo hi. elim (ℕ_discrete i j) [
      | yes q ↦ rw (← q) miss
      | no n ↦ f j (omega arith) (omega arith)
    ]
    later (some m) miss f = (
      omega (arith, f.0),
      omega (arith, f.1),
      f.2,
      λ j lo hi. elim (ℕ_discrete i j) [
        | yes q ↦ rw (← q) miss
        | no n ↦ f.3 j (omega arith) (omega arith)
      ],
    )

-- For a range that is not empty, and where the ends of the range and of the regions have numbers
-- of 32 bits, the search fails only if no region meets the range, and else it returns the first
-- one that does.
pub get_nand_prot_region_lem :
    (fs : Fs) (s n : ℕ)
    → RegionsFit fs
    → 0 < n
    → s + n < u32_mod
    → FirstMeet fs.regions s (s + n) fs.num_regions 0 (get_nand_prot_region fs s n)
unfolding get_nand_prot_region
get_nand_prot_region_lem fs s n fit pos h =
    let a : ltb (not32 n) s ≡ false = ground arith in
    let b : leb n 0 ≡ false = ground arith in
    let c : (s + n) % u32_mod ≡ s + n = omega arith in
    rw (a, b, c)
      (region_from_lem fs.regions s (s + n) fs.num_regions 0 (λ j lo hi. fit j (omega arith)))
