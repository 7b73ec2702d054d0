-- ===== src/Fs/Protection/Regions.antt =====
-- The two ways in which a firmware partition changes the table of regions.
use fastboot3ds.Base.{
  ℕ, ◌+◌, ◌-◌, ◌≤◌, ◌<◌, ◌≡◌, ◌≢◌, ◌⊎◌, refl, ap, ◌∙◌, Option, none, some, length, length-set,
  get_or-set_self, get_or-set_ne, arith, inl, inr, Bool-cases, u32_mod, ◌==◌, add32,
}
use fastboot3ds.Partitions.{Partition}
use fastboot3ds.Fs.State.{Fs, Region, no_region}
use fastboot3ds.Fs.Protection.{
  region_at, grow_region, add_region, region_before, place_firmware, protect_firmware,
}
use fastboot3ds.Fs.Protection.Lookup.{Meets, RegionsFit, FirstMeet, get_nand_prot_region_lem}

-- How the regions of `fs'` come from those of `fs` where the partition `p` is protected.
pub data Change (p : Partition) (fs fs' : Fs) : Type 0 where
  grown :
      (m : ℕ)
      → m < fs.num_regions
      → (region_at fs m).sector < p.sector
      → p.sector ≤ (region_at fs m).sector + (region_at fs m).count
      → (region_at fs' m).sector ≡ (region_at fs m).sector
      → (region_at fs' m).count ≡ (region_at fs m).count + p.count
      → ((j : ℕ) → m ≢ j → region_at fs' j ≡ region_at fs j)
      → fs'.num_regions ≡ fs.num_regions
      → Change p fs fs'
  added :
      (region_at fs' fs.num_regions).sector ≡ p.sector
      → (region_at fs' fs.num_regions).count ≡ p.count
      → ((j : ℕ) → fs.num_regions ≢ j → region_at fs' j ≡ region_at fs j)
      → fs'.num_regions ≡ fs.num_regions + 1
      → Change p fs fs'

module _ (p : Partition) (fs : Fs) where
  Change-grow :
      (m : ℕ)
      → m < fs.num_regions
      → fs.num_regions ≤ length fs.regions
      → (region_at fs m).count + p.count < u32_mod
      → 0 < p.sector
      → Meets (p.sector - 1) (p.sector - 1 + 1) (region_at fs m)
      → Change p fs (grow_region fs m p.count)
  unfolding grow_region
  Change-grow m lt size small nonzero meets =
      grown m lt (omega (arith, meets.1)) (omega (arith, meets.0))
        (ap (λ (r : Region). r.sector) here) (ap (λ (r : Region). r.count) here ∙ omega arith)
        (λ j ne. get_or-set_ne fs.regions m j _ no_region ne) refl
    where
      here :
          region_at (grow_region fs m p.count) m
          ≡ record (region_at fs m) { count = add32 (region_at fs m).count p.count }
      here = get_or-set_self fs.regions m _ no_region (omega arith)

  Change-add : fs.num_regions < length fs.regions → Change p fs (add_region fs p.sector p.count)
  unfolding add_region
  Change-add size =
      added (ap (λ (r : Region). r.sector) here) (ap (λ (r : Region). r.count) here)
        (λ j ne. get_or-set_ne fs.regions fs.num_regions j _ no_region ne) refl
    where
      here :
          region_at (add_region fs p.sector p.count) fs.num_regions
          ≡ record { sector = p.sector; count = p.count }
      here = get_or-set_self fs.regions fs.num_regions _ no_region size

-- A firmware partition extends the region that holds the sector before it, or becomes a region.
pub protect_firmware-Change :
    (p : Partition) (fs : Fs)
    → RegionsFit fs
    → fs.num_regions < length fs.regions
    → p.sector < u32_mod
    → ((m : ℕ) → m < fs.num_regions → (region_at fs m).count + p.count < u32_mod)
    → Change p fs (protect_firmware p fs)
unfolding protect_firmware
protect_firmware-Change p fs fit size small bound = by_search (region_before p fs) search
  where
    search :
        (region_before p fs ≡ none)
        ⊎ ((0 < p.sector)
            × FirstMeet fs.regions
                (p.sector - 1)
                (p.sector - 1 + 1)
                fs.num_regions
                0
                (region_before p fs))
    search = elim (Bool-cases (p.sector == 0)) [
      | inl first ↦ inl (rw first)
      | inr later ↦ inr (
        ground arith,
        rw later (get_nand_prot_region_lem fs (p.sector - 1) 1 fit (omega arith) (ground arith)),
      )
    ]

    by_search :
        (o : Option ℕ)
        → (o ≡ none)
          ⊎ ((0 < p.sector)
              × FirstMeet fs.regions (p.sector - 1) (p.sector - 1 + 1) fs.num_regions 0 o)
        → Change p fs (place_firmware p o fs)
    by_search none f = Change-add p fs size
    by_search (some m) (inl e) = cc
    by_search (some m) (inr (q, f)) =
        Change-grow p fs m (omega (arith, f.1)) (omega arith) (bound m (omega (arith, f.1))) q f.2

pub length-protect_firmware :
    (p : Partition) (fs : Fs) → length (protect_firmware p fs).regions ≡ length fs.regions
unfolding protect_firmware grow_region add_region
length-protect_firmware p fs = by_search (region_before p fs)
  where
    by_search : (o : Option ℕ) → length (place_firmware p o fs).regions ≡ length fs.regions
    by_search none = length-set fs.regions _ _
    by_search (some m) = length-set fs.regions m _
