-- ===== src/Fs/Protection/Cover.antt =====
-- The invariant of the loop of `fSetNandProtection`: the default sectors and the firmware
-- partitions that were handled are protected.
use native.Mathlib.Decide.{ℕ_discrete}
use fastboot3ds.Base.{
  ℕ, ◌+◌, ◌*◌, ◌^◌, ◌≤◌, ◌<◌, ◌≡◌, ◌∙◌, length, length-set, get_or, get_or-set_self, get_or-set_ne,
  set, arith,
}
use fastboot3ds.Partitions.{Partition, Table, entry, max_partitions}
use fastboot3ds.Fs.State.{Fs, Region, no_region}
use fastboot3ds.Fs.Protection.{region_at, with_default_prot}
use fastboot3ds.Fs.Protection.Lookup.{Inside, Protected}
use fastboot3ds.Fs.Protection.Regions.{Change, grown, added}

-- Sectors and counts are below this bound, so that no sum of them wraps.
abbrev pub sector_limit : ℕ
sector_limit = 2 ^ 28

-- The type of a firmware partition.
abbrev pub IsFirmware : Table → ℕ → Type 0
IsFirmware t i = (i < max_partitions) × ((entry t i).type ≡ 3)

-- The firmware partitions lie behind sector 0x96, in the order of the table, and all entries have
-- sectors and counts below the limit.
pub record IsLayout (t : Table) : Type 0 where
  pub small :
      (i : ℕ)
      → i < max_partitions
      → ((entry t i).sector < sector_limit) × ((entry t i).count < sector_limit)
  pub behind : (i : ℕ) → IsFirmware t i → 0x96 ≤ (entry t i).sector
  pub ascending :
      (i j : ℕ) → i ≤ j → IsFirmware t i → IsFirmware t j → (entry t i).sector ≤ (entry t j).sector

-- What holds when the loop has handled the partitions before `i`.
pub record Covers (t : Table) (i : ℕ) (fs : Fs) : Type 0 where
  pub size : length fs.regions ≡ max_partitions + 2
  pub used : fs.num_regions ≤ 2 + i
  pub ends :
      (m : ℕ)
      → m < fs.num_regions
      → (region_at fs m).sector + (region_at fs m).count ≤ (2 + i) * sector_limit
  pub sorted :
      (m n : ℕ) → m ≤ n → n < fs.num_regions → (region_at fs m).sector ≤ (region_at fs n).sector
  pub below :
      (m j : ℕ)
      → m < fs.num_regions
      → i ≤ j
      → IsFirmware t j
      → (region_at fs m).sector ≤ (entry t j).sector
  pub header : Protected fs 0
  pub secret : Protected fs 0x96
  pub firmware :
      (j k : ℕ)
      → j < i
      → IsFirmware t j
      → (entry t j).sector ≤ k
      → k < (entry t j).sector + (entry t j).count
      → Protected fs k

pub with_default_prot-Covers :
    (t : Table) (fs : Fs)
    → IsLayout t
    → length fs.regions ≡ max_partitions + 2
    → Covers t 0 (with_default_prot fs)
unfolding with_default_prot
with_default_prot-Covers t fs lay size = record {
  size = length-set (set fs.regions 0 _) 1 _ ∙ length-set fs.regions 0 _ ∙ size;
  used = omega arith;
  ends = λ m lt. elim (ℕ_discrete 0 m) [
    | yes e ↦ rw (← e, at_0) (omega arith)
    | no n ↦ let e : 1 ≡ m = omega arith in rw (← e, at_1) (omega arith)
  ];
  sorted = λ m n le lt. elim (ℕ_discrete 0 m) [
    | yes e ↦ rw (← e, at_0) (omega arith)
    | no ne ↦ let e : m ≡ n = omega arith in rw e (omega arith)
  ];
  below = λ m j lt le f. elim (ℕ_discrete 0 m) [
    | yes e ↦ rw (← e, at_0) (omega arith)
    | no n ↦ let e : 1 ≡ m = omega arith in rw (← e, at_1) (lay.behind j f)
  ];
  header = (0, omega arith, rw at_0 (omega arith, omega arith));
  secret = (1, omega arith, rw at_1 (omega arith, omega arith));
  firmware = λ j k lt. elim lt [ ];
}
  where
    a : Region
    a = record { sector = 0; count = 1 }

    b : Region
    b = record { sector = 0x96; count = 1 }

    at_0 : get_or (set (set fs.regions 0 a) 1 b) 0 no_region ≡ a
    at_0 =
        get_or-set_ne (set fs.regions 0 a) 1 0 b no_region (λ e. omega arith)
        ∙ get_or-set_self fs.regions 0 a no_region (omega arith)

    at_1 : get_or (set (set fs.regions 0 a) 1 b) 1 no_region ≡ b
    at_1 =
        get_or-set_self (set fs.regions 0 a) 1 b no_region
          (omega (arith, length-set fs.regions 0 a))

pub Change-Protected :
    (p : Partition) (fs fs' : Fs) (k : ℕ) → Change p fs fs' → Protected fs k → Protected fs' k
Change-Protected p fs fs' k (grown m lt before meets s c others num) (j, l, w) =
    elim (ℕ_discrete m j) [
      | yes e ↦
          let w' : Inside k (region_at fs m) = rw e w in
          (m, omega arith, (omega (arith, w'.0), omega (arith, w'.1)))
      | no ne ↦ (j, omega arith, rw (others j ne) w)
    ]
Change-Protected p fs fs' k (added s c others num) (j, l, w) =
    (j, omega arith, rw (others j (λ e. omega arith)) w)

pub Change-covered :
    (p : Partition) (fs fs' : Fs) (k : ℕ)
    → Change p fs fs'
    → p.sector ≤ k
    → k < p.sector + p.count
    → Protected fs' k
Change-covered p fs fs' k (grown m lt before meets s c others num) lo hi =
    (m, omega arith, (omega arith, omega arith))
Change-covered p fs fs' k (added s c others num) lo hi =
    (fs.num_regions, omega arith, (omega arith, omega arith))
