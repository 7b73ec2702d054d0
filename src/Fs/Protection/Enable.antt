-- ===== src/Fs/Protection/Enable.antt =====
-- Each round of the loop of `fSetNandProtection` keeps the invariant, and so the whole call protects
-- the two default sectors and every firmware partition.
use native.Mathlib.Decide.{ℕ_discrete}
use fastboot3ds.Base.{
  ℕ, zero, suc, ◌+◌, ◌*◌, ◌≤◌, ◌<◌, ◌≡◌, ◌≢◌, refl, ap, ◌∙◌, true, false, length, arith, inl, inr,
  ◌⊎◌, if◌then◌else◌, Bool-cases, ◌==◌, ◌&&◌,
}
use fastboot3ds.Partitions.{Table, entry, max_partitions, partition_get_info}
use fastboot3ds.Fs.State.{Fs, Region}
use fastboot3ds.Fs.Protection.{
  region_at, protect_firmware, protect_from, with_default_prot, f_set_nand_protection,
}
use fastboot3ds.Fs.Protection.Lookup.{RegionsFit, Protected}
use fastboot3ds.Fs.Protection.Cover.{
  sector_limit, IsFirmware, IsLayout, Covers, Change-Protected, Change-covered,
  with_default_prot-Covers,
}
use fastboot3ds.Fs.Protection.Regions.{
  Change, grown, added, protect_firmware-Change, length-protect_firmware,
}

pub Covers-fit : (t : Table) (i : ℕ) (fs : Fs) → i ≤ max_partitions → Covers t i fs → RegionsFit fs
Covers-fit t i fs le c = λ m lt. omega (arith, c.ends m lt)

-- A partition that is no firmware is passed over.
Covers-skip :
    (t : Table) (i : ℕ) (fs : Fs) → (entry t i).type ≢ 3 → Covers t i fs → Covers t (i + 1) fs
Covers-skip t i fs other c = record {
  size = c.size;
  used = omega (arith, c.used);
  ends = λ m lt. omega (arith, c.ends m lt);
  sorted = c.sorted;
  below = λ m j lt le f. c.below m j lt (omega arith) f;
  header = c.header;
  secret = c.secret;
  firmware = λ j k lt f. elim (ℕ_discrete i j) [
    | yes e ↦ absurd (other (rw (← e) at f.1))
    | no ne ↦ c.firmware j k (omega arith) f
  ];
}

-- A firmware partition is covered, and what was covered stays so.
Covers-protect :
    (t : Table) (i : ℕ) (fs fs' : Fs)
    → IsLayout t
    → IsFirmware t i
    → length fs'.regions ≡ length fs.regions
    → Covers t i fs
    → Change (entry t i) fs fs'
    → Covers t (i + 1) fs'
Covers-protect t i fs fs' lay firm size c change = record {
  size = size ∙ c.size;
  used = used change;
  ends = ends change;
  sorted = sorted change;
  below = below change;
  header = Change-Protected (entry t i) fs fs' 0 change c.header;
  secret = Change-Protected (entry t i) fs fs' 0x96 change c.secret;
  firmware = λ j k lt f lo hi. elim (ℕ_discrete i j) [
    | yes e ↦ Change-covered (entry t i) fs fs' k change (rw (← e) at lo) (rw (← e) at hi)
    | no ne ↦ Change-Protected (entry t i) fs fs' k change (c.firmware j k (omega arith) f lo hi)
  ];
}
  where
    used : Change (entry t i) fs fs' → fs'.num_regions ≤ 2 + (i + 1)
    used (grown m lt before meets s n others num) = omega (arith, c.used)
    used (added s n others num) = omega (arith, c.used)

    -- A sector of a region is that of an old region, or the new partition's.
    ends :
        Change (entry t i) fs fs'
        → (m : ℕ) → m < fs'.num_regions
        → (region_at fs' m).sector + (region_at fs' m).count ≤ (2 + (i + 1)) * sector_limit
    ends (grown g lt before meets s n others num) m l = elim (ℕ_discrete g m) [
      | yes e ↦ rw (← e) (omega (arith, c.ends g lt, (lay.small i firm.0).1))
      | no ne ↦ rw (others m ne) (omega (arith, c.ends m (omega arith)))
    ]
    ends (added s n others num) m l = elim (ℕ_discrete fs.num_regions m) [
      | yes e ↦ rw (← e) (omega (arith, (lay.small i firm.0).0, (lay.small i firm.0).1))
      | no ne ↦ rw (others m ne) (omega (arith, c.ends m (omega arith)))
    ]

    kept :
        (g j : ℕ)
        → ((m : ℕ) → g ≢ m → region_at fs' m ≡ region_at fs m)
        → ((region_at fs' g).sector ≡ (region_at fs g).sector)
        → (region_at fs' j).sector ≡ (region_at fs j).sector
    kept g j others s = elim (ℕ_discrete g j) [
      | yes e ↦ rw (← e) s
      | no ne ↦ ap (λ (r : Region). r.sector) (others j ne)
    ]

    sorted :
        Change (entry t i) fs fs'
        → (m n : ℕ) → m ≤ n
        → n < fs'.num_regions
        → (region_at fs' m).sector ≤ (region_at fs' n).sector
    sorted (grown g lt before meets s n others num) m j le l =
        omega (arith, kept g m others s, kept g j others s, c.sorted m j le (omega arith))
    sorted (added s n others num) m j le l = elim (ℕ_discrete fs.num_regions j) [
      | yes e ↦ elim (ℕ_discrete fs.num_regions m) [
        | yes e' ↦ rw (← e, ← e') (omega arith)
        | no ne ↦
            rw (← e, others m ne) (omega (arith, c.below m i (omega arith) (omega arith) firm))
      ]
      | no ne ↦ rw (others j ne, others m (λ e. ne (omega arith))) (c.sorted m j le (omega arith))
    ]

    below :
        Change (entry t i) fs fs'
        → (m j : ℕ) → m < fs'.num_regions
        → i + 1 ≤ j
        → IsFirmware t j
        → (region_at fs' m).sector ≤ (entry t j).sector
    below (grown g lt before meets s n others num) m j l le f =
        omega (arith, kept g m others s, c.below m j (omega arith) (omega arith) f)
    below (added s n others num) m j l le f = elim (ℕ_discrete fs.num_regions m) [
      | yes e ↦ rw (← e) (omega (arith, lay.ascending i j (omega arith) firm f))
      | no ne ↦ rw (others m ne) (c.below m j (omega arith) (omega arith) f)
    ]

protect_from-Covers :
    (t : Table) (left i : ℕ) (fs : Fs)
    → IsLayout t
    → i + left ≡ max_partitions
    → Covers t i fs
    → Covers t max_partitions (protect_from t left i fs)
unfolding protect_from
protect_from-Covers t zero i fs lay e c = let e' : i ≡ 8 = omega arith in rw e' at c
protect_from-Covers t (suc left) i fs lay e c =
    protect_from-Covers t left (i + 1) _ lay (omega arith)
      (one (Bool-cases ((entry t i).type == 3)))
  where
    info : partition_get_info t i ≡ (entry t i, true)
    info = unfold partition_get_info in ground arith

    one :
        (((entry t i).type == 3) ≡ true) ⊎ (((entry t i).type == 3) ≡ false)
        → Covers t (i + 1) (
            if (partition_get_info t i).1 && (partition_get_info t i).0.type == 3
            then protect_firmware (partition_get_info t i).0 fs
            else fs)
    one (inl firm) =
        rw (info, firm)
          (Covers-protect t i fs _ lay (omega arith, ground arith)
            (length-protect_firmware (entry t i) fs) c
            (protect_firmware-Change (entry t i) fs (Covers-fit t i fs (omega arith) c)
              (omega (arith, c.size, c.used)) (omega (arith, (lay.small i (omega arith)).0))
              (λ m l. omega (arith, c.ends m l, (lay.small i (omega arith)).1))))
    one (inr other) = rw (info, other) (Covers-skip t i fs (ground arith) c)

-- What holds when protection was switched on.
pub record Guarded (t : Table) (fs : Fs) : Type 0 where
  pub fit : RegionsFit fs
  pub sorted :
      (m n : ℕ) → m ≤ n → n < fs.num_regions → (region_at fs m).sector ≤ (region_at fs n).sector
  pub in_table : fs.num_regions ≤ length fs.regions
  pub header : Protected fs 0
  pub secret : Protected fs 0x96
  pub firmware :
      (j k : ℕ)
      → IsFirmware t j
      → (entry t j).sector ≤ k
      → k < (entry t j).sector + (entry t j).count
      → Protected fs k

switched_on :
    (t : Table) (fs : Fs)
    → fs.num_regions ≡ 0
    → (f_set_nand_protection t true fs).1 ≡ protect_from t max_partitions 0 (with_default_prot fs)
unfolding f_set_nand_protection
switched_on t fs off = ground arith

-- For partitions that are laid out as on a console, `fSetNandProtection(true)` on an unprotected
-- NAND leaves sector 0, sector 0x96 and every sector of a firmware partition in some region, and
-- the regions are sorted, none of them wraps, and the table, with its full length of
-- `MAX_PARTITIONS + 2`, is large enough for them.
pub f_set_nand_protection-Guarded :
    (t : Table) (fs : Fs)
    → IsLayout t
    → length fs.regions ≡ max_partitions + 2
    → fs.num_regions ≡ 0
    → Guarded t (f_set_nand_protection t true fs).1
f_set_nand_protection-Guarded t fs lay size off = rw (switched_on t fs off) (record {
  fit = Covers-fit t 8 _ (omega arith) c;
  sorted = c.sorted;
  in_table = omega (arith, c.size, c.used);
  header = c.header;
  secret = c.secret;
  firmware = λ j k f. c.firmware j k f.0 f;
})
  where
    c : Covers t max_partitions (protect_from t max_partitions 0 (with_default_prot fs))
    c = protect_from-Covers t 8 0 _ lay refl (with_default_prot-Covers t fs lay size)

-- Only the regions matter.
pub Guarded-congr :
    (t : Table) (fs fs' : Fs)
    → fs.regions ≡ fs'.regions
    → fs.num_regions ≡ fs'.num_regions
    → Guarded t fs'
    → Guarded t fs
Guarded-congr t fs fs' same num g = record {
  fit = λ m lt. rw same (g.fit m (rw num at lt));
  sorted = λ m n le lt. rw same (g.sorted m n le (rw num at lt));
  in_table = rw (same, num) g.in_table;
  header = back 0 g.header;
  secret = back 0x96 g.secret;
  firmware = λ j k f lo hi. back k (g.firmware j k f lo hi);
}
  where
    back : (k : ℕ) → Protected fs' k → Protected fs k
    back k (m, lt, w) = (m, rw num lt, rw same w)
