-- ===== src/Fs/RawWrite/Chunk.antt =====
-- One round of the write loop: it takes some of the sectors, and all of these are protected or
-- none of them is.
use native.Mathlib.Decide.{dec_lt, dec_le}
use fastboot3ds.Base.{
  ℕ, ◌+◌, ◌-◌, ◌≤◌, ◌<◌, ◌≡◌, refl, Bool, true, false, Option, none, some, arith, min, u32_mod,
}
use fastboot3ds.Fs.State.{Fs}
use fastboot3ds.Fs.Protection.{region_at, get_nand_prot_region}
use fastboot3ds.Fs.Protection.Lookup.{
  Meets, RegionsFit, Protected, FirstMeet, get_nand_prot_region_lem,
}
use fastboot3ds.Fs.RawWrite.{chunk}

-- The regions in use stand in the order of their first sectors.
abbrev pub RegionsSorted : Fs → Type 0
RegionsSorted fs =
    (i j : ℕ) → i ≤ j → j < fs.num_regions → (region_at fs i).sector ≤ (region_at fs j).sector

pub record ChunkFor (fs : Fs) (s n : ℕ) (c : ℕ × Bool) : Type 0 where
  pub some_progress : 0 < c.0
  pub within : c.0 ≤ n
  pub free : c.1 ≡ true → (k : ℕ) → s ≤ k → k < s + c.0 → ¬ Protected fs k
  pub skipped : c.1 ≡ false → (k : ℕ) → s ≤ k → k < s + c.0 → Protected fs k

module _ (fs : Fs) (s n : ℕ) (fit : RegionsFit fs) (small : s + n < u32_mod) where
  chunk-none : get_nand_prot_region fs s n ≡ none → chunk fs s n ≡ (n, true)
  unfolding chunk
  chunk-none e = rw (e, chunk)

  chunk-inside :
      (i : ℕ)
      → i < fs.num_regions
      → get_nand_prot_region fs s n ≡ some i
      → Meets s (s + n) (region_at fs i)
      → (region_at fs i).sector ≤ s
      → chunk fs s n ≡ (min ((region_at fs i).sector + (region_at fs i).count) (s + n) - s, false)
  unfolding chunk
  chunk-inside i lt e m le = rw (e, chunk) (ground (arith, fit i lt, m.0, m.1))

  chunk-before :
      (i : ℕ)
      → i < fs.num_regions
      → get_nand_prot_region fs s n ≡ some i
      → s < (region_at fs i).sector
      → chunk fs s n ≡ (min n ((region_at fs i).sector - s), true)
  unfolding chunk
  chunk-before i lt e after = rw (e, chunk) (ground (arith, fit i lt))

module _ (fs : Fs) (s n : ℕ) (sorted : RegionsSorted fs) (pos : 0 < n) where
  ChunkFor-none : FirstMeet fs.regions s (s + n) fs.num_regions 0 none → ChunkFor fs s n (n, true)
  ChunkFor-none f = record {
    some_progress = pos;
    within = omega arith;
    free = λ _ k lo hi p.
        f p.0 (omega arith) (omega (arith, p.1)) (omega (arith, p.2), omega (arith, p.2));
    skipped = λ q. cc;
  }

  ChunkFor-inside :
      (i : ℕ)
      → i < fs.num_regions
      → Meets s (s + n) (region_at fs i)
      → (region_at fs i).sector ≤ s
      → ChunkFor fs s n (min ((region_at fs i).sector + (region_at fs i).count) (s + n) - s, false)
  ChunkFor-inside i lt m le = record {
    some_progress = omega (arith, m.0, m.1);
    within = omega arith;
    free = λ q. cc;
    skipped = λ _ k lo hi. (i, lt, (omega arith, omega arith));
  }

  ChunkFor-before :
      (i : ℕ)
      → FirstMeet fs.regions s (s + n) fs.num_regions 0 (some i)
      → s < (region_at fs i).sector
      → ChunkFor fs s n (min n ((region_at fs i).sector - s), true)
  ChunkFor-before i f after = record {
    some_progress = omega arith;
    within = omega arith;
    free = λ _ k lo hi p. elim (dec_lt p.0 i) [
      | yes below ↦ f.3 p.0 (omega arith) below (omega (arith, p.2), omega (arith, p.2))
      | no above ↦ absurd (omega (arith, sorted i p.0 (omega arith) p.1, p.2))
    ];
    skipped = λ q. cc;
  }

-- Where the regions are sorted and do not wrap, a round of the loop on a range that is not empty
-- and whose end has a number of 32 bits makes progress, stays within the range, writes no
-- protected sector, and leaves out only protected ones.
pub chunk-ChunkFor :
    (fs : Fs) (s n : ℕ)
    → RegionsFit fs
    → RegionsSorted fs
    → 0 < n
    → s + n < u32_mod
    → ChunkFor fs s n (chunk fs s n)
chunk-ChunkFor fs s n fit sorted pos small =
    by_search (get_nand_prot_region fs s n) refl (get_nand_prot_region_lem fs s n fit pos small)
  where
    by_search :
        (o : Option ℕ)
        → get_nand_prot_region fs s n ≡ o
        → FirstMeet fs.regions s (s + n) fs.num_regions 0 o
        → ChunkFor fs s n (chunk fs s n)
    by_search none e f = rw (chunk-none fs s n fit small e) (ChunkFor-none fs s n sorted pos f)
    by_search (some i) e f = elim (dec_le (region_at fs i).sector s) [
      | yes le ↦
          rw (chunk-inside fs s n fit small i (omega (arith, f.1)) e f.2 le)
            (ChunkFor-inside fs s n sorted pos i (omega (arith, f.1)) f.2 le)
      | no gt ↦
          rw (chunk-before fs s n fit small i (omega (arith, f.1)) e (omega arith))
            (ChunkFor-before fs s n sorted pos i f (omega arith))
    ]
