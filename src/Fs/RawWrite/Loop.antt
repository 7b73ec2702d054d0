-- ===== src/Fs/RawWrite/Loop.antt =====
-- The write loop of `fsWriteFromDeviceBuffer`: it ends, and it writes all but the protected sectors.
use mathlib.Core.Path.{subst}
use fastboot3ds.Base.{
  ℕ, zero, suc, ◌+◌, ◌-◌, ◌*◌, ◌<◌, ◌≡◌, refl, Bool, true, false, Bytes, some, take, drop, arith,
  inl, inr, Bool-cases, add32, sub32, ◌==◌, u32_mod, if◌then◌else◌, not,
}
use fastboot3ds.Fs.World.{DevStruct, IsDisk}
use fastboot3ds.Fs.State.{Fs}
use fastboot3ds.Fs.Protection.Lookup.{RegionsFit}
use fastboot3ds.Fs.RawWrite.{chunk, protected_loop}
use fastboot3ds.Fs.RawWrite.Chunk.{ChunkFor, RegionsSorted, chunk-ChunkFor}
use fastboot3ds.Fs.RawWrite.Masked.{Masked, Masked-skip, Masked-write, Masked-append, Masked-fail}

module _ {W : Type 0} (dev : DevStruct W) where
  -- What a round does to the disk.
  round : Fs → ℕ → ℕ → Bytes → W → Bool × W
  round fs s n ptr w =
      if (chunk fs s n).1
      then dev.write_sector s (chunk fs s n).0 (take ((chunk fs s n).0 * 512) ptr) w
      else (true, w)

  -- One round and the rest of the loop.
  loop-step :
      (fs : Fs) (fuel s n : ℕ) (ptr : Bytes) (w : W)
      → ChunkFor fs s n (chunk fs s n)
      → s + n < u32_mod
      → protected_loop dev fs (suc fuel) s n ptr w ≡ (
          if not (round fs s n ptr w).0
          then (some false, (round fs s n ptr w).1)
          else if n - (chunk fs s n).0 == 0
          then (some true, (round fs s n ptr w).1)
          else protected_loop dev fs fuel
              (s + (chunk fs s n).0)
              (n - (chunk fs s n).0)
              (drop ((chunk fs s n).0 * 512) ptr)
              (round fs s n ptr w).1)
  unfolding protected_loop round
  loop-step fs fuel s n ptr w c small =
      let a : sub32 n (chunk fs s n).0 ≡ n - (chunk fs s n).0 = omega (arith, c.within) in
      let b : add32 s (chunk fs s n).0 ≡ s + (chunk fs s n).0 = omega (arith, c.within) in rw (a, b)

module _ {W : Type 0} (dev : DevStruct W) (block : W → ℕ → Bytes) (disk : IsDisk dev block)
    (fs : Fs) (fit : RegionsFit fs) (sorted : RegionsSorted fs) where
  round-Masked :
      (s n : ℕ) (ptr : Bytes) (w : W)
      → ChunkFor fs s n (chunk fs s n)
      → Masked block fs s
          (chunk fs s n).0
          ptr
          w
          (round dev fs s n ptr w).0
          (round dev fs s n ptr w).1
  unfolding round
  round-Masked s n ptr w c = elim (Bool-cases (chunk fs s n).1) [
    | inl writes ↦ rw writes (Masked-write block fs dev disk s _ ptr w (c.free writes))
    | inr skips ↦ rw skips (Masked-skip block fs dev disk s _ ptr w (c.skipped skips))
  ]

  -- With more fuel than sectors the loop ends, and the sectors are overwritten but for the
  -- protected ones.
  pub protected_loop_lem :
      (fuel s n : ℕ) (ptr : Bytes) (w : W)
      → n < fuel
      → 0 < n
      → s + n < u32_mod
      → (done : Bool) × ((protected_loop dev fs fuel s n ptr w).0 ≡ some done)
        × Masked block fs s n ptr w done (protected_loop dev fs fuel s n ptr w).1
  protected_loop_lem zero s n ptr w enough pos small = elim enough [ ]
  protected_loop_lem (suc fuel) s n ptr w enough pos small =
      rw (loop-step dev fs fuel s n ptr w c small) (elim (Bool-cases (round dev fs s n ptr w).0) [
        | inr failed ↦ rw failed (
          false,
          refl,
          Masked-fail block fs dev disk s n _ ptr w _ _ c.within (round-Masked s n ptr w c),
        )
        | inl wrote ↦ rw wrote (elim (Bool-cases (n - (chunk fs s n).0 == 0)) [
          | inl finished ↦ rw finished (
            true,
            refl,
            whole (ground (arith, c.within)) (rw wrote at (round-Masked s n ptr w c)),
          )
          | inr more ↦
              let rest =
                protected_loop_lem fuel (s + (chunk fs s n).0) (n - (chunk fs s n).0)
                  (drop ((chunk fs s n).0 * 512) ptr) (round dev fs s n ptr w).1
                  (omega (arith, c.some_progress, c.within)) (ground arith)
                  (omega (arith, c.within)) in
              rw more (
                rest.0,
                rest.1,
                Masked-append block fs dev disk s n (chunk fs s n).0 ptr w _ _ rest.0 c.within
                    (rw wrote at (round-Masked s n ptr w c)) rest.2,
              )
        ])
      ])
    where
      c : ChunkFor fs s n (chunk fs s n)
      c = chunk-ChunkFor fs s n fit sorted pos small

      whole :
          (chunk fs s n).0 ≡ n
          → Masked block fs s (chunk fs s n).0 ptr w true (round dev fs s n ptr w).1
          → Masked block fs s n ptr w true (round dev fs s n ptr w).1
      whole e m = subst (λ k. Masked block fs s k ptr w true (round dev fs s n ptr w).1) e m
