-- ===== src/Fs/RawWrite/Safety.antt =====
-- `fsWriteFromDeviceBuffer` on the NAND leaves the protected sectors alone.
use fastboot3ds.Base.{
  ℕ, ◌+◌, ◌*◌, ◌/◌, ◌%◌, ◌<◌, ◌≡◌, ◌⊎◌, refl, Bool, true, false, Bytes, Option, some, none, take,
  arith, inl, inr, Bool-cases, ◌==◌, ltb, u32_mod, ℤ, pos, neg, min, if◌then◌else◌,
}
use fastboot3ds.Fs.World.{DevStruct, FatFs, IsDisk}
use fastboot3ds.Fs.State.{Fs}
use fastboot3ds.Fs.Drives.{dev_handle_magic, is_ok}
use fastboot3ds.Fs.DevBuf.{contents, check_handle, is_valid_dev_buf_handle}
use fastboot3ds.Fs.Protection.{is_nand_protected}
use fastboot3ds.Fs.Protection.Lookup.{Protected, RegionsFit}
use fastboot3ds.Fs.RawWrite.{write_nand_part, fs_write_from_device_buffer, emptied}
use fastboot3ds.Fs.RawWrite.Chunk.{RegionsSorted}
use fastboot3ds.Fs.RawWrite.Masked.{Masked, Masked-none, Masked-write}
use fastboot3ds.Fs.RawWrite.Loop.{protected_loop_lem}

module _ {W : Type 0} (dev : DevStruct W) (block : W → ℕ → Bytes) (disk : IsDisk dev block)
    (fs : Fs) (fit : RegionsFit fs) (sorted : RegionsSorted fs) where
  -- A call returns, and the sectors were overwritten with the device buffer, but for the protected
  -- ones, in full if it returns `FR_OK`.
  abbrev Outcome : ℕ → ℕ → W → Option ℤ × Fs × W → Type 0
  Outcome s n w out =
      (r : ℤ) × (out.0 ≡ some r) × Masked block fs s n (contents fs.dev_buf) w (is_ok r) out.2

  no_region_in_use : is_nand_protected fs ≡ false → (k : ℕ) → ¬ Protected fs k
  unfolding is_nand_protected
  no_region_in_use h k p = ground (arith, p.1)

  plain_write :
      (s n : ℕ) (w : W)
      → ((k : ℕ) → ¬ Protected fs k)
      → (put : Bool × W) → put ≡ dev.write_sector s n (take (n * 512) (contents fs.dev_buf)) w
      → Outcome s n w
          (if put.0 then (some (pos 0), emptied fs, put.1) else (some (neg 31), fs, put.1))
  plain_write s n w free (true, w') e = (
    pos 0,
    refl,
    rw (← e) at (Masked-write block fs dev disk s n (contents fs.dev_buf) w (λ k lo hi. free k)),
  )
  plain_write s n w free (false, w') e = (
    neg 31,
    refl,
    rw (← e) at (Masked-write block fs dev disk s n (contents fs.dev_buf) w (λ k lo hi. free k)),
  )

  after_loop : Option Bool × W → Option ℤ × Fs × W
  after_loop (loop, w') = elim loop [
    | none ↦ (none, fs, w')
    | some wrote ↦ if wrote then (some (pos 0), emptied fs, w') else (some (neg 31), fs, w')
  ]

  after_loop-Outcome :
      (s n : ℕ) (w : W) (out : Option Bool × W) (done : Bool)
      → out.0 ≡ some done
      → Masked block fs s n (contents fs.dev_buf) w done out.1
      → Outcome s n w (after_loop out)
  unfolding after_loop
  after_loop-Outcome s n w (none, w') done e m = cc
  after_loop-Outcome s n w (some true, w') done e m =
      let d : true ≡ done = cc in (pos 0, refl, rw (← d) at m)
  after_loop-Outcome s n w (some false, w') done e m =
      let d : false ≡ done = cc in (neg 31, refl, rw (← d) at m)

  write_nand_part_lem :
      (offset count : ℕ) (w : W)
      → 0 < count
      → offset + count < u32_mod
      → Outcome (offset / 512) (count / 512) w (write_nand_part dev offset count fs w)
  unfolding write_nand_part after_loop
  write_nand_part_lem offset count w nonzero small = elim (Bool-cases (dev.is_active w)) [
    | inr off ↦ rw off (neg 31, refl, Masked-none block fs _ _ _ w)
    | inl on ↦ rw on (elim (Bool-cases (count % 0x200 == 0)) [
      | inr odd ↦ rw odd (neg 30, refl, Masked-none block fs _ _ _ w)
      | inl even ↦ rw even (elim (Bool-cases (is_nand_protected fs)) [
        | inr open_nand ↦
            rw open_nand
              (plain_write (offset / 512) (count / 512) w (no_region_in_use open_nand) _ refl)
        | inl guarded ↦
            let (done, e, m) =
              protected_loop_lem dev block disk fs fit sorted (count / 512 + 1) (offset / 512)
                (count / 512) (contents fs.dev_buf) w (omega arith) (ground arith) (omega arith) in
            rw guarded (after_loop-Outcome (offset / 512) (count / 512) w _ done e m)
      ])
    ])
  ]

device_check :
    (fs : Fs) (offset size : ℕ)
    → (check_handle fs dev_handle_magic offset size ≡ none)
      ⊎ (check_handle fs dev_handle_magic offset size ≡ some false)
unfolding check_handle
device_check fs offset size = ground arith

-- With regions that are sorted and do not wrap, and a device on which a write changes only the
-- sectors that it names and stores the buffer there if it succeeds, a write of the device buffer
-- to the NAND always returns. It changes no protected sector and none outside the range; if it
-- returns `FR_OK`, all other sectors of the range hold the buffer. The range is not empty, and its
-- end has a number of 32 bits.
pub fs_write_from_device_buffer_lem :
    {W : Type 0} (fat : FatFs W) (dev : DevStruct W) (block : W → ℕ → Bytes) (fs : Fs)
    (offset size buf_handle : ℕ) (w : W)
    → IsDisk dev block
    → RegionsFit fs
    → RegionsSorted fs
    → 0 < size
    → offset + size < u32_mod
    → (r : ℤ) × ((fs_write_from_device_buffer dev fat dev_handle_magic offset size buf_handle fs
          w).0
        ≡ some r)
      × Masked block fs
          (offset / 512)
          (size / 512)
          (contents fs.dev_buf)
          w
          (is_ok r)
          (fs_write_from_device_buffer dev fat dev_handle_magic offset size buf_handle fs w).2
unfolding fs_write_from_device_buffer
fs_write_from_device_buffer_lem fat dev block fs offset size buf_handle w disk fit sorted nonzero
      small =
    elim (device_check fs offset size) [
      | inl e ↦ rw (e, fs_write_from_device_buffer) refused
      | inr e ↦
          rw (e, fs_write_from_device_buffer)
            (elim (Bool-cases (is_valid_dev_buf_handle fs buf_handle)) [
              | inr no_buf ↦ rw no_buf refused
              | inl buf ↦ rw buf (elim (Bool-cases (ltb fs.dev_buf.data_size size)) [
                | inl short ↦ rw short refused
                | inr full ↦
                    let all : min fs.dev_buf.data_size size ≡ size = ground arith in
                    rw (full, all)
                      (write_nand_part_lem dev block disk fs fit sorted offset size w nonzero small)
              ])
            ])
    ]
  where
    refused :
        (r : ℤ) × (some (neg 30) ≡ some r)
        × Masked block fs (offset / 512) (size / 512) (contents fs.dev_buf) w (is_ok r) w
    refused = (neg 30, refl, Masked-none block fs _ _ _ w)
