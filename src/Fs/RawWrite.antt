-- ===== src/Fs/RawWrite.antt =====
-- `fsWriteFromDeviceBuffer` of fs.c: the device buffer written to a file or to the NAND, where
-- the protected regions are left out.
pub mod Chunk
mod Loop
pub mod Masked
pub mod Safety
pub mod Guarded
use fastboot3ds.Base.{
  ℕ, zero, suc, ◌+◌, ◌*◌, ◌/◌, ◌%◌, Bool, true, false, not, Option, none, some, Bytes, min, take,
  drop, ltb, leb, ◌==◌, if◌then◌else◌, add32, sub32, ℤ, pos, neg, is_neg,
}
use fastboot3ds.Fs.World.{FatFs, DevStruct}
use fastboot3ds.Fs.State.{Fs}
use fastboot3ds.Fs.Files.{f_lseek, f_write}
use fastboot3ds.Fs.DevBuf.{contents, check_handle, is_valid_dev_buf_handle}
use fastboot3ds.Fs.Protection.{region_at, is_nand_protected, get_nand_prot_region}

-- What one round of the loop does from `sector` on: the sectors that it takes, and whether it
-- writes them.
unfoldable pub chunk : Fs → ℕ → ℕ → ℕ × Bool
chunk fs sector to_write = elim (get_nand_prot_region fs sector to_write) [
  | some i ↦
      let r = region_at fs i in
      if leb r.sector sector
      then (sub32 (min (add32 r.sector r.count) (add32 sector to_write)) sector, false)
      else (min to_write (sub32 r.sector sector), true)
  | none ↦ (to_write, true)
]

-- The end of `fsWriteFromDeviceBuffer`.
abbrev pub emptied : Fs → Fs
emptied fs = record fs { dev_buf = record fs.dev_buf { data_size = 0 } }

module _ {W : Type 0} (rawnand : DevStruct W) where
  -- The `do … while(toWrite)` loop on fuel; `none` is that the fuel ran out, and `some false` that
  -- a write failed.
  unfoldable pub protected_loop : Fs → ℕ → ℕ → ℕ → Bytes → W → Option Bool × W
  protected_loop fs zero sector to_write ptr w = (none, w)
  protected_loop fs (suc fuel) sector to_write ptr w =
      let (count, writes) = chunk fs sector to_write in
      let left = sub32 to_write count in
      let (done, w') =
        if writes
        then rawnand.write_sector sector count (take (count * 512) ptr) w
        else (true, w) in
      let rest = protected_loop fs fuel (add32 sector count) left (drop (count * 512) ptr) w' in
      if not done then (some false, w') else if left == 0 then (some true, w') else rest

  -- The device branch; a round takes at least one sector, so `count + 1` rounds are enough.
  unfoldable pub write_nand_part : ℕ → ℕ → Fs → W → Option ℤ × Fs × W
  unfolding protected_loop is_nand_protected
  write_nand_part offset count fs w =
      let sector = offset / 512 in
      let sectors = count / 512 in
      let mem = contents fs.dev_buf in
      let (done, w1) = rawnand.write_sector sector sectors (take (sectors * 512) mem) w in
      let (loop, w2) = protected_loop fs (sectors + 1) sector sectors mem w in
      if not (rawnand.is_active w)
      then (some (neg 31), fs, w)
      else if not (count % 0x200 == 0)
      then (some (neg 30), fs, w)
      else if is_nand_protected fs
      then (elim loop [
        | none ↦ (none, fs, w2)
        | some wrote ↦ if wrote then (some (pos 0), emptied fs, w2) else (some (neg 31), fs, w2)
      ])
      else if done
      then (some (pos 0), emptied fs, w1)
      else (some (neg 31), fs, w1)

  unfoldable pub write_file_part : FatFs W → ℕ → ℕ → ℕ → Fs → W → Option ℤ × Fs × W
  unfolding f_lseek f_write
  write_file_part fat handle offset count fs w =
      let (sought, w1) = f_lseek fat handle offset fs w in
      let (res, w2) = f_write fat handle (take count (contents fs.dev_buf)) count fs w1 in
      if is_neg sought
      then (some (neg 31), fs, w1)
      else if is_neg res
      then (some (neg 31), fs, w2)
      else (some (pos 0), emptied fs, w2)

  -- The result is `none` only where the loop's fuel runs out.
  unfoldable pub fs_write_from_device_buffer : FatFs W → ℕ → ℕ → ℕ → ℕ → Fs → W → Option ℤ × Fs × W
  unfolding check_handle is_valid_dev_buf_handle
  fs_write_from_device_buffer fat dest offset size buf_handle fs w =
      let count = min fs.dev_buf.data_size size in
      elim (check_handle fs dest offset size) [
        | none ↦ (some (neg 30), fs, w)
        | some to_file ↦
            if not (is_valid_dev_buf_handle fs buf_handle)
            then (some (neg 30), fs, w)
            else if ltb fs.dev_buf.data_size size
            then (some (neg 30), fs, w)
            else if to_file
            then write_file_part fat dest offset count fs w
            else write_nand_part offset count fs w
      ]
