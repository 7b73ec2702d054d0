-- ===== src/Fs/Image.antt =====
-- `fVerifyNandImage` and `fsDeinit` of fs.c: a NAND image file against the NAND itself, and the
-- closing of everything.
pub mod Check
pub mod Deinit
use fastboot3ds.Base.{
  ℕ, zero, suc, ◌+◌, ◌-◌, ◌*◌, ◌/◌, Bool, true, false, not, ◌||◌, Option, none, some, Bytes, drop,
  ltb, leb, ◌==◌, if◌then◌else◌, bytes_eq, u32, u32_mod, add32, not32, le32_at, ℤ, pos, neg, is_neg,
}
use fastboot3ds.Fs.World.{FatFs, DevStruct}
use fastboot3ds.Fs.State.{Fs, fs_max_files, fs_max_drives}
use fastboot3ds.Fs.Files.{f_open, f_size, f_read, f_close}
use fastboot3ds.Fs.Drives.{device_nand, f_get_device_size, f_unmount, is_ok}

-- `NCSD_header` (include/arm9/ncsd.h) as its 0x200 bytes, little-endian.
abbrev pub ncsd_media_size : Bytes → ℕ
ncsd_media_size h = le32_at h 0x104

abbrev pub part_media_offset : Bytes → ℕ → ℕ
part_media_offset h i = le32_at h (0x120 + i * 8)

abbrev pub part_media_size : Bytes → ℕ → ℕ
part_media_size h i = le32_at h (0x124 + i * 8)

-- The loop of `calcNandImageMinSize` at partition `i`, with `left` to go; `none` is the jump to
-- `fail`.
unfoldable pub largest_from : Bytes → ℕ → ℕ → ℕ → Option ℕ
largest_from h zero i largest = some largest
largest_from h (suc left) i largest =
    let part_size = part_media_size h i in
    let part_offset = part_media_offset h i in
    let total = add32 part_offset part_size in
    let rest = largest_from h left (i + 1) (if ltb largest total then total else largest) in
    if ltb (not32 part_size) part_offset then none else rest

unfoldable pub calc_nand_image_min_size : Bytes → ℕ
unfolding largest_from
calc_nand_image_min_size h = elim (largest_from h 8 0 0) [
  | none ↦ 0
  | some largest ↦
      if ltb ((u32_mod - 1) / 0x200) largest
      then 0
      else if ltb (ncsd_media_size h) largest
      then 0
      else u32 (largest * 0x200)
]

-- `FS_OPEN_READ`
abbrev pub fs_open_read : ℕ
fs_open_read = 1

module _ {W : Type 0} (fat : FatFs W) (sdcard rawnand decnand : DevStruct W) where
  -- The checks between `fOpen` and `fClose`; a check that fails jumps to `done`.
  unfoldable pub check_image : ℕ → ℕ → Fs → W → ℤ × W
  unfolding f_size f_read
  check_image handle max_image_size fs w =
      let image_size = f_size fat handle fs w in
      let (res, header, w1) = f_read fat handle 0x200 fs w in
      let (done, physical, w2) = rawnand.read_sector 0 1 w1 in
      let min_image_size = calc_nand_image_min_size header in
      if ltb image_size 0x200 || ltb max_image_size image_size
      then (neg 30, w)
      else if not (is_ok res)
      then (neg 30, w1)
      else if not done
      then (neg 30, w2)
      else if not (bytes_eq (drop 0x100 header) (drop 0x100 physical))
      then (neg 30, w2)
      else if min_image_size == 0 || ltb image_size min_image_size
      then (neg 30, w2)
      else (pos 0, w2)

  unfoldable pub f_verify_nand_image : Bytes → Fs → W → ℤ × Fs × W
  unfolding f_open check_image f_close f_get_device_size
  f_verify_nand_image path fs w =
      let max_image_size = u32 (f_get_device_size sdcard rawnand device_nand w * 512) in
      let (opened, fs1, w1) = f_open fat path fs_open_read fs w in
      elim opened [
        | ℤ.negsuc n ↦ (neg 30, fs1, w1)
        | ℤ.pos handle ↦
            let (ret, w2) = check_image handle max_image_size fs1 w1 in
            let (closed, fs3, w3) = f_close fat handle fs1 w2 in (ret, fs3, w3)
      ]

  -- The loops of `fsDeinit` at `i`, with `left` rounds to go.
  unfoldable pub close_from : ℕ → ℕ → Fs → W → Fs × W
  unfolding f_close
  close_from zero i fs w = (fs, w)
  close_from (suc left) i fs w =
      let (res, fs', w') = f_close fat i fs w in close_from left (i + 1) fs' w'

  unfoldable pub unmount_from : ℕ → ℕ → Fs → W → Fs × W
  unfolding f_unmount
  unmount_from zero i fs w = (fs, w)
  unmount_from (suc left) i fs w =
      let (res, fs', w') = f_unmount fat i fs w in unmount_from left (i + 1) fs' w'

  unfoldable pub fs_deinit : Fs → W → Fs × W
  unfolding close_from unmount_from
  fs_deinit fs w =
      let (fs1, w1) = close_from fs_max_files 0 fs w in
      let (fs2, w2) = unmount_from fs_max_drives 0 fs1 w1 in
      (fs2, sdcard.close (rawnand.close (decnand.close w2)))
