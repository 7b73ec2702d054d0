-- ===== src/Fs/Drives.antt =====
-- Mounting drives, the devices, and raw access to the NAND in fs.c.
mod Mounting
pub mod RawAccess
pub mod Remount
use fastboot3ds.Base.{
  ℕ, zero, suc, ◌+◌, ◌*◌, Bool, true, false, not, Option, none, some, get_or, set, leb, ◌==◌,
  if◌then◌else◌, ℤ, pos, negsuc, neg, u32,
}
use fastboot3ds.Fs.World.{FatFs, DevStruct}
use fastboot3ds.Fs.State.{Fs, fs_max_devices, fs_max_drives, fresult}

abbrev pub device_sdmc : ℕ
device_sdmc = 0

abbrev pub device_nand : ℕ
device_nand = 1

abbrev pub drive_sdmc : ℕ
drive_sdmc = 0

abbrev pub drive_twln : ℕ
drive_twln = 1

abbrev pub drive_twlp : ℕ
drive_twlp = 2

abbrev pub drive_nand : ℕ
drive_nand = 3

-- `devHandleMagic`
abbrev pub dev_handle_magic : ℕ
dev_handle_magic = 0x42424296

-- `err == FR_OK`
abbrev pub is_ok : ℤ → Bool
is_ok (pos zero) = true
is_ok (pos (suc n)) = false
is_ok (negsuc n) = false

-- `if(err != FR_OK) return err;` between two steps.
abbrev pub if_ok : {W : Type 0} → ℤ × Fs × W → (Fs → W → ℤ × Fs × W) → ℤ × Fs × W
if_ok (err, fs, w) next = let more = next fs w in if is_ok err then more else (err, fs, w)

abbrev pub is_mounted : Fs → ℕ → Bool
is_mounted fs drive = get_or fs.mounted drive false

unfoldable pub f_is_drive_mounted : ℕ → Fs → Bool
f_is_drive_mounted drive fs = if leb fs_max_drives drive then false else is_mounted fs drive

unfoldable pub is_valid_dev_handle : ℕ → Bool
is_valid_dev_handle handle = if not (handle == dev_handle_magic) then false else true

-- Only the NAND is supported.
unfoldable pub get_device_from_handle : ℕ → ℕ
get_device_from_handle handle = device_nand

unfoldable pub uses_raw_access : Fs → ℕ → Bool
uses_raw_access fs dev = if not (get_or fs.raw dev false) then false else true

module _ {W : Type 0} (sdcard rawnand : DevStruct W) where
  unfoldable pub f_get_device_size : ℕ → W → ℕ
  f_get_device_size dev w =
      if dev == device_sdmc
      then sdcard.get_sector_count w
      else if dev == device_nand
      then rawnand.get_sector_count w
      else 0

  unfoldable pub f_is_dev_active : ℕ → W → Bool
  f_is_dev_active dev w =
      if dev == device_sdmc
      then sdcard.is_active w
      else if dev == device_nand
      then rawnand.is_active w
      else false

module _ {W : Type 0} (fat : FatFs W) where
  unfoldable pub f_mount : ℕ → Fs → W → ℤ × Fs × W
  f_mount drive fs w =
      let (res, w') = fat.mount drive true w in
      if leb fs_max_drives drive
      then (neg 30, fs, w)
      else if is_mounted fs drive
      then (neg 31, fs, w)
      else if res == 0
      then (pos 0, record fs { mounted = set fs.mounted drive true }, w')
      else (fresult res, fs, w')

  -- The drive counts as unmounted also where FatFs reports an error.
  unfoldable pub f_unmount : ℕ → Fs → W → ℤ × Fs × W
  f_unmount drive fs w =
      let (res, w') = fat.mount drive false w in
      if leb fs_max_drives drive
      then (neg 30, fs, w)
      else if not (is_mounted fs drive)
      then (neg 31, fs, w)
      else (fresult res, record fs { mounted = set fs.mounted drive false }, w')

  unfoldable pub ensure_unmounted : ℕ → Fs → W → ℤ × Fs × W
  unfolding f_is_drive_mounted
  ensure_unmounted drive fs w =
      if not (f_is_drive_mounted drive fs) then (pos 0, fs, w) else f_unmount drive fs w

  unfoldable pub ensure_mounted : ℕ → Fs → W → ℤ × Fs × W
  unfolding f_is_drive_mounted
  ensure_mounted drive fs w =
      if f_is_drive_mounted drive fs then (pos 0, fs, w) else f_mount drive fs w

  -- The second result is what `size` receives.
  unfoldable pub f_get_free : ℕ → Fs → W → ℤ × Option ℕ × W
  f_get_free drive fs w =
      let (res, free_clusters, csize, w') = fat.get_free drive w in
      if leb fs_max_drives drive
      then (neg 30, none, w)
      else if not (is_mounted fs drive)
      then (neg 31, none, w)
      else if res == 0
      then (pos 0, some (u32 (free_clusters * csize) * 512), w')
      else (fresult res, none, w')

  -- The `FS_DEVICE_NAND` case of `fPrepareRawAccess`, and what follows the `switch`.
  unfoldable pub unmount_nand_drives : ℕ → Fs → W → ℤ × Fs × W
  unmount_nand_drives dev fs w = if_ok (ensure_unmounted drive_twln fs w) λ fs1 w1.
      if_ok (ensure_unmounted drive_twlp fs1 w1) λ fs2 w2.
        if_ok (ensure_unmounted drive_nand fs2 w2)
          λ fs3 w3. (pos dev_handle_magic, record fs3 { raw = set fs3.raw dev true }, w3)

  -- A device other than the NAND is turned away before the `switch`.
  unfoldable pub f_prepare_raw_access : ℕ → Fs → W → ℤ × Fs × W
  f_prepare_raw_access dev fs w =
      let fs' = record fs { backup = fs.mounted } in
      if leb fs_max_devices dev
      then (neg 30, fs, w)
      else if get_or fs.raw dev false
      then (neg 31, fs, w)
      else if not (dev == device_nand)
      then (neg 31, fs, w)
      else unmount_nand_drives dev fs' w

  -- The loop of `fFinalizeRawAccess` at `drive` with `left` drives to go.
  unfoldable pub remount_loop : ℕ → ℕ → Fs → W → ℤ × Fs × W
  remount_loop zero drive fs w = (pos 0, fs, w)
  remount_loop (suc left) drive fs w =
      if_ok (if get_or fs.backup drive false then ensure_mounted drive fs w else (pos 0, fs, w))
        (remount_loop left (drive + 1))

  unfoldable pub f_finalize_raw_access : ℕ → Fs → W → ℤ × Fs × W
  unfolding is_valid_dev_handle get_device_from_handle uses_raw_access
  f_finalize_raw_access handle fs w =
      let dev = get_device_from_handle handle in
      if not (is_valid_dev_handle handle)
      then (neg 30, fs, w)
      else if not (uses_raw_access fs dev)
      then (neg 31, fs, w)
      else if_ok (remount_loop fs_max_drives 0 fs w)
          λ fs' w'. (pos 0, record fs' { raw = set fs'.raw dev false }, w')
