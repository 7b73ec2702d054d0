-- ===== src/Dev.antt =====
-- source/arm9/dev.c: the SD card, the NAND, and the NAND behind its encryption.
pub mod Aes
pub mod Header
pub mod Nand
mod Tests
use fastboot3ds.Base.{
  ℕ, zero, suc, ◌+◌, ◌-◌, ◌*◌, ◌/◌, ◌%◌, ◌^◌, Bool, true, false, not, ◌&&◌, ◌||◌, Option, none,
  some, List, [], ◌∷◌, Bytes, ltb, ◌==◌, if◌then◌else◌,
}
use fastboot3ds.Partitions.{Table}
use fastboot3ds.Fs.World.{FatFs}
use fastboot3ds.Fs.State.{Fs}
use fastboot3ds.Fs.Drives.{f_mount, f_unmount, f_is_drive_mounted, drive_sdmc, drive_twln}

-- What dev.c calls in sdmmc.c and timer.c, over a state of the hardware; a number that comes first
-- in a result is an error, 0 for none. `present` is the bit of the status register.
pub record Mmc (W : Type 0) : Type 0 where
  pub init : W → W
  pub present : W → Bool
  pub sleep : ℕ → W → W
  pub sd_init : W → ℕ × W
  pub nand_init : W → ℕ × W
  pub sd_read : ℕ → ℕ → W → ℕ × Bytes × W
  pub sd_write : ℕ → ℕ → Bytes → W → ℕ × W
  pub nand_read : ℕ → ℕ → W → ℕ × Bytes × W
  pub nand_write : ℕ → ℕ → Bytes → W → ℕ × W
  pub nand_cid : W → ℕ × Bytes × W
  pub sd_size : W → ℕ
  pub nand_size : W → ℕ

-- The static variables of dev.c: which devices are initialized, and the counters of the encryption
-- as numbers of 128 bits. With them the table of partitions and `ctr_nand_sector`.
pub record Devices : Type 0 where
  pub sd : Bool
  pub rnand : Bool
  pub dnand : Bool
  pub twl_counter : ℕ
  pub ctr_counter : ℕ
  pub table : Table
  pub ctr_nand_sector : ℕ

unfoldable pub sdmmc_sd_close : Devices → Bool × Devices
sdmmc_sd_close d = (true, record d { sd = false })

unfoldable pub sdmmc_rnand_close : Devices → Bool × Devices
sdmmc_rnand_close d = (true, record d { rnand = false })

unfoldable pub sdmmc_dnand_close : Devices → Bool × Devices
sdmmc_dnand_close d = (true, record d { dnand = false })

unfoldable pub sdmmc_rnand_is_active : Devices → Bool
sdmmc_rnand_is_active d = d.rnand

unfoldable pub sdmmc_dnand_is_active : Devices → Bool
sdmmc_dnand_is_active d = sdmmc_rnand_is_active d && d.dnand

module _ {W : Type 0} (mmc : Mmc W) where
  -- The loop that waits for the card, with the rounds of two milliseconds that are left; false is
  -- that the time is over.
  unfoldable pub wait_for_card : ℕ → W → Bool × W
  wait_for_card zero w = (false, w)
  wait_for_card (suc left) w =
      let rest = wait_for_card left (mmc.sleep 2 w) in if mmc.present w then (true, w) else rest

  unfoldable pub sdmmc_sd_is_active : Devices → W → Bool
  sdmmc_sd_is_active d w = mmc.present w && d.sd

  unfoldable pub sdmmc_sd_get_sector_count : Devices → W → ℕ
  sdmmc_sd_get_sector_count d w = if not d.sd then 0 else mmc.sd_size w

  unfoldable pub sdmmc_rnand_get_sector_count : Devices → W → ℕ
  sdmmc_rnand_get_sector_count d w = if not d.rnand then 0 else mmc.nand_size w

  unfoldable pub sdmmc_sd_read_sector : ℕ → ℕ → Devices → W → Bool × Bytes × W
  sdmmc_sd_read_sector sector count d w =
      let (err, got, w1) = mmc.sd_read sector count w in
      if not d.sd then (false, [], w) else (err == 0, got, w1)

  unfoldable pub sdmmc_sd_write_sector : ℕ → ℕ → Bytes → Devices → W → Bool × W
  sdmmc_sd_write_sector sector count buf d w =
      let (err, w1) = mmc.sd_write sector count buf w in
      if not d.sd then (false, w) else (err == 0, w1)

  unfoldable pub sdmmc_rnand_read_sector : ℕ → ℕ → Devices → W → Bool × Bytes × W
  sdmmc_rnand_read_sector sector count d w =
      let (err, got, w1) = mmc.nand_read sector count w in
      if not d.rnand then (false, [], w) else (err == 0, got, w1)

  unfoldable pub sdmmc_rnand_write_sector : ℕ → ℕ → Bytes → Devices → W → Bool × W
  sdmmc_rnand_write_sector sector count buf d w =
      let (err, w1) = mmc.nand_write sector count buf w in
      if not d.rnand then (false, w) else (err == 0, w1)

  module _ (fat : FatFs W) where
    -- The loop over the drives from `drive` on, with `left` to go.
    unfoldable pub remount_drives : ℕ → ℕ → Fs → W → Fs × W
    remount_drives zero drive fs w = (fs, w)
    remount_drives (suc left) drive fs w =
        let (r1, fs1, w1) = f_unmount fat drive fs w in
        let (r2, fs2, w2) = f_mount fat drive fs1 w1 in
        let mounted = f_is_drive_mounted drive fs in
        remount_drives left (drive + 1) (if mounted then fs2 else fs) (if mounted then w2 else w)

    unfoldable pub sdmmc_sd_init : Devices → Fs → W → Bool × Devices × Fs × W
    sdmmc_sd_init d fs w =
        let (c1, d1) = sdmmc_dnand_close d in
        let (c2, d2) = sdmmc_rnand_close d1 in
        let (ready, w1) = wait_for_card 5 (mmc.init w) in
        let (err, w2) = mmc.sd_init w1 in
        let (fs3, w3) = remount_drives 3 drive_twln fs w2 in
        if d.sd
        then (true, d, fs, w)
        else if not ready
        then (false, d2, fs, w1)
        else if not (err == 0)
        then (false, d2, fs, w2)
        else (true, record d2 { sd = true }, fs3, w3)

    -- The handler of the interrupt.
    unfoldable pub sdio_handler : Devices → Fs → W → Devices × Fs × W
    sdio_handler d fs w =
        let (c, d1) = sdmmc_sd_close d in
        let (r, fs1, w1) = f_unmount fat drive_sdmc fs w in
        if mmc.present w then (d, fs, w) else (d1, fs1, w1)

    unfoldable pub sdmmc_rnand_init : Devices → Fs → W → Bool × Devices × Fs × W
    sdmmc_rnand_init d fs w =
        let (tried, d_sd, fs_sd, w_sd) = sdmmc_sd_init d fs w in
        let d1 = if d.sd then d else d_sd in
        let fs1 = if d.sd then fs else fs_sd in
        let (err, w2) = mmc.nand_init (if d.sd then w else w_sd) in
        if d.rnand
        then (true, d, fs, w)
        else if not (err == 0)
        then (false, d1, fs1, w2)
        else (true, record d1 { rnand = true }, fs1, w2)
