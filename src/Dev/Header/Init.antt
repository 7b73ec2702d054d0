-- ===== src/Dev/Header/Init.antt =====
-- What `sdmmc_dnand_init` returns and leaves.
use fastboot3ds.Base.{
  ℕ, ◌≡◌, Bool, true, false, ◌||◌, Option, some, Bytes, take, drop, if◌then◌else◌, bytes_eq, codes,
}
use fastboot3ds.Partitions.{max_partitions, partitions_reset}
use fastboot3ds.Fs.World.{FatFs}
use fastboot3ds.Fs.State.{Fs}
use fastboot3ds.Dev.{Mmc, Devices, sdmmc_rnand_init}
use fastboot3ds.Dev.Header.Entries.{Collected}

module _ (new_3ds : Bool) {W : Type 0} (ready : Bool) (got : ℕ × Bytes × W)
    (cid_err twl ctr : ℕ) where
  -- The exits, where `got` is what the read of the header gave: it fails, or the NAND was ready, the
  -- header could be read and has the magic, the CID could be read, and the device is active with
  -- the table of the header and the two counters.
  data Start : Option (Bool × Devices × Fs × W) → Type 0 where
    fails : (d : Devices) (fs : Fs) (w : W) → Start (some (false, d, fs, w))
    starts :
        (d : Devices) (fs : Fs) (w : W)
        → ready ≡ true
        → got.0 ≡ 0
        → bytes_eq (take 4 (drop 0x100 got.1)) (codes "NCSD") ≡ true
        → cid_err ≡ 0
        → (d.dnand ≡ true) × (d.twl_counter ≡ twl) × (d.ctr_counter ≡ ctr)
        → Collected new_3ds got.1 max_partitions d.table
        → Start (some (true, d, fs, w))

module _ {W : Type 0} (mmc : Mmc W) (fat : FatFs W) (new_3ds : Bool) (sha1 sha256 : Bytes → ℕ) where
  -- The devices after the NAND was made ready.
  abbrev ready_devices : Devices → Fs → W → Devices
  ready_devices d fs w =
      let d0 = record d { table = partitions_reset d.table } in
      if d.rnand then d0 else (sdmmc_rnand_init mmc fat d0 fs w).1

  -- Whether the NAND is ready.
  abbrev pub is_ready : Devices → Fs → W → Bool
  is_ready d fs w =
      d.rnand || (sdmmc_rnand_init mmc fat (record d { table = partitions_reset d.table }) fs w).0

  -- The world at the read of the header.
  abbrev pub ready_world : Devices → Fs → W → W
  ready_world d fs w =
      if d.rnand
      then w
      else (sdmmc_rnand_init mmc fat (record d { table = partitions_reset d.table }) fs w).3

  -- What is true of a start that succeeded, where `got` is what the read of the header gave: the
  -- read had no error, what it gave has the magic, the CID could be read after it and the counters
  -- are its hashes, and the table is that of this header.
  pub Active : Bool → ℕ × Bytes × W → Bool × Devices × Fs × W → Type 0
  Active ready got r =
      ((r.1.dnand ≡ true)
        × (r.1.twl_counter ≡ sha1 (mmc.nand_cid got.2).1)
        × (r.1.ctr_counter ≡ sha256 (mmc.nand_cid got.2).1))
      × (ready ≡ true)
      × (got.0 ≡ 0)
      × (bytes_eq (take 4 (drop 0x100 got.1)) (codes "NCSD") ≡ true)
      × ((mmc.nand_cid got.2).0 ≡ 0)
      × Collected new_3ds got.1 max_partitions r.1.table
