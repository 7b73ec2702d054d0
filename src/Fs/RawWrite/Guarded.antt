-- ===== src/Fs/RawWrite/Guarded.antt =====
-- With the NAND protection on, no write of the device buffer reaches a firmware partition.
use fastboot3ds.Base.{ℕ, ◌+◌, ◌≤◌, ◌<◌, ◌≡◌, true, Bytes, length, u32_mod, inl, inr, ◌⊎◌}
use fastboot3ds.Partitions.{Table, entry, max_partitions}
use fastboot3ds.Fs.World.{DevStruct, FatFs, IsDisk}
use fastboot3ds.Fs.State.{Fs}
use fastboot3ds.Fs.Drives.{dev_handle_magic}
use fastboot3ds.Fs.Protection.{f_set_nand_protection}
use fastboot3ds.Fs.Protection.Cover.{IsFirmware, IsLayout}
use fastboot3ds.Fs.Protection.Enable.{Guarded, Guarded-congr, f_set_nand_protection-Guarded}
use fastboot3ds.Fs.Protection.Lookup.{Protected}
use fastboot3ds.Fs.RawWrite.{fs_write_from_device_buffer}
use fastboot3ds.Fs.RawWrite.Safety.{fs_write_from_device_buffer_lem}

-- The header of the NAND, its secret sector, and the sectors of the firmware partitions.
abbrev pub IsCritical : Table → ℕ → Type 0
IsCritical t k =
    (k ≡ 0)
    ⊎ (k ≡ 0x96)
    ⊎ ((j : ℕ) × IsFirmware t j
        × ((entry t j).sector ≤ k)
        × (k < (entry t j).sector + (entry t j).count))

-- Where `fSetNandProtection(true)` was called on an unprotected NAND whose partitions are laid
-- out as on a console, and the regions are still the ones that it set, no write of the device
-- buffer to the NAND changes sector 0, sector 0x96 or a sector of a firmware partition, whatever
-- the call returns. The device changes only the sectors that a write names. The range is not
-- empty, and its end has a number of 32 bits.
pub write-keeps_critical :
    {W : Type 0} (fat : FatFs W) (dev : DevStruct W) (block : W → ℕ → Bytes) (t : Table)
    (before fs : Fs) (offset size buf_handle : ℕ) (w : W)
    → IsDisk dev block
    → IsLayout t
    → length before.regions ≡ max_partitions + 2
    → before.num_regions ≡ 0
    → fs.regions ≡ (f_set_nand_protection t true before).1.regions
    → fs.num_regions ≡ (f_set_nand_protection t true before).1.num_regions
    → 0 < size
    → offset + size < u32_mod
    → (k : ℕ) → IsCritical t k
    → block (fs_write_from_device_buffer dev fat dev_handle_magic offset size buf_handle fs w).2 k
      ≡ block w k
write-keeps_critical fat dev block t before fs offset size buf_handle w disk lay room off same num
      nonzero small k c =
    kept k (critical c)
  where
    g : Guarded t fs
    g = Guarded-congr t fs _ same num (f_set_nand_protection-Guarded t before lay room off)

    kept :
        (k : ℕ)
        → Protected fs k
        → block
            (fs_write_from_device_buffer dev fat dev_handle_magic offset size buf_handle fs w).2
            k
          ≡ block w k
    kept =
        (fs_write_from_device_buffer_lem fat dev block fs offset size buf_handle w disk g.fit
          g.sorted nonzero small).2.kept

    critical : IsCritical t k → Protected fs k
    critical (inl e) = rw e g.header
    critical (inr (inl e)) = rw e g.secret
    critical (inr (inr (j, f, lo, hi))) = g.firmware j k f lo hi
