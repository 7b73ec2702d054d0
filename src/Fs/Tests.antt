-- ===== src/Fs/Tests.antt =====
-- A console's NAND in memory, and the theorems on fs.c at concrete inputs.
mod Tables
use fastboot3ds.Base.{
  ℕ, zero, suc, ◌+◌, ◌-◌, ◌*◌, ◌≤◌, ◌<◌, ◌≡◌, ◌⊎◌, inl, inr, refl, Bool, true, false, ◌&&◌, Bytes,
  List, [], ◌∷◌, arith, length, replicate, leb, ltb, if◌then◌else◌, ℤ, pos, neg, Option, some,
  codes, get_or,
}
use fastboot3ds.Partitions.{Partition, Table, entry, zeroed, max_partitions, partition_get_info}
use fastboot3ds.Fs.World.{DevStruct, FatFs, IsDisk, sector_of}
use fastboot3ds.Fs.Memory.{Disk, idle_fat, overwrite, overwrite_frame, overwrite_stores}
use fastboot3ds.Fs.State.{Fs, initial, no_region, Region}
use fastboot3ds.Fs.Files.{f_open, f_close}
use fastboot3ds.Fs.Drives.{dev_handle_magic, is_ok}
use fastboot3ds.Fs.DevBuf.{contents}
use fastboot3ds.Fs.Protection.{
  f_set_nand_protection, protect_from, with_default_prot, protect_firmware, add_region, grow_region,
  get_nand_prot_region, overlaps,
}
use fastboot3ds.Fs.Protection.Cover.{IsFirmware, IsLayout, sector_limit}
use fastboot3ds.Fs.Protection.Enable.{Guarded, Guarded-congr, f_set_nand_protection-Guarded}
use fastboot3ds.Fs.Protection.Lookup.{RegionsFit}
use fastboot3ds.Fs.RawWrite.{chunk, write_nand_part, fs_write_from_device_buffer}
use fastboot3ds.Fs.RawWrite.Chunk.{RegionsSorted}
use fastboot3ds.Fs.RawWrite.Masked.{Masked}
use fastboot3ds.Fs.RawWrite.Safety.{fs_write_from_device_buffer_lem}
use fastboot3ds.Fs.RawWrite.Guarded.{IsCritical, write-keeps_critical}

abbrev pub memory_nand : DevStruct Disk
memory_nand = record {
  read_sector = λ s n w. (true, [], w);
  write_sector = λ s n buf w. (true, overwrite s n buf w);
  close = λ w. w;
  is_active = λ w. true;
  get_sector_count = λ w. 0x1D7800;
}

memory_nand-IsDisk : IsDisk memory_nand (λ w k. w k)
memory_nand-IsDisk = record {
  frame = λ s n buf w k o. overwrite_frame s n buf w k o;
  stores = λ s n buf w k d lo hi. overwrite_stores s n buf w k lo hi;
}

abbrev pub part : ℕ → ℕ → ℕ → Partition
part sector count type = record {
  name = [];
  sector = sector;
  count = count;
  type = type;
  keyslot = 0xFF;
}

-- The partitions of a console: TWL, AGB_FIRM, the two firmware partitions, CTR.
abbrev pub console : Table
console = record {
  parts =
      part 0 0x58980 1
      ∷ part 0x58980 0x180 4
      ∷ part 0x58980 0x2000 3
      ∷ part 0x5A980 0x2000 3
      ∷ part 0x5C980 0x17AE80 1
      ∷ part 0 0 0
      ∷ part 0 0 0
      ∷ part 0 0 0
      ∷ [];
  num = 8;
}

console_small :
    (i : ℕ)
    → i < max_partitions
    → ((entry console i).sector < sector_limit) × ((entry console i).count < sector_limit)
console_small zero lt = omega arith
console_small (suc zero) lt = omega arith
console_small (suc (suc zero)) lt = omega arith
console_small (suc (suc (suc zero))) lt = omega arith
console_small (suc (suc (suc (suc zero)))) lt = omega arith
console_small (suc (suc (suc (suc (suc zero))))) lt = omega arith
console_small (suc (suc (suc (suc (suc (suc zero)))))) lt = omega arith
console_small (suc (suc (suc (suc (suc (suc (suc zero))))))) lt = omega arith
console_small (suc (suc (suc (suc (suc (suc (suc (suc i)))))))) lt = omega arith

console_firmware : (i : ℕ) → IsFirmware console i → (i ≡ 2) ⊎ (i ≡ 3)
console_firmware zero f = absurd (omega (arith, f.1))
console_firmware (suc zero) f = absurd (omega (arith, f.1))
console_firmware (suc (suc zero)) f = inl refl
console_firmware (suc (suc (suc zero))) f = inr refl
console_firmware (suc (suc (suc (suc zero)))) f = absurd (omega (arith, f.1))
console_firmware (suc (suc (suc (suc (suc zero))))) f = absurd (omega (arith, f.1))
console_firmware (suc (suc (suc (suc (suc (suc zero)))))) f = absurd (omega (arith, f.1))
console_firmware (suc (suc (suc (suc (suc (suc (suc zero))))))) f = absurd (omega (arith, f.1))
console_firmware (suc (suc (suc (suc (suc (suc (suc (suc i)))))))) f = absurd (omega (arith, f.1))

console-IsLayout : IsLayout console
console-IsLayout = record {
  small = console_small;
  behind = λ i f. elim (console_firmware i f) [
    | inl e ↦ rw e (omega arith)
    | inr e ↦ rw e (omega arith)
  ];
  ascending = λ i j le f g. order i j le (console_firmware i f) (console_firmware j g);
}
  where
    order :
        (i j : ℕ)
        → i ≤ j
        → (i ≡ 2) ⊎ (i ≡ 3)
        → (j ≡ 2) ⊎ (j ≡ 3)
        → (entry console i).sector ≤ (entry console j).sector
    order i j le (inl a) (inl b) = rw (a, b) (omega arith)
    order i j le (inl a) (inr b) = rw (a, b) (omega arith)
    order i j le (inr a) (inl b) = absurd (omega arith)
    order i j le (inr a) (inr b) = rw (a, b) (omega arith)

f_set_nand_protection-Guarded_example :
    Guarded console (f_set_nand_protection console true initial).1
f_set_nand_protection-Guarded_example =
    f_set_nand_protection-Guarded console initial console-IsLayout refl refl

-- Raw access is on, and the device buffer holds two sectors.
abbrev pub two_sectors : Fs
two_sectors = record ((f_set_nand_protection console true initial).1) {
  raw = false ∷ true ∷ [];
  dev_buf = record { mem = some (replicate 1024 0xAA); mem_size = 1024; data_size = 1024 };
}

-- Sectors 0x95 and 0x96 are to be written.
write-keeps_critical_example :
    (fs_write_from_device_buffer memory_nand idle_fat dev_handle_magic 0x12A00 0x400 0 two_sectors
        (λ k. k ∷ [])).2
      0x96
    ≡ (0x96 ∷ [])
write-keeps_critical_example =
    write-keeps_critical idle_fat memory_nand (λ w k. w k) console initial two_sectors 0x12A00 0x400
      0 (λ k. k ∷ []) memory_nand-IsDisk console-IsLayout refl refl refl refl (omega arith)
      (omega arith) 0x96 (inr (inl refl))

pub two_sectors-Guarded : Guarded console two_sectors
two_sectors-Guarded =
    Guarded-congr console two_sectors _ refl refl
      (f_set_nand_protection-Guarded console initial console-IsLayout refl refl)

fs_write_from_device_buffer_lem_example :
    (r : ℤ) × ((fs_write_from_device_buffer memory_nand idle_fat dev_handle_magic 0x12A00 0x400 0
        two_sectors
        (λ k. k ∷ [])).0
      ≡ some r)
    × Masked
        (λ (w : Disk) k. w k)
        two_sectors
        0x95
        2
        (contents two_sectors.dev_buf)
        (λ k. k ∷ [])
        (is_ok r)
        (fs_write_from_device_buffer memory_nand idle_fat dev_handle_magic 0x12A00 0x400 0
          two_sectors
          (λ k. k ∷ [])).2
fs_write_from_device_buffer_lem_example =
    fs_write_from_device_buffer_lem idle_fat memory_nand (λ w k. w k) two_sectors 0x12A00 0x400 0
      (λ k. k ∷ []) memory_nand-IsDisk two_sectors-Guarded.fit two_sectors-Guarded.sorted
      (omega arith) (omega arith)

-- Sector 0x95 receives the buffer, and 0x96 keeps its contents.
two_sectors_written :
    (fs_write_from_device_buffer memory_nand idle_fat dev_handle_magic 0x12A00 0x400 0 two_sectors
        (λ k. k ∷ [])).2
      0x95
    ≡ replicate 512 0xAA
unfolding fs_write_from_device_buffer write_nand_part overwrite f_set_nand_protection protect_from
    with_default_prot partition_get_info protect_firmware add_region grow_region
    get_nand_prot_region overlaps chunk
two_sectors_written = refl
