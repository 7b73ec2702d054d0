-- ===== src/Fs/World.antt =====
-- What fs.c calls and does not define: FatFs (thirdparty/fatfs) and the block devices of dev.h.
-- `W` is the state of all that; each call takes it and returns the new one.
use fastboot3ds.Base.{ℕ, ◌+◌, ◌-◌, ◌*◌, ◌≤◌, ◌<◌, ◌≡◌, ◌⊎◌, Bool, true, Bytes, take, drop}

-- `dev_struct` (include/arm9/dev.h). A read gives the bytes that it stored to the buffer, also
-- where it fails.
pub record DevStruct (W : Type 0) : Type 0 where
  pub read_sector : ℕ → ℕ → W → Bool × Bytes × W
  pub write_sector : ℕ → ℕ → Bytes → W → Bool × W
  pub close : W → W
  pub is_active : W → Bool
  pub get_sector_count : W → ℕ

-- The FatFs functions that fs.c calls. A file or directory object is named by its index in
-- `fTable` or `dTable`; the number that comes first in a result is the `FRESULT`, 0 for `FR_OK`.
pub record FatFs (W : Type 0) : Type 0 where
  -- with the drive number, and with `true` to mount it
  pub mount : ℕ → Bool → W → ℕ × W
  pub open_file : ℕ → Bytes → ℕ → W → ℕ × W
  -- the bytes that were read
  pub read : ℕ → ℕ → W → ℕ × Bytes × W
  -- with the bytes at the buffer and the size; it gives the number of bytes that were written
  pub write : ℕ → Bytes → ℕ → W → ℕ × ℕ × W
  pub sync : ℕ → W → ℕ × W
  pub lseek : ℕ → ℕ → W → ℕ × W
  pub tell : ℕ → W → ℕ
  pub size : ℕ → W → ℕ
  pub close_file : ℕ → W → ℕ × W
  pub expand : ℕ → ℕ → W → ℕ × W
  -- the file's size
  pub stat : Bytes → W → ℕ × ℕ × W
  pub open_dir : ℕ → Bytes → W → ℕ × W
  -- the name of the next entry, empty at the end
  pub read_dir : ℕ → W → ℕ × Bytes × W
  pub close_dir : ℕ → W → ℕ × W
  pub mkdir : Bytes → W → ℕ × W
  pub rename : Bytes → Bytes → W → ℕ × W
  pub unlink : Bytes → W → ℕ × W
  -- the free clusters and the sectors of a cluster
  pub get_free : ℕ → W → ℕ × ℕ × ℕ × W

-- The bytes of a buffer that are those of its `i`th sector.
abbrev pub sector_of : Bytes → ℕ → Bytes
sector_of buf i = take 512 (drop (i * 512) buf)

-- A device on which a write changes only the sectors that it names, and stores the buffer there
-- if it succeeds; `block` is what a sector holds.
pub record IsDisk {W : Type 0} (dev : DevStruct W) (block : W → ℕ → Bytes) : Type 0 where
  pub frame :
      (s n : ℕ) (buf : Bytes) (w : W) (k : ℕ)
      → (k < s) ⊎ (s + n ≤ k)
      → block (dev.write_sector s n buf w).1 k ≡ block w k
  pub stores :
      (s n : ℕ) (buf : Bytes) (w : W) (k : ℕ)
      → (dev.write_sector s n buf w).0 ≡ true
      → s ≤ k
      → k < s + n
      → block (dev.write_sector s n buf w).1 k ≡ sector_of buf (k - s)
