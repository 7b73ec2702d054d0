-- ===== src/Fs/State.antt =====
-- The static variables of fs.c.
use fastboot3ds.Base.{ℕ, ◌+◌, Bool, false, Option, none, List, Bytes, replicate, ℤ, neg}
use fastboot3ds.Partitions.{max_partitions}

abbrev pub fs_max_devices : ℕ
fs_max_devices = 2

-- `FF_VOLUMES`
abbrev pub fs_max_drives : ℕ
fs_max_drives = 4

abbrev pub fs_max_files : ℕ
fs_max_files = 3

abbrev pub fs_max_dirs : ℕ
fs_max_dirs = 2

-- `DevBuf`; `mem` is the memory that the pointer leads to, `none` for `NULL`.
pub record DevBuf : Type 0 where
  pub mem : Option Bytes
  pub mem_size : ℕ
  pub data_size : ℕ

-- `ProtNandRegion`
pub record Region : Type 0 where
  pub sector : ℕ
  pub count : ℕ

abbrev pub no_region : Region
no_region = record { sector = 0; count = 0 }

-- `fsStatTable`, `fStatTable`, `fHandles`, `dStatTable`, `dHandles`, `devStatTable`,
-- `fsStatBackupTable`, `devBuf`, `protNandRegions` and `numProtNandRegions`.
pub record Fs : Type 0 where
  pub mounted : List Bool
  pub files : List Bool
  pub f_handles : ℕ
  pub dirs : List Bool
  pub d_handles : ℕ
  pub raw : List Bool
  pub backup : List Bool
  pub dev_buf : DevBuf
  pub regions : List Region
  pub num_regions : ℕ

-- The variables before the first call: all zero.
abbrev pub initial : Fs
initial = record {
  mounted = replicate fs_max_drives false;
  files = replicate fs_max_files false;
  f_handles = 0;
  dirs = replicate fs_max_dirs false;
  d_handles = 0;
  raw = replicate fs_max_devices false;
  backup = replicate fs_max_drives false;
  dev_buf = record { mem = none; mem_size = 0; data_size = 0 };
  regions = replicate (max_partitions + 2) no_region;
  num_regions = 0;
}

-- A result of FatFs as the functions return it: `FR_OK`, or the negated error.
abbrev pub fresult : ℕ → ℤ
fresult res = neg res
