-- ===== src/FsUtils.antt =====
-- source/fsutils.c over the functions of fs.c. On the ARM11 these are calls over PXI of the
-- functions of the same names on the ARM9.
use fastboot3ds.Base.{
  ℕ, zero, suc, ◌+◌, Bool, true, false, not, ◌||◌, ◌&&◌, Option, none, some, [], ◌∷◌, ◌++◌, Bytes,
  take, bytes_eq, codes, ltb, ◌==◌, if◌then◌else◌, add32, ℤ, pos, negsuc, is_neg,
}
use fastboot3ds.Fs.World.{FatFs}
use fastboot3ds.Fs.State.{Fs}
use fastboot3ds.Fs.Drives.{
  f_mount, f_unmount, is_ok, drive_sdmc, drive_twln, drive_twlp, drive_nand,
}
use fastboot3ds.Fs.Files.{f_open, f_close, f_size, f_lseek, f_read, f_write}
use fastboot3ds.Fs.Dirs.{f_open_dir, f_close_dir, f_mkdir}

-- `FA_CREATE_ALWAYS` and `FA_CREATE_ALWAYS | FA_WRITE`
abbrev pub create_always : ℕ
create_always = 8

abbrev pub create_always_write : ℕ
create_always_write = 10

-- `res == 0 || res == -31`
abbrev mounted_or_already : ℤ → Bool
mounted_or_already (pos zero) = true
mounted_or_already (pos (suc n)) = false
mounted_or_already (negsuc n) = n == 30

-- The drive that a path names.
unfoldable pub drive_of : Bytes → Option ℕ
drive_of path =
    if bytes_eq (take 5 path) (codes "sdmc:")
    then some drive_sdmc
    else if bytes_eq (take 5 path) (codes "twln:")
    then some drive_twln
    else if bytes_eq (take 5 path) (codes "twlp:")
    then some drive_twlp
    else if bytes_eq (take 5 path) (codes "nand:")
    then some drive_nand
    else none

-- A path is the bytes before its NUL.
module _ {W : Type 0} (fat : FatFs W) where
  unfoldable pub fs_ensure_mounted : Bytes → Fs → W → Bool × Fs × W
  unfolding drive_of f_mount
  fs_ensure_mounted path fs w = elim (drive_of path) [
    | none ↦ (false, fs, w)
    | some drive ↦ let (res, fs1, w1) = f_mount fat drive fs w in (mounted_or_already res, fs1, w1)
  ]

  unfoldable pub fs_unmount_nand_filesystems : Fs → W → Fs × W
  unfolding f_unmount
  fs_unmount_nand_filesystems fs w =
      let (r1, fs1, w1) = f_unmount fat drive_nand fs w in
      let (r2, fs2, w2) = f_unmount fat drive_twlp fs1 w1 in
      let (r3, fs3, w3) = f_unmount fat drive_twln fs2 w2 in (fs3, w3)

  unfoldable pub fs_unmount_all : Fs → W → Fs × W
  unfolding f_unmount
  fs_unmount_all fs w =
      let (r1, fs1, w1) = f_unmount fat drive_nand fs w in
      let (r2, fs2, w2) = f_unmount fat drive_twlp fs1 w1 in
      let (r3, fs3, w3) = f_unmount fat drive_twln fs2 w2 in
      let (r4, fs4, w4) = f_unmount fat drive_sdmc fs3 w3 in (fs4, w4)

  -- The bits of the result are those of the drives that were mounted.
  unfoldable pub fs_mount_nand_filesystems : Fs → W → ℕ × Fs × W
  unfolding f_mount
  fs_mount_nand_filesystems fs w =
      let (r1, fs1, w1) = f_mount fat drive_twln fs w in
      let (r2, fs2, w2) = f_mount fat drive_twlp fs1 w1 in
      let (r3, fs3, w3) = f_mount fat drive_nand fs2 w2 in
      (
        (if is_ok r1 then 1 else 0) + (if is_ok r2 then 2 else 0) + (if is_ok r3 then 4 else 0),
        fs3,
        w3,
      )

  unfoldable pub fs_mount_sdmc : Fs → W → Bool × Fs × W
  unfolding f_mount
  fs_mount_sdmc fs w = let (res, fs1, w1) = f_mount fat drive_sdmc fs w in (is_ok res, fs1, w1)

  -- The loop over the path: `done` is what stands in `tempBuf`. A separator is stored there after
  -- the directory before it was looked at.
  unfoldable pub create_dirs : Bytes → Bytes → Fs → W → Bool × Fs × W
  unfolding f_open_dir f_close_dir f_mkdir
  create_dirs done [] fs w = (true, fs, w)
  create_dirs done (c ∷ path) fs w =
      let (opened, fs1, w1) = f_open_dir fat done fs w in
      let (closed, fs2, w2) = elim opened as (λ o. ℤ × Fs × W) [
        | ℤ.pos handle ↦ f_close_dir fat handle fs1 w1
        | ℤ.negsuc n ↦ let (made, w') = f_mkdir fat done w1 in (made, fs1, w')
      ] in
      let separator = c == b'/' || c == b'\\' in
      let failed = separator && is_neg opened && not (is_ok closed) in
      let rest =
        create_dirs (done ++ (c ∷ [])) path (if separator then fs2 else fs)
          (if separator then w2 else w) in
      if failed then (false, fs2, w2) else rest

  -- `got_memory` is whether `malloc` succeeds. The name is copied to 0x100 bytes without a check of
  -- its length.
  unfoldable pub fs_create_file_with_path : Bool → Bytes → Fs → W → Bool × Fs × W
  unfolding f_open f_close create_dirs
  fs_create_file_with_path got_memory path fs w =
      let (opened, fs1, w1) = f_open fat path create_always fs w in
      let (made, fs2, w2) = create_dirs [] path fs1 w1 in
      let (again, fs3, w3) = f_open fat path create_always fs2 w2 in
      elim opened [
        | ℤ.pos handle ↦ let (res, fs', w') = f_close fat handle fs1 w1 in (true, fs', w')
        | ℤ.negsuc n ↦
            if not got_memory
            then (false, fs1, w1)
            else if not made
            then (false, fs2, w2)
            else elim again [
              | ℤ.pos handle ↦ let (res, fs', w') = f_close fat handle fs3 w3 in (true, fs', w')
              | ℤ.negsuc m ↦ (false, fs3, w3)
            ]
      ]

  -- The checks stop at the first that fails. The bytes are those that were stored to the buffer.
  unfoldable pub fs_quick_read : Bytes → ℕ → ℕ → Fs → W → Bool × Bytes × Fs × W
  unfolding f_open f_size f_lseek f_read f_close
  fs_quick_read path len off fs w =
      let (opened, fs1, w1) = f_open fat path 1 fs w in
      elim opened [
        | ℤ.negsuc n ↦ (false, [], fs1, w1)
        | ℤ.pos handle ↦
            let short = ltb (f_size fat handle fs1 w1) (add32 off len) in
            let (sought, w2) = f_lseek fat handle off fs1 w1 in
            let (res, got, w3) = f_read fat handle len fs1 w2 in
            let read : Bool × Bytes × W =
              if short
              then (false, [], w1)
              else if not (is_ok sought)
              then (false, [], w2)
              else (is_ok res, got, w3) in
            let (closed, fs2, w5) = f_close fat handle fs1 read.2 in (read.0, read.1, fs2, w5)
      ]

  -- `none` is a null pointer for the contents.
  unfoldable pub fs_quick_create : Bytes → Option Bytes → ℕ → Fs → W → Bool × Fs × W
  unfolding f_open f_write f_close
  fs_quick_create path buff len fs w =
      let (opened, fs1, w1) = f_open fat path create_always_write fs w in
      elim opened [
        | ℤ.negsuc n ↦ (false, fs1, w1)
        | ℤ.pos handle ↦
            let (res, w2) = elim buff as (λ o. Bool × W) [
              | none ↦ (true, w1)
              | some b ↦
                  if len == 0
                  then (true, w1)
                  else let (put, w') = f_write fat handle (take len b) len fs1 w1 in (is_ok put, w')
            ] in
            let (closed, fs2, w3) = f_close fat handle fs1 w2 in (res, fs2, w3)
      ]
