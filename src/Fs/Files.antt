-- ===== src/Fs/Files.antt =====
-- File handles: the table of open files in front of FatFs. A handle is the bit pattern of the
-- `s32`, so a negative one is a number from 2 ^ 31 on.
pub mod Slots
pub mod Count
pub mod Order
use fastboot3ds.Base.{
  ℕ, zero, suc, ◌+◌, ◌-◌, ◌≡◌, Bool, true, false, ◌||◌, not, Option, none, some, List, [], ◌∷◌,
  Bytes, length, get_or, set, ltb, leb, ◌==◌, if◌then◌else◌, ℤ, pos, neg,
}
use fastboot3ds.Fs.World.{FatFs}
use fastboot3ds.Fs.State.{Fs, fs_max_files, fresult}

-- The loop of `findUnusedFileSlot` and `findUnusedDirSlot` at index `i`.
unfoldable pub first_free : ℕ → List Bool → Option ℕ
first_free i [] = none
first_free i (used ∷ rest) = let later = first_free (i + 1) rest in if used then later else some i

unfoldable pub find_unused_file_slot : Fs → Option ℕ
unfolding first_free
find_unused_file_slot fs = if leb fs_max_files fs.f_handles then none else first_free 0 fs.files

unfoldable pub is_file_handle_valid : Fs → ℕ → Bool
is_file_handle_valid fs handle = if ltb fs.f_handles handle then false else true

module _ {W : Type 0} (fat : FatFs W) where
  unfoldable pub f_open : Bytes → ℕ → Fs → W → ℤ × Fs × W
  f_open path mode fs w = elim (find_unused_file_slot fs) [
    | none ↦ (neg 30, fs, w)
    | some i ↦
        let (res, w') = fat.open_file i path mode w in
        if res == 0
        then (pos i, record fs { files = set fs.files i true; f_handles = fs.f_handles + 1 }, w')
        else (fresult res, fs, w')
  ]

  -- The bytes are those that were stored to the caller's buffer.
  unfoldable pub f_read : ℕ → ℕ → Fs → W → ℤ × Bytes × W
  f_read handle size fs w =
      let (res, got, w') = fat.read handle size w in
      if not (is_file_handle_valid fs handle)
      then (neg 30, [], w)
      else if not (length got == size)
      then (neg 31, got, w')
      else (fresult res, got, w')

  unfoldable pub f_write : ℕ → Bytes → ℕ → Fs → W → ℤ × W
  f_write handle buf size fs w =
      let (res, put, w') = fat.write handle buf size w in
      if not (is_file_handle_valid fs handle)
      then (neg 30, w)
      else if not (put == size)
      then (neg 31, w')
      else (fresult res, w')

  unfoldable pub f_sync : ℕ → Fs → W → ℤ × W
  f_sync handle fs w =
      let (res, w') = fat.sync handle w in
      if not (is_file_handle_valid fs handle) then (neg 30, w) else (fresult res, w')

  unfoldable pub f_lseek : ℕ → ℕ → Fs → W → ℤ × W
  f_lseek handle offset fs w =
      let (res, w') = fat.lseek handle offset w in
      if not (is_file_handle_valid fs handle) then (neg 30, w) else (fresult res, w')

  unfoldable pub f_tell : ℕ → Fs → W → ℕ
  f_tell handle fs w = if not (is_file_handle_valid fs handle) then 0 else fat.tell handle w

  unfoldable pub f_size : ℕ → Fs → W → ℕ
  f_size handle fs w = if not (is_file_handle_valid fs handle) then 0 else fat.size handle w

  unfoldable pub f_close : ℕ → Fs → W → ℤ × Fs × W
  f_close handle fs w =
      let (res, w') = fat.close_file handle w in
      if fs.f_handles == 0 || not (is_file_handle_valid fs handle) then (neg 30, fs, w) else (
        fresult res,
        record fs { files = set fs.files handle false; f_handles = fs.f_handles - 1 },
        w',
      )

  unfoldable pub f_expand : ℕ → ℕ → Fs → W → ℤ × W
  f_expand handle size fs w =
      let (res, w') = fat.expand handle size w in
      if not (is_file_handle_valid fs handle) then (neg 30, w) else (fresult res, w')

  -- The number is the size that `fi` receives.
  unfoldable pub f_stat : Bytes → W → ℤ × ℕ × W
  f_stat path w = let (res, size, w') = fat.stat path w in (fresult res, size, w')

  unfoldable pub f_rename : Bytes → Bytes → W → ℤ × W
  f_rename old new w = let (res, w') = fat.rename old new w in (fresult res, w')

  unfoldable pub f_unlink : Bytes → W → ℤ × W
  f_unlink path w = let (res, w') = fat.unlink path w in (fresult res, w')
