-- ===== src/Fs/Dirs.antt =====
-- Directory handles of fs.c.
use fastboot3ds.Base.{
  ℕ, zero, suc, ◌+◌, ◌-◌, Bool, true, false, ◌||◌, not, Option, none, some, List, [], ◌∷◌, Bytes,
  set, length, ltb, leb, ◌==◌, if◌then◌else◌, ℤ, pos, neg,
}
use fastboot3ds.Fs.World.{FatFs}
use fastboot3ds.Fs.State.{Fs, fs_max_dirs, fresult}
use fastboot3ds.Fs.Files.{first_free}

unfoldable pub find_unused_dir_slot : Fs → Option ℕ
unfolding first_free
find_unused_dir_slot fs = if leb fs_max_dirs fs.d_handles then none else first_free 0 fs.dirs

unfoldable pub is_dir_handle_valid : Fs → ℕ → Bool
is_dir_handle_valid fs handle = if ltb fs.d_handles handle then false else true

module _ {W : Type 0} (fat : FatFs W) where
  unfoldable pub f_open_dir : Bytes → Fs → W → ℤ × Fs × W
  f_open_dir path fs w = elim (find_unused_dir_slot fs) [
    | none ↦ (neg 30, fs, w)
    | some i ↦
        let (res, w') = fat.open_dir i path w in
        if res == 0
        then (pos i, record fs { dirs = set fs.dirs i true; d_handles = fs.d_handles + 1 }, w')
        else (fresult res, fs, w')
  ]

  -- The loop of `fReadDir` at entry `i` with `left` rounds to go. What was stored to `fi` is
  -- collected in reverse; the entry with the empty name is stored too.
  unfoldable pub read_dir_loop : ℕ → ℕ → ℕ → List Bytes → W → ℤ × List Bytes × W
  read_dir_loop handle zero i fi w = (pos i, fi, w)
  read_dir_loop handle (suc left) i fi w =
      let (res, fname, w') = fat.read_dir handle w in
      let more = read_dir_loop handle left (i + 1) (fname ∷ fi) w' in
      if not (res == 0)
      then (fresult res, fname ∷ fi, w')
      else if length fname == 0
      then (pos i, fname ∷ fi, w')
      else more

  unfoldable pub f_read_dir : ℕ → ℕ → Fs → W → ℤ × List Bytes × W
  unfolding read_dir_loop
  f_read_dir handle num fs w =
      if not (is_dir_handle_valid fs handle)
      then (neg 30, [], w)
      else if ltb 1000 num
      then (neg 31, [], w)
      else read_dir_loop handle num 0 [] w

  unfoldable pub f_close_dir : ℕ → Fs → W → ℤ × Fs × W
  f_close_dir handle fs w =
      let (res, w') = fat.close_dir handle w in
      if fs.d_handles == 0 || not (is_dir_handle_valid fs handle) then (neg 30, fs, w) else (
        fresult res,
        record fs { dirs = set fs.dirs handle false; d_handles = fs.d_handles - 1 },
        w',
      )

  unfoldable pub f_mkdir : Bytes → W → ℤ × W
  f_mkdir path w = let (res, w') = fat.mkdir path w in (fresult res, w')
