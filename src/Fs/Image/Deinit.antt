-- ===== src/Fs/Image/Deinit.antt =====
-- `fsDeinit` of fs.c: every drive is unmounted, and what happens to the files.
use fastboot3ds.Base.{
  ℕ, zero, suc, ◌+◌, ◌<◌, ◌≡◌, refl, ◌∙◌, Bool, true, false, List, [], ◌∷◌, get_or, set, arith, inl,
  inr, Bool-cases,
}
use mathlib.Core.Path.{subst}
use native.Mathlib.Decide.{ℕ_discrete}
use fastboot3ds.Fs.World.{FatFs, DevStruct}
use fastboot3ds.Fs.State.{Fs, fs_max_drives, fs_max_files}
use fastboot3ds.Fs.Files.{f_close, is_file_handle_valid}
use fastboot3ds.Fs.Drives.{is_mounted, f_unmount}
use fastboot3ds.Fs.Image.{close_from, unmount_from, fs_deinit}

same_or_unset :
    (bs : List Bool) (i d : ℕ) → get_or bs d false ≡ false → get_or (set bs i false) d false ≡ false
same_or_unset [] i d e = refl
same_or_unset (b ∷ bs) zero zero e = refl
same_or_unset (b ∷ bs) zero (suc d) e = e
same_or_unset (b ∷ bs) (suc i) zero e = e
same_or_unset (b ∷ bs) (suc i) (suc d) e = same_or_unset bs i d e

unset : (bs : List Bool) (i : ℕ) → get_or (set bs i false) i false ≡ false
unset [] i = refl
unset (b ∷ bs) zero = refl
unset (b ∷ bs) (suc i) = unset bs i

module _ {W : Type 0} (fat : FatFs W) (sdcard rawnand decnand : DevStruct W) where
  -- `fUnmount` of a drive in the range: unmounted, whatever it returns.
  f_unmount-off :
      (drive : ℕ) (fs : Fs) (w : W)
      → drive < fs_max_drives
      → is_mounted (f_unmount fat drive fs w).1 drive ≡ false
  unfolding f_unmount
  f_unmount-off drive fs w lt = elim (Bool-cases (is_mounted fs drive)) [
    | inl on ↦ ground (arith, on, unset fs.mounted drive)
    | inr off ↦ ground (arith, off)
  ]

  f_unmount-keeps :
      (drive : ℕ) (fs : Fs) (w : W) (d : ℕ)
      → drive < fs_max_drives
      → is_mounted fs d ≡ false
      → is_mounted (f_unmount fat drive fs w).1 d ≡ false
  unfolding f_unmount
  f_unmount-keeps drive fs w d lt e = elim (Bool-cases (is_mounted fs drive)) [
    | inl on ↦ ground (arith, on, same_or_unset fs.mounted drive d e)
    | inr off ↦ ground (arith, off)
  ]

  f_unmount-files :
      (drive : ℕ) (fs : Fs) (w : W)
      → ((f_unmount fat drive fs w).1.files ≡ fs.files)
        × ((f_unmount fat drive fs w).1.f_handles ≡ fs.f_handles)
  unfolding f_unmount
  f_unmount-files drive fs w = (ground arith, ground arith)

  unmount_from-files :
      (left i : ℕ) (fs : Fs) (w : W)
      → ((unmount_from fat sdcard rawnand decnand left i fs w).0.files ≡ fs.files)
        × ((unmount_from fat sdcard rawnand decnand left i fs w).0.f_handles ≡ fs.f_handles)
  unfolding unmount_from
  unmount_from-files zero i fs w = (refl, refl)
  unmount_from-files (suc left) i fs w =
      let (files, count) =
        unmount_from-files left (i + 1) (f_unmount fat i fs w).1 (f_unmount fat i fs w).2 in
      (files ∙ (f_unmount-files i fs w).0, count ∙ (f_unmount-files i fs w).1)

  unmount_from-off :
      (left i : ℕ) (fs : Fs) (w : W) (d : ℕ)
      → i + left ≡ fs_max_drives
      → d < fs_max_drives
      → ((d < i) → is_mounted fs d ≡ false)
      → is_mounted (unmount_from fat sdcard rawnand decnand left i fs w).0 d ≡ false
  unfolding unmount_from
  unmount_from-off zero i fs w d e lt done = done (omega arith)
  unmount_from-off (suc left) i fs w d e lt done =
      unmount_from-off left (i + 1) (f_unmount fat i fs w).1 (f_unmount fat i fs w).2 d
        (omega arith) lt
        (λ k. elim (ℕ_discrete i d) [
          | yes same ↦
              subst (λ j. is_mounted (f_unmount fat i fs w).1 j ≡ false) same
                (f_unmount-off i fs w (omega arith))
          | no ne ↦ f_unmount-keeps i fs w d (omega arith) (done (omega arith))
        ])

  -- After `fsDeinit` no drive is mounted, also where an unmount failed.
  pub fs_deinit_lem :
      (fs : Fs) (w : W) (d : ℕ)
      → d < fs_max_drives
      → is_mounted (fs_deinit fat sdcard rawnand decnand fs w).0 d ≡ false
  unfolding fs_deinit
  fs_deinit_lem fs w d lt =
      unmount_from-off fs_max_drives 0 (close_from fat sdcard rawnand decnand fs_max_files 0 fs w).0
        (close_from fat sdcard rawnand decnand fs_max_files 0 fs w).1 d refl lt
        (λ k. absurd (omega arith))

  close_three :
      (fs : Fs) (w : W)
      → fs.files ≡ true ∷ true ∷ true ∷ []
      → fs.f_handles ≡ 3
      → ((close_from fat sdcard rawnand decnand fs_max_files 0 fs w).0.files
          ≡ false ∷ false ∷ true ∷ [])
        × ((close_from fat sdcard rawnand decnand fs_max_files 0 fs w).0.f_handles ≡ 1)
  unfolding close_from f_close is_file_handle_valid
  close_three fs w all three = rw (all, three) (refl, refl)

  -- Three files are open: `fsDeinit` closes the first two and leaves the third open.
  pub fs_deinit-leak :
      (fs : Fs) (w : W)
      → fs.files ≡ true ∷ true ∷ true ∷ []
      → fs.f_handles ≡ 3
      → ((fs_deinit fat sdcard rawnand decnand fs w).0.files ≡ false ∷ false ∷ true ∷ [])
        × ((fs_deinit fat sdcard rawnand decnand fs w).0.f_handles ≡ 1)
  unfolding fs_deinit
  fs_deinit-leak fs w all three =
      let fs1 = (close_from fat sdcard rawnand decnand fs_max_files 0 fs w).0 in
      let w1 = (close_from fat sdcard rawnand decnand fs_max_files 0 fs w).1 in
      let (files, count) = unmount_from-files fs_max_drives 0 fs1 w1 in
      (files ∙ (close_three fs w all three).0, count ∙ (close_three fs w all three).1)
