-- ===== src/Fs/Drives/RawAccess.antt =====
-- Raw access to the NAND: the drives on it are unmounted, and mounted again at the end.
use mathlib.Core.Path.{subst}
use fastboot3ds.Base.{
  ℕ, ◌≡◌, refl, sym, ap, ◌∙◌, true, false, length, length-set, set, get_or-set_self, get_or-set_ne,
  arith, ℤ, pos,
}
use fastboot3ds.Fs.World.{FatFs}
use fastboot3ds.Fs.State.{Fs, fs_max_drives}
use fastboot3ds.Fs.Drives.{
  is_mounted, ensure_unmounted, if_ok, unmount_nand_drives, f_prepare_raw_access, dev_handle_magic,
  device_nand, drive_sdmc, drive_twln, drive_twlp, drive_nand,
}
use fastboot3ds.Fs.Drives.Mounting.{ensure_unmounted_lem, ensure_unmounted-ne-handle, if_ok-step}

-- The variables while raw access is granted: the drives on the NAND are unmounted, the SD card is
-- as it was, and the backup has the drives that were mounted before.
pub record Granted (fs fs' : Fs) : Type 0 where
  pub twln : is_mounted fs' drive_twln ≡ false
  pub twlp : is_mounted fs' drive_twlp ≡ false
  pub nand : is_mounted fs' drive_nand ≡ false
  pub sdmc : is_mounted fs' drive_sdmc ≡ is_mounted fs drive_sdmc
  pub backup : fs'.backup ≡ fs.mounted
  pub raw : fs'.raw ≡ set fs.raw device_nand true
  pub size : length fs'.mounted ≡ length fs.mounted

module _ {W : Type 0} (fat : FatFs W) where
  unmount_nand_drives_lem :
      (dev : ℕ) (fs : Fs) (w : W)
      → (unmount_nand_drives fat dev fs w).0 ≡ pos dev_handle_magic
      → (unmount_nand_drives fat dev fs w).1 ≡ record fs {
        mounted = set (set (set fs.mounted drive_twln false) drive_twlp false) drive_nand false;
        raw = set fs.raw dev true;
      }
  unfolding unmount_nand_drives
  unmount_nand_drives_lem dev fs w h =
      ap (λ (o : ℤ × Fs × W). o.1) (e1 ∙ e2 ∙ e3)
      ∙ ap (λ (f : Fs). record f { raw = set f.raw dev true }) state
    where
      o1 : ℤ × Fs × W
      o1 = ensure_unmounted fat drive_twln fs w

      o2 : ℤ × Fs × W
      o2 = ensure_unmounted fat drive_twlp o1.1 o1.2

      o3 : ℤ × Fs × W
      o3 = ensure_unmounted fat drive_nand o2.1 o2.2

      end : Fs → W → ℤ × Fs × W
      end f v = (pos dev_handle_magic, record f { raw = set f.raw dev true }, v)

      third : Fs → W → ℤ × Fs × W
      third f v = if_ok (ensure_unmounted fat drive_nand f v) end

      second : Fs → W → ℤ × Fs × W
      second f v = if_ok (ensure_unmounted fat drive_twlp f v) third

      e1 : unmount_nand_drives fat dev fs w ≡ second o1.1 o1.2
      e1 =
          if_ok-step o1 second 0x42424295
            (ensure_unmounted-ne-handle fat drive_twln fs w 0x42424295) h

      e2 : second o1.1 o1.2 ≡ third o2.1 o2.2
      e2 =
          if_ok-step o2 third 0x42424295
            (ensure_unmounted-ne-handle fat drive_twlp o1.1 o1.2 0x42424295)
            (ap (λ (o : ℤ × Fs × W). o.0) (sym e1) ∙ h)

      e3 : third o2.1 o2.2 ≡ end o3.1 o3.2
      e3 =
          if_ok-step o3 end 0x42424295
            (ensure_unmounted-ne-handle fat drive_nand o2.1 o2.2 0x42424295)
            (ap (λ (o : ℤ × Fs × W). o.0) (sym (e1 ∙ e2)) ∙ h)

      state : o3.1 ≡ record fs {
        mounted = set (set (set fs.mounted drive_twln false) drive_twlp false) drive_nand false;
      }
      state =
          ensure_unmounted_lem fat drive_nand o2.1 o2.2 (omega arith)
          ∙ ap (λ (f : Fs). record f { mounted = set f.mounted drive_nand false })
              (ensure_unmounted_lem fat drive_twlp o1.1 o1.2 (omega arith)
                ∙ ap (λ (f : Fs). record f { mounted = set f.mounted drive_twlp false })
                    (ensure_unmounted_lem fat drive_twln fs w (omega arith)))

  passed_checks :
      (dev : ℕ) (fs : Fs) (w : W)
      → (f_prepare_raw_access fat dev fs w).0 ≡ pos dev_handle_magic
      → (dev ≡ device_nand)
        × (f_prepare_raw_access fat dev fs w
            ≡ unmount_nand_drives fat dev (record fs { backup = fs.mounted }) w)
  unfolding f_prepare_raw_access
  passed_checks dev fs w h = (ground arith, ground arith)

  unmounted-Granted :
      (fs : Fs)
      → length fs.mounted ≡ fs_max_drives
      → Granted fs (record fs {
        mounted = set (set (set fs.mounted drive_twln false) drive_twlp false) drive_nand false;
        raw = set fs.raw device_nand true;
        backup = fs.mounted;
      })
  unmounted-Granted fs size = record {
    twln =
        get_or-set_ne (set (set fs.mounted 1 false) 2 false) 3 1 false false (λ e. omega arith)
        ∙ get_or-set_ne (set fs.mounted 1 false) 2 1 false false (λ e. omega arith)
        ∙ get_or-set_self fs.mounted 1 false false (omega arith);
    twlp =
        get_or-set_ne (set (set fs.mounted 1 false) 2 false) 3 2 false false (λ e. omega arith)
        ∙ get_or-set_self (set fs.mounted 1 false) 2 false false
            (omega (arith, length-set fs.mounted 1 false));
    nand =
        get_or-set_self (set (set fs.mounted 1 false) 2 false) 3 false false (
          omega
            (arith, length-set fs.mounted 1 false, length-set (set fs.mounted 1 false) 2 false));
    sdmc =
        get_or-set_ne (set (set fs.mounted 1 false) 2 false) 3 0 false false (λ e. omega arith)
        ∙ get_or-set_ne (set fs.mounted 1 false) 2 0 false false (λ e. omega arith)
        ∙ get_or-set_ne fs.mounted 1 0 false false (λ e. omega arith);
    backup = refl;
    raw = refl;
    size = length-set _ 3 false ∙ length-set _ 2 false ∙ length-set fs.mounted 1 false;
  }

  -- `fPrepareRawAccess` that returns the handle was called for the NAND, and leaves no drive of
  -- the NAND mounted; the drive of the SD card stays as it was, and the backup keeps what was
  -- mounted before.
  pub f_prepare_raw_access_lem :
      (dev : ℕ) (fs : Fs) (w : W)
      → length fs.mounted ≡ fs_max_drives
      → (f_prepare_raw_access fat dev fs w).0 ≡ pos dev_handle_magic
      → (dev ≡ device_nand) × Granted fs (f_prepare_raw_access fat dev fs w).1
  f_prepare_raw_access_lem dev fs w size h =
      let (d, e) = passed_checks dev fs w h in
      let fs' : Fs = record fs { backup = fs.mounted } in
      (
        d,
        subst (Granted fs)
            (sym (
              ap (λ (o : ℤ × Fs × W). o.1) e
              ∙ unmount_nand_drives_lem dev fs' w (ap (λ (o : ℤ × Fs × W). o.0) (sym e) ∙ h)
              ∙ ap
                  (λ k. record fs' {
                    mounted =
                        set (set (set fs.mounted drive_twln false) drive_twlp false) drive_nand
                          false;
                    raw = set fs.raw k true;
                  })
                  d))
            (unmounted-Granted fs size),
      )
