-- ===== src/Fs/Drives/Remount.antt =====
-- `fFinalizeRawAccess` mounts again the drives that were mounted before raw access was granted.
use native.Mathlib.Decide.{ℕ_discrete}
use mathlib.Core.Path.{subst}
use fastboot3ds.Base.{
  ℕ, zero, suc, ◌+◌, ◌≤◌, ◌<◌, ◌≡◌, ◌≢◌, ◌⊎◌, refl, sym, ap, ◌∙◌, Bool, true, false, length,
  length-set, get_or, set, get_or-set_self, get_or-set_ne, arith, inl, inr, Bool-cases, ℤ, pos,
  negsuc,
}
use fastboot3ds.Fs.World.{FatFs}
use fastboot3ds.Fs.State.{Fs, fs_max_drives, fs_max_devices}
use fastboot3ds.Fs.Drives.{
  is_ok, is_mounted, ensure_mounted, if_ok, remount_loop, f_finalize_raw_access,
  is_valid_dev_handle, get_device_from_handle, uses_raw_access, dev_handle_magic, device_nand,
}
use fastboot3ds.Fs.Drives.Mounting.{ensure_mounted_lem}
use fastboot3ds.Fs.Drives.RawAccess.{Granted}

-- What the loop of `fFinalizeRawAccess` does with the drives from `drive` on, `left` of them.
pub record Remounted (left drive : ℕ) (fs fs' : Fs) (ok : Bool) : Type 0 where
  pub backup : fs'.backup ≡ fs.backup
  pub raw : fs'.raw ≡ fs.raw
  pub size : length fs'.mounted ≡ length fs.mounted
  pub others :
      (d : ℕ)
      → (d < drive) ⊎ (drive + left ≤ d) ⊎ (get_or fs.backup d false ≡ false)
      → is_mounted fs' d ≡ is_mounted fs d
  pub mounted :
      ok ≡ true
      → (d : ℕ) → drive ≤ d
      → d < drive + left
      → get_or fs.backup d false ≡ true
      → is_mounted fs' d ≡ true

Remounted-skip :
    (left drive : ℕ) (fs fs' : Fs) (ok : Bool)
    → get_or fs.backup drive false ≡ false
    → Remounted left (drive + 1) fs fs' ok
    → Remounted (suc left) drive fs fs' ok
Remounted-skip left drive fs fs' ok skip r = record {
  backup = r.backup;
  raw = r.raw;
  size = r.size;
  others = λ d o. elim o [
    | inl l ↦ r.others d (inl (omega arith))
    | inr (inl g) ↦ r.others d (inr (inl (omega arith)))
    | inr (inr b) ↦ r.others d (inr (inr b))
  ];
  mounted = λ k d lo hi b. elim (ℕ_discrete drive d) [
    | yes e ↦ cc
    | no ne ↦ r.mounted k d (omega arith) (omega arith) b
  ];
}

Remounted-done :
    (left drive : ℕ) (fs fs' : Fs) (ok : Bool)
    → drive < length fs.mounted
    → get_or fs.backup drive false ≡ true
    → Remounted left (drive + 1) (record fs { mounted = set fs.mounted drive true }) fs' ok
    → Remounted (suc left) drive fs fs' ok
Remounted-done left drive fs fs' ok inside wanted r = record {
  backup = r.backup;
  raw = r.raw;
  size = r.size ∙ length-set fs.mounted drive true;
  others = λ d o. elim (ℕ_discrete drive d) [
    | yes e ↦ absurd (wrong d e o)
    | no ne ↦ r.others d (later d ne o) ∙ get_or-set_ne fs.mounted drive d true false ne
  ];
  mounted = λ k d lo hi b. elim (ℕ_discrete drive d) [
    | yes e ↦
        r.others d (inl (omega arith))
        ∙ subst (λ k. get_or (set fs.mounted drive true) k false ≡ true) e
            (get_or-set_self fs.mounted drive true false inside)
    | no ne ↦ r.mounted k d (omega arith) (omega arith) b
  ];
}
  where
    wrong :
        (d : ℕ)
        → drive ≡ d
        → (d < drive) ⊎ (drive + suc left ≤ d) ⊎ (get_or fs.backup d false ≡ false)
        → ⊥
    wrong d e (inl l) = omega arith
    wrong d e (inr (inl g)) = omega arith
    wrong d e (inr (inr b)) = cc

    later :
        (d : ℕ)
        → drive ≢ d
        → (d < drive) ⊎ (drive + suc left ≤ d) ⊎ (get_or fs.backup d false ≡ false)
        → (d < drive + 1) ⊎ (drive + 1 + left ≤ d) ⊎ (get_or fs.backup d false ≡ false)
    later d ne (inl l) = inl (omega arith)
    later d ne (inr (inl g)) = inr (inl (omega arith))
    later d ne (inr (inr b)) = inr (inr b)

Remounted-failed : (left drive : ℕ) (fs : Fs) → Remounted left drive fs fs false
Remounted-failed left drive fs = record {
  backup = refl;
  raw = refl;
  size = refl;
  others = λ d o. refl;
  mounted = λ k. cc;
}

module _ {W : Type 0} (fat : FatFs W) where
  remount_loop_lem :
      (left drive : ℕ) (fs : Fs) (w : W)
      → drive + left ≤ fs_max_drives
      → length fs.mounted ≡ fs_max_drives
      → Remounted left drive fs
          (remount_loop fat left drive fs w).1
          (is_ok (remount_loop fat left drive fs w).0)
  unfolding remount_loop
  remount_loop_lem zero drive fs w le size = record {
    backup = refl;
    raw = refl;
    size = refl;
    others = λ d o. refl;
    mounted = λ k d lo hi. absurd (omega arith);
  }
  remount_loop_lem (suc left) drive fs w le size =
      elim (Bool-cases (get_or fs.backup drive false)) [
        | inr skip ↦ rw skip (
            Remounted-skip left drive fs _ _ skip
              (remount_loop_lem left (drive + 1) fs w (omega arith) size))
        | inl wanted ↦ elim (ensure_mounted_lem fat drive fs w (omega arith)) [
          | inl done ↦
              rw (wanted, done.0)
                (Remounted-done left drive fs _ _ (omega arith) wanted (
                  subst
                    (λ f.
                      Remounted left (drive + 1) f
                        (remount_loop fat left (drive + 1) (ensure_mounted fat drive fs w).1
                          (ensure_mounted fat drive fs w).2).1
                        (is_ok
                          (remount_loop fat left (drive + 1) (ensure_mounted fat drive fs w).1
                            (ensure_mounted fat drive fs w).2).0))
                    done.1
                    (remount_loop_lem left (drive + 1) _ _ (omega arith) (
                      ap (λ (f : Fs). length f.mounted) done.1
                      ∙ length-set fs.mounted drive true
                      ∙ size))))
          | inr failed ↦
              rw (wanted, failed.0, failed.1)
                (subst (Remounted (suc left) drive fs fs) (sym failed.0)
                  (Remounted-failed (suc left) drive fs))
        ]
      ]

if_ok-ended :
    {W : Type 0} (out : ℤ × Fs × W)
    → (if_ok out (λ fs' w'. (pos 0, record fs' { raw = set fs'.raw device_nand false }, w'))).0
      ≡ pos 0
    → (is_ok out.0 ≡ true)
      × ((if_ok out (λ fs' w'. (pos 0, record fs' { raw = set fs'.raw device_nand false }, w'))).1
          ≡ record (out.1) { raw = set out.1.raw device_nand false })
if_ok-ended (pos zero, fs, w) e = (refl, refl)
if_ok-ended (pos (suc m), fs, w) e = cc
if_ok-ended (negsuc m, fs, w) e = cc

below_4 : (d : ℕ) → d < 4 → (d ≡ 0) ⊎ (d ≡ 1) ⊎ (d ≡ 2) ⊎ (d ≡ 3)
below_4 zero lt = inl refl
below_4 (suc zero) lt = inr (inl refl)
below_4 (suc (suc zero)) lt = inr (inr (inl refl))
below_4 (suc (suc (suc zero))) lt = inr (inr (inr refl))
below_4 (suc (suc (suc (suc d)))) lt = absurd (omega arith)

-- While raw access is granted, a drive that was not mounted before is not mounted.
Granted-unmounted :
    (fs fs1 : Fs) (d : ℕ)
    → Granted fs fs1
    → d < fs_max_drives
    → is_mounted fs d ≡ false
    → is_mounted fs1 d ≡ false
Granted-unmounted fs fs1 d g lt off = elim (below_4 d lt) [
  | inl e ↦ rw e (g.sdmc ∙ subst (λ k. is_mounted fs k ≡ false) e off)
  | inr (inl e) ↦ rw e g.twln
  | inr (inr (inl e)) ↦ rw e g.twlp
  | inr (inr (inr e)) ↦ rw e g.nand
]

module _ {W : Type 0} (fat : FatFs W) where
  finalized :
      (fs : Fs) (w : W)
      → (f_finalize_raw_access fat dev_handle_magic fs w).0 ≡ pos 0
      → (is_ok (remount_loop fat fs_max_drives 0 fs w).0 ≡ true)
        × ((f_finalize_raw_access fat dev_handle_magic fs w).1
            ≡ record ((remount_loop fat fs_max_drives 0 fs w).1) {
              raw = set (remount_loop fat fs_max_drives 0 fs w).1.raw device_nand false;
            })
  unfolding f_finalize_raw_access is_valid_dev_handle get_device_from_handle uses_raw_access
  finalized fs w h = elim (Bool-cases (get_or fs.raw device_nand false)) [
    | inl on ↦ rw on (if_ok-ended (remount_loop fat fs_max_drives 0 fs w) (rw on at h))
    | inr off ↦ absurd (ground (arith, off))
  ]

  -- A drive is mounted after `fFinalizeRawAccess` has returned `FR_OK` exactly if it was mounted
  -- before `fPrepareRawAccess` had granted the access; and the access is over.
  pub f_finalize_raw_access_lem :
      (fs fs1 : Fs) (w : W)
      → length fs.mounted ≡ fs_max_drives
      → length fs.raw ≡ fs_max_devices
      → Granted fs fs1
      → (f_finalize_raw_access fat dev_handle_magic fs1 w).0 ≡ pos 0
      → ((d : ℕ)
          → d < fs_max_drives
          → is_mounted (f_finalize_raw_access fat dev_handle_magic fs1 w).1 d ≡ is_mounted fs d)
        × (uses_raw_access (f_finalize_raw_access fat dev_handle_magic fs1 w).1 device_nand ≡ false)
  unfolding uses_raw_access
  f_finalize_raw_access_lem fs fs1 w size raws g h = (drives, over)
    where
      out : Fs
      out = (remount_loop fat fs_max_drives 0 fs1 w).1

      done :
          (is_ok (remount_loop fat fs_max_drives 0 fs1 w).0 ≡ true)
          × ((f_finalize_raw_access fat dev_handle_magic fs1 w).1
              ≡ record out { raw = set out.raw device_nand false })
      done = finalized fs1 w h

      loop : Remounted fs_max_drives 0 fs1 out (is_ok (remount_loop fat fs_max_drives 0 fs1 w).0)
      loop = remount_loop_lem fat fs_max_drives 0 fs1 w (omega arith) (g.size ∙ size)

      drives :
          (d : ℕ)
          → d < fs_max_drives
          → is_mounted (f_finalize_raw_access fat dev_handle_magic fs1 w).1 d ≡ is_mounted fs d
      drives d lt = elim (Bool-cases (is_mounted fs d)) [
        | inl on ↦
            ap (λ f. is_mounted f d) done.1
            ∙ loop.mounted done.0 d (omega arith) (omega arith)
                (ap (λ l. get_or l d false) g.backup ∙ on)
            ∙ sym on
        | inr off ↦
            ap (λ f. is_mounted f d) done.1
            ∙ loop.others d (inr (inr (ap (λ l. get_or l d false) g.backup ∙ off)))
            ∙ Granted-unmounted fs fs1 d g lt off
            ∙ sym off
      ]

      raw_off : get_or (set out.raw device_nand false) device_nand false ≡ false
      raw_off =
          get_or-set_self out.raw device_nand false false
            (omega (arith, ap length (loop.raw ∙ g.raw), length-set fs.raw device_nand true, raws))

      over :
          uses_raw_access (f_finalize_raw_access fat dev_handle_magic fs1 w).1 device_nand ≡ false
      over = rw done.1 (rw raw_off refl)
