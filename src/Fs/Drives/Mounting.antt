-- ===== src/Fs/Drives/Mounting.antt =====
-- What one call of `ensureUnmounted` or `ensureMounted` does to the table of mounted drives.
use fastboot3ds.Base.{
  ℕ, zero, suc, ◌<◌, ◌≡◌, ◌≢◌, ◌⊎◌, refl, sym, ap, Bool, true, false, List, [], ◌∷◌, get_or, set,
  arith, inl, inr, Bool-cases, ◌==◌, leb, ℤ, pos, negsuc, neg,
}
use fastboot3ds.Fs.World.{FatFs}
use fastboot3ds.Fs.State.{Fs, fs_max_drives}
use fastboot3ds.Fs.Drives.{
  if_ok, is_ok, is_mounted, f_is_drive_mounted, ensure_unmounted, ensure_mounted, f_mount,
  f_unmount,
}

set_same : (bs : List Bool) (i : ℕ) (b : Bool) → get_or bs i false ≡ b → set bs i b ≡ bs
set_same [] i b e = refl
set_same (x ∷ bs) zero b e = ap (λ y. y ∷ bs) (sym e)
set_same (x ∷ bs) (suc i) b e = ap (λ ys. x ∷ ys) (set_same bs i b e)

is_ok-neg : (res : ℕ) → (res == 0) ≡ false → is_ok (neg res) ≡ false
is_ok-neg zero e = cc
is_ok-neg (suc n) e = refl

module _ {W : Type 0} (fat : FatFs W) (drive : ℕ) (fs : Fs) (w : W)
    (inside : drive < fs_max_drives) where
  -- The drive is not mounted afterwards, whatever FatFs returns, and nothing else changes.
  pub ensure_unmounted_lem :
      (ensure_unmounted fat drive fs w).1 ≡ record fs { mounted = set fs.mounted drive false }
  unfolding ensure_unmounted f_unmount
  ensure_unmounted_lem = elim (Bool-cases (is_mounted fs drive)) [
    | inl on ↦ ground (arith, on)
    | inr off ↦ ground (arith, off, set_same fs.mounted drive false off)
  ]

  -- The drive is mounted afterwards, or the call fails; nothing else changes.
  pub ensure_mounted_lem :
      ((is_ok (ensure_mounted fat drive fs w).0 ≡ true)
        × ((ensure_mounted fat drive fs w).1 ≡ record fs { mounted = set fs.mounted drive true }))
      ⊎ ((is_ok (ensure_mounted fat drive fs w).0 ≡ false)
          × ((ensure_mounted fat drive fs w).1 ≡ fs))
  unfolding ensure_mounted f_mount
  ensure_mounted_lem = elim (Bool-cases (is_mounted fs drive)) [
    | inl on ↦ inl (ground (arith, on), ground (arith, on, set_same fs.mounted drive true on))
    | inr off ↦ elim (Bool-cases ((fat.mount drive true w).0 == 0)) [
      | inl fine ↦ inl (ground (arith, off, fine), ground (arith, off, fine))
      | inr bad ↦ inr (
        ground (arith, off, bad, is_ok-neg (fat.mount drive true w).0 bad),
        ground (arith, off, bad),
      )
    ]
  ]

-- An error of `ensureUnmounted` is no handle.
pub ensure_unmounted-ne-handle :
    {W : Type 0} (fat : FatFs W) (drive : ℕ) (fs : Fs) (w : W) (n : ℕ)
    → (ensure_unmounted fat drive fs w).0 ≢ pos (suc n)
unfolding ensure_unmounted f_unmount
ensure_unmounted-ne-handle fat drive fs w n e = elim (Bool-cases (f_is_drive_mounted drive fs)) [
  | inr off ↦ ground (arith, off)
  | inl on ↦ elim (Bool-cases (leb fs_max_drives drive)) [
    | inl out ↦ ground (arith, on, out)
    | inr inside ↦ elim (Bool-cases (is_mounted fs drive)) [
      | inr off ↦ ground (arith, on, inside, off)
      | inl mounted ↦
          neg-ne-pos (fat.mount drive false w).0 n (ground (arith, on, inside, mounted, e))
    ]
  ]
]
  where
    neg-ne-pos : (m n : ℕ) → neg m ≢ pos (suc n)
    neg-ne-pos zero n e = cc
    neg-ne-pos (suc m) n e = cc

-- A chain of calls that ends with a handle went through its first step.
pub if_ok-step :
    {W : Type 0} (out : ℤ × Fs × W) (next : Fs → W → ℤ × Fs × W) (n : ℕ)
    → out.0 ≢ pos (suc n)
    → (if_ok out next).0 ≡ pos (suc n)
    → if_ok out next ≡ next out.1 out.2
if_ok-step (pos zero, fs, w) next n ne e = refl
if_ok-step (pos (suc m), fs, w) next n ne e = absurd (ne e)
if_ok-step (negsuc m, fs, w) next n ne e = cc
