-- ===== src/Fs/Memory.antt =====
-- A NAND in memory, for runs on it.
use fastboot3ds.Base.{
  ℕ, zero, suc, ◌+◌, ◌-◌, ◌*◌, ◌≤◌, ◌<◌, ◌≡◌, ◌⊎◌, inl, inr, refl, ap, ◌∙◌, ◌&&◌, Bytes, [],
  replicate, ◌++◌, arith, length, length-append, take, leb, ltb, if◌then◌else◌, take-append_length,
  drop-append,
}
use fastboot3ds.Fs.World.{FatFs, sector_of}
use fastboot3ds.Fs.Sectors.{AreWhole}

-- The disk is the contents of its sectors.
abbrev pub Disk : Type 0
Disk = ℕ → Bytes

unfoldable pub overwrite : ℕ → ℕ → Bytes → Disk → Disk
overwrite s n buf w k = if leb s k && ltb k (s + n) then sector_of buf (k - s) else w k

unfoldable pub sectors : ℕ → ℕ → Disk → Bytes
sectors s zero w = []
sectors s (suc n) w = w s ++ sectors (s + 1) n w

abbrev pub held : Disk → ℕ → Bytes
held w k = w k

pub overwrite_frame :
    (s n : ℕ) (buf : Bytes) (w : Disk) (k : ℕ) → (k < s) ⊎ (s + n ≤ k) → overwrite s n buf w k ≡ w k
unfolding overwrite
overwrite_frame s n buf w k (inl l) = ground arith
overwrite_frame s n buf w k (inr l) = ground arith

pub overwrite_stores :
    (s n : ℕ) (buf : Bytes) (w : Disk) (k : ℕ)
    → s ≤ k
    → k < s + n
    → overwrite s n buf w k ≡ sector_of buf (k - s)
unfolding overwrite
overwrite_stores s n buf w k lo hi = ground arith

next_whole : (s n : ℕ) (w : Disk) → AreWhole held s (suc n) w → AreWhole held (s + 1) n w
unfolding AreWhole
next_whole s n w whole i lt =
    let same : s + 1 + i ≡ s + suc i = omega arith in
    ap (λ k. length (w k)) same ∙ whole (suc i) (omega (arith, lt))

first_whole : (s n : ℕ) (w : Disk) → AreWhole held s (suc n) w → length (w s) ≡ 512
unfolding AreWhole
first_whole s n w whole =
    let same : s ≡ s + 0 = omega arith in ap (λ k. length (w k)) same ∙ whole 0 (omega arith)

pub length-sectors : (s n : ℕ) (w : Disk) → AreWhole held s n w → length (sectors s n w) ≡ n * 512
unfolding sectors
length-sectors s zero w whole = refl
length-sectors s (suc n) w whole = omega (
  arith,
  length-append (w s) (sectors (s + 1) n w),
  first_whole s n w whole,
  length-sectors (s + 1) n w (next_whole s n w whole),
)

pub sector_of-sectors :
    (s n : ℕ) (w : Disk) (i : ℕ)
    → AreWhole held s n w
    → i < n
    → sector_of (sectors s n w) i ≡ w (s + i)
unfolding sectors
sector_of-sectors s zero w i whole lt = absurd (omega (arith, lt))
sector_of-sectors s (suc n) w zero whole lt =
    let same : s ≡ s + 0 = omega arith in
    take-append_length (w s) (sectors (s + 1) n w) 512 (omega (arith, first_whole s n w whole))
    ∙ ap w same
sector_of-sectors s (suc n) w (suc i) whole lt =
    let same : s + 1 + i ≡ s + suc i = omega arith in
    ap (take 512) (
      drop-append (w s) (sectors (s + 1) n w) (suc i * 512) (i * 512)
        (omega (arith, first_whole s n w whole)))
    ∙ sector_of-sectors (s + 1) n w i (next_whole s n w whole) (omega (arith, lt))
    ∙ ap w same

-- A FatFs on which everything succeeds and nothing happens.
abbrev pub idle_fat : FatFs Disk
idle_fat = record {
  mount = λ d m w. (0, w);
  open_file = λ i p m w. (0, w);
  read = λ i n w. (0, replicate n 0, w);
  write = λ i b n w. (0, n, w);
  sync = λ i w. (0, w);
  lseek = λ i o w. (0, w);
  tell = λ i w. 0;
  size = λ i w. 0;
  close_file = λ i w. (0, w);
  expand = λ i n w. (0, w);
  stat = λ p w. (0, 0, w);
  open_dir = λ i p w. (0, w);
  read_dir = λ i w. (0, [], w);
  close_dir = λ i w. (0, w);
  mkdir = λ p w. (0, w);
  rename = λ o n w. (0, w);
  unlink = λ p w. (0, w);
  get_free = λ d w. (0, 0, 0, w);
}
