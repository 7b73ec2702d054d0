-- ===== src/Fs/Image/Check.antt =====
-- What `calcNandImageMinSize` computes and `fVerifyNandImage` accepts.
use native.Mathlib.Decide.{ℕ_discrete}
use mathlib.Core.Path.{subst}
use fastboot3ds.Base.{
  ℕ, zero, suc, ◌+◌, ◌-◌, ◌*◌, ◌/◌, ◌≤◌, ◌<◌, ◌≡◌, ◌≢◌, ◌⊎◌, refl, sym, Bool, true, false, ◌||◌,
  some, Bytes, length, drop, arith, inl, inr, Bool-cases, Option-cases, ◌==◌, ltb, u32, u32_mod,
  add32, not32, AreBytes, le32_at_bound, bytes_eq, bytes_eq→eq, ℤ, pos, negsuc, neg, if◌then◌else◌,
}
use fastboot3ds.Fs.World.{FatFs, DevStruct}
use fastboot3ds.Fs.State.{Fs}
use fastboot3ds.Fs.Files.{f_open, f_size, f_read, f_close, is_file_handle_valid}
use fastboot3ds.Fs.Drives.{device_nand, f_get_device_size, is_ok}
use fastboot3ds.Fs.Image.{
  ncsd_media_size, part_media_offset, part_media_size, largest_from, calc_nand_image_min_size,
  check_image, f_verify_nand_image, fs_open_read,
}

-- Where partition `i` of the header ends, in sectors.
abbrev pub part_end : Bytes → ℕ → ℕ
part_end h i = part_media_offset h i + part_media_size h i

-- `r` is the largest of `largest` and the ends of the `left` partitions from `i` on.
pub record IsLargest (h : Bytes) (left i largest r : ℕ) : Type 0 where
  pub bound : r < u32_mod
  pub above : largest ≤ r
  pub parts : (j : ℕ) → i ≤ j → j < i + left → part_end h j ≤ r
  pub reached : (r ≡ largest) ⊎ ((j : ℕ) × (i ≤ j) × (j < i + left) × (r ≡ part_end h j))

module _ (h : Bytes) (bytes : AreBytes h) where
  small_end :
      (i : ℕ)
      → ltb (not32 (part_media_size h i)) (part_media_offset h i) ≡ false
      → (part_end h i < u32_mod)
        × (add32 (part_media_offset h i) (part_media_size h i) ≡ part_end h i)
  small_end i e = (
    ground (arith, le32_at_bound h (0x124 + i * 8) bytes, le32_at_bound h (0x120 + i * 8) bytes),
    ground (arith, le32_at_bound h (0x124 + i * 8) bytes, le32_at_bound h (0x120 + i * 8) bytes),
  )

  IsLargest-step :
      (left i largest next r : ℕ)
      → next ≡ (if ltb largest (part_end h i) then part_end h i else largest)
      → IsLargest h left (i + 1) next r
      → IsLargest h (suc left) i largest r
  IsLargest-step left i largest next r e l = record {
    bound = l.bound;
    above = ground (arith, l.above);
    parts = λ j lo hi. elim (ℕ_discrete i j) [
      | yes same ↦ subst (λ k. part_end h k ≤ r) same (ground (arith, l.above))
      | no ne ↦ l.parts j (omega arith) (omega arith)
    ];
    reached = elim (l.reached) [
      | inl top ↦ elim (Bool-cases (ltb largest (part_end h i))) [
        | inl more ↦ inr (i, omega arith, omega arith, ground (arith, more))
        | inr less ↦ inl (ground (arith, less))
      ]
      | inr (j, lo, hi, top) ↦ inr (j, omega arith, omega arith, top)
    ];
  }

  largest_from_lem :
      (left i largest r : ℕ)
      → largest < u32_mod
      → largest_from h left i largest ≡ some r
      → IsLargest h left i largest r
  unfolding largest_from
  largest_from_lem zero i largest r lt e =
      let same : largest ≡ r = ground arith in
      record {
        bound = omega arith;
        above = omega arith;
        parts = λ j lo hi. absurd (omega arith);
        reached = inl (sym same);
      }
  largest_from_lem (suc left) i largest r lt e =
      elim (Bool-cases (ltb (not32 (part_media_size h i)) (part_media_offset h i))) [
        | inl wraps ↦ cc (rw wraps at e)
        | inr fits ↦
            let (small, sum) = small_end i fits in
            let next = if ltb largest (part_end h i) then part_end h i else largest in
            IsLargest-step left i largest next r refl (
              largest_from_lem left (i + 1) next r (ground (arith, small))
                (rw sum at (rw fits at e)))
      ]

  -- Where `calcNandImageMinSize` returns a size, it is the end of the last partition, in bytes and
  -- without overflow, and within the size that the header states.
  pub calc_nand_image_min_size_lem :
      calc_nand_image_min_size h ≢ 0
      → (r : ℕ) × IsLargest h 8 0 0 r
        × (calc_nand_image_min_size h ≡ r * 512)
        × (r ≤ ncsd_media_size h)
  unfolding calc_nand_image_min_size
  calc_nand_image_min_size_lem nz = elim (Option-cases (largest_from h 8 0 0)) [
    | inl fail ↦ absurd (nz (rw (fail, calc_nand_image_min_size) refl))
    | inr (r, e) ↦ elim (Bool-cases (ltb ((u32_mod - 1) / 0x200) r)) [
      | inl large ↦ absurd (nz (rw (e, calc_nand_image_min_size) (rw large refl)))
      | inr small ↦ elim (Bool-cases (ltb (ncsd_media_size h) r)) [
        | inl large ↦ absurd (nz (rw (e, calc_nand_image_min_size) (rw (small, large) refl)))
        | inr inside ↦ (
          r,
          largest_from_lem 8 0 0 r (omega arith) e,
          rw (e, calc_nand_image_min_size) (rw (small, inside) (ground (arith, small))),
          ground (arith, inside),
        )
      ]
    ]
  ]

in_range : (lo hi n : ℕ) → (ltb n lo || ltb hi n) ≡ false → (lo ≤ n) × (n ≤ hi)
in_range lo hi n e = (ground (arith, e), ground (arith, e))

large_enough : (least n : ℕ) → (least == 0 || ltb n least) ≡ false → (least ≢ 0) × (least ≤ n)
large_enough least n e = (ground (arith, e), ground (arith, e))

-- A NAND image that was accepted: its header, the one of the NAND, and its size.
pub record Accepted (header physical : Bytes) (image_size max_image_size : ℕ) : Type 0 where
  pub fits : image_size ≤ max_image_size
  pub has_header : 0x200 ≤ image_size
  pub same_console : drop 0x100 header ≡ drop 0x100 physical
  pub last : ℕ
  pub largest : IsLargest header 8 0 0 last
  pub complete : last * 512 ≤ image_size
  pub in_media : last ≤ ncsd_media_size header

module _ {W : Type 0} (fat : FatFs W) (sdcard rawnand decnand : DevStruct W)
    (file_bytes : (i n : ℕ) (w : W) → AreBytes (fat.read i n w).1) where
  f_read_bytes : (handle n : ℕ) (fs : Fs) (w : W) → AreBytes (f_read fat handle n fs w).1
  unfolding f_read
  f_read_bytes handle n fs w i = elim (Bool-cases (is_file_handle_valid fs handle)) [
    | inr bad ↦ rw bad (omega arith)
    | inl good ↦ elim (Bool-cases (length (fat.read handle n w).1 == n)) [
      | inl all ↦ rw (good, all) (file_bytes handle n w i)
      | inr part ↦ rw (good, part) (file_bytes handle n w i)
    ]
  ]

  is_ok→eq : (r : ℤ) → is_ok r ≡ true → r ≡ pos 0
  is_ok→eq (pos zero) e = refl
  is_ok→eq (pos (suc n)) e = cc
  is_ok→eq (negsuc n) e = cc

  check_image_lem :
      (handle max_image_size : ℕ) (fs : Fs) (w : W)
      → (check_image fat sdcard rawnand decnand handle max_image_size fs w).0 ≡ pos 0
      → let got = f_read fat handle 0x200 fs w in
        (got.0 ≡ pos 0)
        × ((rawnand.read_sector 0 1 got.2).0 ≡ true)
        × Accepted got.1 (rawnand.read_sector 0 1 got.2).1 (f_size fat handle fs w) max_image_size
  unfolding check_image
  check_image_lem handle max fs w h = elim (Bool-cases (ltb size 0x200 || ltb max size)) [
    | inl e ↦ cc (rw e at h)
    | inr range ↦ elim (Bool-cases (is_ok got.0)) [
      | inr e ↦ cc (rw (range, e) at h)
      | inl read ↦ elim (Bool-cases phys.0) [
        | inr e ↦ cc (rw (range, read, e) at h)
        | inl done ↦ elim (Bool-cases (bytes_eq (drop 0x100 got.1) (drop 0x100 phys.1))) [
          | inr e ↦ cc (rw (range, read, done, e) at h)
          | inl same ↦ elim (Bool-cases (least == 0 || ltb size least)) [
            | inl e ↦ cc (rw (range, read, done, same, e) at h)
            | inr large ↦ (is_ok→eq got.0 read, done, accepted range same large)
          ]
        ]
      ]
    ]
  ]
    where
      size : ℕ
      size = f_size fat handle fs w

      got : ℤ × Bytes × W
      got = f_read fat handle 0x200 fs w

      phys : Bool × Bytes × W
      phys = rawnand.read_sector 0 1 got.2

      least : ℕ
      least = calc_nand_image_min_size got.1

      accepted :
          (ltb size 0x200 || ltb max size) ≡ false
          → bytes_eq (drop 0x100 got.1) (drop 0x100 phys.1) ≡ true
          → (least == 0 || ltb size least) ≡ false
          → Accepted got.1 phys.1 size max
      accepted range same large =
          let (nz, enough) = large_enough least size large in
          let (r, largest, e, inside) =
            calc_nand_image_min_size_lem got.1 (f_read_bytes handle 0x200 fs w) nz in
          record {
            fits = (in_range 0x200 max size range).1;
            has_header = (in_range 0x200 max size range).0;
            same_console = bytes_eq→eq (drop 0x100 got.1) (drop 0x100 phys.1) same;
            last = r;
            largest = largest;
            complete = subst (λ k. k ≤ size) e enough;
            in_media = inside;
          }

  -- If what FatFs reads are bytes, `fVerifyNandImage` returns `FR_OK` only where the file could be
  -- opened, its first 512 bytes could be read with `FR_OK`, sector 0 of the raw NAND could be read,
  -- and the file is an image of this console: it is not larger than the NAND, the header that was
  -- read from it is the one that was read from the NAND but for the signature, and each of the
  -- eight partitions of the header ends within the file and within the size that the header states.
  pub f_verify_nand_image_lem :
      (path : Bytes) (fs : Fs) (w : W)
      → (f_verify_nand_image fat sdcard rawnand decnand path fs w).0 ≡ pos 0
      → let (opened, fs1, w1) = f_open fat path fs_open_read fs w in
        (handle : ℕ) × (opened ≡ pos handle)
        × ((f_read fat handle 0x200 fs1 w1).0 ≡ pos 0)
        × ((rawnand.read_sector 0 1 (f_read fat handle 0x200 fs1 w1).2).0 ≡ true)
        × Accepted
            (f_read fat handle 0x200 fs1 w1).1
            (rawnand.read_sector 0 1 (f_read fat handle 0x200 fs1 w1).2).1
            (f_size fat handle fs1 w1)
            (u32 (f_get_device_size sdcard rawnand device_nand w * 512))
  unfolding f_verify_nand_image
  f_verify_nand_image_lem path fs w h = finish (f_open fat path fs_open_read fs w) h
    where
      max : ℕ
      max = u32 (f_get_device_size sdcard rawnand device_nand w * 512)

      finished : ℤ × Fs × W → ℤ × Fs × W
      finished o = elim (o.0) [
        | negsuc n ↦ (neg 30, o.1, o.2)
        | pos handle ↦
            let checked = check_image fat sdcard rawnand decnand handle max o.1 o.2 in
            let closed = f_close fat handle o.1 checked.1 in (checked.0, closed.1, closed.2)
      ]

      finish :
          (o : ℤ × Fs × W)
          → (finished o).0 ≡ pos 0
          → (handle : ℕ) × (o.0 ≡ pos handle)
            × ((f_read fat handle 0x200 o.1 o.2).0 ≡ pos 0)
            × ((rawnand.read_sector 0 1 (f_read fat handle 0x200 o.1 o.2).2).0 ≡ true)
            × Accepted
                (f_read fat handle 0x200 o.1 o.2).1
                (rawnand.read_sector 0 1 (f_read fat handle 0x200 o.1 o.2).2).1
                (f_size fat handle o.1 o.2)
                max
      finish (negsuc n, fs1, w1) e = cc
      finish (pos handle, fs1, w1) e =
          let (read, compared, accepted) = check_image_lem handle max fs1 w1 e in
          (handle, refl, read, compared, accepted)
