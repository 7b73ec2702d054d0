-- ===== src/FirmWriter/Works.antt =====
-- The loop of `writeFirmPartition` on a device that works.
use fastboot3ds.Base.{
  ℕ, zero, suc, ◌+◌, ◌-◌, ◌*◌, ◌/◌, ◌%◌, ◌≤◌, ◌<◌, ◌≡◌, refl, ap, ◌∙◌, sym, true, ◌++◌, Bytes,
  put_at, take, drop, length, min, bytes_eq, bytes_eq_refl, ℤ, pos, arith, take-append, length-take,
  length-drop,
}
use fastboot3ds.Fs.World.{DevStruct, IsDisk, sector_of}
use fastboot3ds.Fs.Sectors.{AreWhole, sectors_agree}
use fastboot3ds.FirmWriter.{firmwriter_blk_size, write_blocks}
use fastboot3ds.FirmWriter.Blocks.{
  block_size, KeepsOnRead, Round, all_done, not_written, not_read, differs, goes_on,
  write_blocks-Round, amount, written, compared, rest,
}

-- Reads and writes succeed, and a read of whole sectors gives what they hold.
pub record Works {W : Type 0} (dev : DevStruct W) (block : W → ℕ → Bytes) : Type 0 where
  pub writes : (s n : ℕ) (buf : Bytes) (w : W) → (dev.write_sector s n buf w).0 ≡ true
  pub reads : (s n : ℕ) (w : W) → (dev.read_sector s n w).0 ≡ true
  pub read_size :
      (s n : ℕ) (w : W) → AreWhole block s n w → length (dev.read_sector s n w).1 ≡ n * 512
  pub read_back :
      (s n : ℕ) (w : W) (i : ℕ)
      → AreWhole block s n w
      → i < n
      → sector_of (dev.read_sector s n w).1 i ≡ block w (s + i)

block_long :
    (size long : ℕ) → size % 512 ≡ 0 → size ≤ long → min size firmwriter_blk_size / 512 * 512 ≤ long
block_long size long e le = omega arith

rest_long :
    (size : ℕ) (image : Bytes)
    → size ≤ length image
    → size - min size firmwriter_blk_size ≤ length (drop (min size firmwriter_blk_size) image)
rest_long size image le = omega (arith, le, length-drop (min size firmwriter_blk_size) image)

module _ {W : Type 0} (dev : DevStruct W) (block : W → ℕ → Bytes) (disk : IsDisk dev block)
    (keeps : KeepsOnRead dev block) (works : Works dev block) where
  -- What the sectors hold after the write of a round.
  stored :
      (sector n : ℕ) (image : Bytes) (w : W) (i : ℕ)
      → i < n
      → block ((dev.write_sector sector n image w).1) (sector + i) ≡ sector_of image i
  stored sector n image w i lt =
      let back : sector + i - sector ≡ i = omega arith in
      disk.stores sector n image w (sector + i) (works.writes sector n image w) (omega arith)
        (omega (arith, lt))
      ∙ ap (sector_of image) back

  stored_whole :
      (sector n : ℕ) (image : Bytes) (w : W)
      → n * 512 ≤ length image
      → AreWhole block sector n (dev.write_sector sector n image w).1
  unfolding AreWhole
  stored_whole sector n image w long i lt =
      ap length (stored sector n image w i lt)
      ∙ omega (arith, lt, long, length-take 512 (drop (i * 512) image), length-drop (i * 512) image)

  read_same :
      (fuel sector size : ℕ) (image cmp : Bytes) (w : W)
      → size % 512 ≡ 0
      → size ≤ length image
      → bytes_eq (take (amount dev block disk keeps fuel sector size image cmp w) image) (
          take
            (amount dev block disk keeps fuel sector size image cmp w)
            (compared dev block disk keeps fuel sector size image cmp w))
        ≡ true
  unfolding put_at
  read_same fuel sector size image cmp w whole long =
      let size' = min size firmwriter_blk_size in
      let n = size' / 512 in
      let w1 = (dev.write_sector sector n image w).1 in
      let got = (dev.read_sector sector n w1).1 in
      let exact = block_size size whole in
      let full = stored_whole sector n image w (block_long size (length image) whole long) in
      let same = sectors_agree n size' image got (sym exact) (λ i lt. agree full i lt) in
      let cut =
        take-append got (drop (0 + length got) cmp) size'
          (omega (arith, exact, works.read_size sector n w1 full)) in
      ap (λ t. bytes_eq t (take size' (got ++ drop (0 + length got) cmp))) (same ∙ sym cut)
      ∙ bytes_eq_refl (take size' (got ++ drop (0 + length got) cmp))
    where
      agree :
          AreWhole block sector
            (min size firmwriter_blk_size / 512)
            (dev.write_sector sector (min size firmwriter_blk_size / 512) image w).1
          → (i : ℕ) → i < min size firmwriter_blk_size / 512
          → sector_of image i
            ≡ sector_of
                (dev.read_sector sector
                  (min size firmwriter_blk_size / 512)
                  (dev.write_sector sector (min size firmwriter_blk_size / 512) image w).1).1
                i
      agree full i lt =
          let n = min size firmwriter_blk_size / 512 in
          sym (
            works.read_back sector n ((dev.write_sector sector n image w).1) i full lt
            ∙ stored sector n image w i lt)

  Round-works :
      (fuel sector size : ℕ) (image cmp : Bytes) (w : W) (r : ℤ × W)
      → size % 512 ≡ 0
      → size ≤ length image
      → Round dev block disk keeps fuel sector size image cmp w r
      → (rest dev block disk keeps fuel sector size image cmp w).0 ≡ pos 0
      → r.0 ≡ pos 0
  Round-works fuel sector size image cmp w r whole long (all_done e) after = refl
  Round-works fuel sector size image cmp w r whole long (not_written more e) after =
      cc (e, works.writes sector (min size firmwriter_blk_size / 512) image w)
  Round-works fuel sector size image cmp w r whole long (not_read more e) after = cc (
    e,
    works.reads sector (min size firmwriter_blk_size / 512)
        (written dev block disk keeps fuel sector size image cmp w),
  )
  Round-works fuel sector size image cmp w r whole long (differs more e) after =
      cc (e, read_same fuel sector size image cmp w whole long)
  Round-works fuel sector size image cmp w r whole long (goes_on more e) after = after

  pub write_blocks_works :
      (fuel sector size : ℕ) (image cmp : Bytes) (w : W)
      → size % 512 ≡ 0
      → size ≤ length image
      → (write_blocks dev fuel sector size image cmp w).0 ≡ pos 0
  unfolding write_blocks
  write_blocks_works zero sector size image cmp w whole long = refl
  write_blocks_works (suc fuel) sector size image cmp w whole long =
      Round-works fuel sector size image cmp w (write_blocks dev (suc fuel) sector size image cmp w)
        whole long (write_blocks-Round dev block disk keeps fuel sector size image cmp w)
        (write_blocks_works fuel _ _ _ _ _ (omega (arith, whole)) (rest_long size image long))
