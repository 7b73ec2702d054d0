-- ===== src/FirmWriter/Write.antt =====
-- `writeFirmPartition`: what is on the NAND after it.
use fastboot3ds.Base.{
  ℕ, ◌+◌, ◌-◌, ◌*◌, ◌/◌, ◌%◌, ◌≤◌, ◌<◌, ◌≡◌, ◌⊎◌, inl, inr, refl, ap, ◌∙◌, sym, Bool, true, false,
  some, Bytes, take, length, length-put_at, bytes_eq, codes, u32_mod, pos, arith,
}
use fastboot3ds.Partitions.{Table, partition_get_index, partition_get_sector_offset}
use fastboot3ds.Fs.World.{DevStruct, IsDisk, sector_of}
use fastboot3ds.Firm.{firm_size, header_size}
use fastboot3ds.FirmWriter.{
  firmwriter_blk_size, replace_signature, write_blocks, write_firm_partition,
}
use fastboot3ds.FirmWriter.Blocks.{KeepsOnRead, write_blocks_frame, write_blocks_stored}
use fastboot3ds.FirmWriter.Works.{Works, write_blocks_works}
use fastboot3ds.FirmWriter.Keys.{sighax_retail, sighax_dev}

-- The partition is one of a firmware, and its place and the size of the image are known.
pub record IsTarget {W : Type 0} (dev : DevStruct W) (t : Table) (part image : Bytes) (w : W)
    (sector size : ℕ) : Type 0 where
  pub firm : bytes_eq (take 4 part) (codes "firm") ≡ true
  pub active : dev.is_active w ≡ true
  pub index : ℕ
  pub named : partition_get_index t part ≡ some index
  pub place : partition_get_sector_offset t index ≡ some sector
  pub measured : firm_size image ≡ some size
  pub fits : sector + size / 512 < u32_mod
  pub whole : size % 512 ≡ 0

inside_or_out : (s n k : ℕ) → ((s ≤ k) × (k < s + n)) ⊎ ((k < s) ⊎ (s + n ≤ k))
inside_or_out s n k = ground arith

length-replace_signature :
    (replace dev_unit : Bool) (image : Bytes)
    → header_size ≤ length image
    → length (replace_signature replace dev_unit image) ≡ length image
unfolding replace_signature sighax_retail sighax_dev
length-replace_signature false dev_unit image le = refl
length-replace_signature true false image le =
    length-put_at 0x100 sighax_retail image (omega (arith, le))
length-replace_signature true true image le =
    length-put_at 0x100 sighax_dev image (omega (arith, le))

enough_rounds : (size : ℕ) → size ≤ (size / firmwriter_blk_size + 1) * firmwriter_blk_size
enough_rounds size = omega arith

module _ {W : Type 0} (dev : DevStruct W) (t : Table) (part image cmp : Bytes)
    (replace dev_unit : Bool) (w : W) (sector size : ℕ)
    (target : IsTarget dev t part image w sector size) where
  write_firm_partition_eq : write_firm_partition dev t (some cmp) part replace dev_unit image w ≡ (
    (write_blocks dev
        (size / firmwriter_blk_size + 1)
        sector
        size
        (replace_signature replace dev_unit image)
        cmp
        w).0,
    replace_signature replace dev_unit image,
    (write_blocks dev
        (size / firmwriter_blk_size + 1)
        sector
        size
        (replace_signature replace dev_unit image)
        cmp
        w).1,
  )
  unfolding write_firm_partition
  write_firm_partition_eq =
      rw (target.firm, target.active)
        (rw (write_firm_partition, target.named, target.place, target.measured) refl)

  module _ (block : W → ℕ → Bytes) (disk : IsDisk dev block) (keeps : KeepsOnRead dev block) where
    -- What it leaves outside of the place of the image.
    pub write_firm_partition_frame :
        (k : ℕ)
        → (k < sector) ⊎ (sector + size / 512 ≤ k)
        → block (write_firm_partition dev t (some cmp) part replace dev_unit image w).2 k
          ≡ block w k
    write_firm_partition_frame k out = rw write_firm_partition_eq (
        write_blocks_frame dev block disk keeps (size / firmwriter_blk_size + 1) sector size
          (replace_signature replace dev_unit image) cmp w k target.fits out)

    write_firm_partition_stored :
        (k : ℕ)
        → (write_firm_partition dev t (some cmp) part replace dev_unit image w).0 ≡ pos 0
        → sector ≤ k
        → k < sector + size / 512
        → block (write_firm_partition dev t (some cmp) part replace dev_unit image w).2 k
          ≡ sector_of (replace_signature replace dev_unit image) (k - sector)
    write_firm_partition_stored k ok lo hi = rw write_firm_partition_eq (
        write_blocks_stored dev block disk keeps (size / firmwriter_blk_size + 1) sector size
          (replace_signature replace dev_unit image) cmp w k target.fits target.whole
          (enough_rounds size) (ap (λ r. r.0) (sym write_firm_partition_eq) ∙ ok) lo hi)

    -- `writeFirmPartition` that returned 0, with memory for the block, on an active device, for a
    -- firmware partition that is found and an image that ends with a sector and below sector 2^32:
    -- each sector of the place holds its part of the image, with the signature replaced if that
    -- was asked for, and no other sector is changed. A device changes only the sectors that a
    -- write names, stores them if it succeeds, and changes none in a read.
    pub write_firm_partition_lem :
        (write_firm_partition dev t (some cmp) part replace dev_unit image w).0 ≡ pos 0
        → (k : ℕ)
        → ((sector ≤ k)
            × (k < sector + size / 512)
            × (block (write_firm_partition dev t (some cmp) part replace dev_unit image w).2 k
                ≡ sector_of (replace_signature replace dev_unit image) (k - sector)))
          ⊎ (((k < sector) ⊎ (sector + size / 512 ≤ k))
              × (block (write_firm_partition dev t (some cmp) part replace dev_unit image w).2 k
                  ≡ block w k))
    write_firm_partition_lem ok k = elim (inside_or_out sector (size / 512) k) [
      | inl (lo, hi) ↦ inl (lo, hi, write_firm_partition_stored k ok lo hi)
      | inr out ↦ inr (out, write_firm_partition_frame k out)
    ]

    -- On an active device whose reads and writes succeed, whose writes store what they name and
    -- whose reads of whole sectors give what they hold, `writeFirmPartition` returns 0, with
    -- memory for the block, for a firmware partition that is found and an image in memory, with
    -- its header, that ends with a sector and below sector 2^32.
    pub write_firm_partition-Works :
        Works dev block
        → header_size ≤ size
        → size ≤ length image
        → (write_firm_partition dev t (some cmp) part replace dev_unit image w).0 ≡ pos 0
    write_firm_partition-Works works header long = rw write_firm_partition_eq (
        write_blocks_works dev block disk keeps works (size / firmwriter_blk_size + 1) sector size
          (replace_signature replace dev_unit image) cmp w target.whole
          (omega (arith, length-replace_signature replace dev_unit image (omega arith))))
