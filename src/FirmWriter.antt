-- ===== src/FirmWriter.antt =====
-- source/arm9/firmwriter.c: a loaded firmware is written to a partition of the NAND, an update is
-- loaded and checked, and the second section of an installed fastboot3DS is switched on and off.
mod Keys
mod Tests
pub mod Rsa
pub mod Blocks
pub mod Works
pub mod Write
pub mod Update
use fastboot3ds.Base.{
  ℕ, zero, suc, ◌+◌, ◌-◌, ◌*◌, ◌/◌, ◌%◌, ◌^◌, Bool, true, false, not, ◌&&◌, ◌||◌, Option, none,
  some, List, [], ◌∷◌, ◌++◌, Bytes, put_at, take, drop, get_or, min, ltb, leb, ◌==◌, if◌then◌else◌,
  bytes_eq, codes, add32, le32_at, ℤ, pos, neg, is_neg,
}
use fastboot3ds.Partitions.{Table, partition_get_index, partition_get_sector_offset}
use fastboot3ds.Fs.World.{FatFs, DevStruct}
use fastboot3ds.Fs.State.{Fs}
use fastboot3ds.Firm.{firm_size}
use fastboot3ds.Firm.Load.{Firm, load_verify_firm}
use fastboot3ds.FirmWriter.Rsa.{rsa_verify2048}
use fastboot3ds.FirmWriter.Keys.{sighax_retail, sighax_dev, fastboot3ds_pubkey}

abbrev pub firmwriter_blk_size : ℕ
firmwriter_blk_size = 0x20000

abbrev pub update_err_invalid_firm : ℤ
update_err_invalid_firm = neg 2

abbrev pub update_err_invalid_sig : ℤ
update_err_invalid_sig = neg 3

abbrev pub update_err_not_installed : ℤ
update_err_not_installed = neg 9

abbrev pub update_err_downgrade : ℤ
update_err_downgrade = neg 10

-- The sixteen bytes behind the header of a fastboot3DS image.
abbrev pub fastboot_magic : Bytes
fastboot_magic = codes "fastboot3DS    " ++ (0 ∷ [])

-- What is written when the signature is replaced; `dev_unit` is `REG_CFG9_UNITINFO != 0`.
unfoldable pub replace_signature : Bool → Bool → Bytes → Bytes
unfolding put_at sighax_retail sighax_dev
replace_signature replace dev_unit image =
    if replace then put_at 0x100 (if dev_unit then sighax_dev else sighax_retail) image else image

-- A word stored in little-endian order.
unfoldable pub le32_bytes : ℕ → Bytes
le32_bytes n = n % 2 ^ 8 ∷ n / 2 ^ 8 % 2 ^ 8 ∷ n / 2 ^ 16 % 2 ^ 8 ∷ n / 2 ^ 24 % 2 ^ 8 ∷ []

-- The signature of the header in an image. `set_key` is `RSA_setKey2048`, which gives
-- `RSA_decrypt2048` with the key, or `none` for false.
unfoldable pub verify_signature :
    (ℕ → Bytes → ℕ → Option (Bytes → Option Bytes)) → (Bytes → Bytes) → Bytes → Bool
verify_signature set_key sha buf = elim (set_key 3 fastboot3ds_pubkey 0x01000100) [
  | none ↦ false
  | some decrypt ↦ rsa_verify2048 decrypt sha (take 0x100 (drop 0x100 buf)) (take 0x100 buf)
]

module _ {W : Type 0} (decnand : DevStruct W) where
  -- The loop of `writeFirmPartition`; `image` is what the pointer leads to, `cmp` the buffer that is
  -- compared. A round takes a block, so the blocks and one are enough fuel.
  unfoldable pub write_blocks : ℕ → ℕ → ℕ → Bytes → Bytes → W → ℤ × W
  unfolding put_at bytes_eq
  write_blocks zero sector size image cmp w = (pos 0, w)
  write_blocks (suc fuel) sector size image cmp w =
      let write_size = min size firmwriter_blk_size in
      let count = write_size / 512 in
      let (wrote, w1) = decnand.write_sector sector count image w in
      let (read, got, w2) = decnand.read_sector sector count w1 in
      let cmp' = put_at 0 got cmp in
      let rest =
        write_blocks fuel (add32 sector count) (size - write_size) (drop write_size image) cmp'
          w2 in
      if size == 0
      then (pos 0, w)
      else if not wrote
      then (neg 7, w1)
      else if not read
      then (neg 7, w2)
      else if not (bytes_eq (take write_size image) (take write_size cmp'))
      then (neg 8, w2)
      else rest

module _ {W : Type 0} (decnand : DevStruct W) (t : Table) where
  -- `alloc` is what `malloc` returns for the block, with what the memory holds. The image in memory
  -- is part of the result.
  unfoldable pub write_firm_partition :
      Option Bytes → Bytes → Bool → Bool → Bytes → W → ℤ × Bytes × W
  unfolding write_blocks replace_signature bytes_eq
  write_firm_partition alloc part replace_sig dev_unit image w =
      if not (bytes_eq (take 4 part) (codes "firm"))
      then (neg 1, image, w)
      else if not (decnand.is_active w)
      then (neg 2, image, w)
      else elim (partition_get_index t part) [
        | none ↦ (neg 3, image, w)
        | some index ↦ elim (partition_get_sector_offset t index) [
          | none ↦ (neg 4, image, w)
          | some sector ↦ elim (firm_size image) [
            | none ↦ (neg 5, image, w)
            | some size ↦
                let image' = replace_signature replace_sig dev_unit image in
                elim alloc [
                  | none ↦ (neg 6, image', w)
                  | some cmp ↦
                      let (res, w') =
                        write_blocks decnand (size / firmwriter_blk_size + 1) sector size image' cmp
                          w in
                      (res, image', w')
                ]
          ]
        ]
      ]

  -- `alloc` is whether there is memory; `fresh` what it holds.
  unfoldable pub toggle_superhax : Bool → Bytes → Bool → W → ℤ × W
  toggle_superhax alloc fresh enable w = elim (partition_get_index t (codes "firm0")) [
    | none ↦ if not (decnand.is_active w) then (neg 1, w) else (neg 2, w)
    | some index ↦ elim (partition_get_sector_offset t index) [
      | none ↦ if not (decnand.is_active w) then (neg 1, w) else (neg 3, w)
      | some sector ↦
          let (read, got, w1) = decnand.read_sector sector 2 w in
          let firm0 = put_at 0 got fresh in
          let firm0' = put_at 0x78 (le32_bytes (if enable then 0x200 else 0)) firm0 in
          let (wrote, w2) = decnand.write_sector sector 1 firm0' w1 in
          if not (decnand.is_active w)
          then (neg 1, w)
          else if not alloc
          then (neg 4, w)
          else if not read
          then (neg 5, w1)
          else if not (bytes_eq (take 16 (drop 0x200 firm0)) fastboot_magic)
          then (neg 6, w1)
          else if not wrote
          then (neg 5, w2)
          else (pos 0, w2)
    ]
  ]

  -- The signature is checked in release builds only. `current` is the version of the running
  -- program.
  module _ (fat : FatFs W) (sha : Bytes → Bytes) (release : Bool)
      (set_key : ℕ → Bytes → ℕ → Option (Bytes → Option Bytes)) (current : ℕ) where
    -- The version comes with the result where it is stored.
    unfoldable pub load_verify_update :
        Bool → Bytes → Bytes → Firm → Fs → W → ℤ × Option ℕ × Firm × Fs × W
    load_verify_update alloc fresh path firm fs w =
        let (loaded, firm1, fs1, w1) =
          load_verify_firm fat decnand t sha path false true firm fs w in
        let signed = verify_signature set_key sha firm1.buf in
        let vers = le32_at firm1.buf 0x210 in
        if not (decnand.is_active w)
        then (neg 1, none, firm, fs, w)
        else if is_neg loaded
        then (update_err_invalid_firm, none, firm1, fs1, w1)
        else if release && not signed
        then (update_err_invalid_sig, none, firm1, fs1, w1)
        else if not (bytes_eq (take 16 (drop 0x200 firm1.buf)) fastboot_magic)
        then (neg 4, none, firm1, fs1, w1)
        else elim (partition_get_index t (codes "firm0")) [
          | none ↦ (neg 5, some vers, firm1, fs1, w1)
          | some index ↦ elim (partition_get_sector_offset t index) [
            | none ↦ (neg 6, some vers, firm1, fs1, w1)
            | some sector ↦
                let (read, got, w2) = decnand.read_sector (add32 sector 1) 1 w1 in
                if not alloc
                then (neg 7, some vers, firm1, fs1, w1)
                else if not read
                then (neg 8, some vers, firm1, fs1, w2)
                else if not (bytes_eq (take 16 (put_at 0 got fresh)) fastboot_magic)
                then (update_err_not_installed, some vers, firm1, fs1, w2)
                else if ltb vers current
                then (update_err_downgrade, some vers, firm1, fs1, w2)
                else (pos 0, some vers, firm1, fs1, w2)
          ]
        ]
