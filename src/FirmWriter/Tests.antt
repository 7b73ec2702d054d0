-- ===== src/FirmWriter/Tests.antt =====
-- An image of two sectors is written to a NAND in memory.
use fastboot3ds.Base.{
  ℕ, Option, ◌+◌, ◌-◌, ◌/◌, ◌≤◌, ◌<◌, ◌≡◌, ◌⊎◌, refl, true, false, Bytes, [], ◌∷◌, ◌++◌, arith,
  replicate, pos, some, codes, put_at, bytes_eq, le32_at, is_neg,
}
use fastboot3ds.Partitions.{
  Table, partition_get_index, partition_get_sector_offset, find_partition, stem,
}
use fastboot3ds.Fs.World.{DevStruct, IsDisk, sector_of}
use fastboot3ds.Fs.Memory.{
  Disk, idle_fat, overwrite, sectors, held, overwrite_frame, overwrite_stores, length-sectors,
  sector_of-sectors,
}
use fastboot3ds.Fs.State.{initial}
use fastboot3ds.Firm.{firm_size, size_from, verify_firm, verify_sections, allowed_in}
use fastboot3ds.Firm.Accepted.{Accepted, load_verify_firm_lem}
use fastboot3ds.Firm.Load.{Firm, load_image, load_ram, set_arguments, load_verify_firm}
use fastboot3ds.FirmWriter.{
  write_firm_partition, replace_signature, fastboot_magic, load_verify_update, verify_signature,
}
use fastboot3ds.FirmWriter.Rsa.{rsa_verify2048, check_signature, padding_end}
use fastboot3ds.FirmWriter.Update.{IsUpdate, load_verify_update_lem}
use fastboot3ds.FirmWriter.Blocks.{KeepsOnRead}
use fastboot3ds.FirmWriter.Works.{Works}
use fastboot3ds.FirmWriter.Write.{IsTarget, write_firm_partition_lem, write_firm_partition-Works}

abbrev nand : DevStruct Disk
nand = record {
  read_sector = λ s n w. (true, sectors s n w, w);
  write_sector = λ s n buf w. (true, overwrite s n buf w);
  close = λ w. w;
  is_active = λ w. true;
  get_sector_count = λ w. 0x1D7800;
}

nand-IsDisk : IsDisk nand held
nand-IsDisk = record {
  frame = λ s n buf w k o. overwrite_frame s n buf w k o;
  stores = λ s n buf w k d lo hi. overwrite_stores s n buf w k lo hi;
}

nand-KeepsOnRead : KeepsOnRead nand held
unfolding KeepsOnRead
nand-KeepsOnRead s n w k = refl

nand-Works : Works nand held
nand-Works = record {
  writes = λ s n buf w. refl;
  reads = λ s n w. refl;
  read_size = λ s n w whole. length-sectors s n w whole;
  read_back = λ s n w i whole lt. sector_of-sectors s n w i whole lt;
}

-- One section of a sector behind the header.
abbrev image : Bytes
image =
    codes "FIRM"
    ++ replicate 8 0
    ++ (1 ∷ replicate 0x33 0)
    ++ (0 ∷ 2 ∷ replicate 5 0)
    ++ (0x20 ∷ 0 ∷ 2 ∷ replicate 0x1B6 0)
    ++ replicate 0x200 7

abbrev console : Table
console = record {
  parts =
      record { name = codes "firm0"; sector = 0x58980; count = 0x2000; type = 3; keyslot = 6 } ∷ [];
  num = 1;
}

image_size : firm_size image ≡ some 0x400
unfolding firm_size size_from le32_at
image_size = refl

console-IsTarget : IsTarget nand console (codes "firm0") image (λ k. []) 0x58980 0x400
unfolding bytes_eq partition_get_index find_partition stem partition_get_sector_offset
console-IsTarget = record {
  firm = refl;
  active = refl;
  index = 0;
  named = refl;
  place = refl;
  measured = image_size;
  fits = omega arith;
  whole = refl;
}

write_firm_partition-Works_example :
    (write_firm_partition nand console (some []) (codes "firm0") true false image (λ k. [])).0
    ≡ pos 0
write_firm_partition-Works_example =
    write_firm_partition-Works nand console (codes "firm0") image [] true false (λ k. []) 0x58980
      0x400 console-IsTarget held nand-IsDisk nand-KeepsOnRead nand-Works (omega arith)
      (omega arith)

write_firm_partition_lem_example :
    ((0x58980 ≤ 0x58981)
      × (0x58981 < 0x58980 + 0x400 / 512)
      × (held
            (write_firm_partition nand console
              (some [])
              (codes "firm0")
              true
              false
              image
              (λ k. [])).2
            0x58981
          ≡ sector_of (replace_signature true false image) (0x58981 - 0x58980)))
    ⊎ (((0x58981 < 0x58980) ⊎ (0x58980 + 0x400 / 512 ≤ 0x58981))
        × (held
              (write_firm_partition nand console
                (some [])
                (codes "firm0")
                true
                false
                image
                (λ k. [])).2
              0x58981
            ≡ []))
write_firm_partition_lem_example =
    write_firm_partition_lem nand console (codes "firm0") image [] true false (λ k. []) 0x58980
      0x400 console-IsTarget held nand-IsDisk nand-KeepsOnRead
      (write_firm_partition-Works nand console (codes "firm0") image [] true false (λ k. []) 0x58980
        0x400 console-IsTarget held nand-IsDisk nand-KeepsOnRead nand-Works (omega arith)
        (omega arith))
      0x58981

-- An image of a fastboot3DS of version 5.
abbrev update : Bytes
update =
    codes "FIRM"
    ++ replicate 8 0
    ++ (1 ∷ replicate 0x33 0)
    ++ (0 ∷ 2 ∷ 0 ∷ 0 ∷ 0 ∷ 0 ∷ 0 ∷ 0x18 ∷ 0 ∷ 2 ∷ replicate 0x1B6 0)
    ++ fastboot_magic
    ++ (5 ∷ replicate 0x1EB 0)

abbrev update_in_ram : Firm
update_in_ram = record { buf = []; ram = update; argc = 0; path = []; screens = [] }

-- A key with which each signature decrypts to padding and a hash of zeros.
abbrev any_key : ℕ → Bytes → ℕ → Option (Bytes → Option Bytes)
any_key slot key exp = some (λ enc_sig. some ((0 ∷ 1 ∷ replicate 0xCA 0xFF) ++ replicate 0x34 0))

update_ok :
    (load_verify_update nand console idle_fat
      (λ b. replicate 32 0)
      true
      any_key
      3
      true
      []
      (codes "ram:")
      update_in_ram
      initial
      (λ k. fastboot_magic)).0
    ≡ pos 0
unfolding load_verify_update verify_signature rsa_verify2048 check_signature padding_end
    load_verify_firm load_image load_ram firm_size size_from verify_firm verify_sections allowed_in
    set_arguments le32_at bytes_eq put_at partition_get_index find_partition stem
    partition_get_sector_offset sectors
update_ok = refl

load_verify_update_lem_example :
    IsUpdate nand console idle_fat
      (λ b. replicate 32 0)
      true
      any_key
      3
      []
      (codes "ram:")
      update_in_ram
      initial
      (λ k. fastboot_magic)
      (load_verify_update nand console idle_fat
        (λ b. replicate 32 0)
        true
        any_key
        3
        true
        []
        (codes "ram:")
        update_in_ram
        initial
        (λ k. fastboot_magic)).2.buf
      (load_verify_firm idle_fat nand console
        (λ b. replicate 32 0)
        (codes "ram:")
        false
        true
        update_in_ram
        initial
        (λ k. fastboot_magic)).3
    × ((load_verify_update nand console idle_fat
          (λ b. replicate 32 0)
          true
          any_key
          3
          true
          []
          (codes "ram:")
          update_in_ram
          initial
          (λ k. fastboot_magic)).1
        ≡ some (
            le32_at
              (load_verify_update nand console idle_fat
                (λ b. replicate 32 0)
                true
                any_key
                3
                true
                []
                (codes "ram:")
                update_in_ram
                initial
                (λ k. fastboot_magic)).2.buf
              0x210))
load_verify_update_lem_example =
    load_verify_update_lem nand console idle_fat (λ b. replicate 32 0) true any_key 3 []
      (codes "ram:") update_in_ram initial (λ k. fastboot_magic) true update_ok

update_accepted :
    is_neg
      (load_verify_firm idle_fat nand console
        (λ b. replicate 32 0)
        (codes "ram:")
        false
        true
        update_in_ram
        initial
        (λ k. [])).0
    ≡ false
unfolding load_verify_firm load_image load_ram firm_size size_from verify_firm verify_sections
    allowed_in set_arguments le32_at bytes_eq put_at
update_accepted = refl

load_verify_firm_lem_example :
    Accepted idle_fat nand console
      (λ b. replicate 32 0)
      (codes "ram:")
      false
      true
      (load_verify_firm idle_fat nand console
        (λ b. replicate 32 0)
        (codes "ram:")
        false
        true
        update_in_ram
        initial
        (λ k. [])).1.buf
load_verify_firm_lem_example =
    load_verify_firm_lem idle_fat nand console (λ b. replicate 32 0) (codes "ram:") false true
      update_in_ram initial (λ k. []) update_accepted
