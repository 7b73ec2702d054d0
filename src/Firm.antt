-- ===== src/Firm.antt =====
-- source/arm9/firm.c: the size of a firmware image, and `loadVerifyFirm`, which loads one to memory
-- and accepts or refuses it. Its records are in include/arm9/firm.h, the addresses in
-- include/mem_map.h.
pub mod Load
pub mod Size
pub mod Verify
pub mod Accepted
mod Tests
use fastboot3ds.Base.{
  ℕ, zero, suc, ◌+◌, ◌-◌, ◌*◌, ◌/◌, Bool, true, false, not, ◌&&◌, ◌||◌, Option, none, some, List,
  [], ◌∷◌, ◌++◌, Bytes, length, take, drop, replicate, ltb, leb, ◌==◌, if◌then◌else◌, bytes_eq,
  codes, add32, sub32, not32, le32_at, ℤ, pos, negsuc, neg, is_neg,
}
use fastboot3ds.Partitions.{Table, partition_get_index, partition_get_sector_offset}
use fastboot3ds.Fs.World.{FatFs, DevStruct}
use fastboot3ds.Fs.State.{Fs}
use fastboot3ds.Fs.Files.{f_open, f_size, f_read, f_close}

abbrev pub firm_max_size : ℕ
firm_max_size = 0x400000

-- `sizeof(firm_header)`
abbrev pub header_size : ℕ
header_size = 0x200

-- `firm_header` and its four `firm_sectionheader` as bytes, little-endian.
abbrev pub entry_arm9 : Bytes → ℕ
entry_arm9 h = le32_at h 12

abbrev pub sec_offset : Bytes → ℕ → ℕ
sec_offset h i = le32_at h (0x40 + i * 0x30)

abbrev pub sec_address : Bytes → ℕ → ℕ
sec_address h i = le32_at h (0x44 + i * 0x30)

abbrev pub sec_size : Bytes → ℕ → ℕ
sec_size h i = le32_at h (0x48 + i * 0x30)

abbrev pub sec_hash : Bytes → ℕ → Bytes
sec_hash h i = take 0x20 (drop (0x50 + i * 0x30) h)

-- The loop of `firm_size` with the sections below `n` to go, the highest first; `none` is that it
-- returns false.
unfoldable pub size_from : Bytes → ℕ → ℕ → ℕ → Option ℕ
size_from h zero cur_len cur_offset = some cur_len
size_from h (suc i) cur_len cur_offset =
    let size = sec_size h i in
    let offset = sec_offset h i in
    let sec_end = add32 offset size in
    let len = if ltb cur_len sec_end then sec_end else cur_len in
    let skip = size_from h i cur_len cur_offset in
    let rest = size_from h i len offset in
    if size == 0
    then skip
    else if leb offset cur_offset
    then skip
    else if ltb firm_max_size size || leb firm_max_size offset
    then none
    else if ltb firm_max_size len
    then none
    else rest

-- `none` is false; the size is 0 then.
unfoldable pub firm_size : Bytes → Option ℕ
unfolding size_from
firm_size h = size_from h 4 header_size 0

-- `FirmWhitelist`
pub record Range : Type 0 where
  pub addr : ℕ
  pub size : ℕ

abbrev pub range : ℕ → ℕ → Range
range addr size = record { addr = addr; size = size }

abbrev pub boot_whitelist : List Range
boot_whitelist =
    range 0x01FF8000 (0x8000 - 0x4800)
    ∷ range (0x08000000 + 0x40) (0x100000 + 0x80000 - 0x40)
    ∷ range 0x18000000 (0x600000 - 0x400000)
    ∷ range 0x1FF00000 (0x80000 + 0x80000 - 0x220)
    ∷ range 0x20000000 (0x8000000 + 0x8000000)
    ∷ []

abbrev pub install_whitelist : List Range
install_whitelist =
    range 0x01FF8000 (0x8000 + 0x8000)
    ∷ range 0x08000000 (0x100000 + 0x80000)
    ∷ range 0x10000000 0x400000
    ∷ range 0x18000000 0x600000
    ∷ range 0x1FF00000 (0x80000 + 0x80000)
    ∷ []

-- The loop over the whitelist; `none` is the return of -14.
unfoldable pub allowed_in : ℕ → ℕ → List Range → Option Bool
allowed_in sec_addr size [] = some false
allowed_in sec_addr size (r ∷ rs) =
    let rest = allowed_in sec_addr size rs in
    if ltb (not32 size) sec_addr
    then none
    else if leb r.addr sec_addr && leb (add32 sec_addr size) (add32 r.addr r.size)
    then some true
    else rest

-- `sha` with a 256-bit mode is the hardware's, an argument.
module _ (sha : Bytes → Bytes) (skip_hash_check : Bool) (whitelist : List Range) (buf : Bytes)
    (firm_size : ℕ) where
  -- The loop over the sections at section `i`, with `left` to go: 0, or what is returned.
  unfoldable pub verify_sections : ℕ → ℕ → ℤ
  unfolding allowed_in
  verify_sections zero i = pos 0
  verify_sections (suc left) i =
      let size = sec_size buf i in
      let offset = sec_offset buf i in
      let hash = sha (take size (drop offset buf)) in
      let rest = verify_sections left (i + 1) in
      if size == 0
      then rest
      else if leb firm_size offset || ltb offset header_size
      then neg 12
      else if leb firm_size size || ltb firm_size (add32 size offset)
      then neg 13
      else elim (allowed_in (sec_address buf i) size whitelist) [
        | none ↦ neg 14
        | some allowed ↦
            if not allowed
            then neg 15
            else if not skip_hash_check && not (bytes_eq (sec_hash buf i) hash)
            then neg 16
            else rest
      ]

  unfoldable pub verify_firm : ℤ
  unfolding verify_sections
  verify_firm =
      if leb firm_size header_size
      then neg 9
      else if not (bytes_eq (take 4 buf) (codes "FIRM"))
      then neg 10
      else if entry_arm9 buf == 0
      then neg 11
      else verify_sections 4 0
