-- ===== src/Fs/Protection.antt =====
-- The write protection of parts of the NAND in fs.c: the table of protected regions, the search
-- in it, and `fSetNandProtection`, which fills it from the partition table.
pub mod Lookup
pub mod Regions
pub mod Cover
pub mod Enable
use fastboot3ds.Base.{
  ℕ, zero, suc, ◌+◌, ◌-◌, Bool, true, false, not, ◌&&◌, Option, none, some, List, [], ◌∷◌, get_or,
  set, length, ltb, leb, ◌==◌, if◌then◌else◌, add32, not32, ℤ, pos,
}
use fastboot3ds.Partitions.{Partition, Table, max_partitions, partition_get_info}
use fastboot3ds.Fs.State.{Fs, Region, no_region}

abbrev pub region_at : Fs → ℕ → Region
region_at fs i = get_or fs.regions i no_region

unfoldable pub is_nand_protected : Fs → Bool
is_nand_protected fs = not (fs.num_regions == 0)

-- The test of `getNandProtRegion`.
unfoldable pub overlaps : ℕ → ℕ → Region → Bool
overlaps start_sector write_end r =
    ltb start_sector (add32 r.sector r.count) && ltb r.sector write_end

-- Its loop at index `i`, with `left` regions to go.
unfoldable pub region_from : List Region → ℕ → ℕ → ℕ → ℕ → Option ℕ
region_from regions start_sector write_end zero i = none
region_from regions start_sector write_end (suc left) i =
    let rest = region_from regions start_sector write_end left (i + 1) in
    if overlaps start_sector write_end (get_or regions i no_region) then some i else rest

-- The index of the region that the returned pointer leads to.
unfoldable pub get_nand_prot_region : Fs → ℕ → ℕ → Option ℕ
unfolding region_from
get_nand_prot_region fs start_sector write_size =
    let write_end = add32 start_sector write_size in
    if ltb (not32 write_size) start_sector
    then none
    else if leb write_size 0
    then none
    else region_from fs.regions start_sector write_end fs.num_regions 0

-- `defaultProt`
abbrev pub default_prot_header : Region
default_prot_header = record { sector = 0; count = 1 }

abbrev pub default_prot_secret : Region
default_prot_secret = record { sector = 0x96; count = 1 }

-- The regions as `memcpy(protNandRegions, defaultProt, …)` leaves them.
unfoldable pub with_default_prot : Fs → Fs
with_default_prot fs = record fs {
  regions = set (set fs.regions 0 default_prot_header) 1 default_prot_secret;
  num_regions = 2;
}

-- `region->count += partInfo.count`
unfoldable pub grow_region : Fs → ℕ → ℕ → Fs
grow_region fs i count =
    let r = region_at fs i in
    record fs { regions = set fs.regions i (record r { count = add32 r.count count }) }

unfoldable pub add_region : Fs → ℕ → ℕ → Fs
add_region fs sector count = record fs {
  regions = set fs.regions fs.num_regions (record { sector = sector; count = count });
  num_regions = fs.num_regions + 1;
}

-- The region that the sector before the partition lies in.
unfoldable pub region_before : Partition → Fs → Option ℕ
region_before p fs = if p.sector == 0 then none else get_nand_prot_region fs (p.sector - 1) 1

-- Merged into that region, or a new one.
unfoldable pub place_firmware : Partition → Option ℕ → Fs → Fs
place_firmware p none fs = add_region fs p.sector p.count
place_firmware p (some i) fs = grow_region fs i p.count

unfoldable pub protect_firmware : Partition → Fs → Fs
unfolding region_before place_firmware
protect_firmware p fs = place_firmware p (region_before p fs) fs

-- The loop of `fSetNandProtection` at partition `i`, with `left` partitions to go.
unfoldable pub protect_from : Table → ℕ → ℕ → Fs → Fs
protect_from t zero i fs = fs
protect_from t (suc left) i fs =
    let (info, found) = partition_get_info t i in
    protect_from t left (i + 1) (if found && info.type == 3 then protect_firmware info fs else fs)

unfoldable pub f_set_nand_protection : Table → Bool → Fs → ℤ × Fs
unfolding is_nand_protected
f_set_nand_protection t protect fs =
    let same = if protect then is_nand_protected fs else not (is_nand_protected fs) in
    if same
    then (pos 0, fs)
    else if protect
    then (pos 0, protect_from t max_partitions 0 (with_default_prot fs))
    else (pos 0, record fs { num_regions = 0 })
