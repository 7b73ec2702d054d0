-- ===== src/Dev/Header.antt =====
-- `sdmmc_dnand_init` in source/arm9/dev.c: the table of partitions is made from the header of the
-- NAND. The header's record is in include/arm9/ncsd.h.
pub mod SetUp
pub mod Entries
pub mod Init
use fastboot3ds.Base.{
  ℕ, zero, suc, ◌+◌, ◌-◌, ◌*◌, Bool, true, false, not, ◌&&◌, Option, none, some, Bytes, take, drop,
  get_or, ◌==◌, if◌then◌else◌, bytes_eq, codes, le32_at,
}
use fastboot3ds.Partitions.{
  Table, max_partitions, partitions_reset, partition_add, partition_set_keyslot, partition_set_name,
  partition_get_index,
}
use fastboot3ds.Fs.World.{FatFs}
use fastboot3ds.Fs.State.{Fs}
use fastboot3ds.Dev.{Mmc, Devices, sdmmc_rnand_init}

-- `NCSD_header` as bytes, little-endian.
abbrev pub part_type : Bytes → ℕ → ℕ
part_type header i = get_or header (0x110 + i) 0

abbrev pub media_offset : Bytes → ℕ → ℕ
media_offset header i = le32_at header (0x120 + i * 8)

abbrev pub media_size : Bytes → ℕ → ℕ
media_size header i = le32_at header (0x124 + i * 8)

-- The keyslot and the name of a partition.
unfoldable pub set_up : Table → ℕ → ℕ → Bytes → Table
set_up t index keyslot name =
    (partition_set_name (partition_set_keyslot t index keyslot).0 index name).0

-- The name of a firmware partition.
unfoldable pub firm_name : Table → Bytes
firm_name t = elim (partition_get_index t (codes "firm0")) [
  | none ↦ codes "firm0"
  | some temp ↦ codes "firm1"
]

-- The switch on the type of partition `i`, with `new_3ds` for bit 1 of `REG_CFG9_SOCINFO`.
unfoldable pub by_type : Bool → ℕ → ℕ → ℕ → Table → Table
by_type new_3ds i type index t =
    if type == 1
    then if i == 0
      then set_up t index 0x03 (codes "twln")
      else if i == 4
      then set_up t index (if new_3ds then 0x05 else 0x04) (codes "nand")
      else t
    else if type == 3
    then set_up t index 0x06 (firm_name (partition_set_keyslot t index 0x06).0)
    else if type == 4
    then set_up t index 0x07 (codes "agb")
    else set_up t index 0xFF (codes "invalid")

-- What a round does to `ctr_nand_sector`.
unfoldable pub ctr_sector : ℕ → ℕ → ℕ → ℕ → ℕ
ctr_sector i type sector old = if type == 1 then if i == 4 then sector else old else old

-- The loop over the partitions from `i` on, with `left` to go; `none` is the panic on a full table.
unfoldable pub collect : Bool → Bytes → (left i : ℕ) → Table → ℕ → Option (Table × ℕ)
collect new_3ds header zero i t ctr = some (t, ctr)
collect new_3ds header (suc left) i t ctr =
    let type = part_type header i in
    let sector = media_offset header i in
    elim (partition_add t sector (media_size header i) type) [
      | none ↦ none
      | some (t', index) ↦
          collect new_3ds header left (i + 1) (by_type new_3ds i type index t')
            (ctr_sector i type sector ctr)
    ]

-- `sha1` and `sha256` are the engine's hashes of the identification of the NAND, read as the
-- counters of 128 bits.
module _ {W : Type 0} (mmc : Mmc W) (fat : FatFs W) (new_3ds : Bool) (sha1 sha256 : Bytes → ℕ) where
  -- `none` is a panic.
  unfoldable pub sdmmc_dnand_init : Devices → Fs → W → Option (Bool × Devices × Fs × W)
  sdmmc_dnand_init d fs w =
      let d0 = record d { table = partitions_reset d.table } in
      let (ready, d_raw, fs_raw, w_raw) = sdmmc_rnand_init mmc fat d0 fs w in
      let d1 = if d.rnand then d0 else d_raw in
      let fs1 = if d.rnand then fs else fs_raw in
      let (err, header, w2) = mmc.nand_read 0 1 (if d.rnand then w else w_raw) in
      if d.dnand
      then some (true, d, fs, w)
      else if not d.rnand && not ready
      then some (false, d_raw, fs_raw, w_raw)
      else if not (err == 0)
      then some (false, d1, fs1, w2)
      else if not (bytes_eq (take 4 (drop 0x100 header)) (codes "NCSD"))
      then some (false, d1, fs1, w2)
      else elim (collect new_3ds header max_partitions 0 d1.table d1.ctr_nand_sector) [
        | none ↦ none
        | some (t, ctr) ↦
            let d2 = record d1 { table = t; ctr_nand_sector = ctr } in
            let (bad, cid, w3) = mmc.nand_cid w2 in
            if not (bad == 0)
            then some (false, d2, fs1, w3)
            else some (
              true,
              record d2 { twl_counter = sha1 cid; ctr_counter = sha256 cid; dnand = true },
              fs1,
              w3,
            )
      ]
