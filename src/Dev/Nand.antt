-- ===== src/Dev/Nand.antt =====
-- source/arm9/dev.c: reads and writes of the decrypted NAND.
pub mod Chunks
pub mod Write
pub mod RoundTrip
use fastboot3ds.Base.{
  ℕ, zero, suc, ◌+◌, ◌-◌, ◌*◌, ◌/◌, ◌%◌, ◌^◌, Bool, true, false, not, Option, none, some, [], Bytes,
  drop, min, ◌==◌, if◌then◌else◌, add32, u32_mod,
}
use fastboot3ds.Partitions.{partition_find, partition_get_keyslot}
use fastboot3ds.Dev.{Mmc, Devices}
use fastboot3ds.Dev.Aes.{Engine, aes_ctr, add_counter}

-- The counter of a sector; `sector<<9` is a word.
unfoldable pub sector_counter : Devices → ℕ → ℕ → ℕ
unfolding add_counter
sector_counter d keyslot sector =
    add_counter (if keyslot == 3 then d.twl_counter else d.ctr_counter) (sector * 512 % u32_mod)

-- `engine` is the engine with the key of a keyslot, and with the order of the bytes that goes with
-- it: there is one for keyslot 3 and one for all others.
module _ {W : Type 0} (mmc : Mmc W) (engine : ℕ → Engine) where
  unfoldable pub sdmmc_dnand_read_sector : ℕ → ℕ → Devices → W → Bool × Bytes × W
  unfolding aes_ctr sector_counter
  sdmmc_dnand_read_sector sector count d w = elim (partition_find d.table sector count) [
    | none ↦ (false, [], w)
    | some index ↦
        let (keyslot, known) = partition_get_keyslot d.table index in
        let (err, got, w1) = mmc.nand_read sector count w in
        let (plain, after) =
          aes_ctr (engine keyslot) (sector_counter d keyslot sector) (count * 32 % u32_mod) got in
        if not d.dnand
        then (false, [], w)
        else if keyslot == 0xFF
        then (false, [], w)
        else if not (err == 0)
        then (false, got, w1)
        else (true, plain, w1)
  ]

  -- The loop of `sdmmc_dnand_write_sector`; `size` is `crypto_sec_size`.
  unfoldable pub write_chunks : ℕ → ℕ → ℕ → ℕ → ℕ → Bytes → ℕ → W → Bool × W
  unfolding aes_ctr
  write_chunks zero keyslot size sector count buf ctr w = (true, w)
  write_chunks (suc fuel) keyslot size sector count buf ctr w =
      let crypt_size = min count size in
      let (crypted, ctr') = aes_ctr (engine keyslot) ctr (crypt_size * 32) buf in
      let (err, w1) = mmc.nand_write sector crypt_size crypted w in
      let rest =
        write_chunks fuel keyslot size (add32 sector crypt_size) (count - crypt_size)
          (drop (crypt_size * 512) buf) ctr' w1 in
      if not (err == 0) then (false, w1) else if count - crypt_size == 0 then (true, w1) else rest

  -- `alloc` is whether there is memory for a chunk. Each round writes eight sectors or the last
  -- ones, so the chunks and one are enough fuel.
  unfoldable pub sdmmc_dnand_write_sector : Bool → ℕ → ℕ → Bytes → Devices → W → Bool × W
  unfolding write_chunks sector_counter
  sdmmc_dnand_write_sector alloc sector count buf d w = elim (partition_find d.table sector count) [
    | none ↦ (false, w)
    | some index ↦
        let (keyslot, known) = partition_get_keyslot d.table index in
        let size = min count 8 in
        let written =
          write_chunks (count / 8 + 1) keyslot size sector count buf
            (sector_counter d keyslot sector) w in
        if not d.dnand
        then (false, w)
        else if keyslot == 0xFF
        then (false, w)
        else if not alloc
        then (false, w)
        else written
  ]
