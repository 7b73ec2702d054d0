-- ===== src/Dev/Nand/RoundTrip.antt =====
-- A write to the decrypted NAND and a read after it.
use fastboot3ds.Base.{
  ℕ, ◌+◌, ◌*◌, ◌%◌, ◌^◌, ◌≤◌, ◌<◌, ◌≡◌, refl, ap, ◌∙◌, Bool, true, Bytes, take, length, length-take,
  length-drop, drop, u32_mod, arith,
}
use fastboot3ds.Fs.World.{sector_of}
use fastboot3ds.Fs.Sectors.{AreWhole, sectors_eq}
use fastboot3ds.Dev.{Mmc, Devices}
use fastboot3ds.Dev.Aes.{Engine, IsCounterMode, aes_ctr, aes_ctr_lem}
use fastboot3ds.Dev.Nand.{sector_counter, sdmmc_dnand_read_sector, sdmmc_dnand_write_sector}
use fastboot3ds.Dev.Nand.Chunks.{IsNand}
use fastboot3ds.Dev.Nand.Write.{
  HasKey, slot, small_counter, write_sector-Exits, Stored, Exits-Stored,
}

small_blocks : (count : ℕ) → count < 2 ^ 27 → count * 32 % u32_mod ≡ count * 32
small_blocks count lt = omega arith

module _ {W : Type 0} (mmc : Mmc W) (engine : ℕ → Engine) (d : Devices) (s count : ℕ) where
  -- A read of a range with a key, where the NAND is read without an error.
  read_sector_eq :
      (h : HasKey d s count) (w : W)
      → (mmc.nand_read s count w).0 ≡ 0
      → sdmmc_dnand_read_sector mmc engine s count d w ≡ (
        true,
        ((aes_ctr
            (engine (slot d s count h))
            (sector_counter d (slot d s count h) s)
            (count * 32 % u32_mod)
            (mmc.nand_read s count w).1).0),
        (mmc.nand_read s count w).2,
      )
  unfolding sdmmc_dnand_read_sector
  read_sector_eq h w ok = rw (sdmmc_dnand_read_sector, h.found) (rw (h.active, h.known, ok) refl)

  module _ (alloc : Bool) (buf : Bytes) (w : W) (block : W → ℕ → Bytes) (nand : IsNand mmc block)
      (mode : (key : ℕ) → IsCounterMode (engine key)) where
    crypted : HasKey d s count → Bytes
    crypted h = engine (slot d s count h) (sector_counter d (slot d s count h) s) (count * 32) buf

    length-crypted :
        (h : HasKey d s count) → count * 512 ≤ length buf → length (crypted h) ≡ count * 512
    unfolding crypted
    length-crypted h long = omega (
      arith,
      long,
      (mode (slot d s count h)).size (sector_counter d (slot d s count h) s) (count * 32) buf,
    )

    holds-AreWhole :
        (h : HasKey d s count) (w' : W)
        → count * 512 ≤ length buf
        → ((i : ℕ) → i < count → block w' (s + i) ≡ sector_of (crypted h) i)
        → AreWhole block s count w'
    unfolding AreWhole
    holds-AreWhole h w' long held i lt =
        ap length (held i lt)
        ∙ omega (
          arith,
          lt,
          length-crypted h long,
          length-take 512 (drop (i * 512) (crypted h)),
          length-drop (i * 512) (crypted h),
        )

    -- What a read of the NAND gives where the sectors hold what was encrypted.
    read_crypted :
        (h : HasKey d s count) (w' : W)
        → count * 512 ≤ length buf
        → ((i : ℕ) → i < count → block w' (s + i) ≡ sector_of (crypted h) i)
        → (mmc.nand_read s count w').0 ≡ 0
        → (mmc.nand_read s count w').1 ≡ crypted h
    read_crypted h w' long held ok =
        let whole = holds-AreWhole h w' long held in
        sectors_eq count ((mmc.nand_read s count w').1) (crypted h)
          (nand.read_size s count w' ok whole) (length-crypted h long)
          (λ i lt. nand.read_back s count w' i ok whole lt ∙ held i lt)

    decrypted :
        (h : HasKey d s count) (got : Bytes)
        → count < 2 ^ 27
        → got ≡ crypted h
        → (aes_ctr
            (engine (slot d s count h))
            (sector_counter d (slot d s count h) s)
            (count * 32 % u32_mod)
            got).0
          ≡ take (count * 512) buf
    unfolding crypted
    decrypted h got lt e =
        let c = sector_counter d (slot d s count h) s in
        let bytes : count * 32 * 16 ≡ count * 512 = omega arith in
        ap (λ n. (aes_ctr (engine (slot d s count h)) c n got).0) (small_blocks count lt)
        ∙ ap (λ r. r.0)
            (aes_ctr_lem (engine (slot d s count h)) (mode (slot d s count h)) c (count * 32) got
              (small_counter d (slot d s count h) s))
        ∙ ap (engine (slot d s count h) c (count * 32)) e
        ∙ (mode (slot d s count h)).twice c (count * 32) buf
        ∙ ap (λ n. take n buf) bytes

    -- After a write to the decrypted NAND that returned true, a read of the same sectors returns
    -- true and gives the bytes that were written, if the NAND is then read without an error. The
    -- engine does counter mode, the NAND keeps what is written, the range has less than 2^27
    -- sectors and ends below 2^32, and the buffer has the bytes of the range.
    pub dnand_write-read :
        s + count < u32_mod
        → count < 2 ^ 27
        → count * 512 ≤ length buf
        → (sdmmc_dnand_write_sector mmc engine alloc s count buf d w).0 ≡ true
        → (mmc.nand_read s count (sdmmc_dnand_write_sector mmc engine alloc s count buf d w).1).0
          ≡ 0
        → ((sdmmc_dnand_read_sector mmc engine s count d
              (sdmmc_dnand_write_sector mmc engine alloc s count buf d w).1).0
            ≡ true)
          × ((sdmmc_dnand_read_sector mmc engine s count d
                (sdmmc_dnand_write_sector mmc engine alloc s count buf d w).1).1
              ≡ take (count * 512) buf)
    unfolding Stored crypted
    dnand_write-read fits lt long wrote ok =
        let w' = (sdmmc_dnand_write_sector mmc engine alloc s count buf d w).1 in
        let (h, held) =
          Exits-Stored mmc engine d s count alloc buf w block nand mode fits
            (sdmmc_dnand_write_sector mmc engine alloc s count buf d w) long
            (write_sector-Exits mmc engine d s count alloc buf w) wrote in
        let e = read_sector_eq h w' ok in
        (
          ap (λ r. r.0) e,
          ap (λ r. r.1) e
              ∙ decrypted h ((mmc.nand_read s count w').1) lt (read_crypted h w' long held ok),
        )
