-- ===== src/Dev/Nand/Write.antt =====
-- What a write to the decrypted NAND leaves there.
use fastboot3ds.Base.{
  ℕ, ◌+◌, ◌*◌, ◌/◌, ◌≤◌, ◌<◌, ◌≡◌, ◌⊎◌, inl, inr, refl, sym, Bool, true, false, some, Bytes, length,
  min, leb, ◌==◌, Bool-cases, Option-cases, u32_mod, arith,
}
use fastboot3ds.Partitions.{partition_find, partition_get_keyslot}
use fastboot3ds.Fs.World.{sector_of}
use fastboot3ds.Dev.{Mmc, Devices}
use fastboot3ds.Dev.Aes.{Engine, IsCounterMode, counter_mod, add_counter}
use fastboot3ds.Dev.Nand.{sector_counter, write_chunks, sdmmc_dnand_write_sector}
use fastboot3ds.Dev.Nand.Chunks.{IsNand, write_chunks_frame, write_chunks_stored}

enough_rounds : (count : ℕ) → count ≤ (count / 8 + 1) * min count 8
enough_rounds count = elim (Bool-cases (leb 8 count)) [
  | inl more ↦ let eight : 8 ≡ min count 8 = ground (arith, more) in rw (sym eight) (omega arith)
  | inr less ↦
      let all : count ≡ min count 8 = ground (arith, less) in
      let one : count / 8 ≡ 0 = ground (arith, less) in rw (one, sym all) (omega arith)
]

pub small_counter : (d : Devices) (key s : ℕ) → sector_counter d key s < counter_mod
unfolding sector_counter add_counter
small_counter d key s = omega arith

module _ (d : Devices) (s count : ℕ) where
  -- The range lies in a partition that has a key.
  pub record HasKey : Type 0 where
    pub index : ℕ
    pub found : partition_find d.table s count ≡ some index
    pub known : ((partition_get_keyslot d.table index).0 == 0xFF) ≡ false
    pub active : d.dnand ≡ true

  abbrev pub slot : HasKey → ℕ
  slot h = (partition_get_keyslot d.table h.index).0

module _ {W : Type 0} (mmc : Mmc W) (engine : ℕ → Engine) (d : Devices) (s count : ℕ) where
  module _ (alloc : Bool) (buf : Bytes) (w : W) where
    -- The exits of `sdmmc_dnand_write_sector`.
    pub data Exits : Bool × W → Type 0 where
      refused : Exits (false, w)
      writes :
          (h : HasKey d s count)
          → Exits (
              write_chunks mmc engine
                (count / 8 + 1)
                (slot d s count h)
                (min count 8)
                s
                count
                buf
                (sector_counter d (slot d s count h) s)
                w)

    write_sector_eq :
        (h : HasKey d s count)
        → alloc ≡ true
        → sdmmc_dnand_write_sector mmc engine alloc s count buf d w
          ≡ write_chunks mmc engine
              (count / 8 + 1)
              (slot d s count h)
              (min count 8)
              s
              count
              buf
              (sector_counter d (slot d s count h) s)
              w
    unfolding sdmmc_dnand_write_sector write_chunks
    write_sector_eq h memory =
        rw (sdmmc_dnand_write_sector, h.found) (rw (h.active, h.known, memory) refl)

    pub write_sector-Exits : Exits (sdmmc_dnand_write_sector mmc engine alloc s count buf d w)
    unfolding sdmmc_dnand_write_sector
    write_sector-Exits = elim (Option-cases (partition_find d.table s count)) [
      | inl e ↦ rw (sdmmc_dnand_write_sector, e) refused
      | inr (index, e) ↦ elim (Bool-cases d.dnand) [
        | inr f ↦
            let eq : sdmmc_dnand_write_sector mmc engine alloc s count buf d w ≡ (false, w) =
              rw (sdmmc_dnand_write_sector, e) (rw f refl) in
            rw eq refused
        | inl active ↦ elim (Bool-cases ((partition_get_keyslot d.table index).0 == 0xFF)) [
          | inl f ↦
              let eq : sdmmc_dnand_write_sector mmc engine alloc s count buf d w ≡ (false, w) =
                rw (sdmmc_dnand_write_sector, e) (rw (active, f) refl) in
              rw eq refused
          | inr known ↦
              let h : HasKey d s count = record {
                index = index;
                found = e;
                known = known;
                active = active;
              } in
              elim (Bool-cases alloc) [
                | inr f ↦
                    let eq : sdmmc_dnand_write_sector mmc engine alloc s count buf d w
                        ≡ (false, w) =
                      rw (sdmmc_dnand_write_sector, e) (rw (active, known, f) refl) in
                    rw eq refused
                | inl t ↦ rw (write_sector_eq h t) (writes h)
              ]
        ]
      ]
    ]

    module _ (block : W → ℕ → Bytes) (nand : IsNand mmc block)
        (mode : (key : ℕ) → IsCounterMode (engine key)) (fits : s + count < u32_mod) where
      Exits-frame :
          (r : Bool × W) (k : ℕ) → Exits r → (k < s) ⊎ (s + count ≤ k) → block r.1 k ≡ block w k
      Exits-frame r k refused out = refl
      Exits-frame r k (writes h) out =
          write_chunks_frame mmc engine block nand (slot d s count h) (min count 8)
            (mode (slot d s count h)) (count / 8 + 1) s count buf
            (sector_counter d (slot d s count h) s) w k (small_counter d (slot d s count h) s) fits
            out

      -- A write to the decrypted NAND, whatever it returns, changes no sector outside of the range
      -- that it names, and it changes nothing at all if the range is not one of a partition with a
      -- key. A write to the NAND changes only the sectors that it names, the engine does counter
      -- mode, and the range ends below 2^32.
      pub dnand_write_sector_frame :
          ((k : ℕ)
            → (k < s) ⊎ (s + count ≤ k)
            → block (sdmmc_dnand_write_sector mmc engine alloc s count buf d w).1 k ≡ block w k)
          × (HasKey d s count
              ⊎ (sdmmc_dnand_write_sector mmc engine alloc s count buf d w ≡ (false, w)))
      dnand_write_sector_frame = (
        (λ k out.
            Exits-frame (sdmmc_dnand_write_sector mmc engine alloc s count buf d w) k
              write_sector-Exits out),
        key_or_not (sdmmc_dnand_write_sector mmc engine alloc s count buf d w) write_sector-Exits,
      )
        where
          key_or_not : (r : Bool × W) → Exits r → HasKey d s count ⊎ (r ≡ (false, w))
          key_or_not r refused = inr refl
          key_or_not r (writes h) = inl h

      -- What the sectors hold after a write that succeeded.
      unfoldable pub Stored : Bool × W → Type 0
      Stored r =
          (h : HasKey d s count) × ((i : ℕ)
            → i < count
            → block r.1 (s + i)
              ≡ sector_of
                  (engine (slot d s count h) (sector_counter d (slot d s count h) s) (count * 32)
                    buf)
                  i)

      pub Exits-Stored : (r : Bool × W) → count * 512 ≤ length buf → Exits r → r.0 ≡ true → Stored r
      unfolding Stored
      Exits-Stored r long refused ok = cc
      Exits-Stored r long (writes h) ok = (
        h,
        λ i lt.
            write_chunks_stored mmc engine block nand (slot d s count h) (min count 8)
              (mode (slot d s count h)) (count / 8 + 1) s count buf
              (sector_counter d (slot d s count h) s) w i (small_counter d (slot d s count h) s)
              fits (enough_rounds count) long ok lt,
      )
