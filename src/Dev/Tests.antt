-- ===== src/Dev/Tests.antt =====
-- A NAND in memory behind an engine that exchanges the bytes 0 and 1.
use fastboot3ds.Base.{
  ℕ, suc, ◌+◌, ◌-◌, ◌*◌, ◌%◌, ◌^◌, ◌≤◌, ◌<◌, ◌≡◌, ◌⊎◌, refl, ap, ◌∙◌, true, false, [], ◌∷◌, ◌++◌,
  map, Bytes, length, length-take, take, drop, take_all, replicate, ◌==◌, if◌then◌else◌, codes,
  arith,
}
use fastboot3ds.Partitions.{Table, zeroed, partition_find, holds_range, partition_get_keyslot}
use fastboot3ds.Fs.World.{sector_of}
use fastboot3ds.Fs.Sectors.{take_split}
use fastboot3ds.Fs.Memory.{
  Disk, overwrite, sectors, held, overwrite_frame, overwrite_stores, length-sectors,
  sector_of-sectors,
}
use fastboot3ds.Fs.State.{Fs}
use fastboot3ds.Dev.{Mmc, Devices}
use fastboot3ds.Dev.Aes.{Engine, IsCounterMode, counter_mod, aes_ctr, aes_ctr_lem}
use fastboot3ds.Dev.Nand.{sdmmc_dnand_read_sector, sdmmc_dnand_write_sector, write_chunks}
use fastboot3ds.Dev.Nand.Chunks.{IsNand}
use fastboot3ds.Dev.Nand.Write.{HasKey, dnand_write_sector_frame}
use fastboot3ds.Dev.Nand.RoundTrip.{dnand_write-read}

flip : ℕ → ℕ
flip b = if b == 0 then 1 else if b == 1 then 0 else b

flip_twice : (b : ℕ) → flip (flip b) ≡ b
unfolding flip
flip_twice b = ground arith

map_twice : (x : Bytes) → map flip (map flip x) ≡ x
map_twice [] = refl
map_twice (b ∷ x) =
    ap (λ n. n ∷ map flip (map flip x)) (flip_twice b) ∙ ap (λ t. b ∷ t) (map_twice x)

map-append : (x y : Bytes) → map flip (x ++ y) ≡ map flip x ++ map flip y
map-append [] y = refl
map-append (b ∷ x) y = ap (λ t. flip b ∷ t) (map-append x y)

length-map : (x : Bytes) → length (map flip x) ≡ length x
length-map [] = refl
length-map (b ∷ x) = ap suc (length-map x)

engine : Engine
engine c n x = map flip (take (n * 16) x)

engine-IsCounterMode : IsCounterMode engine
unfolding engine
engine-IsCounterMode = record {
  size = λ c n x. length-map (take (n * 16) x) ∙ length-take (n * 16) x;
  splits = λ c m n x.
      ap (map flip) (take_split (m * 16) (n * 16) ((m + n) * 16) x (omega arith))
      ∙ map-append (take (m * 16) x) (take (n * 16) (drop (m * 16) x));
  twice = λ c n x.
      ap (map flip) (
        take_all (n * 16) (map flip (take (n * 16) x))
          (omega (arith, length-map (take (n * 16) x), length-take (n * 16) x)))
      ∙ map_twice (take (n * 16) x);
}

abbrev mmc : Mmc Disk
mmc = record {
  init = λ w. w;
  present = λ w. true;
  sleep = λ n w. w;
  sd_init = λ w. (0, w);
  nand_init = λ w. (0, w);
  sd_read = λ s n w. (1, [], w);
  sd_write = λ s n buf w. (1, w);
  nand_read = λ s n w. (0, sectors s n w, w);
  nand_write = λ s n buf w. (0, overwrite s n buf w);
  nand_cid = λ w. (0, replicate 16 0, w);
  sd_size = λ w. 0;
  nand_size = λ w. 0x1D7800;
}

mmc-IsNand : IsNand mmc held
mmc-IsNand = record {
  frame = λ s n buf w k out. overwrite_frame s n buf w k out;
  stores = λ s n buf w i ok lt.
      let back : s + i - s ≡ i = omega arith in
      overwrite_stores s n buf w (s + i) (omega arith) (omega (arith, lt))
      ∙ ap (sector_of buf) back;
  read_size = λ s n w ok whole. length-sectors s n w whole;
  read_back = λ s n w i ok whole lt. sector_of-sectors s n w i whole lt;
}

abbrev parts_table : Table
parts_table = record {
  parts =
      record { name = codes "firm0"; sector = 0x58980; count = 0x2000; type = 3; keyslot = 6 }
      ∷ replicate 7 zeroed;
  num = 1;
}

abbrev devices : Devices
devices = record {
  sd = true;
  rnand = true;
  dnand = true;
  twl_counter = 5;
  ctr_counter = 2 ^ 128 - 3;
  table = parts_table;
  ctr_nand_sector = 0;
}

aes_ctr_lem_example :
    aes_ctr engine 7 0x20000 (replicate 32 1)
    ≡ (engine 7 0x20000 (replicate 32 1), (7 + 0x20000) % counter_mod)
aes_ctr_lem_example =
    aes_ctr_lem engine engine-IsCounterMode 7 0x20000 (replicate 32 1) (omega arith)

-- One sector of the firmware partition is written.
written :
    (sdmmc_dnand_write_sector mmc
      (λ k. engine)
      true
      0x58981
      1
      (replicate 512 1)
      devices
      (λ k. [])).0
    ≡ true
unfolding sdmmc_dnand_write_sector partition_find holds_range partition_get_keyslot write_chunks
written = refl

dnand_write_sector_frame_example :
    ((k : ℕ)
      → (k < 0x58981) ⊎ (0x58981 + 1 ≤ k)
      → held
          (sdmmc_dnand_write_sector mmc
            (λ k. engine)
            true
            0x58981
            1
            (replicate 512 1)
            devices
            (λ k. [])).1
          k
        ≡ [])
    × (HasKey devices 0x58981 1
        ⊎ (sdmmc_dnand_write_sector mmc
              (λ k. engine)
              true
              0x58981
              1
              (replicate 512 1)
              devices
              (λ k. [])
            ≡ (false, λ k. [])))
dnand_write_sector_frame_example =
    dnand_write_sector_frame mmc (λ k. engine) devices 0x58981 1 true (replicate 512 1) (λ k. [])
      held mmc-IsNand (λ k. engine-IsCounterMode) (omega arith)

dnand_write-read_example :
    ((sdmmc_dnand_read_sector mmc
        (λ k. engine)
        0x58981
        1
        devices
        (sdmmc_dnand_write_sector mmc
          (λ k. engine)
          true
          0x58981
          1
          (replicate 512 1)
          devices
          (λ k. [])).1).0
      ≡ true)
    × ((sdmmc_dnand_read_sector mmc
          (λ k. engine)
          0x58981
          1
          devices
          (sdmmc_dnand_write_sector mmc
            (λ k. engine)
            true
            0x58981
            1
            (replicate 512 1)
            devices
            (λ k. [])).1).1
        ≡ take (1 * 512) (replicate 512 1))
dnand_write-read_example =
    dnand_write-read mmc (λ k. engine) devices 0x58981 1 true (replicate 512 1) (λ k. []) held
      mmc-IsNand (λ k. engine-IsCounterMode) (omega arith) (omega arith) (omega arith) written refl

-- The first sector has a header.
abbrev with_header : Disk
with_header k =
    replicate 0x100 0
    ++ (codes "NCSD" ++ (replicate 12 0 ++ (1 ∷ 4 ∷ 3 ∷ 3 ∷ 1 ∷ replicate 0xEB 0)))
