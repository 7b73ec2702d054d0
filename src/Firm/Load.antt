-- ===== src/Firm/Load.antt =====
-- `loadVerifyFirm`: the image comes from a partition of the NAND, from memory, or from a file.
use fastboot3ds.Base.{
  ℕ, ◌+◌, ◌*◌, ◌/◌, ◌%◌, Bool, not, ◌&&◌, Option, none, some, List, [], ◌∷◌, Bytes, put_at, take,
  get_or, replicate, ltb, ◌==◌, if◌then◌else◌, bytes_eq, codes, sub32, ℤ, pos, neg, is_neg,
}
use fastboot3ds.Partitions.{Table, partition_get_index, partition_get_sector_offset}
use fastboot3ds.Fs.World.{FatFs, DevStruct}
use fastboot3ds.Fs.State.{Fs}
use fastboot3ds.Fs.Files.{f_open, f_size, f_read, f_close}
use fastboot3ds.Firm.{
  firm_max_size, header_size, firm_size, verify_firm, boot_whitelist, install_whitelist,
}

-- What firm.c keeps in memory: the image at `FIRM_LOAD_ADDR`, the one at `RAM_FIRM_BOOT_ADDR`,
-- `firmLaunchArgc`, the path that `argv[0]` leads to, and the frame buffers that `argv[1]` leads
-- to.
pub record Firm : Type 0 where
  pub buf : Bytes
  pub ram : Bytes
  pub argc : ℕ
  pub path : Bytes
  pub screens : List ℕ

-- The frame buffers that are passed on.
abbrev pub fbs : List ℕ
fbs =
    let size_top = 400 * 240 * 2 in
    let size_bot = 320 * 240 * 2 in
    let bot_1 = 0x18000000 + size_top in
    let top_2 = bot_1 + size_bot + size_top in
    0x18000000 ∷ 0x18000000 ∷ (bot_1 + 0x17700) ∷ top_2 ∷ top_2 ∷ (top_2 + size_top + 0x17700) ∷ []

module _ {W : Type 0} (fat : FatFs W) (decnand : DevStruct W) (t : Table) where
  -- The result is the size of the image, or the error.
  abbrev pub Loaded : Type 0
  Loaded = Option ℕ × ℤ × Firm × Fs × W

  unfoldable pub load_partition : Bytes → Firm → Fs → W → Loaded
  unfolding put_at
  load_partition path firm fs w = elim (partition_get_index t path) [
    | none ↦
        if not (decnand.is_active w) then (none, neg 1, firm, fs, w) else (none, neg 2, firm, fs, w)
    | some index ↦ elim (partition_get_sector_offset t index) [
      | none ↦
          if not (decnand.is_active w)
          then (none, neg 1, firm, fs, w)
          else (none, neg 3, firm, fs, w)
      | some sector ↦
          let (read1, got1, w1) = decnand.read_sector sector 1 w in
          let firm1 = record firm { buf = put_at 0 got1 firm.buf } in
          elim (firm_size firm1.buf) [
            | none ↦
                if not (decnand.is_active w)
                then (none, neg 1, firm, fs, w)
                else if not read1
                then (none, neg 4, firm1, fs, w1)
                else (none, neg 5, firm1, fs, w1)
            | some size ↦
                let (read2, got2, w2) =
                  decnand.read_sector (sector + 1) (sub32 (size / 512) 1) w1 in
                let firm2 = record firm1 { buf = put_at header_size got2 firm1.buf } in
                if not (decnand.is_active w)
                then (none, neg 1, firm, fs, w)
                else if not read1
                then (none, neg 4, firm1, fs, w1)
                else if not read2
                then (none, neg 4, firm2, fs, w2)
                else (some size, pos 0, firm2, fs, w2)
          ]
    ]
  ]

  -- `NDMA_copy` copies whole words. The magic of the image in memory is cleared.
  unfoldable pub load_ram : Firm → Fs → W → Loaded
  unfolding put_at
  load_ram firm fs w = elim (firm_size firm.ram) [
    | none ↦
        if bytes_eq (take 4 firm.ram) (codes "FIRM")
        then (none, neg 5, firm, fs, w)
        else (none, neg 6, firm, fs, w)
    | some size ↦
        if bytes_eq (take 4 firm.ram) (codes "FIRM")
        then (
          some size,
          pos 0,
          record firm {
            buf = put_at 0 (take (size / 4 * 4) firm.ram) firm.buf;
            ram = put_at 0 (replicate 4 0) firm.ram;
          },
          fs,
          w,
        )
        else (none, neg 6, firm, fs, w)
  ]

  -- The mode is `FS_OPEN_EXISTING | FS_OPEN_READ`.
  unfoldable pub load_file : Bytes → Firm → Fs → W → Loaded
  unfolding f_open f_size f_read f_close put_at
  load_file path firm fs w =
      let (opened, fs1, w1) = f_open fat path 1 fs w in
      elim opened [
        | ℤ.negsuc n ↦ (none, neg 6, firm, fs1, w1)
        | ℤ.pos f ↦
            let size = f_size fat f fs1 w1 in
            let (c1, fs_large, w_large) = f_close fat f fs1 w1 in
            let (res, got, w2) = f_read fat f size fs1 w1 in
            let firm' = record firm { buf = put_at 0 got firm.buf } in
            let (c2, fs2, w3) = f_close fat f fs1 w2 in
            if ltb firm_max_size size
            then (none, neg 7, firm, fs_large, w_large)
            else if is_neg res
            then (none, neg 8, firm', fs2, w3)
            else (some size, pos 0, firm', fs2, w3)
      ]

  unfoldable pub load_image : Bytes → Firm → Fs → W → Loaded
  unfolding load_partition load_ram load_file
  load_image path firm fs w =
      if bytes_eq (take 4 path) (codes "firm")
      then load_partition path firm fs w
      else if bytes_eq (take 3 path) (codes "ram")
      then load_ram firm fs w
      else load_file path firm fs w

  -- The path is cut to 255 bytes. The flag is in `reserved2[0]`.
  unfoldable pub set_arguments : Bytes → Bool → Firm → ℤ × Firm
  set_arguments path install_mode firm =
      let firm' = record firm { path = take 255 path } in
      if not install_mode && get_or firm.buf 0x10 0 % 2 == 1
      then (pos 1, record firm' { screens = fbs; argc = 2 })
      else (pos 0, record firm' { argc = 1 })

  unfoldable pub load_verify_firm :
      (Bytes → Bytes) → Bytes → Bool → Bool → Firm → Fs → W → ℤ × Firm × Fs × W
  unfolding load_image verify_firm set_arguments
  load_verify_firm sha path skip_hash_check install_mode firm fs w =
      let (loaded, err, firm1, fs1, w1) = load_image path firm fs w in
      elim loaded [
        | none ↦ (err, firm1, fs1, w1)
        | some size ↦
            let whitelist = if install_mode then install_whitelist else boot_whitelist in
            let checked = verify_firm sha skip_hash_check whitelist firm1.buf size in
            let (res, firm2) = set_arguments path install_mode firm1 in
            if is_neg checked then (checked, firm1, fs1, w1) else (res, firm2, fs1, w1)
      ]
