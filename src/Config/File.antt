-- ===== src/Config/File.antt =====
-- The configuration file itself: it is found, read and parsed, written, and moved between the SD
-- card and the NAND.
use fastboot3ds.Base.{
  ℕ, suc, ◌+◌, Bool, true, false, not, ◌&&◌, Option, none, some, List, [], ◌∷◌, ◌++◌, Bytes, length,
  replicate, map, ltb, ◌==◌, if◌then◌else◌, put_at, c_str, codes, ℤ,
}
use fastboot3ds.Fs.World.{FatFs, DevStruct}
use fastboot3ds.Fs.State.{Fs}
use fastboot3ds.Fs.Drives.{is_ok, device_sdmc, f_is_dev_active}
use fastboot3ds.Fs.Files.{f_open, f_close, f_read, f_write, f_sync, f_stat, f_unlink}
use fastboot3ds.FsUtils.{fs_create_file_with_path}
use fastboot3ds.Config.{
  Config, Attribute, KeyFunctions, path_functions, pad_functions, mode_functions, bool_functions,
  int_functions, get_key_functions, no_attribute, num_keys, max_file_size, sdmc_filepath,
  nand_filepath,
}
use fastboot3ds.Config.Scan.{parse_definitions}
use fastboot3ds.Config.Values.{
  parse_path, parse_boot_option_pad, parse_boot_mode, parse_bool, parse_int,
}
use fastboot3ds.Config.Api.{config_get_storage_location}

-- The default settings of a new file.
abbrev pub default_text : Bytes
default_text = codes "BOOT_MODE = Normal" ++ (0x0D ∷ 0x0A ∷ [])

unfoldable pub unload_config_file : Config → Config
unload_config_file c = record c {
  loaded = false;
  attributes = map (λ a. no_attribute) c.attributes;
  filebuf = none;
}

-- Whether `malloc` of a size succeeds is an argument.
module _ (alloc : ℕ → Bool) where
  -- The call of a key's `parse`.
  unfoldable pub parse_value : KeyFunctions → Bytes → ℕ → Attribute → Attribute
  unfolding parse_path parse_boot_option_pad parse_boot_mode parse_bool parse_int
  parse_value path_functions buf text attr = parse_path alloc buf text attr
  parse_value pad_functions buf text attr = parse_boot_option_pad alloc buf text attr
  parse_value mode_functions buf text attr = parse_boot_mode alloc buf text attr
  parse_value bool_functions buf text attr = parse_bool alloc buf text attr
  parse_value int_functions buf text attr = parse_int alloc buf text attr

  -- The body of the loop of pass 2, and the loop at key `i`.
  unfoldable pub parse_attribute : Bytes → ℕ → Attribute → Attribute
  unfolding get_key_functions parse_value
  parse_attribute buf i attr = elim (attr.text_data) [
    | none ↦ record attr { value = none }
    | some text ↦ elim (get_key_functions i) [
      | none ↦ record attr { value = none }
      | some f ↦ parse_value f buf text attr
    ]
  ]

  unfoldable pub parse_attributes : Bytes → ℕ → List Attribute → List Attribute
  unfolding parse_attribute
  parse_attributes buf i [] = []
  parse_attributes buf i (a ∷ attrs) = parse_attribute buf i a ∷ parse_attributes buf (i + 1) attrs

  -- `none` is that the fuel ran out.
  unfoldable pub parse_config_file : Bytes → Config → Option Config
  unfolding parse_definitions parse_attributes
  parse_config_file buf c =
      elim (parse_definitions (suc (length buf)) buf 0 (replicate num_keys no_attribute)) [
        | none ↦ none
        | some attrs ↦ some (record c {
          filebuf = some buf;
          attributes = parse_attributes buf 0 attrs;
          loaded = true;
        })
      ]

  module _ {W : Type 0} (fat : FatFs W) where
    -- What `writeConfigFile` does with a text of the right size; the mode is `FS_OPEN_WRITE`.
    unfoldable pub write_text : Bytes → Bytes → Fs → W → Bool × Fs × W
    unfolding fs_create_file_with_path f_open f_write f_sync f_close
    write_text path text fs w =
        let (made, fs1, w1) = fs_create_file_with_path fat (alloc 0x100) path fs w in
        let (opened, fs2, w2) = f_open fat path 2 fs1 w1 in
        if not made then (false, fs1, w1) else elim opened [
          | ℤ.negsuc n ↦ (false, fs2, w2)
          | ℤ.pos file ↦
              let empty = length text == 0 in
              let (put, w_put) = f_write fat file text (length text) fs2 w2 in
              let w3 = if empty then w2 else w_put in
              let (synced, w4) = f_sync fat file fs2 w3 in
              let failed = not empty && not (is_ok put) in
              let (closed, fs3, w5) = f_close fat file fs2 (if failed then w3 else w4) in
              (not failed && is_ok synced, fs3, w5)
        ]

    -- `none` is the panic.
    unfoldable pub write_config_file : Config → Fs → W → Option (Bool × Fs × W)
    unfolding write_text c_str
    write_config_file c fs w = elim (c.filebuf) [
      | none ↦ some (false, fs, w)
      | some b ↦
          if ltb max_file_size (length (c_str b))
          then none
          else some (write_text c.filepath (c_str b) fs w)
    ]

    -- The buffer is a null pointer before and after the call; otherwise it panics.
    unfoldable pub create_config_file : Config → Fs → W → Option (Bool × Fs × W)
    unfolding write_config_file
    create_config_file c fs w = elim (c.filebuf) [
      | some b ↦ none
      | none ↦ write_config_file (record c { filebuf = some (default_text ++ (0 ∷ [])) }) fs w
    ]

    unfoldable pub move_config_file : Config → Fs → W → Option (Bool × Config × Fs × W)
    unfolding config_get_storage_location f_unlink write_config_file
    move_config_file c fs w = elim (config_get_storage_location c) [
      | none ↦ none
      | some device ↦
          let (unlinked, w1) = f_unlink fat c.filepath w in
          let on_sd = device == device_sdmc in
          let c1 = record c { filepath = if on_sd then nand_filepath else sdmc_filepath } in
          elim (write_config_file c1 fs (if on_sd then w1 else w)) [
            | none ↦ none
            | some r ↦
                if r.0
                then some (true, record c1 { dirty = false }, r.1, r.2)
                else some (false, record c { dirty = true }, r.1, r.2)
          ]
    ]

    unfoldable pub config_set_storage_location :
        ℕ → Config → Fs → W → Option (Bool × Config × Fs × W)
    unfolding config_get_storage_location move_config_file
    config_set_storage_location device c fs w = elim (config_get_storage_location c) [
      | none ↦ none
      | some old ↦ if device == old then some (false, c, fs, w) else move_config_file c fs w
    ]

    -- Where the file is, whether it has to be created, and its size if not.
    unfoldable pub choose_file : Bool → W → Bytes × Bool × ℕ × W
    unfolding f_stat
    choose_file sd_present w =
        let (on_sd, sd_size, w1) = f_stat fat sdmc_filepath w in
        let (on_nand, nand_size, w2) = f_stat fat nand_filepath w1 in
        let (alone, alone_size, w3) = f_stat fat nand_filepath w in
        if sd_present
        then (if is_ok on_sd
            then (sdmc_filepath, false, sd_size, w1)
            else if is_ok on_nand
            then (nand_filepath, false, nand_size, w2)
            else (sdmc_filepath, true, 0, w2))
        else (nand_filepath, not (is_ok alone), alone_size, w3)

    -- The file's bytes; the mode is `FS_OPEN_READ`.
    unfoldable pub read_text : Bytes → ℕ → Fs → W → Option Bytes × Fs × W
    unfolding f_open f_read f_close
    read_text path size fs w =
        let (opened, fs1, w1) = f_open fat path 1 fs w in
        elim opened [
          | ℤ.negsuc n ↦ (none, fs1, w1)
          | ℤ.pos file ↦
              let (res, got, w2) = f_read fat file size fs1 w1 in
              let (closed, fs2, w3) = f_close fat file fs1 w2 in
              (if is_ok res then some got else none, fs2, w3)
        ]

    -- From the check of the size on. `fresh` is what the allocated memory holds at first.
    unfoldable pub load_from : Bytes → ℕ → Config → Fs → W → Option (Bool × Config × Fs × W)
    unfolding read_text parse_config_file unload_config_file put_at
    load_from fresh size c fs w =
        let (text, fs1, w1) =
          if size == 0 then (some [], fs, w) else read_text c.filepath size fs w in
        if ltb max_file_size size
        then some (false, c, fs, w)
        else if not (alloc (max_file_size + 1))
        then some (false, c, fs, w)
        else elim text [
          | none ↦ some (false, unload_config_file c, fs1, w1)
          | some got ↦ elim (parse_config_file (put_at size (0 ∷ []) (put_at 0 got fresh)) c) [
            | none ↦ none
            | some c' ↦ some (true, c', fs1, w1)
          ]
        ]

    unfoldable pub load_config_file :
        (sdcard rawnand : DevStruct W) (fresh : Bytes)
        → Config
        → Fs
        → W
        → Option (Bool × Config × Fs × W)
    unfolding unload_config_file f_is_dev_active choose_file create_config_file f_stat load_from
    load_config_file sdcard rawnand fresh c fs w =
        let c0 = elim c.filebuf as (λ o. Config) [ none ↦ c | some b ↦ unload_config_file c ] in
        let (path, create, size, w1) =
          choose_file (f_is_dev_active sdcard rawnand device_sdmc w) w in
        let c1 = record c0 { dirty = false; filepath = path } in
        elim create [
          | false ↦ load_from fresh size c1 fs w1
          | true ↦ elim (create_config_file c1 fs w1) [
            | none ↦ none
            | some made ↦
                let (res, new_size, w2) = f_stat fat path (made.2) in
                if not (made.0)
                then some (false, c1, made.1, made.2)
                else if not (is_ok res)
                then some (false, c1, made.1, w2)
                else load_from fresh new_size c1 (made.1) w2
          ]
        ]
