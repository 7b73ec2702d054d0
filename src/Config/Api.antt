-- ===== src/Config/Api.antt =====
-- The functions of config.c that read and change the configuration by key. A key is the bit
-- pattern of an `int`, so a negative one is a number from 2 ^ 31 on.
pub mod SetData
use fastboot3ds.Base.{
  ℕ, ◌+◌, Bool, true, false, not, Option, none, some, [], ◌∷◌, Bytes, set, take, drop, leb,
  if◌then◌else◌, bytes_eq, put_at,
}
use fastboot3ds.Config.{
  Config, Value, attribute, buffer, number, get_key_functions, key_text, num_keys, no_attribute,
  sdmc_filepath, k_boot_mode, k_dev_mode, k_ram_firm_boot,
}
use fastboot3ds.Config.Edit.{remove_definition}
use fastboot3ds.Config.Write.{write_value}
use fastboot3ds.Fs.Drives.{device_sdmc, device_nand}

unfoldable pub config_is_loaded : Config → Bool
config_is_loaded c = c.loaded

unfoldable pub config_has_changed : Config → Bool
config_has_changed c = c.dirty

-- `none` is the panic.
unfoldable pub config_get_storage_location : Config → Option ℕ
config_get_storage_location c =
    if not c.loaded
    then none
    else if bytes_eq c.filepath sdmc_filepath
    then some device_sdmc
    else some device_nand

unfoldable pub config_get_data : ℕ → Config → Option Value
config_get_data key c =
    if not c.loaded
    then none
    else if leb num_keys key
    then none
    else (attribute c.attributes key).value

unfoldable pub config_data_exist : ℕ → Config → Bool
unfolding config_get_data
config_data_exist key c = elim (config_get_data key c) [ none ↦ false | some v ↦ true ]

unfoldable pub config_get_key_text : ℕ → Option Bytes
unfolding key_text
config_get_key_text key = if leb num_keys key then none else some (key_text key)

-- `KDevMode` and `KRamFirmBoot` have a `bool`.
unfoldable pub safe_read_bool_key : ℕ → Config → Bool
unfolding config_get_data
safe_read_bool_key key c = elim (config_get_data key c) [
  | some (Value.flag enabled) ↦ if not enabled then false else true
  | _ ↦ false
]

unfoldable pub config_dev_mode_enabled : Config → Bool
unfolding safe_read_bool_key
config_dev_mode_enabled c = safe_read_bool_key k_dev_mode c

unfoldable pub config_ram_firm_boot_enabled : Config → Bool
unfolding safe_read_bool_key
config_ram_firm_boot_enabled c = safe_read_bool_key k_ram_firm_boot c

-- Whether `malloc` of a size succeeds is an argument.
module _ (alloc : ℕ → Bool) where
  unfoldable pub config_copy_text : ℕ → Config → Option Bytes
  config_copy_text key c =
      let attr = attribute c.attributes key in
      if not c.loaded then none else if leb num_keys key then none else elim (attr.text_data) [
        | none ↦ none
        | some text ↦
            if not (alloc (attr.text_length + 1))
            then none
            else some (take attr.text_length (drop text (buffer c)))
      ]

  -- `none` is a panic.
  unfoldable pub config_set_key_data : ℕ → Option Value → Config → Option (Bool × Config)
  unfolding get_key_functions write_value
  config_set_key_data key v c =
      if not c.loaded
      then some (false, c)
      else if leb num_keys key
      then some (false, c)
      else elim (get_key_functions key) [
        | none ↦ none
        | some f ↦ elim (write_value alloc f v key c) [
          | none ↦ none
          | some r ↦ if r.0 then some (true, record (r.1) { dirty = true }) else some (false, r.1)
        ]
      ]

  -- The text is cut off; the attributes keep what they have.
  unfoldable pub config_restore_defaults : Config → Option Config
  unfolding config_set_key_data put_at
  config_restore_defaults c =
      let truncated = record c { filebuf = some (put_at 0 (0 ∷ []) (buffer c)) } in
      if not c.loaded
      then some c
      else elim (config_set_key_data k_boot_mode (some (number 0)) truncated) [
        | none ↦ none
        | some r ↦ if not (r.0) then none else some (r.1)
      ]

  unfoldable pub config_delete_key : ℕ → Config → Option (Bool × Config)
  unfolding remove_definition
  config_delete_key key c =
      if not c.loaded
      then some (false, c)
      else if leb num_keys key
      then some (false, c)
      else elim (remove_definition alloc key c) [
        | none ↦ none
        | some r ↦
            if not (r.0)
            then some (false, r.1)
            else some (
              true,
              record (r.1) { attributes = set r.1.attributes key no_attribute; dirty = true },
            )
      ]
