-- ===== src/Config/Write.antt =====
-- The `write` functions of config.c. The value that is passed has the type that belongs to the
-- key; a null pointer is `none`, and the other types do not occur. The outer `none` is a panic or,
-- in `writeBootOptionPad`, a text that goes past the end of its array, of which the source does not
-- say what comes of it.
pub mod Keeps
pub mod Stored
pub mod Outcomes
use fastboot3ds.Base.{
  ℕ, ◌+◌, ◌%◌, ◌^◌, Bool, true, false, not, ◌&&◌, Option, none, some, [], Bytes, length, get_or,
  set, ltb, ◌==◌, if◌then◌else◌,
}
use fastboot3ds.Config.{
  Config, Value, attribute, path, number, flag, integer, KeyFunctions, path_functions,
  pad_functions, mode_functions, bool_functions, int_functions,
}
use fastboot3ds.Config.Edit.{write_attribute_text}
use fastboot3ds.Config.Values.{is_valid_path, conv_table, mode_table, bool_states, pad_text, itoa}

unfoldable pub set_value : ℕ → Option Value → Config → Config
set_value key v c = record c {
  attributes = set c.attributes key (record (attribute c.attributes key) { value = v });
}

-- `return true` behind a call that may panic.
abbrev pub succeeded : Option Config → Option (Bool × Config)
succeeded none = none
succeeded (some c) = some (true, c)

module _ (alloc : ℕ → Bool) where
  -- The value is stored, in new memory if there is none yet, and then its text.
  unfoldable pub store_value : ℕ → ℕ → Value → Bytes → Config → Option (Bool × Config)
  unfolding set_value write_attribute_text
  store_value size key v text c =
      let stored = succeeded (write_attribute_text alloc key text (set_value key (some v) c)) in
      elim ((attribute c.attributes key).value) [
        | none ↦ if not (alloc size) then some (false, c) else stored
        | some old ↦ stored
      ]

  -- An old path is kept in its memory only where the length is the same.
  unfoldable pub store_path : ℕ → Bytes → Config → Option (Bool × Config)
  unfolding set_value write_attribute_text
  store_path key p c =
      let attr = attribute c.attributes key in
      let stored = succeeded (write_attribute_text alloc key p (set_value key (some (path p)) c)) in
      elim (attr.value) [
        | none ↦ if not (alloc (length p + 1)) then some (false, c) else stored
        | some old ↦
            if not (length p == attr.text_length) && not (alloc (length p + 1))
            then some (false, set_value key none c)
            else stored
      ]

  unfoldable pub write_path : Option Value → ℕ → Config → Option (Bool × Config)
  unfolding is_valid_path store_path
  write_path (some (path p)) key c =
      if not (is_valid_path p) then some (false, c) else store_path key p c
  write_path none key c = some (false, c)
  write_path (some v) key c = some (false, c)

  -- Whether a value has its memory when it is stored.
  unfoldable pub value_memory : ℕ → ℕ → Config → Bool
  value_memory size key c = elim ((attribute c.attributes key).value) [
    | none ↦ alloc size
    | some old ↦ true
  ]

  -- The text is put together in an array of 0x40 bytes, after the value was stored.
  unfoldable pub write_boot_option_pad : Option Value → ℕ → Config → Option (Bool × Config)
  unfolding value_memory store_value pad_text conv_table
  write_boot_option_pad (some (number n)) key c =
      let pad_value = n % 2 ^ 12 in
      let text = pad_text pad_value conv_table 0 false in
      if value_memory 4 key c && not (ltb (length text) 0x40)
      then none
      else store_value 4 key (number pad_value) text c
  write_boot_option_pad none key c = some (false, c)
  write_boot_option_pad (some v) key c = some (false, c)

  unfoldable pub write_boot_mode : Option Value → ℕ → Config → Option (Bool × Config)
  unfolding store_value mode_table
  write_boot_mode (some (number mode)) key c =
      if ltb 2 mode
      then some (false, c)
      else store_value 4 key (number mode) (get_or mode_table mode []) c
  write_boot_mode none key c = some (false, c)
  write_boot_mode (some v) key c = some (false, c)

  unfoldable pub write_bool : Option Value → ℕ → Config → Option (Bool × Config)
  unfolding store_value bool_states
  write_bool (some (flag enabled)) key c =
      store_value 1 key (flag enabled) (get_or bool_states (if enabled then 0 else 1) []) c
  write_bool none key c = some (false, c)
  write_bool (some v) key c = some (false, c)

  unfoldable pub write_int : Option Value → ℕ → Config → Option (Bool × Config)
  unfolding store_value itoa
  write_int (some (integer n)) key c = store_value 4 key (integer n) (itoa n) c
  write_int none key c = some (false, c)
  write_int (some v) key c = some (false, c)

  -- The call of a key's `write`.
  unfoldable pub write_value : KeyFunctions → Option Value → ℕ → Config → Option (Bool × Config)
  unfolding write_path write_boot_option_pad write_boot_mode write_bool write_int
  write_value path_functions v key c = write_path v key c
  write_value pad_functions v key c = write_boot_option_pad v key c
  write_value mode_functions v key c = write_boot_mode v key c
  write_value bool_functions v key c = write_bool v key c
  write_value int_functions v key c = write_int v key c
