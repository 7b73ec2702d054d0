-- ===== src/Config.antt =====
-- source/arm11/config.c: the configuration file in memory, the attributes that were found in it,
-- and the keys.
pub mod Scan
pub mod Edit
pub mod Values
pub mod Write
pub mod Api
pub mod File
mod Tests
use fastboot3ds.Base.{
  ℕ, zero, suc, ◌+◌, ◌-◌, ◌*◌, ◌≤◌, ◌<◌, ◌≡◌, Bool, true, false, ◌&&◌, ◌||◌, Option, none, some,
  List, [], ◌∷◌, Bytes, get_or, set, replicate, codes, leb, ◌==◌, if◌then◌else◌, ℤ,
}

-- The buffer has one byte more, for the NUL.
abbrev pub max_file_size : ℕ
max_file_size = 0x4000 - 1

abbrev pub sdmc_filepath : Bytes
sdmc_filepath = codes "sdmc:/3ds/fastbootcfg.txt"

abbrev pub nand_filepath : Bytes
nand_filepath = codes "nand:/fastboot3DS/fastbootcfg.txt"

-- What the `data` pointer of an attribute leads to, by the type that belongs to the key.
pub data Value : Type 0 where
  path : Bytes → Value
  number : ℕ → Value
  flag : Bool → Value
  integer : ℤ → Value

-- `AttributeEntryType`; `text_data` is the offset in the buffer, `none` for a null pointer.
pub record Attribute : Type 0 where
  pub text_data : Option ℕ
  pub text_length : ℕ
  pub value : Option Value

abbrev pub no_attribute : Attribute
no_attribute = record { text_data = none; text_length = 0; value = none }

-- The keys of include/arm11/config.h are numbers, `KLast` is their count.
abbrev pub k_splash_screen : ℕ
k_splash_screen = 9

abbrev pub k_boot_option1_buttons : ℕ
k_boot_option1_buttons = 10

abbrev pub k_boot_option9_buttons : ℕ
k_boot_option9_buttons = 18

abbrev pub k_boot_mode : ℕ
k_boot_mode = 19

abbrev pub k_dev_mode : ℕ
k_dev_mode = 20

abbrev pub k_ram_firm_boot : ℕ
k_ram_firm_boot = 21

abbrev pub k_splash_duration : ℕ
k_splash_duration = 22

abbrev pub num_keys : ℕ
num_keys = 23

-- The static variables of config.c. The buffer is the allocated memory, `none` for a null pointer.
pub record Config : Type 0 where
  pub filepath : Bytes
  pub attributes : List Attribute
  pub filebuf : Option Bytes
  pub loaded : Bool
  pub dirty : Bool

abbrev pub attribute : List Attribute → ℕ → Attribute
attribute attrs key = get_or attrs key no_attribute

-- The buffer's bytes, none where there is no buffer.
abbrev pub buffer : Config → Bytes
buffer c = elim c.filebuf [ none ↦ [] | some b ↦ b ]

-- `keyStrings`
unfoldable pub key_strings : List Bytes
key_strings =
    codes "BOOT_OPTION1"
    ∷ codes "BOOT_OPTION2"
    ∷ codes "BOOT_OPTION3"
    ∷ codes "BOOT_OPTION4"
    ∷ codes "BOOT_OPTION5"
    ∷ codes "BOOT_OPTION6"
    ∷ codes "BOOT_OPTION7"
    ∷ codes "BOOT_OPTION8"
    ∷ codes "BOOT_OPTION9"
    ∷ codes "SPLASH_SCREEN"
    ∷ codes "BOOT_OPTION1_BUTTONS"
    ∷ codes "BOOT_OPTION2_BUTTONS"
    ∷ codes "BOOT_OPTION3_BUTTONS"
    ∷ codes "BOOT_OPTION4_BUTTONS"
    ∷ codes "BOOT_OPTION5_BUTTONS"
    ∷ codes "BOOT_OPTION6_BUTTONS"
    ∷ codes "BOOT_OPTION7_BUTTONS"
    ∷ codes "BOOT_OPTION8_BUTTONS"
    ∷ codes "BOOT_OPTION9_BUTTONS"
    ∷ codes "BOOT_MODE"
    ∷ codes "DEV_MODE"
    ∷ codes "RAM_FIRM_BOOT"
    ∷ codes "SPLASH_DURATION"
    ∷ []

-- `configGetKeyText` of a key in the range.
unfoldable pub key_text : ℕ → Bytes
unfolding key_strings
key_text key = get_or key_strings key []

-- `FunctionsEntryType`: which pair of functions a key has.
pub data KeyFunctions : Type 0 where
  path_functions : KeyFunctions
  pad_functions : KeyFunctions
  mode_functions : KeyFunctions
  bool_functions : KeyFunctions
  int_functions : KeyFunctions

unfoldable pub get_key_functions : ℕ → Option KeyFunctions
get_key_functions key =
    if leb key k_splash_screen
    then some path_functions
    else if leb key k_boot_option9_buttons && leb k_boot_option1_buttons key
    then some pad_functions
    else if key == k_boot_mode
    then some mode_functions
    else if key == k_dev_mode || key == k_ram_firm_boot
    then some bool_functions
    else if key == k_splash_duration
    then some int_functions
    else none
