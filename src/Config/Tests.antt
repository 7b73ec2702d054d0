-- ===== src/Config/Tests.antt =====
-- The theorems on config.c at concrete inputs.
use fastboot3ds.Base.{
  ◌≢◌, ℕ, suc, ◌+◌, ◌-◌, ◌≤◌, ◌<◌, ◌≡◌, ◌⊎◌, ◌↔◌, refl, Bool, true, false, not, ◌&&◌, Bytes, List,
  [], ◌∷◌, ◌++◌, arith, length, length-append, length-replicate, replicate, take, drop, ◌==◌, some,
  none, codes, NoNul,
}
use fastboot3ds.Config.{Attribute, attribute, no_attribute, num_keys, max_file_size}
use fastboot3ds.Config.Scan.{is_eol, parse_definitions}
use fastboot3ds.Config.Scan.Lines.{IsLine, IsTrimmed}
use fastboot3ds.Config.Scan.Fuel.{parse_definitions_total}
use fastboot3ds.Config.Scan.Entries.{entry, AreEntries, no_entries, entries, printed}
use fastboot3ds.Config.Scan.Texts.{found_text, lookup, parse_definitions-printed_lem}
use fastboot3ds.Config.Edit.{
  definition_line, write_add_definition_text, write_update_definition_text,
}
use fastboot3ds.Config.Edit.Add.{gap_after, write_add_definition_text_lem}
use fastboot3ds.Config.Edit.Holds.{Holds}
use fastboot3ds.Config.Edit.Update.{moved_attributes, write_update_definition_text_lem}
use fastboot3ds.Config.Edit.Others.{after, text_of, text_of-moved_attributes}
use fastboot3ds.Config.Values.{is_valid_path, conv_table, parse_pad, pad_text}
use fastboot3ds.Config.Values.Paths.{IsPath, is_valid_path_iff}
use fastboot3ds.Config.Values.PadNames.{cr}
use fastboot3ds.Config.Values.Pads.{parse_pad-pad_text}
use fastboot3ds.Config.Values.PadRoom.{length-pad_text_iff}
use fastboot3ds.Config.{Config, flag, sdmc_filepath, KeyFunctions, get_key_functions, k_dev_mode}
use fastboot3ds.Config.Api.{config_set_key_data}
use fastboot3ds.Config.Api.SetData.{Answer, config_set_key_data_lem}

-- Whether a text is one line.
unfoldable is_line : Bytes → Bool
is_line [] = true
is_line (c ∷ cs) = not (c == 0) && (not (is_eol c) && is_line cs)

is_line→IsLine : (text : Bytes) → is_line text ≡ true → IsLine text
unfolding is_line IsLine
is_line→IsLine [] h = tt
is_line→IsLine (c ∷ cs) h =
    (ground (arith, h), ground (arith, h), is_line→IsLine cs (ground (arith, h)))

abbrev no_nul : Bytes → Bool
no_nul [] = true
no_nul (c ∷ cs) = not (c == 0) && no_nul cs

no_nul→NoNul : (text : Bytes) → no_nul text ≡ true → NoNul text
unfolding NoNul
no_nul→NoNul [] h = tt
no_nul→NoNul (c ∷ cs) h = (ground (arith, h), no_nul→NoNul cs (ground (arith, h)))

-- A full-sized buffer with a text.
abbrev buffer_of : Bytes → Bytes
buffer_of text = text ++ (0 ∷ replicate (max_file_size - length text) 0)

buffer_of-Holds :
    (text : Bytes) → length text ≤ max_file_size → no_nul text ≡ true → Holds (buffer_of text) text
buffer_of-Holds text fits clean = record {
  size = omega (
    arith,
    fits,
    length-append text (0 ∷ replicate (max_file_size - length text) 0),
    length-replicate {A = ℕ} (max_file_size - length text) 0,
  );
  nul = no_nul→NoNul text clean;
  junk = replicate (max_file_size - length text) 0;
  shape = refl;
}

-- A file in which `BOOT_MODE` stands twice.
abbrev sample : List (ℕ × Bytes)
sample = (19, codes "Quick") ∷ (0, codes "sdmc:/a.firm") ∷ (19, codes "Quiet") ∷ []

sample-AreEntries : AreEntries sample
unfolding is_line is_eol IsTrimmed
sample-AreEntries =
    entries (entry (omega arith) (is_line→IsLine (codes "Quick") refl) (omega arith)) (
      entries (entry (omega arith) (is_line→IsLine (codes "sdmc:/a.firm") refl) (omega arith)) (
        entries (entry (omega arith) (is_line→IsLine (codes "Quiet") refl) (omega arith))
          no_entries))

parse_definitions-printed_lem_example :
    (attrs : List Attribute) × (parse_definitions
        (suc (length (printed sample ++ (0 ∷ []))))
        (printed sample ++ (0 ∷ []))
        0
        (replicate num_keys no_attribute)
      ≡ some attrs)
    × ((key : ℕ)
        → found_text (printed sample ++ (0 ∷ [])) (attribute attrs key) ≡ lookup key sample)
parse_definitions-printed_lem_example = parse_definitions-printed_lem sample [] sample-AreEntries

parse_definitions_total_example :
    (attrs : List Attribute) × (parse_definitions 20 (codes "BOOT_MODE=Quiet") 0 [] ≡ some attrs)
parse_definitions_total_example =
    parse_definitions_total 20 (codes "BOOT_MODE=Quiet") 0 [] (omega arith) (omega arith)

abbrev first_line : Bytes
first_line = codes "BOOT_MODE = Quick" ++ (0x0D ∷ 0x0A ∷ [])

write_add_definition_text_lem_example :
    ((max_file_size
        < length first_line
          + length (gap_after first_line)
          + length (definition_line (codes "DEV_MODE") (codes "Enabled")))
      × (write_add_definition_text (codes "DEV_MODE") (codes "Enabled") (buffer_of first_line)
          ≡ (none, buffer_of first_line)))
    ⊎ ((length first_line
            + length (gap_after first_line)
            + length (definition_line (codes "DEV_MODE") (codes "Enabled"))
          ≤ max_file_size)
        × (buf' : Bytes) × Holds buf' (
            first_line
            ++ (gap_after first_line ++ definition_line (codes "DEV_MODE") (codes "Enabled")))
        × (take (length (codes "Enabled")) (
              drop
                (length first_line + length (gap_after first_line) + length (codes "DEV_MODE") + 3)
                buf')
            ≡ codes "Enabled")
        × (write_add_definition_text (codes "DEV_MODE") (codes "Enabled") (buffer_of first_line) ≡ (
          some (length first_line + length (gap_after first_line) + length (codes "DEV_MODE") + 3),
          buf',
        )))
write_add_definition_text_lem_example =
    write_add_definition_text_lem first_line (buffer_of first_line)
      (buffer_of-Holds first_line (omega arith) refl) (codes "DEV_MODE") (codes "Enabled")
      (no_nul→NoNul (codes "DEV_MODE") refl) (no_nul→NoNul (codes "Enabled") refl)

-- A text in three parts.
abbrev in_front : Bytes
in_front = codes "BOOT_MODE = "

abbrev old_text : Bytes
old_text = codes "Quick"

abbrev new_text : Bytes
new_text = codes "Normal"

abbrev behind : Bytes
behind = (0x0D ∷ 0x0A ∷ []) ++ (codes "DEV_MODE = Enabled" ++ (0x0D ∷ 0x0A ∷ []))

abbrev two_attributes : List Attribute
two_attributes =
    record { text_data = some 12; text_length = 5; value = none }
    ∷ record { text_data = some 30; text_length = 7; value = none }
    ∷ []

write_update_definition_text_lem_example :
    ((max_file_size < length (in_front ++ (old_text ++ behind)) + length new_text)
      × (write_update_definition_text
            (λ n. true)
            (length in_front)
            (length old_text)
            new_text
            (buffer_of (in_front ++ (old_text ++ behind)))
            two_attributes
          ≡ some (0, buffer_of (in_front ++ (old_text ++ behind)), two_attributes)))
    ⊎ ((length (in_front ++ (old_text ++ behind)) + length new_text ≤ max_file_size)
        × (true ≡ false)
        × (write_update_definition_text
              (λ n. true)
              (length in_front)
              (length old_text)
              new_text
              (buffer_of (in_front ++ (old_text ++ behind)))
              two_attributes
            ≡ none))
    ⊎ ((length (in_front ++ (old_text ++ behind)) + length new_text ≤ max_file_size)
        × (buf' : Bytes) × Holds buf' (in_front ++ (new_text ++ behind))
        × (write_update_definition_text
              (λ n. true)
              (length in_front)
              (length old_text)
              new_text
              (buffer_of (in_front ++ (old_text ++ behind)))
              two_attributes
            ≡ some (
              length new_text,
              buf',
              moved_attributes (length in_front) (length old_text) (length new_text) two_attributes,
            )))
write_update_definition_text_lem_example =
    write_update_definition_text_lem (λ n. true) in_front old_text behind new_text
      (buffer_of (in_front ++ (old_text ++ behind))) two_attributes
      (buffer_of-Holds (in_front ++ (old_text ++ behind)) (omega arith) refl)
      (no_nul→NoNul new_text refl)

text_of-moved_attributes_example :
    text_of (buffer_of (in_front ++ (new_text ++ behind))) (
      attribute
        (moved_attributes (length in_front) (length old_text) (length new_text) two_attributes)
        1)
    ≡ text_of (buffer_of (in_front ++ (old_text ++ behind))) (attribute two_attributes 1)
text_of-moved_attributes_example =
    text_of-moved_attributes in_front old_text behind new_text
      (buffer_of (in_front ++ (old_text ++ behind))) (buffer_of (in_front ++ (new_text ++ behind)))
      two_attributes 1 30 (buffer_of-Holds (in_front ++ (old_text ++ behind)) (omega arith) refl)
      (buffer_of-Holds (in_front ++ (new_text ++ behind)) (omega arith) refl) refl
      (after (omega arith) (omega arith))

is_valid_path_iff_example :
    (is_valid_path (codes "sdmc:/a.firm") ≡ true) ↔ IsPath false (codes "sdmc:/a.firm")
is_valid_path_iff_example = is_valid_path_iff (codes "sdmc:/a.firm")

-- `START + R`
parse_pad-pad_text_example :
    parse_pad
      (length (pad_text 264 conv_table 0 false))
      (pad_text 264 conv_table 0 false ++ (0x0D ∷ 0x0A ∷ []))
      (length (pad_text 264 conv_table 0 false))
      0
    ≡ 264
parse_pad-pad_text_example =
    parse_pad-pad_text 264 (0x0D ∷ 0x0A ∷ []) (omega arith) (cr (0x0A ∷ []))

length-pad_text_iff_example :
    (length (pad_text 264 conv_table 0 false) < 0x40) ↔ (◌≢◌ {A = ℕ} 264 0xFFF)
length-pad_text_iff_example = length-pad_text_iff 264 (omega arith)

-- A configuration with one line that was not parsed.
abbrev loaded_config : Config
loaded_config = record {
  filepath = sdmc_filepath;
  attributes = replicate num_keys no_attribute;
  filebuf = some (buffer_of first_line);
  loaded = true;
  dirty = false;
}

config_set_key_data_lem_example :
    (f : KeyFunctions) × (get_key_functions k_dev_mode ≡ some f)
    × Answer
        (λ n. true)
        f
        k_dev_mode
        (flag true)
        loaded_config
        (config_set_key_data (λ n. true) k_dev_mode (some (flag true)) loaded_config)
config_set_key_data_lem_example =
    config_set_key_data_lem (λ n. true) k_dev_mode (flag true) loaded_config refl (omega arith)
      (omega arith)
