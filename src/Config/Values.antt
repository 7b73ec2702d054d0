-- ===== src/Config/Values.antt =====
-- The functions of config.c that read the text of an attribute as a value, and that store a value
-- and its text.
pub mod Paths
pub mod PadNames
pub mod Pads
pub mod PadRoom
use fastboot3ds.Base.{
  ℕ, zero, suc, ◌+◌, ◌-◌, ◌*◌, ◌/◌, ◌%◌, ◌^◌, Bool, true, false, not, ◌&&◌, ◌||◌, Option, none,
  some, List, [], ◌∷◌, ◌++◌, Bytes, length, get_or, set, take, drop, ltb, leb, ◌==◌, if◌then◌else◌,
  c_str, codes, ℤ, pos, negsuc, neg,
}
use fastboot3ds.Util.{strnicmp}
use fastboot3ds.Fs.Drives.{is_ok}
use fastboot3ds.Config.{Config, Attribute, Value, attribute, buffer, path, number, flag, integer}
use fastboot3ds.Config.Edit.{write_attribute_text}

-- The loop of `isValidPath`; the result is false, or whether there was a mountpoint.
unfoldable pub valid_from : Bytes → Bool → Bool
valid_from [] got_mountpoint = got_mountpoint
valid_from (c ∷ cs) got_mountpoint =
    let next = get_or cs 0 0 in
    let rest = valid_from cs (got_mountpoint || c == b':') in
    if c == b':' && got_mountpoint
    then false
    else if c == b'.' && next == b'.'
    then false
    else if (c == b'\\' || c == b'/') && next == b' '
    then false
    else if not (leb c 127)
    then false
    else rest

unfoldable pub is_valid_path : Bytes → Bool
unfolding valid_from
is_valid_path p = valid_from p false

-- `convTable`
unfoldable pub conv_table : List Bytes
conv_table =
    codes "A"
    ∷ codes "B"
    ∷ codes "SELECT"
    ∷ codes "START"
    ∷ codes "RIGHT"
    ∷ codes "LEFT"
    ∷ codes "UP"
    ∷ codes "DOWN"
    ∷ codes "R"
    ∷ codes "L"
    ∷ codes "X"
    ∷ codes "Y"
    ∷ []

-- `modeTable`
unfoldable pub mode_table : List Bytes
mode_table = codes "Normal" ∷ codes "Quick" ∷ codes "Quiet" ∷ []

-- `boolStates`
unfoldable pub bool_states : List Bytes
bool_states = codes "Enabled" ∷ codes "Disabled" ∷ []

-- The loop over a table at index `i`: the first entry that the text begins with, and its length.
unfoldable pub match_table : Bytes → List Bytes → ℕ → Option (ℕ × ℕ)
unfolding strnicmp
match_table s [] i = none
match_table s (t ∷ ts) i =
    let rest = match_table s ts (i + 1) in
    if is_ok (strnicmp s t (length t)) then some (i, length t) else rest

-- `padValue |= 1 << i`
unfoldable pub set_bit : ℕ → ℕ → ℕ
set_bit v i = if v / 2 ^ i % 2 == 1 then v else v + 2 ^ i

-- The loop of `parseBootOptionPad` from `s` on, with `left` bytes of the text to go; a round takes
-- at least one, so their number is enough fuel.
unfoldable pub parse_pad : ℕ → Bytes → ℕ → ℕ → ℕ
unfolding match_table conv_table set_bit
parse_pad zero s left pad_value = pad_value
parse_pad (suc fuel) s left pad_value =
    let hit = match_table s conv_table 0 in
    let len = elim hit as (λ o. ℕ) [ none ↦ 1 | some m ↦ m.1 ] in
    let value = elim hit as (λ o. ℕ) [ none ↦ pad_value | some m ↦ set_bit pad_value (m.0) ] in
    let rest = parse_pad fuel (drop len s) (left - len) value in
    if get_or s 0 0 == 0 || left == 0 then pad_value else rest

-- The loop of `writeBootOptionPad` at entry `i` of the table.
unfoldable pub pad_text : ℕ → List Bytes → ℕ → Bool → Bytes
pad_text pad_value [] i keys_added = []
pad_text pad_value (t ∷ ts) i keys_added =
    let pressed = pad_value / 2 ^ i % 2 == 1 in
    let rest = pad_text pad_value ts (i + 1) (keys_added || pressed) in
    if pressed then (if keys_added then codes " + " else []) ++ t ++ rest else rest

-- `atoi`: white space, a sign, and digits.
unfoldable pub digits_value : Bytes → ℕ → ℕ
digits_value [] acc = acc
digits_value (c ∷ cs) acc =
    if leb b'0' c && leb c b'9' then digits_value cs (acc * 10 + (c - b'0')) else acc

unfoldable pub skip_white : Bytes → Bytes
skip_white [] = []
skip_white (c ∷ cs) = if c == b' ' || leb 9 c && leb c 13 then skip_white cs else c ∷ cs

unfoldable pub atoi : Bytes → ℤ
unfolding digits_value skip_white
atoi s =
    let t = skip_white s in
    let sign = get_or t 0 0 in
    if sign == b'-'
    then neg (digits_value (drop 1 t) 0)
    else pos (digits_value (if sign == b'+' then drop 1 t else t) 0)

-- `itoa` in base 10; ten digits are enough for 32 bits.
unfoldable pub digits : ℕ → ℕ → Bytes → Bytes
digits zero n acc = acc
digits (suc fuel) n acc =
    let d = b'0' + n % 10 in
    let more = digits fuel (n / 10) (d ∷ acc) in if ltb n 10 then d ∷ acc else more

unfoldable pub itoa : ℤ → Bytes
unfolding digits
itoa (pos n) = digits 10 n []
itoa (negsuc n) = b'-' ∷ digits 10 (n + 1) []

-- Whether `malloc` of a size succeeds is an argument.
module _ (alloc : ℕ → Bool) where
  -- The `parse` functions: the attribute afterwards. `text` is where the text is.
  unfoldable pub parse_path : Bytes → ℕ → Attribute → Attribute
  unfolding is_valid_path c_str
  parse_path buf text attr =
      let p = c_str (take attr.text_length (drop text buf)) in
      if not (alloc (attr.text_length + 1))
      then record attr { value = none }
      else if not (is_valid_path p)
      then record attr { value = none }
      else record attr { value = some (path p) }

  unfoldable pub parse_boot_option_pad : Bytes → ℕ → Attribute → Attribute
  unfolding parse_pad
  parse_boot_option_pad buf text attr =
      let pad_value = parse_pad attr.text_length (drop text buf) attr.text_length 0 in
      if not (alloc 4)
      then record attr { value = none }
      else record attr { value = some (number pad_value) }

  unfoldable pub parse_boot_mode : Bytes → ℕ → Attribute → Attribute
  unfolding match_table mode_table
  parse_boot_mode buf text attr = elim (match_table (drop text buf) mode_table 0) [
    | none ↦ record attr { value = none }
    | some m ↦
        if not (alloc 4)
        then record attr { value = none }
        else record attr { value = some (number (m.0)) }
  ]

  unfoldable pub parse_bool : Bytes → ℕ → Attribute → Attribute
  unfolding match_table bool_states
  parse_bool buf text attr = elim (match_table (drop text buf) bool_states 0) [
    | none ↦ record attr { value = none }
    | some m ↦
        if not (alloc 1)
        then record attr { value = none }
        else record attr { value = some (flag (m.0 == 0)) }
  ]

  unfoldable pub parse_int : Bytes → ℕ → Attribute → Attribute
  unfolding atoi
  parse_int buf text attr =
      if not (alloc 4)
      then record attr { value = none }
      else record attr { value = some (integer (atoi (drop text buf))) }
