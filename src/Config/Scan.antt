-- ===== src/Config/Scan.antt =====
-- `findNextDefinition`, `parseDefinition` and the first pass of `parseConfigFile`. A pointer into
-- the buffer is an offset, and what it points at is `drop offset buf`.
pub mod Keys
pub mod Lines
pub mod Fuel
pub mod Entries
pub mod Pass
pub mod Texts
use fastboot3ds.Base.{
  ℕ, zero, suc, ◌+◌, Bool, true, false, not, ◌||◌, ◌&&◌, Option, none, some, List, [], ◌∷◌, Bytes,
  length, get_or, set, drop, ltb, ◌==◌, if◌then◌else◌,
}
use fastboot3ds.Config.{Attribute, attribute, key_strings}

unfoldable pub is_eol : ℕ → Bool
is_eol c = if c == 0x0A || c == 0x0D || c == 0x15 then true else false

-- `strncmp(s, key, strlen(key)) == 0`, for a key without NUL.
unfoldable pub starts_with : Bytes → Bytes → Bool
starts_with s [] = true
starts_with s (k ∷ ks) = get_or s 0 0 == k && starts_with (drop 1 s) ks

-- The loop over `keyStrings` at key `i`; `best` is the longest match so far and its length.
unfoldable pub match_from : Bytes → List Bytes → ℕ → Option (ℕ × ℕ) → Option (ℕ × ℕ)
unfolding starts_with
match_from s [] i best = best
match_from s (k ∷ ks) i best =
    let longer : Bool = elim best [ none ↦ true | some b ↦ ltb b.1 (length k) ] in
    match_from s ks (i + 1) (if starts_with s k && longer then some (i, length k) else best)

unfoldable pub match_key : Bytes → Option (ℕ × ℕ)
unfolding match_from key_strings
match_key s = match_from s key_strings 0 none

-- How far `while(*cur == ' ') cur++;` goes.
unfoldable pub skip_spaces : Bytes → ℕ
skip_spaces [] = 0
skip_spaces (c ∷ cs) = if c == b' ' then suc (skip_spaces cs) else 0

-- How far the loop goes that advances to a new line.
unfoldable pub skip_line : Bytes → ℕ
unfolding is_eol
skip_line [] = 0
skip_line (c ∷ cs) = if c == 0 then 0 else if is_eol c then 1 else suc (skip_line cs)

-- One round of the loop of `findNextDefinition`: the key and the start of a definition, and where
-- the next line begins.
unfoldable pub round : Bytes → ℕ → Option (ℕ × ℕ) × ℕ
unfolding match_key skip_spaces skip_line
round buf cur = elim (match_key (drop cur buf)) [
  | none ↦ (none, cur + skip_line (drop cur buf))
  | some m ↦
      let after_key = cur + m.1 in
      let sign = after_key + skip_spaces (drop after_key buf) in
      let start = sign + 1 + skip_spaces (drop (sign + 1) buf) in
      if not (get_or buf sign 0 == b'=')
      then (none, sign + skip_line (drop sign buf))
      else (some (m.0, start), start + skip_line (drop start buf))
]

-- What `findNextDefinition` comes to: a definition with where the next line begins, none, or that
-- the fuel ran out.
pub data Found : Type 0 where
  definition : ℕ → ℕ → ℕ → Found
  no_more : Found
  no_fuel : Found

unfoldable pub find_next_definition : ℕ → Bytes → ℕ → Found
unfolding round
find_next_definition zero buf cur = no_fuel
find_next_definition (suc fuel) buf cur =
    let r = round buf cur in
    let rest = find_next_definition fuel buf r.1 in
    if get_or buf cur 0 == 0
    then no_more
    else elim (r.0) [ some d ↦ definition d.0 d.1 (r.1) | none ↦ rest ]

-- The loop of `parseDefinition`.
unfoldable pub text_length_of : Bytes → ℕ
unfolding is_eol
text_length_of [] = 0
text_length_of (c ∷ cs) = if c == 0 then 0 else if is_eol c then 0 else suc (text_length_of cs)

unfoldable pub parse_definition : Bytes → ℕ → ℕ
unfolding text_length_of
parse_definition buf text = text_length_of (drop text buf)

-- The body of the loop of pass 1: the first definition of a key counts.
unfoldable pub record_definition : Bytes → ℕ → ℕ → List Attribute → List Attribute
unfolding parse_definition
record_definition buf key text attrs = elim ((attribute attrs key).text_data) [
  | some old ↦ attrs
  | none ↦ set attrs key (record (attribute attrs key) {
    text_data = some text;
    text_length = parse_definition buf text;
  })
]

-- The loop; `none` is that the fuel ran out.
unfoldable pub parse_definitions : ℕ → Bytes → ℕ → List Attribute → Option (List Attribute)
unfolding find_next_definition record_definition
parse_definitions zero buf cur attrs = none
parse_definitions (suc fuel) buf cur attrs =
    elim (find_next_definition (suc (length buf)) buf cur) [
      | no_fuel ↦ none
      | no_more ↦ some attrs
      | definition key text next ↦
          parse_definitions fuel buf next (record_definition buf key text attrs)
    ]
