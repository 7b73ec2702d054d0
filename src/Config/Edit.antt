-- ===== src/Config/Edit.antt =====
-- How config.c changes the text in the buffer: a definition is added, its text is replaced, or its
-- line is removed.
pub mod Holds
pub mod Update
pub mod Others
pub mod Add
use fastboot3ds.Base.{
  ℕ, zero, suc, ◌+◌, ◌-◌, Bool, true, false, not, ◌&&◌, ◌||◌, Option, none, some, List, [], ◌∷◌,
  ◌++◌, map, Bytes, length, get_or, set, take, drop, ltb, leb, ◌==◌, if◌then◌else◌, put_at, c_str,
  add32, sub32, codes,
}
use fastboot3ds.Util.{memcpy_s}
use fastboot3ds.Config.{Config, Attribute, attribute, buffer, max_file_size, key_text}
use fastboot3ds.Config.Scan.{is_eol}

-- `strlen(filebuf)`
abbrev pub strlen : Bytes → ℕ
strlen buf = length (c_str buf)

abbrev pub line_break : Bytes
line_break = 0x0D ∷ 0x0A ∷ []

-- The line that `ee_sprintf` prints.
unfoldable pub definition_line : Bytes → Bytes → Bytes
definition_line key_name text = key_name ++ codes " = " ++ text ++ line_break

-- The offset of the new text, `none` where there is no room, and the buffer.
unfoldable pub write_add_definition_text : Bytes → Bytes → Bytes → Option ℕ × Bytes
unfolding definition_line is_eol put_at c_str
write_add_definition_text key_name text buf =
    let cur_len = strlen buf in
    let remaining_len = sub32 max_file_size cur_len in
    let total_len = length text + length key_name + 3 + 2 in
    let no_break = not (cur_len == 0) && not (is_eol (get_or buf (cur_len - 1) 0)) in
    let begin = if no_break then cur_len + 2 else cur_len in
    let buf1 = if no_break then put_at cur_len line_break buf else buf in
    if ltb remaining_len total_len
    then (none, buf)
    else if no_break && ltb remaining_len (total_len + 2)
    then (none, buf)
    else (
      some (begin + length key_name + 3),
      put_at begin (definition_line key_name text ++ (0 ∷ [])) buf1,
    )

-- The pointers behind `text_data` are moved.
unfoldable pub move_pointer : ℕ → ℕ → Attribute → Attribute
move_pointer text_data diff attr = elim (attr.text_data) [
  | none ↦ attr
  | some t ↦ if ltb text_data t then record attr { text_data = some (add32 t diff) } else attr
]

-- The index that the loop which goes back to the beginning of a line reads last.
unfoldable pub last_read : Bytes → ℕ → ℕ
unfolding is_eol
last_read buf zero = 0
last_read buf (suc zero) = 1
last_read buf (suc (suc q)) =
    let before = last_read buf (suc q) in
    if is_eol (get_or buf (suc (suc q)) 0) then suc (suc q) else before

-- The beginning of the line; `none` is the panic.
unfoldable pub line_begin : Bytes → ℕ → Option ℕ
unfolding last_read is_eol
line_begin buf text =
    let q = last_read buf text in
    if is_eol (get_or buf q 0) then some (q + 1) else if q == 1 then some 0 else none

-- How far it is to the next line: to the end of the text, or behind one or two bytes that end
-- the line.
unfoldable pub line_rest : Bytes → ℕ
unfolding is_eol
line_rest [] = 0
line_rest (c ∷ cs) =
    if c == 0
    then 0
    else if is_eol c
    then (if is_eol (get_or cs 0 0) then 2 else 1)
    else suc (line_rest cs)

-- Whether `malloc` of a size succeeds is an argument.
module _ (alloc : ℕ → Bool) where
  -- The length that is returned, the buffer and the attributes; `none` is the panic where there is
  -- no memory.
  unfoldable pub write_update_definition_text :
      ℕ → ℕ → Bytes → Bytes → List Attribute → Option (ℕ × Bytes × List Attribute)
  unfolding memcpy_s put_at move_pointer c_str
  write_update_definition_text text_data cur_text_len new_text buf attrs =
      let new_len = length new_text in
      let cur_len = strlen buf in
      let remaining_len = sub32 max_file_size cur_len in
      let diff = sub32 new_len cur_text_len in
      let backup_len = add32 (sub32 (sub32 cur_len text_data) cur_text_len) 1 in
      let temp_buf = take backup_len (drop (text_data + cur_text_len) buf) in
      let grown = memcpy_s buf (max_file_size + 1) (text_data + new_len) temp_buf backup_len 0 in
      let shrunk =
        memcpy_s buf (max_file_size + 1) (text_data + new_len) buf (max_file_size + 1)
          (text_data + cur_text_len) in
      let moved = map (move_pointer text_data diff) attrs in
      if ltb remaining_len new_len
      then some (0, buf, attrs)
      else if diff == 0
      then some (new_len, put_at text_data new_text buf, attrs)
      else if ltb cur_text_len new_len
      then if not (alloc backup_len)
        then none
        else some (new_len, put_at text_data new_text grown, moved)
      else some (new_len, put_at text_data new_text shrunk, moved)

  unfoldable pub write_attribute_text : ℕ → Bytes → Config → Option Config
  unfolding write_add_definition_text write_update_definition_text
  write_attribute_text key new_text c =
      let attr = attribute c.attributes key in
      elim (attr.text_data) [
        | none ↦
            let (text, buf) = write_add_definition_text (key_text key) new_text (buffer c) in
            let attr' = record attr { text_data = text; text_length = length new_text } in
            some (record c { attributes = set c.attributes key attr'; filebuf = some buf })
        | some text ↦
            elim (write_update_definition_text text attr.text_length new_text (buffer c)
              c.attributes) [
                | none ↦ none
                | some r ↦
                    let attr' = record (attribute (r.2) key) { text_length = r.0 } in
                    some (record c { attributes = set (r.2) key attr'; filebuf = some (r.1) })
              ]
      ]

  unfoldable pub remove_definition : ℕ → Config → Option (Bool × Config)
  unfolding line_begin line_rest write_update_definition_text
  remove_definition key c =
      let attr = attribute c.attributes key in
      let buf = buffer c in
      elim (attr.text_data) [
        | none ↦ some (false, c)
        | some text ↦
            let text_end = text + attr.text_length in
            let line_end = text_end + line_rest (drop text_end buf) in
            if attr.text_length == 0 then some (false, c) else elim (line_begin buf text) [
              | none ↦ none
              | some begin ↦
                  elim (write_update_definition_text begin (line_end - begin) [] buf c.attributes) [
                    | none ↦ none
                    | some r ↦ some (r.0 == 0, record c { attributes = r.2; filebuf = some (r.1) })
                  ]
            ]
      ]
