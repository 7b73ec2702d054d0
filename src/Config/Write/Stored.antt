-- ===== src/Config/Write/Stored.antt =====
-- What the `write` functions do with a value.
use fastboot3ds.Base.{
  ℕ, ◌+◌, ◌%◌, ◌^◌, ◌<◌, ◌≡◌, ◌≢◌, ◌⊎◌, inl, inr, refl, ap, ◌∙◌, sym, Bool, true, false, not,
  Option, some, none, Bytes, length, get_or-set_self, get_or-set_ne, length-set, ltb, ◌==◌,
  Bool-cases, Option-cases, arith,
}
use fastboot3ds.Config.{
  Config, buffer, Value, path, number, flag, integer, attribute, no_attribute, KeyFunctions,
  path_functions, pad_functions, mode_functions, bool_functions, int_functions,
}
use fastboot3ds.Config.Edit.{write_attribute_text}
use fastboot3ds.Config.Values.{is_valid_path}
use fastboot3ds.Config.Write.{set_value, succeeded, value_memory, store_value, store_path}
use fastboot3ds.Config.Write.Keeps.{
  Kept, kept, kept_no_memory, write_attribute_text-Kept, backup_size,
}

-- Whether a value is one that a key of this kind can have.
unfoldable pub accepts : KeyFunctions → Value → Bool
accepts path_functions (path p) = is_valid_path p
accepts pad_functions (number n) = true
accepts mode_functions (number n) = not (ltb 2 n)
accepts bool_functions (flag b) = true
accepts int_functions (integer n) = true
accepts f v = false

-- The value that is kept: of a button combination the twelve bits.
unfoldable pub kept_value : KeyFunctions → Value → Value
kept_value pad_functions (number n) = number (n % 2 ^ 12)
kept_value f v = v

-- Whether the text of the value is longer than the array in which it is put together: of all
-- twelve buttons.
unfoldable pub overruns : KeyFunctions → Value → Bool
overruns pad_functions (number n) = n % 2 ^ 12 == 0xFFF
overruns f v = false

-- The memory of a value.
unfoldable pub value_size : KeyFunctions → Value → ℕ
value_size path_functions (path p) = length p + 1
value_size bool_functions v = 1
value_size f v = 4

-- After the value of one key was stored.
pub record IsStored (key : ℕ) (v : Value) (c c' : Config) : Type 0 where
  pub value_of : (attribute c'.attributes key).value ≡ some v
  pub others :
      (other : ℕ)
      → other ≢ key
      → (attribute c'.attributes other).value ≡ (attribute c.attributes other).value
  pub still_loaded : c'.loaded ≡ c.loaded

module _ (alloc : ℕ → Bool) where
  -- What a `write` function comes to: a panic where there is no memory for the part of the buffer
  -- behind the old text, a text that is too long for its array, no memory for the value, a value
  -- that is not accepted, or the value stored.
  pub data Outcome (accepted overrun : Bool) (size key : ℕ) (v : Value) (c : Config)
      : Option (Bool × Config) → Type 0 where
    panics :
        (text : ℕ)
        → (attribute c.attributes key).text_data ≡ some text
        → alloc (backup_size text (attribute c.attributes key).text_length (buffer c)) ≡ false
        → Outcome accepted overrun size key v c none
    too_long : overrun ≡ true → Outcome accepted overrun size key v c none
    no_memory :
        (c' : Config)
        → alloc size ≡ false
        → (c' ≡ c) ⊎ (c' ≡ set_value key none c)
        → Outcome accepted overrun size key v c (some (false, c'))
    refused : accepted ≡ false → Outcome accepted overrun size key v c (some (false, c))
    stored :
        {c' : Config}
        → accepted ≡ true
        → overrun ≡ false
        → IsStored key v c c'
        → Outcome accepted overrun size key v c (some (true, c'))

  after_text :
      (over : Bool) (size key : ℕ) (v : Value) (c : Config) (o : Option Config)
      → key < length c.attributes
      → over ≡ false
      → Kept alloc key (set_value key (some v) c) o
      → Outcome true over size key v c (succeeded o)
  unfolding set_value
  after_text over size key v c _ lt fits (kept_no_memory text there failed) =
      let new = record (attribute c.attributes key) { value = some v } in
      let same = get_or-set_self c.attributes key new no_attribute lt in
      panics text (sym (ap (λ a. a.text_data) same) ∙ there)
        (ap (λ a. alloc (backup_size text a.text_length (buffer c))) (sym same) ∙ failed)
  after_text over size key v c (some c') lt fits (kept same) =
      let new = record (attribute c.attributes key) { value = some v } in
      stored refl fits (record {
        value_of =
            same.same_values.values key
            ∙ ap (λ a. a.value) (get_or-set_self c.attributes key new no_attribute lt);
        others = λ other ne.
            same.same_values.values other
            ∙ ap (λ a. a.value)
                (get_or-set_ne c.attributes key other new no_attribute (λ e. ne (sym e)));
        still_loaded = same.same_loaded;
      })

  stored_text :
      (over : Bool) (size key : ℕ) (v : Value) (text : Bytes) (c : Config)
      → key < length c.attributes
      → over ≡ false
      → Outcome true over size key v c
          (succeeded (write_attribute_text alloc key text (set_value key (some v) c)))
  unfolding set_value
  stored_text over size key v text c lt fits =
      after_text over size key v c (write_attribute_text alloc key text (set_value key (some v) c))
        lt fits
        (write_attribute_text-Kept alloc key text (set_value key (some v) c) (
          omega (
            arith,
            lt,
            length-set c.attributes key (record (attribute c.attributes key) { value = some v }),
          )))

  pub store_value-Outcome :
      (over : Bool) (size key : ℕ) (v : Value) (text : Bytes) (c : Config)
      → key < length c.attributes
      → (value_memory alloc size key c ≡ true → over ≡ false)
      → Outcome true over size key v c (store_value alloc size key v text c)
  unfolding store_value value_memory
  store_value-Outcome over size key v text c lt fits =
      elim (Option-cases ((attribute c.attributes key).value)) [
        | inl empty ↦ elim (Bool-cases (alloc size)) [
          | inl got ↦
              let there : value_memory alloc size key c ≡ true = rw (value_memory, empty) got in
              rw (store_value, empty, got) (stored_text over size key v text c lt (fits there))
          | inr failed ↦ rw (store_value, empty, failed) (no_memory c failed (inl refl))
        ]
        | inr (old, e) ↦
            let there : value_memory alloc size key c ≡ true = rw (value_memory, e) refl in
            rw (store_value, e) (stored_text over size key v text c lt (fits there))
      ]

  pub store_path-Outcome :
      (key : ℕ) (p : Bytes) (c : Config)
      → key < length c.attributes
      → Outcome true false (length p + 1) key (path p) c (store_path alloc key p c)
  unfolding store_path
  store_path-Outcome key p c lt = elim (Option-cases ((attribute c.attributes key).value)) [
    | inl empty ↦ elim (Bool-cases (alloc (length p + 1))) [
      | inl got ↦
          rw (store_path, empty, got) (stored_text false (length p + 1) key (path p) p c lt refl)
      | inr failed ↦ rw (store_path, empty, failed) (no_memory c failed (inl refl))
    ]
    | inr (old, e) ↦ elim (Bool-cases (length p == (attribute c.attributes key).text_length)) [
      | inl same ↦
          rw (store_path, e, same) (stored_text false (length p + 1) key (path p) p c lt refl)
      | inr differs ↦ elim (Bool-cases (alloc (length p + 1))) [
        | inl got ↦
            rw (store_path, e, differs, got)
              (stored_text false (length p + 1) key (path p) p c lt refl)
        | inr failed ↦
            rw (store_path, e, differs, failed) (no_memory (set_value key none c) failed (inr refl))
      ]
    ]
  ]
