-- ===== src/Config/Api/SetData.antt =====
-- `configSetKeyData`, and what `configGetData` returns after it.
use mathlib.Core.Path.{subst}
use fastboot3ds.Base.{
  ℕ, ◌≤◌, ◌<◌, ◌≡◌, ◌≢◌, ◌⊎◌, inl, inr, refl, ap, ◌∙◌, sym, Bool, true, false, ◌&&◌, ◌||◌, Option,
  some, none, length, leb, ◌==◌, if◌then◌else◌, Bool-cases, arith,
}
use fastboot3ds.Config.{
  Config, Value, buffer, attribute, num_keys, KeyFunctions, get_key_functions, path_functions,
  pad_functions, mode_functions, bool_functions, int_functions, k_splash_screen,
  k_boot_option1_buttons, k_boot_option9_buttons, k_boot_mode, k_dev_mode, k_ram_firm_boot,
  k_splash_duration,
}
use fastboot3ds.Config.Write.{set_value, write_value}
use fastboot3ds.Config.Write.Keeps.{backup_size}
use fastboot3ds.Config.Write.Stored
use fastboot3ds.Config.Write.Stored.{accepts, kept_value, overruns, value_size, Outcome}
use fastboot3ds.Config.Write.Outcomes.{write_value-Outcome}
use fastboot3ds.Config.Api.{config_has_changed, config_get_data, config_set_key_data}

-- Every key has its functions.
get_key_functions_total :
    (key : ℕ) → key < num_keys → (f : KeyFunctions) × (get_key_functions key ≡ some f)
unfolding get_key_functions
get_key_functions_total key lt = elim (Bool-cases (leb key k_splash_screen)) [
  | inl is_path ↦ (path_functions, rw is_path refl)
  | inr no_path ↦
      elim (Bool-cases (leb key k_boot_option9_buttons && leb k_boot_option1_buttons key)) [
        | inl is_pad ↦ (pad_functions, rw (no_path, is_pad) refl)
        | inr no_pad ↦ elim (Bool-cases (key == k_boot_mode)) [
          | inl is_mode ↦ (mode_functions, rw (no_path, no_pad, is_mode) refl)
          | inr no_mode ↦ elim (Bool-cases (key == k_dev_mode || key == k_ram_firm_boot)) [
            | inl is_bool ↦ (bool_functions, rw (no_path, no_pad, no_mode, is_bool) refl)
            | inr no_bool ↦
                let is_int : (key == k_splash_duration) ≡ true = ground (arith, lt) in
                (int_functions, rw (no_path, no_pad, no_mode, no_bool, is_int) refl)
          ]
        ]
      ]
]

-- What the call makes of the result of a key's `write`.
finished : Option (Bool × Config) → Option (Bool × Config)
finished none = none
finished (some r) = if r.0 then some (true, record (r.1) { dirty = true }) else some (false, r.1)

config_set_key_data_eq :
    (alloc : ℕ → Bool) (key : ℕ) (v : Value) (c : Config) (f : KeyFunctions)
    → c.loaded ≡ true
    → key < num_keys
    → get_key_functions key ≡ some f
    → config_set_key_data alloc key (some v) c ≡ finished (write_value alloc f (some v) key c)
unfolding config_set_key_data finished
config_set_key_data_eq alloc key v c f loaded lt functions =
    let in_range : leb num_keys key ≡ false = ground (arith, lt) in
    rw (config_set_key_data, loaded, in_range, functions)
      (ap (λ b. finished (write_value alloc f (some v) key (record c { loaded = b }))) loaded)

config_get_data_eq :
    (key : ℕ) (c : Config)
    → c.loaded ≡ true
    → config_get_data key c
      ≡ (if leb num_keys key then none else (attribute c.attributes key).value)
unfolding config_get_data
config_get_data_eq key c loaded = rw (config_get_data, loaded) refl

-- What `configSetKeyData` comes to, for a key with the functions `f`, and what it returns.
pub data Answer (alloc : ℕ → Bool) (f : KeyFunctions) (key : ℕ) (v : Value) (c : Config)
    : Option (Bool × Config) → Type 0 where
  -- There is no memory for the part of the buffer that is behind the key's old text.
  panics :
      (text : ℕ)
      → (attribute c.attributes key).text_data ≡ some text
      → alloc (backup_size text (attribute c.attributes key).text_length (buffer c)) ≡ false
      → Answer alloc f key v c none
  -- The text of the value goes past its array.
  too_long : overruns f v ≡ true → Answer alloc f key v c none
  -- There is no memory for the value: nothing changes, or an old path is lost.
  no_memory :
      (c' : Config)
      → alloc (value_size f v) ≡ false
      → (c' ≡ c) ⊎ (c' ≡ set_value key none c)
      → Answer alloc f key v c (some (false, c'))
  refused : accepts f v ≡ false → Answer alloc f key v c (some (false, c))
  stored :
      (c' : Config)
      → accepts f v ≡ true
      → overruns f v ≡ false
      → config_has_changed c' ≡ true
      → config_get_data key c' ≡ some (kept_value f v)
      → ((other : ℕ) → other ≢ key → config_get_data other c' ≡ config_get_data other c)
      → Answer alloc f key v c (some (true, c'))

module _ (alloc : ℕ → Bool) (key : ℕ) (v : Value) (c : Config) (loaded : c.loaded ≡ true)
    (lt : key < num_keys) (count : num_keys ≤ length c.attributes) where
  finished-Answer :
      (f : KeyFunctions) (o : Option (Bool × Config))
      → Outcome alloc (accepts f v) (overruns f v) (value_size f v) key (kept_value f v) c o
      → Answer alloc f key v c (finished o)
  unfolding finished config_has_changed
  finished-Answer f _ (Stored.panics text there failed) = panics text there failed
  finished-Answer f _ (Stored.too_long over) = too_long over
  finished-Answer f _ (Stored.no_memory c' failed same) = no_memory c' failed same
  finished-Answer f _ (Stored.refused unfit) = refused unfit
  finished-Answer f (some (_, c')) (Stored.stored fit short s) =
      let done = record c' { dirty = true } in
      let in_range : leb num_keys key ≡ false = ground (arith, lt) in
      let now : done.loaded ≡ true = s.still_loaded ∙ loaded in
      stored done fit short refl (config_get_data_eq key done now ∙ rw in_range (s.value_of))
        (λ other ne.
          config_get_data_eq other done now
          ∙ ap (λ d. if leb num_keys other then none else d) (s.others other ne)
          ∙ sym (config_get_data_eq other c loaded))

  -- `configSetKeyData` with a value, on a loaded configuration with all its attributes and for a
  -- key in the range, comes to one of five outcomes. It panics, only if the key has a text and there
  -- is no memory for the part of the buffer behind it. The text of the value goes past the array of
  -- `writeBootOptionPad`, only if all twelve buttons are given. It returns false if there is no memory
  -- for the value, and then nothing changes but for an old path that may be lost. It returns false
  -- and nothing changes if the value is not one that the key can have. Otherwise it returns true,
  -- the configuration has changed, `configGetData` returns the value for the key, of a button
  -- combination its twelve bits, and for every other key what it returned before.
  pub config_set_key_data_lem :
      (f : KeyFunctions) × (get_key_functions key ≡ some f)
      × Answer alloc f key v c (config_set_key_data alloc key (some v) c)
  config_set_key_data_lem =
      let (f, functions) = get_key_functions_total key lt in
      (
        f,
        functions,
        subst (Answer alloc f key v c)
            (sym (config_set_key_data_eq alloc key v c f loaded lt functions))
            (finished-Answer f (write_value alloc f (some v) key c)
              (write_value-Outcome alloc f v key c (omega (arith, lt, count)))),
      )
