-- ===== src/Config/Write/Outcomes.antt =====
-- What each of the `write` functions comes to.
use fastboot3ds.Base.{
  ℕ, ◌%◌, ◌^◌, ◌<◌, ◌≡◌, inl, inr, refl, Bool, true, false, not, ◌&&◌, some, [], length, get_or,
  ltb, ◌==◌, if◌then◌else◌, Bool-cases, arith,
}
use fastboot3ds.Config.{
  Config, Value, path, number, flag, integer, KeyFunctions, path_functions, pad_functions,
  mode_functions, bool_functions, int_functions,
}
use fastboot3ds.Config.Values.{is_valid_path, conv_table, mode_table, bool_states, pad_text, itoa}
use fastboot3ds.Config.Write.{
  value_memory, write_path, write_boot_option_pad, write_boot_mode, write_bool, write_int,
  write_value,
}
use fastboot3ds.Config.Values.PadRoom.{length-pad_text_iff}
use fastboot3ds.Config.Write.Stored.{
  accepts, kept_value, overruns, value_size, Outcome, too_long, refused, store_value-Outcome,
  store_path-Outcome,
}

module _ (alloc : ℕ → Bool) where
  -- The text is too long for the array just where all twelve buttons are pressed.
  pad_overrun :
      (n : ℕ)
      → not (ltb (length (pad_text (n % 2 ^ 12) conv_table 0 false)) 0x40) ≡ (n % 2 ^ 12 == 0xFFF)
  pad_overrun n =
      let (to, from) = length-pad_text_iff (n % 2 ^ 12) (omega arith) in
      elim (Bool-cases (n % 2 ^ 12 == 0xFFF)) [
        | inl all ↦
            elim (Bool-cases (ltb (length (pad_text (n % 2 ^ 12) conv_table 0 false)) 0x40)) [
              | inl small ↦ absurd (to (ground (arith, small)) (ground (arith, all)))
              | inr large ↦ rw (all, large) refl
            ]
        | inr other ↦ let small = from (ground (arith, other)) in ground (arith, small, other)
      ]

  memory_fits : (memory over : Bool) → (memory && over) ≡ false → memory ≡ true → over ≡ false
  memory_fits memory over e m = ground (arith, e, m)

  memory_over : (memory over : Bool) → (memory && over) ≡ true → over ≡ true
  memory_over memory over e = ground (arith, e)

  write_pad-Outcome :
      (n key : ℕ) (c : Config)
      → key < length c.attributes
      → Outcome alloc true
          (n % 2 ^ 12 == 0xFFF)
          4
          key
          (number (n % 2 ^ 12))
          c
          (write_boot_option_pad alloc (some (number n)) key c)
  unfolding write_boot_option_pad
  write_pad-Outcome n key c lt =
      let over = n % 2 ^ 12 == 0xFFF in
      let memory = value_memory alloc 4 key c in
      rw (pad_overrun n) (elim (Bool-cases (memory && over)) [
        | inl long ↦ rw long (too_long (memory_over memory over long))
        | inr fits ↦ rw fits (
            store_value-Outcome alloc over 4 key (number (n % 2 ^ 12))
              (pad_text (n % 2 ^ 12) conv_table 0 false) c lt (memory_fits memory over fits))
      ])

  pub write_value-Outcome :
      (f : KeyFunctions) (v : Value) (key : ℕ) (c : Config)
      → key < length c.attributes
      → Outcome alloc
          (accepts f v)
          (overruns f v)
          (value_size f v)
          key
          (kept_value f v)
          c
          (write_value alloc f (some v) key c)
  unfolding write_value write_path write_boot_option_pad write_boot_mode write_bool write_int
      accepts kept_value overruns value_size
  write_value-Outcome path_functions (path p) key c lt = elim (Bool-cases (is_valid_path p)) [
    | inl valid ↦ rw valid (store_path-Outcome alloc key p c lt)
    | inr invalid ↦ rw invalid (refused refl)
  ]
  write_value-Outcome pad_functions (number n) key c lt = write_pad-Outcome n key c lt
  write_value-Outcome mode_functions (number n) key c lt = elim (Bool-cases (ltb 2 n)) [
    | inl unknown ↦ rw unknown (refused refl)
    | inr known ↦
        rw known (
          store_value-Outcome alloc false 4 key (number n) (get_or mode_table n []) c lt
            (λ e. refl))
  ]
  write_value-Outcome bool_functions (flag b) key c lt =
      store_value-Outcome alloc false 1 key (flag b) (get_or bool_states (if b then 0 else 1) []) c
        lt (λ e. refl)
  write_value-Outcome int_functions (integer n) key c lt =
      store_value-Outcome alloc false 4 key (integer n) (itoa n) c lt (λ e. refl)
  write_value-Outcome path_functions (number n) key c lt = refused refl
  write_value-Outcome path_functions (flag b) key c lt = refused refl
  write_value-Outcome path_functions (integer n) key c lt = refused refl
  write_value-Outcome pad_functions (path p) key c lt = refused refl
  write_value-Outcome pad_functions (flag b) key c lt = refused refl
  write_value-Outcome pad_functions (integer n) key c lt = refused refl
  write_value-Outcome mode_functions (path p) key c lt = refused refl
  write_value-Outcome mode_functions (flag b) key c lt = refused refl
  write_value-Outcome mode_functions (integer n) key c lt = refused refl
  write_value-Outcome bool_functions (path p) key c lt = refused refl
  write_value-Outcome bool_functions (number n) key c lt = refused refl
  write_value-Outcome bool_functions (integer n) key c lt = refused refl
  write_value-Outcome int_functions (path p) key c lt = refused refl
  write_value-Outcome int_functions (number n) key c lt = refused refl
  write_value-Outcome int_functions (flag b) key c lt = refused refl
