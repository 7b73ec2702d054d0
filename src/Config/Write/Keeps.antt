-- ===== src/Config/Write/Keeps.antt =====
-- `writeAttributeText` keeps the values of all attributes.
use mathlib.Core.Path.{subst}
use fastboot3ds.Base.{
  ℕ, suc, ◌<◌, ◌≡◌, inl, inr, refl, ap, ◌∙◌, Bool, true, false, Option, some, none, List, [], ◌∷◌,
  map, Bytes, length, set, get_or-set_self, get_or-set_ne, length-set, ltb, ◌==◌, if◌then◌else◌,
  Bool-cases, Option-cases, arith, add32, sub32,
}
use fastboot3ds.Config.{Config, Attribute, attribute, no_attribute, buffer, key_text, max_file_size}
use fastboot3ds.Config.Edit.{
  strlen, move_pointer, write_add_definition_text, write_update_definition_text,
  write_attribute_text,
}
use fastboot3ds.Config.Edit.Others.{attribute-map}

-- The same values, and as many attributes.
pub record SameValues (attrs attrs' : List Attribute) : Type 0 where
  pub count : length attrs' ≡ length attrs
  pub values : (key : ℕ) → (attribute attrs' key).value ≡ (attribute attrs key).value

SameValues-refl : (attrs : List Attribute) → SameValues attrs attrs
SameValues-refl attrs = record { count = refl; values = λ key. refl }

length-map :
    (f : Attribute → Attribute) (attrs : List Attribute) → length (map f attrs) ≡ length attrs
length-map f [] = refl
length-map f (a ∷ attrs) = ap suc (length-map f attrs)

value-choice :
    (attr moved : Attribute) (c : Bool)
    → moved.value ≡ attr.value
    → (if c then moved else attr).value ≡ attr.value
value-choice attr moved true e = e
value-choice attr moved false e = refl

value-move_pointer :
    (text diff : ℕ) (attr : Attribute) → (move_pointer text diff attr).value ≡ attr.value
unfolding move_pointer
value-move_pointer text diff attr = elim (Option-cases (attr.text_data)) [
  | inl empty ↦ rw (move_pointer, empty) refl
  | inr (t, e) ↦
      rw (move_pointer, e)
        (value-choice attr (record attr { text_data = some (add32 t diff) }) (ltb text t) refl)
]

SameValues-moved :
    (text diff : ℕ) (attrs : List Attribute) → SameValues attrs (map (move_pointer text diff) attrs)
unfolding move_pointer
SameValues-moved text diff attrs = record {
  count = length-map (move_pointer text diff) attrs;
  values = λ key.
      ap (λ a. a.value) (attribute-map (move_pointer text diff) attrs key refl)
      ∙ value-move_pointer text diff (attribute attrs key);
}

-- The memory for the part of the buffer behind a text at `text` of `n` bytes, with the NUL.
abbrev pub backup_size : ℕ → ℕ → Bytes → ℕ
backup_size text n buf = add32 (sub32 (sub32 (strlen buf) text) n) 1

module _ (alloc : ℕ → Bool) where
  -- What `writeUpdateDefinitionText` comes to: no memory for the part behind the text, or
  -- attributes with the same values.
  data Updated (text n : ℕ) (buf : Bytes) (attrs : List Attribute)
      : Option (ℕ × Bytes × List Attribute) → Type 0 where
    no_memory : alloc (backup_size text n buf) ≡ false → Updated text n buf attrs none
    updated :
        {m : ℕ} {buf' : Bytes} {attrs' : List Attribute}
        → SameValues attrs attrs'
        → Updated text n buf attrs (some (m, buf', attrs'))

  write_update_definition_text-Updated :
      (text n : ℕ) (new buf : Bytes) (attrs : List Attribute)
      → Updated text n buf attrs (write_update_definition_text alloc text n new buf attrs)
  unfolding write_update_definition_text
  write_update_definition_text-Updated text n new buf attrs =
      let same = SameValues-refl attrs in
      let moved = SameValues-moved text (sub32 (length new) n) attrs in
      elim (Bool-cases (ltb (sub32 max_file_size (strlen buf)) (length new))) [
        | inl full ↦ rw full (updated same)
        | inr fits ↦ elim (Bool-cases (sub32 (length new) n == 0)) [
          | inl equal ↦ rw (fits, equal) (updated same)
          | inr other ↦ elim (Bool-cases (ltb n (length new))) [
            | inl longer ↦ elim (Bool-cases (alloc (backup_size text n buf))) [
              | inl got ↦ rw (fits, other, longer, got) (updated moved)
              | inr failed ↦ rw (fits, other, longer, failed) (no_memory failed)
            ]
            | inr shorter ↦ rw (fits, other, shorter) (updated moved)
          ]
        ]
      ]

  -- The configuration behind a write of text: the values and what else is no text are as before.
  pub record SameData (c c' : Config) : Type 0 where
    pub same_values : SameValues c.attributes c'.attributes
    pub same_loaded : c'.loaded ≡ c.loaded
    pub same_dirty : c'.dirty ≡ c.dirty

  pub data Kept (key : ℕ) (c : Config) : Option Config → Type 0 where
    kept_no_memory :
        (text : ℕ)
        → (attribute c.attributes key).text_data ≡ some text
        → alloc (backup_size text (attribute c.attributes key).text_length (buffer c)) ≡ false
        → Kept key c none
    kept : {c' : Config} → SameData c c' → Kept key c (some c')

  -- An attribute's text is stored.
  SameValues-set :
      (attrs : List Attribute) (key : ℕ) (attr : Attribute)
      → key < length attrs
      → attr.value ≡ (attribute attrs key).value
      → SameValues attrs (set attrs key attr)
  SameValues-set attrs key attr lt e = record {
    count = length-set attrs key attr;
    values = λ other. elim (Bool-cases (key == other)) [
      | inl same ↦
          let eq : key ≡ other = ground (arith, same) in
          subst (λ k. (attribute (set attrs key attr) k).value ≡ (attribute attrs k).value) eq
            (ap (λ a. a.value) (get_or-set_self attrs key attr no_attribute lt) ∙ e)
      | inr differs ↦
          ap (λ a. a.value)
            (get_or-set_ne attrs key other attr no_attribute (ground (arith, differs)))
    ];
  }

  SameValues-trans : (a b c : List Attribute) → SameValues a b → SameValues b c → SameValues a c
  SameValues-trans a b c h k = record {
    count = k.count ∙ h.count;
    values = λ key. k.values key ∙ h.values key;
  }

  after_update :
      (key text : ℕ) (c : Config) (o : Option (ℕ × Bytes × List Attribute))
      → key < length c.attributes
      → (attribute c.attributes key).text_data ≡ some text
      → Updated text (attribute c.attributes key).text_length (buffer c) c.attributes o
      → Kept key c (elim o [
        | none ↦ none
        | some r ↦
            let attr' = record (attribute (r.2) key) { text_length = r.0 } in
            some (record c { attributes = set (r.2) key attr'; filebuf = some (r.1) })
      ])
  after_update key text c _ lt there (no_memory failed) = kept_no_memory text there failed
  after_update key text c (some (n, buf, attrs')) lt there (updated same) = kept (record {
    same_values = SameValues-trans c.attributes attrs' _ same (
        SameValues-set attrs' key (record (attribute attrs' key) { text_length = n })
          (omega (arith, lt, same.count)) refl);
    same_loaded = refl;
    same_dirty = refl;
  })

  pub write_attribute_text-Kept :
      (key : ℕ) (new : Bytes) (c : Config)
      → key < length c.attributes
      → Kept key c (write_attribute_text alloc key new c)
  unfolding write_attribute_text
  write_attribute_text-Kept key new c lt =
      elim (Option-cases ((attribute c.attributes key).text_data)) [
        | inl empty ↦
            rw (write_attribute_text, empty)
              (kept (record {
                same_values =
                    SameValues-set c.attributes key
                      (record (attribute c.attributes key) {
                        text_data = (write_add_definition_text (key_text key) new (buffer c)).0;
                        text_length = length new;
                      })
                      lt refl;
                same_loaded = refl;
                same_dirty = refl;
              }))
        | inr (t, e) ↦
            rw (write_attribute_text, e)
              (after_update key t c
                (write_update_definition_text alloc t ((attribute c.attributes key).text_length) new
                  (buffer c) c.attributes)
                lt e
                (write_update_definition_text-Updated t ((attribute c.attributes key).text_length)
                  new (buffer c) c.attributes))
      ]
