-- ===== src/Config/Scan/Texts.antt =====
-- The texts that `parseConfigFile` finds are the texts that were printed.
use mathlib.Core.Path.{subst}
use fastboot3ds.Base.{
  ℕ, zero, suc, ◌+◌, ◌≤◌, ◌<◌, ◌≡◌, inl, inr, refl, ap, ◌∙◌, sym, false, Option, some, none, List,
  [], ◌∷◌, ◌++◌, append_assoc, Bytes, length, length-append, Option-cases, get_or-set_self,
  get_or-set_ne, length-set, take, drop, replicate, ◌==◌, if◌then◌else◌, Bool-cases, arith,
}
use fastboot3ds.Config.{Attribute, attribute, no_attribute, num_keys, key_text}
use fastboot3ds.Config.Scan.{parse_definitions}
use fastboot3ds.Config.Scan.Lines.{find_next_definition-definition_line}
use fastboot3ds.Config.Scan.Entries.{
  entry, AreEntries, no_entries, entries, printed, printed-cons, recorded, recorded-cons,
  first_text,
}
use fastboot3ds.Config.Scan.Pass.{parse_definitions-printed}
use fastboot3ds.Config.Edit.{definition_line}
use fastboot3ds.Config.Edit.Add.{length-definition_line}

-- The text of an attribute, none where the key has no definition.
unfoldable pub found_text : Bytes → Attribute → Option Bytes
found_text buf attr = elim (attr.text_data) [
  | none ↦ none
  | some t ↦ some (take attr.text_length (drop t buf))
]

-- The first text of a key.
unfoldable pub lookup : ℕ → List (ℕ × Bytes) → Option Bytes
lookup key [] = none
lookup key (e ∷ es) = if e.0 == key then some (e.1) else lookup key es

-- The first of two results that is one.
unfoldable or_else : Option Bytes → Option Bytes → Option Bytes
or_else none b = b
or_else (some a) b = some a

found_none : (buf : Bytes) (attr : Attribute) → attr.text_data ≡ none → found_text buf attr ≡ none
unfolding found_text
found_none buf attr e = ap (λ o. found_text buf (record attr { text_data = o })) e

found_some :
    (buf : Bytes) (attr : Attribute) (t : ℕ)
    → attr.text_data ≡ some t
    → found_text buf attr ≡ some (take attr.text_length (drop t buf))
unfolding found_text
found_some buf attr t e = ap (λ o. found_text buf (record attr { text_data = o })) e

-- The attributes after one entry, where its text stands in the buffer.
first_text_self :
    (buf text : Bytes) (attrs : List Attribute) (key at : ℕ)
    → key < length attrs
    → take (length text) (drop at buf) ≡ text
    → found_text buf (attribute (first_text attrs key at (length text)) key)
      ≡ or_else (found_text buf (attribute attrs key)) (some text)
unfolding first_text found_text or_else
first_text_self buf text attrs key at lt e = elim (Option-cases ((attribute attrs key).text_data)) [
  | inl empty ↦
      let new = record (attribute attrs key) { text_data = some at; text_length = length text } in
      rw (first_text, empty)
        (ap (found_text buf) (get_or-set_self attrs key new no_attribute lt)
          ∙ ap some e
          ∙ sym (ap (λ o. or_else o (some text)) (found_none buf (attribute attrs key) empty)))
  | inr (t, old) ↦
      rw (first_text, old)
        (found_some buf (attribute attrs key) t old
          ∙ sym (ap (λ o. or_else o (some text)) (found_some buf (attribute attrs key) t old)))
]

first_text_other :
    (attrs : List Attribute) (key other at n : ℕ)
    → (key == other) ≡ false
    → attribute (first_text attrs key at n) other ≡ attribute attrs other
unfolding first_text
first_text_other attrs key other at n ne = elim (Option-cases ((attribute attrs key).text_data)) [
  | inl empty ↦
      rw (first_text, empty)
        (get_or-set_ne attrs key other
          (record (attribute attrs key) { text_data = some at; text_length = n }) no_attribute
          (ground (arith, ne)))
  | inr (t, old) ↦ rw (first_text, old) refl
]

length-first_text :
    (attrs : List Attribute) (key at n : ℕ) → length (first_text attrs key at n) ≡ length attrs
unfolding first_text
length-first_text attrs key at n = elim (Option-cases ((attribute attrs key).text_data)) [
  | inl empty ↦
      rw (first_text, empty)
        (length-set attrs key
          (record (attribute attrs key) { text_data = some at; text_length = n }))
  | inr (t, old) ↦ rw (first_text, old) refl
]

or_else_assoc : (a b c : Option Bytes) → or_else (or_else a b) c ≡ or_else a (or_else b c)
unfolding or_else
or_else_assoc none b c = refl
or_else_assoc (some x) b c = refl

or_else-none : (a : Option Bytes) → or_else a none ≡ a
unfolding or_else
or_else-none none = refl
or_else-none (some x) = refl

recorded_text :
    (es : List (ℕ × Bytes)) (before rest buf : Bytes) (at : ℕ) (attrs : List Attribute) (key : ℕ)
    → AreEntries es
    → buf ≡ before ++ (printed es ++ rest)
    → at ≡ length before
    → num_keys ≤ length attrs
    → found_text buf (attribute (recorded at es attrs) key)
      ≡ or_else (found_text buf (attribute attrs key)) (lookup key es)
unfolding printed recorded lookup or_else
recorded_text [] before rest buf at attrs key no_entries e here long =
    sym (or_else-none (found_text buf (attribute attrs key)))
recorded_text ((k, text) ∷ es) before rest buf at attrs key (entries (entry lt line trimmed) all) e
      here long =
    let t = at + length (key_text k) + 3 in
    let shape = e ∙ ap (λ r. before ++ r) (printed-cons (k, text) es rest) in
    let stands : take (length text) (drop t buf) ≡ text =
      ap (λ b. take (length text) (drop t b)) shape
      ∙ ap
          (λ n. take (length text) (
            drop (n + length (key_text k) + 3)
              (before ++ (definition_line (key_text k) text ++ (printed es ++ rest)))))
          here
      ∙ (find_next_definition-definition_line k text before (printed es ++ rest) lt line trimmed
          0).2 in
    let again =
      recorded_text es (before ++ definition_line (key_text k) text) rest buf (t + length text + 2)
        (first_text attrs k t (length text)) key all
        (shape ∙ sym (append_assoc before (definition_line (key_text k) text) (printed es ++ rest)))
        (omega (
          arith,
          here,
          length-append before (definition_line (key_text k) text),
          length-definition_line (key_text k) text,
        ))
        (omega (arith, long, length-first_text attrs k t (length text))) in
    ap (λ l. found_text buf (attribute l key)) (recorded-cons at k text es attrs)
    ∙ again
    ∙ elim (Bool-cases (k == key)) [
      | inl same ↦
          let eq : k ≡ key = ground (arith, same) in
          rw same (
            ap (λ o. or_else o (lookup key es))
              (subst
                (λ x.
                  found_text buf (attribute (first_text attrs k t (length text)) x)
                  ≡ or_else (found_text buf (attribute attrs x)) (some text))
                eq (first_text_self buf text attrs k t (omega (arith, lt, long)) stands))
            ∙ or_else_assoc (found_text buf (attribute attrs key)) (some text) (lookup key es))
      | inr other ↦ rw other (
          ap (λ a. or_else (found_text buf a) (lookup key es))
            (first_text_other attrs k key t (length text) other))
    ]

no_attributes :
    (buf : Bytes) (n key : ℕ) → found_text buf (attribute (replicate n no_attribute) key) ≡ none
unfolding found_text
no_attributes buf zero key = refl
no_attributes buf (suc n) zero = refl
no_attributes buf (suc n) (suc key) = no_attributes buf n key

-- The first pass of `parseConfigFile` over the lines of entries, with the NUL behind them, comes
-- to its end, and the text of each key is the first one that the entries have for it, none
-- where they have none. The keys are those of the program, and a text has no NUL and no line
-- end, and does not begin with a space.
pub parse_definitions-printed_lem :
    (es : List (ℕ × Bytes)) (junk : Bytes)
    → AreEntries es
    → (attrs : List Attribute) × (parse_definitions
          (suc (length (printed es ++ (0 ∷ junk))))
          (printed es ++ (0 ∷ junk))
          0
          (replicate num_keys no_attribute)
        ≡ some attrs)
      × ((key : ℕ) → found_text (printed es ++ (0 ∷ junk)) (attribute attrs key) ≡ lookup key es)
unfolding or_else
parse_definitions-printed_lem es junk all = (
  recorded 0 es (replicate num_keys no_attribute),
  parse_definitions-printed es junk (replicate num_keys no_attribute) all,
  λ key.
      recorded_text es [] (0 ∷ junk) (printed es ++ (0 ∷ junk)) 0 (replicate num_keys no_attribute)
        key all refl refl (omega arith)
      ∙ ap (λ o. or_else o (lookup key es)) (no_attributes (printed es ++ (0 ∷ junk)) num_keys key),
)
