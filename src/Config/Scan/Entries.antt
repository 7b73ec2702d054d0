-- ===== src/Config/Scan/Entries.antt =====
-- Entries of a configuration file, the lines that are printed for them, and what is recorded.
use fastboot3ds.Base.{
  ℕ, ◌+◌, ◌<◌, ◌≡◌, refl, ap, some, none, List, [], ◌∷◌, ◌++◌, append_assoc, Bytes, length, set,
}
use fastboot3ds.Config.{Attribute, attribute, num_keys, key_text}
use fastboot3ds.Config.Scan.{parse_definition, record_definition}
use fastboot3ds.Config.Scan.Lines.{IsLine, IsTrimmed}
use fastboot3ds.Config.Edit.{definition_line}

-- An entry is a key and a text.
pub data IsEntry : ℕ × Bytes → Type 0 where
  entry :
      {key : ℕ} {text : Bytes} → key < num_keys → IsLine text → IsTrimmed text → IsEntry (key, text)

pub data AreEntries : List (ℕ × Bytes) → Type 0 where
  no_entries : AreEntries []
  entries :
      {e : ℕ × Bytes} {es : List (ℕ × Bytes)} → IsEntry e → AreEntries es → AreEntries (e ∷ es)

-- The lines of the entries, one after another.
unfoldable pub printed : List (ℕ × Bytes) → Bytes
printed [] = []
printed (e ∷ es) = definition_line (key_text (e.0)) (e.1) ++ printed es

-- The attributes when the entries' lines begin at an offset: of each key the first text counts,
-- and it stands behind the key and the sign.
unfoldable pub recorded : ℕ → List (ℕ × Bytes) → List Attribute → List Attribute
recorded at [] attrs = attrs
recorded at (e ∷ es) attrs =
    let text = at + length (key_text (e.0)) + 3 in
    recorded (text + length (e.1) + 2) es (elim ((attribute attrs (e.0)).text_data) [
      | some old ↦ attrs
      | none ↦
          set attrs (e.0)
            (record (attribute attrs (e.0)) { text_data = some text; text_length = length (e.1) })
    ])

-- The first text of a key is the one that counts.
unfoldable pub first_text : List Attribute → ℕ → ℕ → ℕ → List Attribute
first_text attrs key text n = elim ((attribute attrs key).text_data) [
  | some old ↦ attrs
  | none ↦ set attrs key (record (attribute attrs key) { text_data = some text; text_length = n })
]

pub record_definition_eq :
    (buf : Bytes) (key text n : ℕ) (attrs : List Attribute)
    → parse_definition buf text ≡ n
    → record_definition buf key text attrs ≡ first_text attrs key text n
unfolding record_definition first_text
record_definition_eq buf key text n attrs e = ap (first_text attrs key text) e

pub recorded-cons :
    (at key : ℕ) (text : Bytes) (es : List (ℕ × Bytes)) (attrs : List Attribute)
    → recorded at ((key, text) ∷ es) attrs
      ≡ recorded
          (at + length (key_text key) + 3 + length text + 2)
          es
          (first_text attrs key (at + length (key_text key) + 3) (length text))
unfolding recorded first_text
recorded-cons at key text es attrs = refl

pub printed-cons :
    (e : ℕ × Bytes) (es : List (ℕ × Bytes)) (z : Bytes)
    → printed (e ∷ es) ++ z ≡ definition_line (key_text (e.0)) (e.1) ++ (printed es ++ z)
unfolding printed
printed-cons e es z = append_assoc (definition_line (key_text (e.0)) (e.1)) (printed es) z
