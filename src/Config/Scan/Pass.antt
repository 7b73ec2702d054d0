-- ===== src/Config/Scan/Pass.antt =====
-- The first pass of `parseConfigFile` on lines that were printed.
use fastboot3ds.Base.{
  ℕ, zero, suc, ◌+◌, ◌≤◌, ◌<◌, ◌≡◌, refl, ap, ◌∙◌, sym, true, false, some, none, List, [], ◌∷◌,
  ◌++◌, append_assoc, Bytes, length, length-append, get_or, drop, ◌==◌, arith, codes, drop-append,
}
use fastboot3ds.Config.{Attribute, num_keys, key_text, key_strings}
use fastboot3ds.Config.Scan.{
  is_eol, starts_with, match_from, match_key, skip_line, round, definition, no_more,
  find_next_definition, parse_definition, record_definition, parse_definitions,
}
use fastboot3ds.Config.Scan.Lines.{
  IsLine, IsTrimmed, find_next_definition-definition_line, get_or-drop,
}
use fastboot3ds.Config.Edit.{definition_line}
use fastboot3ds.Config.Scan.Entries.{
  entry, AreEntries, no_entries, entries, printed, recorded, first_text, record_definition_eq,
  recorded-cons, printed-cons,
}

match_line_feed : (rest : Bytes) → match_key (0x0A ∷ rest) ≡ none
unfolding match_key match_from starts_with key_strings
match_line_feed rest = refl

round-line_feed :
    (buf rest : Bytes) (cur : ℕ) → drop cur buf ≡ 0x0A ∷ rest → round buf cur ≡ (none, cur + 1)
unfolding round skip_line is_eol
round-line_feed buf rest cur e =
    let m : match_key (drop cur buf) ≡ none = ap match_key e ∙ match_line_feed rest in
    rw (round, m) (ap (λ b. (none, cur + skip_line b)) e)

find-line_feed :
    (fuel : ℕ) (buf rest : Bytes) (cur : ℕ)
    → drop cur buf ≡ 0x0A ∷ rest
    → find_next_definition (suc fuel) buf cur ≡ find_next_definition fuel buf (cur + 1)
unfolding find_next_definition
find-line_feed fuel buf rest cur e =
    let go : (get_or buf cur 0 == 0) ≡ false =
      ap (λ c. c == 0) (get_or-drop buf cur 0 ∙ ap (λ b. get_or b 0 0) e) in
    let r = round-line_feed buf rest cur e in
    rw (find_next_definition, go)
      (ap
        (λ p. elim (p.0) [
          | some d ↦ definition d.0 d.1 (p.1)
          | none ↦ find_next_definition fuel buf (p.1)
        ])
        r)

find-end :
    (fuel : ℕ) (buf rest : Bytes) (cur : ℕ)
    → drop cur buf ≡ 0 ∷ rest
    → find_next_definition (suc fuel) buf cur ≡ no_more
unfolding find_next_definition
find-end fuel buf rest cur e =
    let stop : (get_or buf cur 0 == 0) ≡ true =
      ap (λ c. c == 0) (get_or-drop buf cur 0 ∙ ap (λ b. get_or b 0 0) e) in
    rw (find_next_definition, stop) refl

-- What stands in front of a line: nothing, or the line feed of the line before.
data IsLead : Bytes → Type 0 where
  at_start : IsLead []
  behind_line : IsLead (0x0A ∷ [])

find-lead :
    (n : ℕ) (lead before line buf : Bytes)
    → 0 < n
    → IsLead lead
    → buf ≡ before ++ (lead ++ line)
    → (f : ℕ) × (find_next_definition (suc n) buf (length before)
        ≡ find_next_definition (suc f) buf (length (before ++ lead)))
find-lead n [] before line buf pos at_start e =
    (n, ap (find_next_definition (suc n) buf) (omega (arith, length-append before [])))
find-lead zero _ before line buf pos behind_line e = absurd (omega arith)
find-lead (suc n) _ before line buf pos behind_line e = (
  n,
  find-line_feed (suc n) buf line (length before) (
        ap (drop (length before)) e
        ∙ drop-append before (0x0A ∷ line) (length before) 0 (omega arith))
      ∙ ap (find_next_definition (suc n) buf) (sym (length-append before (0x0A ∷ []))),
)

parse_end :
    (fuel : ℕ) (buf : Bytes) (cur : ℕ) (attrs : List Attribute)
    → find_next_definition (suc (length buf)) buf cur ≡ no_more
    → parse_definitions (suc fuel) buf cur attrs ≡ some attrs
unfolding parse_definitions
parse_end fuel buf cur attrs e = rw (parse_definitions, e) refl

parse_step :
    (fuel : ℕ) (buf : Bytes) (cur key text next : ℕ) (attrs : List Attribute)
    → find_next_definition (suc (length buf)) buf cur ≡ definition key text next
    → parse_definitions (suc fuel) buf cur attrs
      ≡ parse_definitions fuel buf next (record_definition buf key text attrs)
unfolding parse_definitions
parse_step fuel buf cur key text next attrs e = rw (parse_definitions, e) refl

nonempty :
    (before lead rest buf : Bytes) (c : ℕ) → buf ≡ before ++ (lead ++ (c ∷ rest)) → 0 < length buf
nonempty before lead rest buf c e =
    omega
      (arith, ap length e, length-append before (lead ++ (c ∷ rest)), length-append lead (c ∷ rest))

module _ (key : ℕ) (text before lead rest buf : Bytes) (lt : key < num_keys) (line : IsLine text)
    (trimmed : IsTrimmed text) (l : IsLead lead)
    (e : buf ≡ before ++ (lead ++ (definition_line (key_text key) text ++ rest)))
    (pos : 0 < length buf) where
  shape : buf ≡ (before ++ lead) ++ (definition_line (key_text key) text ++ rest)
  shape = e ∙ sym (append_assoc before lead (definition_line (key_text key) text ++ rest))

  entry_found :
      find_next_definition (suc (length buf)) buf (length before)
      ≡ definition key
          (length (before ++ lead) + length (key_text key) + 3)
          (length (before ++ lead) + length (key_text key) + 3 + length text + 1)
  entry_found =
      let found =
        find-lead (length buf) lead before (definition_line (key_text key) text ++ rest) buf pos l
          e in
      found.1
      ∙ ap (λ b. find_next_definition (suc (found.0)) b (length (before ++ lead))) shape
      ∙ (find_next_definition-definition_line key text (before ++ lead) rest lt line trimmed
          (found.0)).0

  entry_length :
      parse_definition buf (length (before ++ lead) + length (key_text key) + 3) ≡ length text
  entry_length =
      ap (λ b. parse_definition b (length (before ++ lead) + length (key_text key) + 3)) shape
      ∙ (find_next_definition-definition_line key text (before ++ lead) rest lt line trimmed 0).1

  -- What stands in front of the line feed at the end.
  abbrev in_front : Bytes
  in_front = (before ++ lead) ++ (key_text key ++ (codes " = " ++ (text ++ (0x0D ∷ []))))

  length-in_front :
      length in_front ≡ length (before ++ lead) + length (key_text key) + 3 + length text + 1
  length-in_front = omega (
    arith,
    length-append (before ++ lead) (key_text key ++ (codes " = " ++ (text ++ (0x0D ∷ [])))),
    length-append (key_text key) (codes " = " ++ (text ++ (0x0D ∷ []))),
    length-append text (0x0D ∷ []),
  )

  next_shape : buf ≡ in_front ++ ((0x0A ∷ []) ++ rest)
  unfolding definition_line
  next_shape = shape ∙ regroup
    where
      regroup :
          (before ++ lead) ++ (definition_line (key_text key) text ++ rest)
          ≡ in_front ++ ((0x0A ∷ []) ++ rest)
      regroup = simp (append_assoc)

nonempty_line :
    (before lead rest junk buf : Bytes)
    → buf ≡ before ++ (lead ++ (rest ++ (0 ∷ junk)))
    → 0 < length buf
nonempty_line before lead rest junk buf e = omega (
  arith,
  ap length e,
  length-append before (lead ++ (rest ++ (0 ∷ junk))),
  length-append lead (rest ++ (0 ∷ junk)),
  length-append rest (0 ∷ junk),
)

parse_entries :
    (fuel : ℕ) (es : List (ℕ × Bytes)) (before lead junk buf : Bytes) (attrs : List Attribute)
    → AreEntries es
    → IsLead lead
    → buf ≡ before ++ (lead ++ (printed es ++ (0 ∷ junk)))
    → length es < fuel
    → parse_definitions fuel buf (length before) attrs
      ≡ some (recorded (length (before ++ lead)) es attrs)
unfolding printed recorded
parse_entries zero es before lead junk buf attrs all l e enough = absurd (omega arith)
parse_entries (suc fuel) [] before lead junk buf attrs no_entries l e enough =
    let found =
      find-lead (length buf) lead before (0 ∷ junk) buf (nonempty before lead junk buf 0 e) l e in
    parse_end fuel buf (length before) attrs (
      found.1
      ∙ find-end (found.0) buf junk (length (before ++ lead)) (
          ap (drop (length (before ++ lead))) (e ∙ sym (append_assoc before lead (0 ∷ junk)))
          ∙ drop-append (before ++ lead) (0 ∷ junk) (length (before ++ lead)) 0 (omega arith)))
parse_entries (suc fuel) ((key, text) ∷ es) before lead junk buf attrs
      (entries (entry lt line trimmed) all) l e enough =
    let at = length (before ++ lead) + length (key_text key) + 3 in
    let rest = printed es ++ (0 ∷ junk) in
    let pos = nonempty_line before lead (printed ((key, text) ∷ es)) junk buf e in
    let e' = e ∙ ap (λ r. before ++ (lead ++ r)) (printed-cons (key, text) es (0 ∷ junk)) in
    let front = in_front key text before lead rest buf lt line trimmed l e' pos in
    let ends = length-in_front key text before lead rest buf lt line trimmed l e' pos in
    let step =
      parse_step fuel buf (length before) key at (at + length text + 1) attrs
        (entry_found key text before lead rest buf lt line trimmed l e' pos) in
    let kept =
      record_definition_eq buf key at (length text) attrs
        (entry_length key text before lead rest buf lt line trimmed l e' pos) in
    let after =
      parse_entries fuel es front (0x0A ∷ []) junk buf (first_text attrs key at (length text)) all
        behind_line (next_shape key text before lead rest buf lt line trimmed l e' pos)
        (omega (arith, enough)) in
    let further : length (front ++ (0x0A ∷ [])) ≡ at + length text + 2 =
      omega (arith, ends, length-append front (0x0A ∷ [])) in
    step
    ∙ ap (parse_definitions fuel buf (at + length text + 1)) kept
    ∙ ap (λ n. parse_definitions fuel buf n (first_text attrs key at (length text))) (sym ends)
    ∙ after
    ∙ ap (λ n. some (recorded n es (first_text attrs key at (length text)))) further
    ∙ ap some (sym (recorded-cons (length (before ++ lead)) key text es attrs))

length-printed : (es : List (ℕ × Bytes)) → length es ≤ length (printed es)
unfolding printed definition_line
length-printed [] = omega arith
length-printed ((key, text) ∷ es) = omega (
  arith,
  length-printed es,
  length-append (definition_line (key_text key) text) (printed es),
  length-append (key_text key ++ codes " = " ++ text) (0x0D ∷ (0x0A ∷ [])),
)

-- The first pass over a buffer with the lines of entries finds every one of them.
pub parse_definitions-printed :
    (es : List (ℕ × Bytes)) (junk : Bytes) (attrs : List Attribute)
    → AreEntries es
    → parse_definitions (suc (length (printed es ++ (0 ∷ junk)))) (printed es ++ (0 ∷ junk)) 0 attrs
      ≡ some (recorded 0 es attrs)
parse_definitions-printed es junk attrs all =
    parse_entries (suc (length (printed es ++ (0 ∷ junk)))) es [] [] junk (printed es ++ (0 ∷ junk))
      attrs all at_start refl
      (omega (arith, length-printed es, length-append (printed es) (0 ∷ junk)))
