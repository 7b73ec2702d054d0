-- ===== src/Config/Scan/Lines.antt =====
-- `findNextDefinition` on a line that `writeAddDefinitionText` printed.
use fastboot3ds.Base.{
  ℕ, zero, suc, ◌+◌, ◌<◌, ◌≡◌, ◌≢◌, refl, ap, ◌∙◌, false, some, [], ◌∷◌, ◌++◌, append_assoc, Bytes,
  length, length-append, get_or, take, drop, ◌==◌, arith, take-append_length, drop-append,
}
use fastboot3ds.Config.{num_keys, key_text}
use fastboot3ds.Config.Scan.{
  is_eol, match_key, skip_spaces, skip_line, round, definition, find_next_definition,
  text_length_of, parse_definition,
}
use fastboot3ds.Config.Edit.{definition_line}
use fastboot3ds.Config.Scan.Keys.{match_key-key_text, key_text-start}

-- A text without NUL and without a byte that ends a line.
unfoldable pub IsLine : Bytes → Type 0
IsLine [] = Unit {0}
IsLine (c ∷ cs) = (c ≢ 0) × (is_eol c ≡ false) × IsLine cs

-- A text that does not begin with a space.
unfoldable pub IsTrimmed : Bytes → Type 0
IsTrimmed [] = Unit {0}
IsTrimmed (c ∷ cs) = c ≢ b' '

text_length_of-append :
    (text rest : Bytes) → IsLine text → text_length_of (text ++ (0x0D ∷ rest)) ≡ length text
unfolding text_length_of IsLine is_eol
text_length_of-append [] rest line = refl
text_length_of-append (c ∷ cs) rest line =
    rw (line.1) (ground (arith, line.0, text_length_of-append cs rest line.2))

skip_line-append :
    (text rest : Bytes) → IsLine text → skip_line (text ++ (0x0D ∷ rest)) ≡ length text + 1
unfolding skip_line IsLine is_eol
skip_line-append [] rest line = refl
skip_line-append (c ∷ cs) rest line =
    rw (line.1) (ground (arith, line.0, skip_line-append cs rest line.2))

skip_spaces-append : (text rest : Bytes) → IsTrimmed text → skip_spaces (text ++ (0x0D ∷ rest)) ≡ 0
unfolding skip_spaces IsTrimmed
skip_spaces-append [] rest trimmed = refl
skip_spaces-append (c ∷ cs) rest trimmed = ground (arith, trimmed)

-- One round where a key, a space, the sign and a space follow one another.
round_of :
    (buf : Bytes) (cur key n l : ℕ)
    → match_key (drop cur buf) ≡ some (key, n)
    → skip_spaces (drop (cur + n) buf) ≡ 1
    → get_or buf (cur + n + 1) 0 ≡ b'='
    → skip_spaces (drop (cur + n + 1 + 1) buf) ≡ 1
    → skip_line (drop (cur + n + 1 + 1 + 1) buf) ≡ l
    → round buf cur ≡ (some (key, cur + n + 1 + 1 + 1), cur + n + 1 + 1 + 1 + l)
unfolding round
round_of buf cur key n l m space sign space' end =
    rw (round, m) (rw space (rw (sign, space') (rw end refl)))

pub get_or-drop : (buf : Bytes) (n d : ℕ) → get_or buf n d ≡ get_or (drop n buf) 0 d
get_or-drop [] zero d = refl
get_or-drop [] (suc n) d = refl
get_or-drop (x ∷ xs) zero d = refl
get_or-drop (x ∷ xs) (suc n) d = get_or-drop xs n d

find_of :
    (buf : Bytes) (cur fuel key text next : ℕ)
    → (get_or buf cur 0 == 0) ≡ false
    → round buf cur ≡ (some (key, text), next)
    → find_next_definition (suc fuel) buf cur ≡ definition key text next
unfolding find_next_definition
find_of buf cur fuel key text next go r =
    rw (find_next_definition, go, r) (ap (λ p. definition key text (p.1)) r)

module _ (key : ℕ) (text before rest : Bytes) (lt : key < num_keys) (line : IsLine text)
    (trimmed : IsTrimmed text) where
  abbrev buf : Bytes
  buf = before ++ (definition_line (key_text key) text ++ rest)

  at_key :
      drop (length before) buf
      ≡ key_text key ++ (b' ' ∷ (0x3D ∷ (b' ' ∷ (text ++ (0x0D ∷ (0x0A ∷ rest))))))
  unfolding definition_line
  at_key =
      drop-append before (definition_line (key_text key) text ++ rest) (length before) 0
        (omega arith)
      ∙ regroup
    where
      regroup :
          definition_line (key_text key) text ++ rest
          ≡ key_text key ++ (b' ' ∷ (0x3D ∷ (b' ' ∷ (text ++ (0x0D ∷ (0x0A ∷ rest))))))
      regroup = simp (append_assoc)

  behind_key :
      (m n : ℕ)
      → m ≡ length before + length (key_text key) + n
      → drop m buf ≡ drop n (b' ' ∷ (0x3D ∷ (b' ' ∷ (text ++ (0x0D ∷ (0x0A ∷ rest))))))
  unfolding definition_line
  behind_key m n e =
      ap (drop m) regroup
      ∙ drop-append (before ++ key_text key)
          (b' ' ∷ (0x3D ∷ (b' ' ∷ (text ++ (0x0D ∷ (0x0A ∷ rest)))))) m n
          (omega (arith, e, length-append before (key_text key)))
    where
      regroup :
          buf
          ≡ (before ++ key_text key) ++ (b' ' ∷ (0x3D ∷ (b' ' ∷ (text ++ (0x0D ∷ (0x0A ∷ rest))))))
      regroup = simp (append_assoc)

  round-definition_line : round buf (length before) ≡ (
    some (key, length before + length (key_text key) + 3),
    length before + length (key_text key) + 3 + length text + 1,
  )
  unfolding skip_spaces
  round-definition_line =
      let at = length before + length (key_text key) in
      let spaces = skip_spaces-append text (0x0A ∷ rest) trimmed in
      round_of buf (length before) key (length (key_text key)) (length text + 1)
        (ap match_key at_key
          ∙ match_key-key_text key (0x3D ∷ (b' ' ∷ (text ++ (0x0D ∷ (0x0A ∷ rest))))) lt)
        (ap skip_spaces (behind_key at 0 (omega arith)))
        (get_or-drop buf (at + 1) 0 ∙ ap (λ b. get_or b 0 0) (behind_key (at + 1) 1 refl))
        (ap skip_spaces (behind_key (at + 1 + 1) 2 (omega arith)) ∙ ap suc spaces)
        (ap skip_line (behind_key (at + 1 + 1 + 1) 3 (omega arith))
          ∙ skip_line-append text (0x0A ∷ rest) line)
      ∙ (let start : at + 1 + 1 + 1 ≡ at + 3 = omega arith in
          let next : at + 3 + (length text + 1) ≡ at + 3 + length text + 1 = omega arith in
          rw start (rw next refl))

  -- `findNextDefinition` at the beginning of a line that was printed for a key.
  pub find_next_definition-definition_line :
      (fuel : ℕ)
      → (find_next_definition (suc fuel) buf (length before)
          ≡ definition key
              (length before + length (key_text key) + 3)
              (length before + length (key_text key) + 3 + length text + 1))
        × (parse_definition buf (length before + length (key_text key) + 3) ≡ length text)
        × (take (length text) (drop (length before + length (key_text key) + 3) buf) ≡ text)
  unfolding find_next_definition parse_definition
  find_next_definition-definition_line fuel =
      let at_text = behind_key (length before + length (key_text key) + 3) 3 refl in
      (
        find_of buf (length before) fuel key (length before + length (key_text key) + 3)
            (length before + length (key_text key) + 3 + length text + 1)
            (ap (λ c. c == 0) (get_or-drop buf (length before) 0 ∙ ap (λ b. get_or b 0 0) at_key)
              ∙ key_text-start key _ lt)
            round-definition_line,
        ap text_length_of at_text ∙ text_length_of-append text (0x0A ∷ rest) line,
        ap (take (length text)) at_text
            ∙ take-append_length text (0x0D ∷ (0x0A ∷ rest)) (length text) refl,
      )
