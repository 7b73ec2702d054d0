-- ===== src/Config/Scan/Fuel.antt =====
-- The first pass of `parseConfigFile` comes to its end.
use fastboot3ds.Base.{
  ℕ, zero, suc, ◌+◌, ◌<◌, ◌≡◌, inl, inr, refl, Bool, true, false, ◌&&◌, Option, some, none, List,
  [], ◌∷◌, Bytes, length, get_or, drop, ltb, ◌==◌, if◌then◌else◌, Bool-cases, arith,
}
use fastboot3ds.Config.{Attribute, key_strings}
use fastboot3ds.Config.Scan.{
  starts_with, match_from, match_key, skip_line, skip_spaces, round, Found, definition, no_more,
  no_fuel, find_next_definition, record_definition, parse_definitions,
}

get_or_in : (buf : Bytes) (cur : ℕ) → (get_or buf cur 0 == 0) ≡ false → cur < length buf
get_or_in [] cur go = cc
get_or_in (x ∷ xs) zero go = omega arith
get_or_in (x ∷ xs) (suc cur) go = omega (arith, get_or_in xs cur go)

skip_line_pos :
    (buf : Bytes) (cur : ℕ) → (get_or buf cur 0 == 0) ≡ false → 0 < skip_line (drop cur buf)
unfolding skip_line
skip_line_pos [] cur go = cc
skip_line_pos (x ∷ xs) zero go = ground (arith, go)
skip_line_pos (x ∷ xs) (suc cur) go = skip_line_pos xs cur go

-- A match has a length above 0.
data IsLong : Option (ℕ × ℕ) → Type 0 where
  no_match : IsLong none
  longer : {i n : ℕ} → 0 < n → IsLong (some (i, n))

-- No string of a list is empty.
all_long : List Bytes → Bool
all_long [] = true
all_long ([] ∷ ks) = false
all_long ((c ∷ cs) ∷ ks) = all_long ks

IsLong-choice :
    (c : Bool) (i n : ℕ) (best : Option (ℕ × ℕ))
    → 0 < n
    → IsLong best
    → IsLong (if c then some (i, n) else best)
IsLong-choice true i n best pos long = longer pos
IsLong-choice false i n best pos long = long

match_from-IsLong :
    (s : Bytes) (keys : List Bytes) (i : ℕ) (best : Option (ℕ × ℕ))
    → all_long keys ≡ true
    → IsLong best
    → IsLong (match_from s keys i best)
unfolding match_from all_long
match_from-IsLong s [] i best all long = long
match_from-IsLong s ([] ∷ ks) i best all long = cc
match_from-IsLong s ((c ∷ cs) ∷ ks) i best all long = match_from-IsLong s ks (i + 1) _ all (
    IsLong-choice
      (starts_with s (c ∷ cs) && elim best [ none ↦ true | some b ↦ ltb b.1 (length (c ∷ cs)) ]) i
      (length (c ∷ cs)) best (omega arith) long)

match_key-IsLong : (s : Bytes) → IsLong (match_key s)
unfolding match_key key_strings all_long
match_key-IsLong s = match_from-IsLong s key_strings 0 none refl no_match

round_of_match :
    (buf : Bytes) (cur : ℕ) (m : Option (ℕ × ℕ))
    → match_key (drop cur buf) ≡ m
    → IsLong m
    → (get_or buf cur 0 == 0) ≡ false
    → cur < (round buf cur).1
unfolding round
round_of_match buf cur none e no_match go = rw (round, e) (omega (arith, skip_line_pos buf cur go))
round_of_match buf cur (some (i, n)) e (longer pos) go =
    rw (round, e)
      (elim (Bool-cases (get_or buf (cur + n + skip_spaces (drop (cur + n) buf)) 0 == b'=')) [
        | inl sign ↦ rw sign (omega (arith, pos))
        | inr other ↦ rw other (omega (arith, pos))
      ])

pub round_advances :
    (buf : Bytes) (cur : ℕ) → (get_or buf cur 0 == 0) ≡ false → cur < (round buf cur).1
round_advances buf cur go =
    round_of_match buf cur (match_key (drop cur buf)) refl (match_key-IsLong (drop cur buf)) go

-- What `findNextDefinition` comes to where the fuel is enough: none, or a definition inside the
-- `len` bytes and a place that is further on.
data Ends (len cur : ℕ) : Found → Type 0 where
  at_end : Ends len cur no_more
  further : {key text next : ℕ} → cur < next → cur < len → Ends len cur (definition key text next)

Ends-choice :
    (len cur : ℕ) (d : Option (ℕ × ℕ)) (next : ℕ) (rest : Found)
    → cur < next
    → cur < len
    → Ends len next rest
    → Ends len cur (elim d [ some d ↦ definition d.0 d.1 next | none ↦ rest ])
Ends-choice len cur none next rest lt inside at_end = at_end
Ends-choice len cur none next rest lt inside (further lt' inside') = further (omega arith) inside
Ends-choice len cur (some d) next rest lt inside ends = further lt inside

find_next_definition-Ends :
    (fuel : ℕ) (buf : Bytes) (cur : ℕ)
    → length buf < fuel + cur
    → 0 < fuel
    → Ends (length buf) cur (find_next_definition fuel buf cur)
unfolding find_next_definition
find_next_definition-Ends zero buf cur enough pos = absurd (omega arith)
find_next_definition-Ends (suc fuel) buf cur enough pos =
    elim (Bool-cases (get_or buf cur 0 == 0)) [
      | inl stop ↦ rw (find_next_definition, stop) at_end
      | inr go ↦
          let next = (round buf cur).1 in
          let lt : cur < next = round_advances buf cur go in
          let inside = get_or_in buf cur go in
          rw (find_next_definition, go)
            (Ends-choice (length buf) cur ((round buf cur).0) next
              (find_next_definition fuel buf next) lt inside
              (find_next_definition-Ends fuel buf next (omega (arith, enough, lt))
                (omega (arith, enough, inside))))
    ]

-- A round of the loop of the first pass, where the rounds behind it come to their end.
parse_round :
    (fuel : ℕ) (buf : Bytes) (cur : ℕ) (attrs : List Attribute) (found : Found)
    → find_next_definition (suc (length buf)) buf cur ≡ found
    → Ends (length buf) cur found
    → length buf < suc fuel + cur
    → ((next : ℕ) (after : List Attribute)
        → length buf < fuel + next
        → 0 < fuel
        → (attrs' : List Attribute) × (parse_definitions fuel buf next after ≡ some attrs'))
    → (attrs' : List Attribute) × (parse_definitions (suc fuel) buf cur attrs ≡ some attrs')
unfolding parse_definitions
parse_round fuel buf cur attrs no_more e at_end enough rest =
    (attrs, rw (parse_definitions, e) refl)
parse_round fuel buf cur attrs no_fuel e ends enough rest = elim ends [ ]
parse_round fuel buf cur attrs (definition key text next) e (further lt inside) enough rest =
    let r =
      rest next (record_definition buf key text attrs) (omega (arith, enough, lt))
        (omega (arith, enough, inside)) in
    (r.0, rw (parse_definitions, e) (r.1))

-- The loop of the first pass comes to its end, whatever stands in the buffer: fuel for one round
-- more than there are bytes behind the place where it begins is enough.
pub parse_definitions_total :
    (fuel : ℕ) (buf : Bytes) (cur : ℕ) (attrs : List Attribute)
    → length buf < fuel + cur
    → 0 < fuel
    → (attrs' : List Attribute) × (parse_definitions fuel buf cur attrs ≡ some attrs')
parse_definitions_total zero buf cur attrs enough pos = absurd (omega arith)
parse_definitions_total (suc fuel) buf cur attrs enough pos =
    parse_round fuel buf cur attrs (find_next_definition (suc (length buf)) buf cur) refl
      (find_next_definition-Ends (suc (length buf)) buf cur (omega arith) (omega arith)) enough
      (λ next after. parse_definitions_total fuel buf next after)
