-- ===== src/Config/Values/Pads.antt =====
-- The text of a combination of buttons is read back as the same combination.
use mathlib.Core.Path.{subst}
use fastboot3ds.Base.{
  ℕ, zero, suc, ◌+◌, ◌-◌, ◌/◌, ◌%◌, ◌^◌, ◌≤◌, ◌<◌, ◌≡◌, inl, inr, refl, ap, ◌∙◌, sym, Bool, true,
  false, List, [], ◌∷◌, ◌++◌, append_assoc, Bytes, length, length-append, drop, ◌==◌, if◌then◌else◌,
  Bool-cases, arith,
}
use fastboot3ds.Config.Values.{conv_table, set_bit, parse_pad, pad_text}
use fastboot3ds.Config.Values.PadNames.{
  Follows, space, name, drop-cons, name_head, parse_name, parse_pad-done, parse_plus,
}

-- What has been pressed is followed by the end, or by a space.
Follows-pad_text :
    (v : ℕ) (ts : List Bytes) (i : ℕ) (rest : Bytes)
    → Follows rest
    → Follows (pad_text v ts i true ++ rest)
unfolding pad_text
Follows-pad_text v [] i rest f = f
Follows-pad_text v (t ∷ ts) i rest f = elim (Bool-cases (v / 2 ^ i % 2 == 1)) [
  | inl on ↦ rw on (space _)
  | inr off ↦ rw off (Follows-pad_text v ts (i + 1) rest f)
]

-- The bits that the loop sets for the buttons of a part of the table.
bits_from : ℕ → List Bytes → ℕ → ℕ → ℕ
bits_from v [] i acc = acc
bits_from v (t ∷ ts) i acc =
    bits_from v ts (i + 1) (if v / 2 ^ i % 2 == 1 then set_bit acc i else acc)

in_table : (i : ℕ) → i < length conv_table → i < 12
unfolding conv_table
in_table i lt = lt

parse_named :
    (fuel i : ℕ) (t s rest : Bytes) (acc : ℕ)
    → i < 12
    → name i ≡ t
    → Follows (s ++ rest)
    → length (t ++ s) ≤ fuel
    → parse_pad fuel ((t ++ s) ++ rest) (length (t ++ s)) acc
      ≡ parse_pad (fuel - 1) (s ++ rest) (length s) (set_bit acc i)
parse_named fuel i t s rest acc lt same f le =
    let (ne, long) = name_head i rest lt in
    let sum : length (t ++ s) ≡ length t + length s = length-append t s in
    let long' : 0 < length t = subst (λ x. 0 < length x) same long in
    let left : length (t ++ s) - length t ≡ length s = omega arith in
    ap (λ x. parse_pad fuel x (length (t ++ s)) acc)
      (append_assoc t s rest ∙ ap (λ x. x ++ (s ++ rest)) (sym same))
    ∙ parse_name fuel i (s ++ rest) (length (t ++ s)) acc lt f (omega arith) (omega arith)
    ∙ ap (λ x. parse_pad (fuel - 1) (s ++ rest) (length (t ++ s) - length x) (set_bit acc i)) same
    ∙ ap (λ k. parse_pad (fuel - 1) (s ++ rest) k (set_bit acc i)) left

shorter :
    (fuel i : ℕ) (t s : Bytes) → i < 12 → name i ≡ t → length (t ++ s) ≤ fuel → length s ≤ fuel - 1
shorter fuel i t s lt same le =
    let long' : 0 < length t = subst (λ x. 0 < length x) same (name_head i [] lt).1 in
    omega (arith, length-append t s)

parse_pad_text :
    (v : ℕ) (ts : List Bytes) (i : ℕ) (added : Bool) (rest : Bytes) (fuel acc : ℕ)
    → drop i conv_table ≡ ts
    → Follows rest
    → length (pad_text v ts i added) ≤ fuel
    → parse_pad fuel (pad_text v ts i added ++ rest) (length (pad_text v ts i added)) acc
      ≡ bits_from v ts i acc
unfolding pad_text bits_from
parse_pad_text v [] i added rest fuel acc e f le = parse_pad-done fuel rest acc
parse_pad_text v (t ∷ ts) i false rest fuel acc e f le =
    let (lt, same, later) = drop-cons conv_table i t ts e in
    elim (Bool-cases (v / 2 ^ i % 2 == 1)) [
      | inr off ↦ rw off (parse_pad_text v ts (i + 1) false rest fuel acc later f (rw off at le))
      | inl on ↦ rw on (
          parse_named fuel i t (pad_text v ts (i + 1) true) rest acc (in_table i lt) same
            (Follows-pad_text v ts (i + 1) rest f) (rw on at le)
          ∙ parse_pad_text v ts (i + 1) true rest (fuel - 1) (set_bit acc i) later f
              (shorter fuel i t (pad_text v ts (i + 1) true) (in_table i lt) same (rw on at le)))
    ]
parse_pad_text v (t ∷ ts) i true rest fuel acc e f le =
    let (lt, same, later) = drop-cons conv_table i t ts e in
    elim (Bool-cases (v / 2 ^ i % 2 == 1)) [
      | inr off ↦ rw off (parse_pad_text v ts (i + 1) true rest fuel acc later f (rw off at le))
      | inl on ↦
          let s = t ++ pad_text v ts (i + 1) true in
          let three : suc (suc (suc (length s))) - 3 ≡ length s = omega arith in
          let le' : 3 + length s ≤ fuel = omega (arith, rw on at le) in
          rw on (
            parse_plus fuel (s ++ rest) (suc (suc (suc (length s)))) acc (omega arith) (omega arith)
            ∙ ap (λ k. parse_pad (fuel - 3) (s ++ rest) k acc) three
            ∙ parse_named (fuel - 3) i t (pad_text v ts (i + 1) true) rest acc (in_table i lt) same
                (Follows-pad_text v ts (i + 1) rest f) (omega arith)
            ∙ parse_pad_text v ts (i + 1) true rest (fuel - 3 - 1) (set_bit acc i) later f (
                shorter (fuel - 3) i t (pad_text v ts (i + 1) true) (in_table i lt) same
                  (omega arith)))
    ]

-- With the bits below bit `i` set already, that bit is added.
next_bit :
    (v i acc : ℕ)
    → i < 12
    → acc ≡ v % 2 ^ i
    → (if v / 2 ^ i % 2 == 1 then set_bit acc i else acc) ≡ v % 2 ^ (i + 1)
unfolding set_bit
next_bit v zero acc lt e = ground arith
next_bit v (suc zero) acc lt e = ground arith
next_bit v (suc (suc zero)) acc lt e = ground arith
next_bit v (suc (suc (suc zero))) acc lt e = ground arith
next_bit v (suc (suc (suc (suc zero)))) acc lt e = ground arith
next_bit v (suc (suc (suc (suc (suc zero))))) acc lt e = ground arith
next_bit v (suc (suc (suc (suc (suc (suc zero)))))) acc lt e = ground arith
next_bit v (suc (suc (suc (suc (suc (suc (suc zero))))))) acc lt e = ground arith
next_bit v (suc (suc (suc (suc (suc (suc (suc (suc zero)))))))) acc lt e = ground arith
next_bit v (suc (suc (suc (suc (suc (suc (suc (suc (suc zero))))))))) acc lt e = ground arith
next_bit v (suc (suc (suc (suc (suc (suc (suc (suc (suc (suc zero)))))))))) acc lt e = ground arith
next_bit v (suc (suc (suc (suc (suc (suc (suc (suc (suc (suc (suc zero))))))))))) acc lt e =
    ground arith
next_bit v (suc (suc (suc (suc (suc (suc (suc (suc (suc (suc (suc (suc i)))))))))))) acc lt e =
    absurd (omega arith)

bits_from_all : (v : ℕ) → bits_from v conv_table 0 0 ≡ v % 2 ^ 12
unfolding bits_from conv_table
bits_from_all v = next_bit v 11 _ (omega arith) (
    next_bit v 10 _ (omega arith) (
      next_bit v 9 _ (omega arith) (
        next_bit v 8 _ (omega arith) (
          next_bit v 7 _ (omega arith) (
            next_bit v 6 _ (omega arith) (
              next_bit v 5 _ (omega arith) (
                next_bit v 4 _ (omega arith) (
                  next_bit v 3 _ (omega arith) (
                    next_bit v 2 _ (omega arith) (
                      next_bit v 1 _ (omega arith)
                        (next_bit v 0 0 (omega arith) (omega arith))))))))))))

-- The text that `writeBootOptionPad` makes of a combination of the twelve buttons is read back by
-- `parseBootOptionPad` as the same combination, with the end of the line or of the text behind it,
-- or a space.
pub parse_pad-pad_text :
    (v : ℕ) (rest : Bytes)
    → v < 2 ^ 12
    → Follows rest
    → let text = pad_text v conv_table 0 false in
      parse_pad (length text) (text ++ rest) (length text) 0 ≡ v
parse_pad-pad_text v rest lt f =
    parse_pad_text v conv_table 0 false rest (length (pad_text v conv_table 0 false)) 0 refl f
      (omega arith)
    ∙ bits_from_all v
    ∙ omega arith
