-- ===== src/Config/Values/PadRoom.antt =====
-- How much room the text of a combination of buttons takes in the array of `writeBootOptionPad`.
use fastboot3ds.Base.{
  ℕ, ◌+◌, ◌-◌, ◌*◌, ◌/◌, ◌%◌, ◌^◌, ◌≤◌, ◌<◌, ◌≡◌, ◌≢◌, ◌⊎◌, ◌↔◌, inl, inr, refl, ap, ◌∙◌, sym, true,
  false, List, [], ◌∷◌, ◌++◌, Bytes, length, length-append, ◌==◌, Bool-cases, arith, codes,
}
use fastboot3ds.Config.Values.{pad_text, conv_table}

-- The bytes of the pressed buttons' names, with three bytes of a separator each.
weight : ℕ → List Bytes → ℕ → ℕ
weight v [] i = 0
weight v (t ∷ ts) i = v / 2 ^ i % 2 * (length t + 3) + weight v ts (i + 1)

weight-on : (b n w : ℕ) → (b == 1) ≡ true → b * (n + 3) + w ≡ n + 3 + w
weight-on b n w on = let one : b ≡ 1 = ground (arith, on) in rw one (omega arith)

weight-off : (v n w : ℕ) → (v % 2 == 1) ≡ false → v % 2 * (n + 3) + w ≡ w
weight-off v n w off =
    let none_pressed : v % 2 ≡ 0 = ground (arith, off) in rw none_pressed (omega arith)

length-pad_text_more :
    (v : ℕ) (ts : List Bytes) (i : ℕ) → length (pad_text v ts i true) ≡ weight v ts i
unfolding pad_text weight
length-pad_text_more v [] i = refl
length-pad_text_more v (t ∷ ts) i = elim (Bool-cases (v / 2 ^ i % 2 == 1)) [
  | inl on ↦ rw on (
      omega (
        arith,
        weight-on (v / 2 ^ i % 2) (length t) (weight v ts (i + 1)) on,
        length-pad_text_more v ts (i + 1),
        length-append (codes " + " ++ t) (pad_text v ts (i + 1) true),
        length-append (codes " + ") t,
      ))
  | inr off ↦ rw off (
      length-pad_text_more v ts (i + 1)
      ∙ sym (weight-off (v / 2 ^ i) (length t) (weight v ts (i + 1)) off))
]

length-pad_text :
    (v : ℕ) (ts : List Bytes) (i : ℕ) → length (pad_text v ts i false) ≡ weight v ts i - 3
unfolding pad_text weight
length-pad_text v [] i = refl
length-pad_text v (t ∷ ts) i = elim (Bool-cases (v / 2 ^ i % 2 == 1)) [
  | inl on ↦ rw on (
      omega (
        arith,
        weight-on (v / 2 ^ i % 2) (length t) (weight v ts (i + 1)) on,
        length-pad_text_more v ts (i + 1),
        length-append t (pad_text v ts (i + 1) true),
      ))
  | inr off ↦ rw off (
      length-pad_text v ts (i + 1)
      ∙ ap (λ n. n - 3) (sym (weight-off (v / 2 ^ i) (length t) (weight v ts (i + 1)) off)))
]

-- Bits whose weights add up to all but less than four are all set.
all_set :
    (b0 b1 b2 b3 b4 b5 b6 b7 b8 b9 b10 b11 : ℕ)
    → b0 ≤ 1
    → b1 ≤ 1
    → b2 ≤ 1
    → b3 ≤ 1
    → b4 ≤ 1
    → b5 ≤ 1
    → b6 ≤ 1
    → b7 ≤ 1
    → b8 ≤ 1
    → b9 ≤ 1
    → b10 ≤ 1
    → b11 ≤ 1
    → 67
      ≤ b0 * 4
        + (b1 * 4
            + (b2 * 9
                + (b3 * 8
                    + (b4 * 8
                        + (b5 * 7
                            + (b6 * 5
                                + (b7 * 7 + (b8 * 4 + (b9 * 4 + (b10 * 4 + (b11 * 4 + 0)))))))))))
    → (b0 ≡ 1)
      × (b1 ≡ 1)
      × (b2 ≡ 1)
      × (b3 ≡ 1)
      × (b4 ≡ 1)
      × (b5 ≡ 1)
      × (b6 ≡ 1)
      × (b7 ≡ 1)
      × (b8 ≡ 1)
      × (b9 ≡ 1)
      × (b10 ≡ 1)
      × (b11 ≡ 1)
all_set b0 b1 b2 b3 b4 b5 b6 b7 b8 b9 b10 b11 l0 l1 l2 l3 l4 l5 l6 l7 l8 l9 l10 l11 full = (
  omega arith,
  omega arith,
  omega arith,
  omega arith,
  omega arith,
  omega arith,
  omega arith,
  omega arith,
  omega arith,
  omega arith,
  omega arith,
  omega arith,
)

-- A number of twelve bits that are all set.
from_bits :
    (v : ℕ)
    → v < 2 ^ 12
    → v / 1 % 2 ≡ 1
    → v / 2 % 2 ≡ 1
    → v / 4 % 2 ≡ 1
    → v / 8 % 2 ≡ 1
    → v / 16 % 2 ≡ 1
    → v / 32 % 2 ≡ 1
    → v / 64 % 2 ≡ 1
    → v / 128 % 2 ≡ 1
    → v / 256 % 2 ≡ 1
    → v / 512 % 2 ≡ 1
    → v / 1024 % 2 ≡ 1
    → v / 2048 % 2 ≡ 1
    → v ≡ 0xFFF
from_bits v lt b0 b1 b2 b3 b4 b5 b6 b7 b8 b9 b10 b11 =
    let h0 : v ≡ 1 + 2 * (v / 2) = omega (arith, b0) in
    let h1 : v / 2 ≡ 1 + 2 * (v / 4) = omega (arith, b1) in
    let h2 : v / 4 ≡ 1 + 2 * (v / 8) = omega (arith, b2) in
    let h3 : v / 8 ≡ 1 + 2 * (v / 16) = omega (arith, b3) in
    let h4 : v / 16 ≡ 1 + 2 * (v / 32) = omega (arith, b4) in
    let h5 : v / 32 ≡ 1 + 2 * (v / 64) = omega (arith, b5) in
    let h6 : v / 64 ≡ 1 + 2 * (v / 128) = omega (arith, b6) in
    let h7 : v / 128 ≡ 1 + 2 * (v / 256) = omega (arith, b7) in
    let h8 : v / 256 ≡ 1 + 2 * (v / 512) = omega (arith, b8) in
    let h9 : v / 512 ≡ 1 + 2 * (v / 1024) = omega (arith, b9) in
    let h10 : v / 1024 ≡ 1 + 2 * (v / 2048) = omega (arith, b10) in
    let h11 : v / 2048 ≡ 1 + 2 * (v / 4096) = omega (arith, b11) in
    omega (arith, lt, h0, h1, h2, h3, h4, h5, h6, h7, h8, h9, h10, h11)

split : (m n : ℕ) → (m < n) ⊎ (n ≤ m)
split m n = ground arith

weight_all : (v : ℕ) → v < 2 ^ 12 → (weight v conv_table 0 < 0x40 + 3) ↔ (v ≢ 0xFFF)
unfolding weight conv_table
weight_all v lt = (
  (λ small all. omega (arith, small, all)),
  λ other. elim (split (weight v conv_table 0) (0x40 + 3)) [
    | inl small ↦ small
    | inr full ↦
        let set =
          all_set (v / 1 % 2) (v / 2 % 2) (v / 4 % 2) (v / 8 % 2) (v / 16 % 2) (v / 32 % 2)
            (v / 64 % 2) (v / 128 % 2) (v / 256 % 2) (v / 512 % 2) (v / 1024 % 2) (v / 2048 % 2)
            (omega arith) (omega arith) (omega arith) (omega arith) (omega arith) (omega arith)
            (omega arith) (omega arith) (omega arith) (omega arith) (omega arith) (omega arith)
            full in
        absurd (
          other (
            from_bits v lt (set.0) (set.1) (set.2) (set.3) (set.4) (set.5) (set.6) (set.7) (set.8)
              (set.9) (set.10) (set.11)))
  ],
)

-- For a combination of the twelve buttons, the text that `writeBootOptionPad` makes fits into its
-- array of 0x40 bytes, the NUL included, except where all twelve are pressed.
pub length-pad_text_iff :
    (v : ℕ) → v < 2 ^ 12 → (length (pad_text v conv_table 0 false) < 0x40) ↔ (v ≢ 0xFFF)
length-pad_text_iff v lt =
    let (to, from) = weight_all v lt in
    let len = length-pad_text v conv_table 0 in
    (λ small. to (omega (arith, len, small)), λ other. omega (arith, len, from other))
