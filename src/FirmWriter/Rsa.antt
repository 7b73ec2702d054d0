-- ===== src/FirmWriter/Rsa.antt =====
-- `RSA_verify2048` in source/arm9/hardware/crypto.c, over what the engine decrypts.
use fastboot3ds.Base.{
  ℕ, zero, suc, ◌+◌, ◌*◌, ◌^◌, ◌≤◌, ◌<◌, ◌≡◌, ◌⊎◌, inl, inr, sym, ap, ◌∙◌, Bool, true, false, not,
  ◌||◌, Option, none, some, Bytes, take, drop, get_or, ltb, ◌==◌, if◌then◌else◌, bytes_eq,
  bytes_eq→eq, Bool-cases, Option-cases, arith,
}

-- The loop over the bytes 0xFF from `read` on, with `left` to go; all but the first two at most.
unfoldable pub padding_end : Bytes → (left read : ℕ) → ℕ
padding_end dec_sig zero read = read
padding_end dec_sig (suc left) read =
    let rest = padding_end dec_sig left (read + 1) in
    if get_or dec_sig read 0 == 0xFF then if ltb (read + 1) 0x100 then rest else read + 1 else read

-- The checks on a decrypted signature.
unfoldable pub check_signature : Bytes → Bytes → Bool
check_signature dec_sig calc_hash =
    let read = padding_end dec_sig 0xFE 2 in
    if not (get_or dec_sig 0 0 + get_or dec_sig 1 0 * 2 ^ 8 == 0x0100)
    then false
    else if not (read == 0xCC) || not (get_or dec_sig read 0 == 0)
    then false
    else bytes_eq (take 0x20 (drop 0xE0 dec_sig)) calc_hash

-- `decrypt` is `RSA_decrypt2048`, with `none` for false; `sha` the engine's SHA-256.
unfoldable pub rsa_verify2048 :
    (Bytes → Option Bytes) → (Bytes → Bytes) → (enc_sig message : Bytes) → Bool
rsa_verify2048 decrypt sha enc_sig message = elim (decrypt enc_sig) [
  | none ↦ false
  | some dec_sig ↦ check_signature dec_sig (sha message)
]

-- A signature that decrypts to 0xCA bytes of padding between 00 01 and 00, and to the hash at its
-- end.
pub record IsSigned (decrypt : Bytes → Option Bytes) (sha : Bytes → Bytes) (enc_sig message : Bytes)
    : Type 0 where
  pub dec_sig : Bytes
  pub decrypted : decrypt enc_sig ≡ some dec_sig
  pub start : get_or dec_sig 0 0 + get_or dec_sig 1 0 * 2 ^ 8 ≡ 0x0100
  pub padding : (i : ℕ) → 2 ≤ i → i < 0xCC → get_or dec_sig i 0 ≡ 0xFF
  pub end : get_or dec_sig 0xCC 0 ≡ 0
  pub hash : take 0x20 (drop 0xE0 dec_sig) ≡ sha message

at_or_above : (i k : ℕ) → k ≤ i → (k ≡ i) ⊎ (k + 1 ≤ i)
at_or_above i k le = ground arith

padding_lem :
    (dec_sig : Bytes) (left read i : ℕ)
    → read ≤ i
    → i < padding_end dec_sig left read
    → get_or dec_sig i 0 ≡ 0xFF
unfolding padding_end
padding_lem dec_sig zero read i le lt = absurd (omega (arith, le, lt))
padding_lem dec_sig (suc left) read i le lt = elim (Bool-cases (get_or dec_sig read 0 == 0xFF)) [
  | inr other ↦ let lt' = rw other at lt in absurd (omega (arith, le, lt'))
  | inl ff ↦
      let here : get_or dec_sig read 0 ≡ 0xFF = ground (arith, ff) in
      elim (at_or_above i read le) [
        | inl e ↦ rw (sym e) here
        | inr above ↦ elim (Bool-cases (ltb (read + 1) 0x100)) [
          | inr last ↦ let lt' = rw (ff, last) at lt in absurd (omega (arith, above, lt'))
          | inl more ↦ padding_lem dec_sig left (read + 1) i above (rw (ff, more) at lt)
        ]
      ]
]

eq_of : (m n : ℕ) → (m == n) ≡ true → m ≡ n
eq_of m n e = ground (arith, e)

checks_passed :
    (dec_sig calc_hash : Bytes)
    → check_signature dec_sig calc_hash ≡ true
    → (get_or dec_sig 0 0 + get_or dec_sig 1 0 * 2 ^ 8 ≡ 0x0100)
      × (padding_end dec_sig 0xFE 2 ≡ 0xCC)
      × (get_or dec_sig (padding_end dec_sig 0xFE 2) 0 ≡ 0)
      × (take 0x20 (drop 0xE0 dec_sig) ≡ calc_hash)
unfolding check_signature
checks_passed dec_sig calc_hash ok =
    elim (Bool-cases (get_or dec_sig 0 0 + get_or dec_sig 1 0 * 2 ^ 8 == 0x0100)) [
      | inr other ↦ cc (rw other at ok)
      | inl begins ↦ elim (Bool-cases (padding_end dec_sig 0xFE 2 == 0xCC)) [
        | inr other ↦ cc (rw (begins, other) at ok)
        | inl long ↦ elim (Bool-cases (get_or dec_sig (padding_end dec_sig 0xFE 2) 0 == 0)) [
          | inr other ↦ cc (rw (begins, long, other) at ok)
          | inl ends ↦ (
            eq_of _ _ begins,
            eq_of _ _ long,
            eq_of _ _ ends,
            bytes_eq→eq (take 0x20 (drop 0xE0 dec_sig)) calc_hash (rw (begins, long, ends) at ok),
          )
        ]
      ]
    ]

-- `RSA_verify2048` accepts only a signature whose padding and hash are right.
pub rsa_verify2048-IsSigned :
    (decrypt : Bytes → Option Bytes) (sha : Bytes → Bytes) (enc_sig message : Bytes)
    → rsa_verify2048 decrypt sha enc_sig message ≡ true
    → IsSigned decrypt sha enc_sig message
unfolding rsa_verify2048
rsa_verify2048-IsSigned decrypt sha enc_sig message ok = elim (Option-cases (decrypt enc_sig)) [
  | inl e ↦ cc (rw (rsa_verify2048, e) at ok)
  | inr (dec_sig, e) ↦
      let (start, long, ends, hash) =
        checks_passed dec_sig (sha message) (rw (rsa_verify2048, e) at ok) in
      record {
        dec_sig = dec_sig;
        decrypted = e;
        start = start;
        padding = λ i lo hi. padding_lem dec_sig 0xFE 2 i lo (omega (arith, hi, long));
        end = ap (λ k. get_or dec_sig k 0) (sym long) ∙ ends;
        hash = hash;
      }
]
