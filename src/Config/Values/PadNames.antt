-- ===== src/Config/Values/PadNames.antt =====
-- One name of a button, or a separator, in front of the text that `parseBootOptionPad` reads.
use fastboot3ds.Base.{
  ℕ, zero, suc, ◌+◌, ◌-◌, ◌≤◌, ◌<◌, ◌≡◌, ◌≢◌, refl, ◌∙◌, true, false, ◌||◌, some, none, List, [],
  ◌∷◌, ◌++◌, Bytes, codes, length, get_or, drop, ◌==◌, arith,
}
use fastboot3ds.Util.{strnicmp, tolower}
use fastboot3ds.Config.Values.{match_table, conv_table, set_bit, parse_pad}

-- What may follow the name of a button: the end of the line or of the text, or a space.
pub data Follows : Bytes → Type 0 where
  nothing : Follows []
  nul : (rest : Bytes) → Follows (0 ∷ rest)
  space : (rest : Bytes) → Follows (b' ' ∷ rest)
  lf : (rest : Bytes) → Follows (0x0A ∷ rest)
  cr : (rest : Bytes) → Follows (0x0D ∷ rest)
  nel : (rest : Bytes) → Follows (0x15 ∷ rest)

abbrev pub name : ℕ → Bytes
name i = get_or conv_table i []

pub match_name :
    (i : ℕ) (s : Bytes)
    → i < 12
    → Follows s
    → match_table (name i ++ s) conv_table 0 ≡ some (i, length (name i))
unfolding match_table conv_table strnicmp tolower
match_name zero s lt f = refl
match_name (suc zero) s lt f = refl
match_name (suc (suc zero)) s lt f = refl
match_name (suc (suc (suc zero))) s lt f = refl
match_name (suc (suc (suc (suc zero)))) s lt f = refl
match_name (suc (suc (suc (suc (suc zero))))) s lt f = refl
match_name (suc (suc (suc (suc (suc (suc zero)))))) s lt f = refl
match_name (suc (suc (suc (suc (suc (suc (suc zero))))))) s lt f = refl
match_name (suc (suc (suc (suc (suc (suc (suc (suc zero)))))))) s lt nothing = refl
match_name (suc (suc (suc (suc (suc (suc (suc (suc zero)))))))) s lt (nul r) = refl
match_name (suc (suc (suc (suc (suc (suc (suc (suc zero)))))))) s lt (space r) = refl
match_name (suc (suc (suc (suc (suc (suc (suc (suc zero)))))))) s lt (lf r) = refl
match_name (suc (suc (suc (suc (suc (suc (suc (suc zero)))))))) s lt (cr r) = refl
match_name (suc (suc (suc (suc (suc (suc (suc (suc zero)))))))) s lt (nel r) = refl
match_name (suc (suc (suc (suc (suc (suc (suc (suc (suc zero))))))))) s lt nothing = refl
match_name (suc (suc (suc (suc (suc (suc (suc (suc (suc zero))))))))) s lt (nul r) = refl
match_name (suc (suc (suc (suc (suc (suc (suc (suc (suc zero))))))))) s lt (space r) = refl
match_name (suc (suc (suc (suc (suc (suc (suc (suc (suc zero))))))))) s lt (lf r) = refl
match_name (suc (suc (suc (suc (suc (suc (suc (suc (suc zero))))))))) s lt (cr r) = refl
match_name (suc (suc (suc (suc (suc (suc (suc (suc (suc zero))))))))) s lt (nel r) = refl
match_name (suc (suc (suc (suc (suc (suc (suc (suc (suc (suc zero)))))))))) s lt f = refl
match_name (suc (suc (suc (suc (suc (suc (suc (suc (suc (suc (suc zero))))))))))) s lt f = refl
match_name (suc (suc (suc (suc (suc (suc (suc (suc (suc (suc (suc (suc i)))))))))))) s lt f =
    absurd (omega arith)

pub drop-append : (a b : Bytes) → drop (length a) (a ++ b) ≡ b
drop-append [] b = refl
drop-append (c ∷ cs) b = drop-append cs b

-- The head and the tail of what is left of a table.
pub drop-cons :
    (xs : List Bytes) (i : ℕ) (t : Bytes) (ts : List Bytes)
    → drop i xs ≡ t ∷ ts
    → (i < length xs) × (get_or xs i [] ≡ t) × (drop (i + 1) xs ≡ ts)
drop-cons [] zero t ts e = cc
drop-cons [] (suc i) t ts e = cc
drop-cons (x ∷ xs) zero t ts e = (omega arith, cc, cc)
drop-cons (x ∷ xs) (suc i) t ts e =
    let (lt, here, rest) = drop-cons xs i t ts e in
    let next : suc i + 1 ≡ suc (i + 1) = omega arith in (omega arith, here, rw next rest)

pub name_head :
    (i : ℕ) (s : Bytes) → i < 12 → (get_or (name i ++ s) 0 0 ≢ 0) × (0 < length (name i))
unfolding conv_table
name_head zero s lt = omega arith
name_head (suc zero) s lt = omega arith
name_head (suc (suc zero)) s lt = omega arith
name_head (suc (suc (suc zero))) s lt = omega arith
name_head (suc (suc (suc (suc zero)))) s lt = omega arith
name_head (suc (suc (suc (suc (suc zero))))) s lt = omega arith
name_head (suc (suc (suc (suc (suc (suc zero)))))) s lt = omega arith
name_head (suc (suc (suc (suc (suc (suc (suc zero))))))) s lt = omega arith
name_head (suc (suc (suc (suc (suc (suc (suc (suc zero)))))))) s lt = omega arith
name_head (suc (suc (suc (suc (suc (suc (suc (suc (suc zero))))))))) s lt = omega arith
name_head (suc (suc (suc (suc (suc (suc (suc (suc (suc (suc zero)))))))))) s lt = omega arith
name_head (suc (suc (suc (suc (suc (suc (suc (suc (suc (suc (suc zero))))))))))) s lt = omega arith
name_head (suc (suc (suc (suc (suc (suc (suc (suc (suc (suc (suc (suc i)))))))))))) s lt =
    absurd (omega arith)

pub still_going : (c left : ℕ) → c ≢ 0 → 0 < left → (c == 0 || left == 0) ≡ false
still_going c left ne pos = ground arith

-- Rounds of the loop: a byte that begins no name, and the name of a button.
pub parse_other :
    (fuel : ℕ) (s : Bytes) (left v : ℕ)
    → match_table s conv_table 0 ≡ none
    → get_or s 0 0 ≢ 0
    → 0 < left
    → 0 < fuel
    → parse_pad fuel s left v ≡ parse_pad (fuel - 1) (drop 1 s) (left - 1) v
unfolding parse_pad
parse_other zero s left v m ne pos enough = absurd (omega arith)
parse_other (suc fuel) s left v m ne pos enough =
    let going = still_going (get_or s 0 0) left ne pos in
    let same : suc fuel - 1 ≡ fuel = omega arith in rw (going, same) (rw m refl)

pub parse_name :
    (fuel i : ℕ) (s : Bytes) (left v : ℕ)
    → i < 12
    → Follows s
    → 0 < left
    → 0 < fuel
    → parse_pad fuel (name i ++ s) left v
      ≡ parse_pad (fuel - 1) s (left - length (name i)) (set_bit v i)
unfolding parse_pad
parse_name zero i s left v lt f pos enough = absurd (omega arith)
parse_name (suc fuel) i s left v lt f pos enough =
    let ne = (name_head i s lt).0 in
    let going = still_going (get_or (name i ++ s) 0 0) left ne pos in
    let same : suc fuel - 1 ≡ fuel = omega arith in
    rw (going, same) (rw (match_name i s lt f) (rw (drop-append (name i) s) refl))

pub parse_pad-done : (fuel : ℕ) (s : Bytes) (v : ℕ) → parse_pad fuel s 0 v ≡ v
unfolding parse_pad
parse_pad-done zero s v = refl
parse_pad-done (suc fuel) s v =
    let over : (get_or s 0 0 == 0 || 0 == 0) ≡ true = ground arith in rw over refl

pub parse_plus :
    (fuel : ℕ) (s : Bytes) (left v : ℕ)
    → 3 ≤ left
    → 3 ≤ fuel
    → parse_pad fuel (codes " + " ++ s) left v ≡ parse_pad (fuel - 3) s (left - 3) v
unfolding match_table conv_table strnicmp tolower
parse_plus fuel s left v l f =
    parse_other fuel (codes " + " ++ s) left v refl (λ e. omega arith) (omega arith) (omega arith)
    ∙ parse_other (fuel - 1) (b'+' ∷ b' ' ∷ s) (left - 1) v refl (λ e. omega arith) (omega arith)
        (omega arith)
    ∙ parse_other (fuel - 1 - 1) (b' ' ∷ s) (left - 1 - 1) v refl (λ e. omega arith) (omega arith)
        (omega arith)
    ∙ (let a : fuel - 1 - 1 - 1 ≡ fuel - 3 = omega arith in
        let b : left - 1 - 1 - 1 ≡ left - 3 = omega arith in rw (a, b) refl)
