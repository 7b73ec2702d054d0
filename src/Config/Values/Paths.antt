-- ===== src/Config/Values/Paths.antt =====
-- `isValidPath` against a description of the paths that it accepts.
use fastboot3ds.Base.{
  ℕ, zero, suc, ◌+◌, ◌≤◌, ◌≡◌, ◌≢◌, ◌⊎◌, ◌↔◌, inl, inr, Bool, true, false, not, ◌||◌, ◌&&◌, [], ◌∷◌,
  Bytes, get_or, leb, ◌==◌, if◌then◌else◌, arith,
}
use fastboot3ds.Config.Values.{valid_from, is_valid_path}

-- How often a byte occurs.
abbrev pub count_byte : ℕ → Bytes → ℕ
count_byte b [] = 0
count_byte b (c ∷ cs) = (if c == b then 1 else 0) + count_byte b cs

-- One mountpoint, if none was met before; no two dots in a row, no space behind a separator, and
-- nothing but ASCII.
pub record IsPath (met : Bool) (p : Bytes) : Type 0 where
  pub mountpoint : (if met then 1 else 0) + count_byte b':' p ≡ 1
  pub dots : (i : ℕ) → get_or p i 0 ≡ b'.' → get_or p (suc i) 0 ≢ b'.'
  pub spaces : (i : ℕ) → (get_or p i 0 ≡ b'\\') ⊎ (get_or p i 0 ≡ b'/') → get_or p (suc i) 0 ≢ b' '
  pub ascii : (i : ℕ) → get_or p i 0 ≤ 127

-- What the four tests on one byte come to.
pub record Passes (met : Bool) (c next : ℕ) : Type 0 where
  pub first : (c ≡ b':') → met ≡ false
  pub no_dots : (c ≡ b'.') → next ≢ b'.'
  pub no_space : (c ≡ b'\\') ⊎ (c ≡ b'/') → next ≢ b' '
  pub is_ascii : c ≤ 127

passed :
    (met : Bool) (c next : ℕ) (rest : Bool)
    → (if c == b':' && met
        then false
        else if c == b'.' && next == b'.'
        then false
        else if (c == b'\\' || c == b'/') && next == b' '
        then false
        else if not (leb c 127)
        then false
        else rest)
      ≡ true
    → Passes met c next × (rest ≡ true)
passed met c next rest e = (
  record {
    first = λ h. ground arith;
    no_dots = λ h k. ground arith;
    no_space = space;
    is_ascii = ground arith;
  },
  ground arith,
)
  where
    space : (c ≡ b'\\') ⊎ (c ≡ b'/') → next ≢ b' '
    space (inl h) k = ground arith
    space (inr h) k = ground arith

passing :
    (met : Bool) (c next : ℕ) (rest : Bool)
    → Passes met c next
    → rest ≡ true
    → (if c == b':' && met
        then false
        else if c == b'.' && next == b'.'
        then false
        else if (c == b'\\' || c == b'/') && next == b' '
        then false
        else if not (leb c 127)
        then false
        else rest)
      ≡ true
passing met c next rest p e = ground (
  arith,
  p.first,
  p.no_dots,
  λ (h : c ≡ b'\\'). p.no_space (inl h),
  λ (h : c ≡ b'/'). p.no_space (inr h),
)

-- What holds at the head and in the tail holds at every index.
module _ (c : ℕ) (cs : Bytes) (P : ℕ → ℕ → Type 0) where
  at_index :
      P c (get_or cs 0 0)
      → ((i : ℕ) → P (get_or cs i 0) (get_or cs (suc i) 0))
      → (i : ℕ) → P (get_or (c ∷ cs) i 0) (get_or cs i 0)
  at_index here rest zero = here
  at_index here rest (suc i) = rest i

valid_from_sound : (p : Bytes) (met : Bool) → valid_from p met ≡ true → IsPath met p
unfolding valid_from
valid_from_sound [] met e = record {
  mountpoint = ground arith;
  dots = λ i h. omega arith;
  spaces = λ i h. absurd (separator h);
  ascii = λ i. omega arith;
}
  where
    separator : ((◌≡◌ {A = ℕ} 0 b'\\') ⊎ (◌≡◌ {A = ℕ} 0 b'/')) → ⊥
    separator (inl h) = omega arith
    separator (inr h) = omega arith
valid_from_sound (c ∷ cs) met e =
    let (here, later) = passed met c (get_or cs 0 0) (valid_from cs (met || c == b':')) e in
    let rest = valid_from_sound cs (met || c == b':') later in
    record {
      mountpoint = ground (arith, here.first, rest.mountpoint);
      dots = at_index c cs (λ a b. a ≡ b'.' → b ≢ b'.') here.no_dots rest.dots;
      spaces = at_index c cs (λ a b. (a ≡ b'\\') ⊎ (a ≡ b'/') → b ≢ b' ') here.no_space rest.spaces;
      ascii = at_index c cs (λ a b. a ≤ 127) here.is_ascii rest.ascii;
    }

valid_from_complete : (p : Bytes) (met : Bool) → IsPath met p → valid_from p met ≡ true
unfolding valid_from
valid_from_complete [] met v = ground (arith, v.mountpoint)
valid_from_complete (c ∷ cs) met v =
    passing met c (get_or cs 0 0) (valid_from cs (met || c == b':'))
      (record {
        first = λ h. ground (arith, v.mountpoint);
        no_dots = v.dots 0;
        no_space = v.spaces 0;
        is_ascii = v.ascii 0;
      })
      (valid_from_complete cs (met || c == b':') (record {
        mountpoint = ground (arith, v.mountpoint);
        dots = λ i. v.dots (suc i);
        spaces = λ i. v.spaces (suc i);
        ascii = λ i. v.ascii (suc i);
      }))

-- `isValidPath` accepts exactly the paths with one colon in which no dot follows a dot, no space
-- follows a slash or backslash, and all bytes are ASCII.
pub is_valid_path_iff : (p : Bytes) → (is_valid_path p ≡ true) ↔ IsPath false p
unfolding is_valid_path
is_valid_path_iff p = (valid_from_sound p false, valid_from_complete p false)
