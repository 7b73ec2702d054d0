-- ===== src/Config/Edit/Others.antt =====
-- `writeUpdateDefinitionText` keeps the texts of the other attributes.
use fastboot3ds.Base.{
  ℕ, zero, suc, ◌+◌, ◌-◌, ◌≤◌, ◌<◌, ◌≡◌, inl, inr, refl, ap, ◌∙◌, sym, Bool, true, false, some,
  none, List, [], ◌∷◌, ◌++◌, append_assoc, map, Bytes, length, length-append, take, drop, ltb, ◌==◌,
  if◌then◌else◌, Bool-cases, arith, add32, sub32, drop-append, slice-append,
}
use fastboot3ds.Config.{Attribute, attribute, no_attribute, max_file_size}
use fastboot3ds.Config.Edit.{move_pointer}
use fastboot3ds.Config.Edit.Holds.{Holds, Holds-fits}
use fastboot3ds.Config.Edit.Update.{moved_attributes}

-- The text of an attribute.
unfoldable pub text_of : Bytes → Attribute → Bytes
text_of buf attr = elim (attr.text_data) [ none ↦ [] | some t ↦ take attr.text_length (drop t buf) ]

-- The text at `t` of length `n` ends before `a` does, or begins behind the old text and ends before
-- `b` does.
pub data IsApart (a old b : Bytes) (t n : ℕ) : Type 0 where
  before : t + n ≤ length a → IsApart a old b t n
  after : length a + length old < t → t + n ≤ length a + length old + length b → IsApart a old b t n

slice_before :
    (a rest buf : Bytes) (t n : ℕ)
    → buf ≡ a ++ rest
    → t + n ≤ length a
    → take n (drop t buf) ≡ take n (drop t a)
slice_before a rest buf t n e le = ap (λ s. take n (drop t s)) e ∙ slice-append a rest t n le

slice_after :
    (a b rest buf : Bytes) (t k n : ℕ)
    → buf ≡ a ++ (b ++ rest)
    → t ≡ length a + k
    → k + n ≤ length b
    → take n (drop t buf) ≡ take n (drop k b)
slice_after a b rest buf t k n e at le =
    ap (λ s. take n (drop t s)) e
    ∙ ap (take n) (drop-append a (b ++ rest) t k at)
    ∙ slice-append b rest k n le

text_of-choice :
    (buf : Bytes) (attr : Attribute) (t u : ℕ) (c : Bool)
    → text_of buf
        (if c then record attr { text_data = some u } else record attr { text_data = some t })
      ≡ take attr.text_length (drop (if c then u else t) buf)
unfolding text_of
text_of-choice buf attr t u true = refl
text_of-choice buf attr t u false = refl

pub attribute-map :
    (f : Attribute → Attribute) (attrs : List Attribute) (key : ℕ)
    → f no_attribute ≡ no_attribute
    → attribute (map f attrs) key ≡ f (attribute attrs key)
attribute-map f [] key e = sym e
attribute-map f (x ∷ xs) zero e = refl
attribute-map f (x ∷ xs) (suc key) e = attribute-map f xs key e

-- A pointer that stands behind the old text moves with what stands behind it.
shifted :
    (a o b n t k : ℕ)
    → a + o < t
    → t ≡ a + o + k
    → k ≤ b
    → a + o + b ≤ max_file_size
    → a + n + b ≤ max_file_size
    → (if ltb a t then add32 t (sub32 n o) else t) ≡ a + n + k
shifted a o b n t k lo at le fits fits' =
    let behind : ltb a t ≡ true = ground (arith, lo) in rw behind (omega arith)

kept : (a t d : ℕ) → t ≤ a → (if ltb a t then add32 t d else t) ≡ t
kept a t d le = let front : ltb a t ≡ false = ground (arith, le) in rw front refl

module _ (a old b new buf buf' : Bytes) (h : Holds buf (a ++ (old ++ b)))
    (h' : Holds buf' (a ++ (new ++ b))) where
  around :
      (mid : Bytes) (m : Bytes) (k : Holds m (a ++ (mid ++ b)))
      → m ≡ (a ++ mid) ++ (b ++ (0 ∷ k.junk))
  around mid m k = k.shape ∙ regroup
    where
      regroup : (a ++ (mid ++ b)) ++ (0 ∷ k.junk) ≡ (a ++ mid) ++ (b ++ (0 ∷ k.junk))
      regroup = simp (append_assoc)

  in_front :
      (mid : Bytes) (m : Bytes) (k : Holds m (a ++ (mid ++ b)))
      → m ≡ a ++ ((mid ++ b) ++ (0 ∷ k.junk))
  in_front mid m k = k.shape ∙ append_assoc a (mid ++ b) (0 ∷ k.junk)

  sizes : (mid : Bytes) → length (a ++ (mid ++ b)) ≡ length a + length mid + length b
  sizes mid = omega (arith, length-append a (mid ++ b), length-append mid b)

  moved_text :
      (t n : ℕ)
      → IsApart a old b t n
      → take n
          (drop (if ltb (length a) t then add32 t (sub32 (length new) (length old)) else t) buf')
        ≡ take n (drop t buf)
  moved_text t n (before le) =
      rw (kept (length a) t (sub32 (length new) (length old)) (omega (arith, le))) (
        slice_before a ((new ++ b) ++ (0 ∷ h'.junk)) buf' t n (in_front new buf' h') le
        ∙ sym (slice_before a ((old ++ b) ++ (0 ∷ h.junk)) buf t n (in_front old buf h) le))
  moved_text t n (after lo hi) =
      rw
        (shifted (length a) (length old) (length b) (length new) t (t - (length a + length old)) lo
          (omega (arith, lo)) (omega (arith, lo, hi)) (omega (arith, Holds-fits h, sizes old))
          (omega (arith, Holds-fits h', sizes new)))
        (slice_after (a ++ new) b (0 ∷ h'.junk) buf'
            (length a + length new + (t - (length a + length old))) (t - (length a + length old)) n
            (around new buf' h') (omega (arith, length-append a new)) (omega (arith, lo, hi))
          ∙ sym (
              slice_after (a ++ old) b (0 ∷ h.junk) buf t (t - (length a + length old)) n
                (around old buf h) (omega (arith, length-append a old, lo))
                (omega (arith, lo, hi))))

  apart_fits : (t n : ℕ) → IsApart a old b t n → t ≤ max_file_size
  apart_fits t n (before le) = omega (arith, le, Holds-fits h, sizes old)
  apart_fits t n (after lo hi) = omega (arith, hi, Holds-fits h, sizes old)

  -- The same where the lengths are equal and no pointer is moved.
  unmoved_text :
      (t n : ℕ)
      → length new ≡ length old
      → IsApart a old b t n
      → take n (drop t buf') ≡ take n (drop t buf)
  unmoved_text t n same apart =
      let none_moved : (if ltb (length a) t then add32 t (sub32 (length new) (length old)) else t)
          ≡ t =
        elim (Bool-cases (ltb (length a) t)) [
          | inl c ↦ rw c (omega (arith, same, apart_fits t n apart))
          | inr c ↦ rw c refl
        ] in
      sym (ap (λ k. take n (drop k buf')) none_moved) ∙ moved_text t n apart

  text_of-move_pointer :
      (attr : Attribute) (t : ℕ)
      → attr.text_data ≡ some t
      → IsApart a old b t attr.text_length
      → text_of buf' (move_pointer (length a) (sub32 (length new) (length old)) attr)
        ≡ text_of buf attr
  unfolding text_of move_pointer
  text_of-move_pointer attr t e apart =
      ap
        (λ o. text_of buf' (
          move_pointer (length a) (sub32 (length new) (length old))
            (record attr { text_data = o })))
        e
      ∙ text_of-choice buf' attr t (add32 t (sub32 (length new) (length old))) (ltb (length a) t)
      ∙ moved_text t attr.text_length apart
      ∙ sym (ap (λ o. text_of buf (record attr { text_data = o })) e)

-- What `writeUpdateDefinitionText` leaves, the old text replaced and the pointers moved: the text
-- of each attribute that stands before the old text or behind its end is the same as before.
pub text_of-moved_attributes :
    (a old b new buf buf' : Bytes) (attrs : List Attribute) (key t : ℕ)
    → Holds buf (a ++ (old ++ b))
    → Holds buf' (a ++ (new ++ b))
    → (attribute attrs key).text_data ≡ some t
    → IsApart a old b t ((attribute attrs key).text_length)
    → text_of buf' (attribute (moved_attributes (length a) (length old) (length new) attrs) key)
      ≡ text_of buf (attribute attrs key)
unfolding text_of moved_attributes move_pointer
text_of-moved_attributes a old b new buf buf' attrs key t h h' e apart =
    elim (Bool-cases (length new == length old)) [
      | inl same ↦ rw same (
          ap (λ o. text_of buf' (record (attribute attrs key) { text_data = o })) e
          ∙ unmoved_text a old b new buf buf' h h' t ((attribute attrs key).text_length)
              (ground (arith, same)) apart
          ∙ sym (ap (λ o. text_of buf (record (attribute attrs key) { text_data = o })) e))
      | inr other ↦ rw other (
          ap (text_of buf') (
            attribute-map (move_pointer (length a) (sub32 (length new) (length old))) attrs key
              refl)
          ∙ text_of-move_pointer a old b new buf buf' h h' (attribute attrs key) t e apart)
    ]
