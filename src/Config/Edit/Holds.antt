-- ===== src/Config/Edit/Holds.antt =====
-- A buffer that holds a text, and the moves of `writeUpdateDefinitionText` in it.
use fastboot3ds.Base.{
  ℕ, ◌+◌, ◌-◌, ◌≤◌, ◌<◌, ◌≡◌, refl, ap, ◌∙◌, sym, [], ◌∷◌, ◌++◌, append_assoc, Bytes, length,
  length-append, take, drop, min, arith, put_at, c_str, c_str-append, NoNul, NoNul-append,
  NoNul-left, NoNul-right, put_at-put_at, length-put_at, take-append_length, take_all, drop-append,
}
use fastboot3ds.Util.{memcpy_s}
use fastboot3ds.Config.{max_file_size}
use fastboot3ds.Config.Edit.{strlen}

-- The buffer is full-sized and holds a text, with the NUL behind it.
pub record Holds (buf text : Bytes) : Type 0 where
  pub size : length buf ≡ max_file_size + 1
  pub nul : NoNul text
  pub junk : Bytes
  pub shape : buf ≡ text ++ (0 ∷ junk)

pub strlen-Holds : {buf text : Bytes} → Holds buf text → strlen buf ≡ length text
strlen-Holds {buf} {text} h =
    ap (λ b. length (c_str b)) h.shape ∙ ap length (c_str-append text h.junk h.nul)

pub Holds-fits : {buf text : Bytes} → Holds buf text → length text ≤ max_file_size
Holds-fits {buf} {text} h =
    omega (arith, h.size, ap length h.shape, length-append text (0 ∷ h.junk))

pub memcpy_s-copies :
    (dst : Bytes) (n o : ℕ) (src : Bytes) (m k : ℕ)
    → o < n
    → k < m
    → memcpy_s dst n o src m k ≡ put_at o (take (min (n - o) (m - k)) (drop k src)) dst
unfolding memcpy_s
memcpy_s-copies dst n o src m k lt lt' = ground arith

module _ (a old b new buf : Bytes) (h : Holds buf (a ++ (old ++ b))) (clean : NoNul new)
    (room : length a + length new + length b ≤ max_file_size) where
  pub total : length (a ++ (old ++ b)) ≡ length a + length old + length b
  total = omega (arith, length-append a (old ++ b), length-append old b)

  -- What stands behind the old text, with the NUL.
  pub behind : drop (length a + length old) buf ≡ b ++ (0 ∷ h.junk)
  behind =
      ap (drop (length a + length old)) (h.shape ∙ shape)
      ∙ drop-append (a ++ old) (b ++ (0 ∷ h.junk)) (length a + length old) 0
          (omega (arith, length-append a old))
    where
      shape : (a ++ (old ++ b)) ++ (0 ∷ h.junk) ≡ (a ++ old) ++ (b ++ (0 ∷ h.junk))
      shape = simp (append_assoc)

  -- The rest is moved to its place, and then the new text stored.
  pub rebuilt :
      (rest : Bytes)
      → length b + 1 + length rest + (length a + length new) ≤ max_file_size + 1
      → Holds
          (put_at (length a) new (put_at (length a + length new) (b ++ (0 ∷ rest)) buf))
          (a ++ (new ++ b))
  rebuilt rest fits = record {
    size =
        length-put_at (length a) new (put_at (length a + length new) (b ++ (0 ∷ rest)) buf)
          (omega (arith, inner, h.size))
        ∙ inner
        ∙ h.size;
    nul =
        NoNul-append a (new ++ b) (NoNul-left a (old ++ b) h.nul)
          (NoNul-append new b clean (NoNul-right old b (NoNul-right a (old ++ b) h.nul)));
    junk = rest ++ tail;
    shape =
        put_at-put_at (length a) new (b ++ (0 ∷ rest)) buf (omega (arith, h.size))
        ∙ ap (λ t. t ++ (new ++ ((b ++ (0 ∷ rest)) ++ tail))) front
        ∙ regroup;
  }
    where
      tail : Bytes
      tail = drop (length a + length new + length (b ++ (0 ∷ rest))) buf

      inner : length (put_at (length a + length new) (b ++ (0 ∷ rest)) buf) ≡ length buf
      inner =
          length-put_at (length a + length new) (b ++ (0 ∷ rest)) buf
            (omega (arith, h.size, length-append b (0 ∷ rest), fits))

      front : take (length a) buf ≡ a
      front =
          ap (take (length a)) (h.shape ∙ append_assoc a (old ++ b) (0 ∷ h.junk))
          ∙ take-append_length a ((old ++ b) ++ (0 ∷ h.junk)) (length a) refl

      regroup :
          a ++ (new ++ ((b ++ (0 ∷ rest)) ++ tail)) ≡ (a ++ (new ++ b)) ++ (0 ∷ (rest ++ tail))
      regroup = simp (append_assoc)

  pub stored_in_place :
      length new ≡ length old → Holds (put_at (length a) new buf) (a ++ (new ++ b))
  unfolding put_at
  stored_in_place same = record {
    size =
        length-put_at (length a) new buf (
          omega
            (arith, h.size, ap length h.shape, total, length-append (a ++ (old ++ b)) (0 ∷ h.junk)))
        ∙ h.size;
    nul =
        NoNul-append a (new ++ b) (NoNul-left a (old ++ b) h.nul)
          (NoNul-append new b clean (NoNul-right old b (NoNul-right a (old ++ b) h.nul)));
    junk = h.junk;
    shape =
        ap (λ t. (t ++ new) ++ drop (length a + length new) buf) front
        ∙ ap (λ k. (a ++ new) ++ drop (length a + k) buf) same
        ∙ ap (λ t. (a ++ new) ++ t) behind
        ∙ regroup;
  }
    where
      front : take (length a) buf ≡ a
      front =
          ap (take (length a)) (h.shape ∙ append_assoc a (old ++ b) (0 ∷ h.junk))
          ∙ take-append_length a ((old ++ b) ++ (0 ∷ h.junk)) (length a) refl

      regroup : (a ++ new) ++ (b ++ (0 ∷ h.junk)) ≡ (a ++ (new ++ b)) ++ (0 ∷ h.junk)
      regroup = simp (append_assoc)

  pub whole : length a + length old + length b + 1 + length h.junk ≡ max_file_size + 1
  whole =
      omega (arith, h.size, ap length h.shape, total, length-append (a ++ (old ++ b)) (0 ∷ h.junk))

  -- `memcpy_s` of the rest through a temporary buffer, and inside the buffer.
  pub moved_up :
      memcpy_s buf
        (max_file_size + 1)
        (length a + length new)
        (take (length b + 1) (drop (length a + length old) buf))
        (length b + 1)
        0
      ≡ put_at (length a + length new) (b ++ (0 ∷ [])) buf
  moved_up =
      memcpy_s-copies buf (max_file_size + 1) (length a + length new) temp (length b + 1) 0
        (omega arith) (omega arith)
      ∙ ap (λ t. put_at (length a + length new) t buf) copied
    where
      temp : Bytes
      temp = take (length b + 1) (drop (length a + length old) buf)

      temp_eq : temp ≡ b ++ (0 ∷ [])
      temp_eq =
          ap (take (length b + 1)) (behind ∙ sym (append_assoc b (0 ∷ []) h.junk))
          ∙ take-append_length (b ++ (0 ∷ [])) h.junk (length b + 1)
              (omega (arith, length-append b (0 ∷ [])))

      copied :
          take (min (max_file_size + 1 - (length a + length new)) (length b + 1 - 0)) temp
          ≡ b ++ (0 ∷ [])
      copied =
          ap (take (min (max_file_size + 1 - (length a + length new)) (length b + 1 - 0))) temp_eq
          ∙ take_all (min (max_file_size + 1 - (length a + length new)) (length b + 1 - 0))
              (b ++ (0 ∷ [])) (omega (arith, length-append b (0 ∷ [])))

  pub moved_down :
      length new < length old
      → memcpy_s buf
          (max_file_size + 1)
          (length a + length new)
          buf
          (max_file_size + 1)
          (length a + length old)
        ≡ put_at (length a + length new) (b ++ (0 ∷ h.junk)) buf
  moved_down less =
      memcpy_s-copies buf (max_file_size + 1) (length a + length new) buf (max_file_size + 1)
        (length a + length old) (omega arith) (omega (arith, whole))
      ∙ ap (λ t. put_at (length a + length new) t buf)
          (ap (take amount) behind
            ∙ take_all amount (b ++ (0 ∷ h.junk))
                (omega (arith, whole, length-append b (0 ∷ h.junk))))
    where
      amount : ℕ
      amount =
          min (max_file_size + 1 - (length a + length new))
            (max_file_size + 1 - (length a + length old))
