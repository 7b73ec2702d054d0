-- ===== src/Config/Edit/Update.antt =====
-- `writeUpdateDefinitionText` replaces the text of one definition and keeps what stands around it.
use fastboot3ds.Base.{
  ℕ, ◌+◌, ◌-◌, ◌≤◌, ◌<◌, ◌≡◌, ◌⊎◌, inl, inr, refl, Bool, true, false, Option, some, none, List, [],
  ◌∷◌, ◌++◌, map, Bytes, length, length-append, ltb, ◌==◌, if◌then◌else◌, Bool-cases, arith, add32,
  sub32, put_at, NoNul,
}
use fastboot3ds.Config.{Attribute, max_file_size}
use fastboot3ds.Config.Edit.{strlen, move_pointer, write_update_definition_text}
use fastboot3ds.Config.Edit.Holds.{
  Holds, strlen-Holds, Holds-fits, rebuilt, stored_in_place, whole, moved_up, moved_down,
}

diff_test : (m n : ℕ) → m ≤ max_file_size → n ≤ max_file_size → (sub32 m n == 0) ≡ (m == n)
diff_test m n lm ln = ground arith

room_test :
    (room t n : ℕ)
    → room ≡ max_file_size - t
    → t ≤ max_file_size
    → ((ltb room n ≡ true) × (max_file_size < t + n))
      ⊎ ((ltb room n ≡ false) × (t + n ≤ max_file_size))
room_test room t n e le = elim (Bool-cases (ltb room n)) [
  | inl full ↦ inl (full, ground (arith, full))
  | inr fits ↦ inr (fits, ground (arith, fits))
]

-- The attributes after a text of `n` bytes at `text` has been replaced by one of `m` bytes.
unfoldable pub moved_attributes : ℕ → ℕ → ℕ → List Attribute → List Attribute
moved_attributes text n m attrs =
    if m == n then attrs else map (move_pointer text (sub32 m n)) attrs

module _ (alloc : ℕ → Bool) (a old b new buf : Bytes) (attrs : List Attribute)
    (h : Holds buf (a ++ (old ++ b))) (clean : NoNul new) where
  abbrev call : Option (ℕ × Bytes × List Attribute)
  call = write_update_definition_text alloc (length a) (length old) new buf attrs

  remaining : sub32 max_file_size (strlen buf) ≡ max_file_size - length (a ++ (old ++ b))
  remaining = rw (strlen-Holds h) (omega (arith, Holds-fits h))

  backup : add32 (sub32 (sub32 (strlen buf) (length a)) (length old)) 1 ≡ length b + 1
  backup =
      rw (strlen-Holds h)
        (omega (arith, Holds-fits h, length-append a (old ++ b), length-append old b))

  -- `writeUpdateDefinitionText` on a buffer with the text `a`, `old`, `b`: where the new text is
  -- longer than the room that is left, it returns 0 and changes nothing. Otherwise the buffer
  -- holds `a`, `new`, `b`, the new length is returned, and the pointers behind are moved; or it
  -- panics for want of memory.
  pub write_update_definition_text_lem :
      ((max_file_size < length (a ++ (old ++ b)) + length new)
        × (write_update_definition_text alloc (length a) (length old) new buf attrs
            ≡ some (0, buf, attrs)))
      ⊎ ((length (a ++ (old ++ b)) + length new ≤ max_file_size)
          × (alloc (length b + 1) ≡ false)
          × (write_update_definition_text alloc (length a) (length old) new buf attrs ≡ none))
      ⊎ ((length (a ++ (old ++ b)) + length new ≤ max_file_size)
          × (buf' : Bytes) × Holds buf' (a ++ (new ++ b))
          × (write_update_definition_text alloc (length a) (length old) new buf attrs
              ≡ some
                  (length new, buf', moved_attributes (length a) (length old) (length new) attrs)))
  unfolding write_update_definition_text moved_attributes
  write_update_definition_text_lem =
      elim (room_test (sub32 max_file_size (strlen buf)) (length (a ++ (old ++ b))) (length new)
        remaining (Holds-fits h)) [
          | inl (full, over) ↦ inl (over, rw full refl)
          | inr (fits, under) ↦
              let room : length a + length new + length b ≤ max_file_size =
                omega (arith, under, length-append a (old ++ b), length-append old b) in
              let room' : length a + length old + length b ≤ max_file_size =
                omega (arith, Holds-fits h, length-append a (old ++ b), length-append old b) in
              let test = diff_test (length new) (length old) (omega arith) (omega arith) in
              elim (Bool-cases (length new == length old)) [
                | inl same ↦ inr (
                    inr (
                      under,
                      put_at (length a) new buf,
                      stored_in_place a old b new buf h clean room (ground (arith, same)),
                      rw (fits, test) (rw same refl),
                    ))
                | inr other ↦ elim (Bool-cases (ltb (length old) (length new))) [
                  | inl longer ↦ elim (Bool-cases (alloc (length b + 1))) [
                    | inl got ↦ inr (
                        inr (
                          under,
                          put_at (length a) new
                              (put_at (length a + length new) (b ++ (0 ∷ [])) buf),
                          rebuilt a old b new buf h clean room [] (omega arith),
                          rw (fits, test, backup, moved_up a old b new buf h clean room)
                              (rw (other, longer, got) refl),
                        ))
                    | inr failed ↦ inr (
                        inl (
                          under,
                          failed,
                          rw (fits, test, backup) (rw (other, longer, failed) refl),
                        ))
                  ]
                  | inr shorter ↦
                      let less : length new < length old = ground (arith, other, shorter) in
                      inr (
                        inr (
                          under,
                          put_at (length a) new
                              (put_at (length a + length new) (b ++ (0 ∷ h.junk)) buf),
                          rebuilt a old b new buf h clean room h.junk
                              (omega (arith, whole a old b new buf h clean room)),
                          rw (fits, test, moved_down a old b new buf h clean room less)
                              (rw (other, shorter) refl),
                        ))
                ]
              ]
        ]
