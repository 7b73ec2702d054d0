-- ===== src/Config/Edit/Add.antt =====
-- `writeAddDefinitionText` appends one definition and keeps the text that was there.
use fastboot3ds.Base.{
  ℕ, zero, suc, ◌+◌, ◌-◌, ◌≤◌, ◌<◌, ◌≡◌, ◌⊎◌, inl, inr, refl, ap, ◌∙◌, sym, true, false, not, ◌&&◌,
  some, none, [], ◌∷◌, ◌++◌, append_assoc, Bytes, length, length-append, get_or, take, drop, ltb,
  ◌==◌, if◌then◌else◌, Bool-cases, arith, codes, sub32, put_at, NoNul, NoNul-append, length-put_at,
  take-append_length, drop-append,
}
use fastboot3ds.Config.{max_file_size}
use fastboot3ds.Config.Scan.{is_eol}
use fastboot3ds.Config.Edit.{strlen, line_break, definition_line, write_add_definition_text}
use fastboot3ds.Config.Edit.Holds.{Holds, strlen-Holds, Holds-fits}

-- What has to stand between the text and a new line: a line break, where the text does not end
-- with one.
unfoldable pub gap_after : Bytes → Bytes
unfolding is_eol
gap_after t =
    if not (length t == 0) && not (is_eol (get_or t (length t - 1) 0)) then line_break else []

-- Bytes that are stored behind a text.
put_behind :
    (t x rest buf : Bytes)
    → buf ≡ t ++ rest
    → put_at (length t) x buf ≡ t ++ (x ++ drop (length x) rest)
unfolding put_at
put_behind t x rest buf e =
    ap (put_at (length t) x) e
    ∙ ap (λ a. (a ++ x) ++ drop (length t + length x) (t ++ rest))
        (take-append_length t rest (length t) refl)
    ∙ ap (λ b. (t ++ x) ++ b) (drop-append t rest (length t + length x) (length x) refl)
    ∙ append_assoc t x (drop (length x) rest)

get_or-append : (a b : Bytes) (i d : ℕ) → i < length a → get_or (a ++ b) i d ≡ get_or a i d
get_or-append [] b i d lt = absurd (omega arith)
get_or-append (x ∷ a) b zero d lt = refl
get_or-append (x ∷ a) b (suc i) d lt = get_or-append a b i d (omega arith)

empty-NoNul : NoNul []
unfolding NoNul
empty-NoNul = tt

line_break-NoNul : NoNul line_break
unfolding NoNul
line_break-NoNul = (omega arith, (omega arith, tt))

definition_line-NoNul :
    (key text : Bytes) → NoNul key → NoNul text → NoNul (definition_line key text)
unfolding definition_line NoNul
definition_line-NoNul key text nk nt =
    NoNul-append ((key ++ codes " = ") ++ text) line_break
      (NoNul-append (key ++ codes " = ") text
        (NoNul-append key (codes " = ") nk (omega arith, (omega arith, (omega arith, tt)))) nt)
      line_break-NoNul

pub length-definition_line :
    (key text : Bytes) → length (definition_line key text) ≡ length key + 5 + length text
unfolding definition_line
length-definition_line key text = omega (
  arith,
  length-append ((key ++ codes " = ") ++ text) line_break,
  length-append (key ++ codes " = ") text,
  length-append key (codes " = "),
)

over : {m n : ℕ} → ltb m n ≡ true → m < n
over h = ground (arith, h)

under : {m n : ℕ} → ltb m n ≡ false → n ≤ m
under h = ground (arith, h)

module _ (t buf : Bytes) (h : Holds buf t) where
  -- A line stored behind the text and the line break that the text needs, with its NUL.
  stored_behind :
      (gap line buf1 : Bytes)
      → NoNul gap
      → NoNul line
      → buf1 ≡ t ++ (gap ++ drop (length gap) (0 ∷ h.junk))
      → length buf1 ≡ length buf
      → length t + length gap + length line ≤ max_file_size
      → Holds (put_at (length t + length gap) (line ++ (0 ∷ [])) buf1) (t ++ (gap ++ line))
  stored_behind gap line buf1 ng nl e same fits = record {
    size =
        length-put_at (length t + length gap) (line ++ (0 ∷ [])) buf1
          (omega (arith, same, h.size, length-append line (0 ∷ [])))
        ∙ same
        ∙ h.size;
    nul = NoNul-append t (gap ++ line) h.nul (NoNul-append gap line ng nl);
    junk = drop (length (line ++ (0 ∷ []))) (drop (length gap) (0 ∷ h.junk));
    shape =
        ap (λ n. put_at n (line ++ (0 ∷ [])) buf1) (sym (length-append t gap))
        ∙ put_behind (t ++ gap) (line ++ (0 ∷ [])) (drop (length gap) (0 ∷ h.junk)) buf1
            (e ∙ sym (append_assoc t gap (drop (length gap) (0 ∷ h.junk))))
        ∙ regroup;
  }
    where
      regroup :
          (t ++ gap)
            ++ ((line ++ (0 ∷ []))
                ++ drop (length (line ++ (0 ∷ []))) (drop (length gap) (0 ∷ h.junk)))
          ≡ (t ++ (gap ++ line))
            ++ (0 ∷ drop (length (line ++ (0 ∷ []))) (drop (length gap) (0 ∷ h.junk)))
      regroup = simp (append_assoc)

  last_byte : (length t == 0) ≡ false → get_or buf (length t - 1) 0 ≡ get_or t (length t - 1) 0
  last_byte some_text =
      ap (λ b. get_or b (length t - 1) 0) h.shape
      ∙ get_or-append t (0 ∷ h.junk) (length t - 1) 0 (ground (arith, some_text))

  remaining : sub32 max_file_size (strlen buf) ≡ max_file_size - length t
  remaining = rw (strlen-Holds h) (omega (arith, Holds-fits h))

  -- The line is added, and its text found at the place that is returned.
  text_in_line :
      (gap key text m junk : Bytes)
      → m ≡ (t ++ (gap ++ definition_line key text)) ++ (0 ∷ junk)
      → take (length text) (drop (length t + length gap + length key + 3) m) ≡ text
  unfolding definition_line
  text_in_line gap key text m junk e =
      ap (λ b. take (length text) (drop (length t + length gap + length key + 3) b)) (e ∙ regroup)
      ∙ ap (take (length text)) (
          drop-append (t ++ (gap ++ (key ++ codes " = "))) (text ++ (line_break ++ (0 ∷ junk)))
            (length t + length gap + length key + 3) 0
            (omega (
              arith,
              length-append t (gap ++ (key ++ codes " = ")),
              length-append gap (key ++ codes " = "),
              length-append key (codes " = "),
            )))
      ∙ take-append_length text (line_break ++ (0 ∷ junk)) (length text) refl
    where
      regroup :
          (t ++ (gap ++ definition_line key text)) ++ (0 ∷ junk)
          ≡ (t ++ (gap ++ (key ++ codes " = "))) ++ (text ++ (line_break ++ (0 ∷ junk)))
      regroup = simp (append_assoc)

  -- The test for a line break that is missing, on the text.
  break_test :
      (not (strlen buf == 0) && not (is_eol (get_or buf (strlen buf - 1) 0)))
      ≡ (not (length t == 0) && not (is_eol (get_or t (length t - 1) 0)))
  break_test = rw (strlen-Holds h) (elim (Bool-cases (length t == 0)) [
    | inl empty ↦ rw empty refl
    | inr some_text ↦ rw (last_byte some_text) refl
  ])

  module _ (key text : Bytes) (nk : NoNul key) (nt : NoNul text) where
    -- The line is stored where it fits.
    added_behind :
        (gap buf1 : Bytes)
        → NoNul gap
        → buf1 ≡ t ++ (gap ++ drop (length gap) (0 ∷ h.junk))
        → length buf1 ≡ length buf
        → length t + length gap + length (definition_line key text) ≤ max_file_size
        → Holds
            (put_at (length t + length gap) (definition_line key text ++ (0 ∷ [])) buf1)
            (t ++ (gap ++ definition_line key text))
          × (take (length text) (
                drop
                  (length t + length gap + length key + 3)
                  (put_at (length t + length gap) (definition_line key text ++ (0 ∷ [])) buf1))
              ≡ text)
    added_behind gap buf1 ng e same fits =
        let held =
          stored_behind gap (definition_line key text) buf1 ng
            (definition_line-NoNul key text nk nt) e same fits in
        (
          held,
          text_in_line gap key text
              (put_at (length t + length gap) (definition_line key text ++ (0 ∷ [])) buf1) held.junk
              held.shape,
        )

    -- `writeAddDefinitionText` on a full-sized buffer that holds a text, for a key and a text
    -- without NUL: where the text, the line break that it lacks and the new line do not fit, null
    -- is returned and nothing changes. Otherwise the buffer holds the text, the missing line break
    -- and the line, and the offset that is returned is where the new text stands.
    pub write_add_definition_text_lem :
        ((max_file_size < length t + length (gap_after t) + length (definition_line key text))
          × (write_add_definition_text key text buf ≡ (none, buf)))
        ⊎ ((length t + length (gap_after t) + length (definition_line key text) ≤ max_file_size)
            × (buf' : Bytes) × Holds buf' (t ++ (gap_after t ++ definition_line key text))
            × (take (length text) (drop (length t + length (gap_after t) + length key + 3) buf')
                ≡ text)
            × (write_add_definition_text key text buf
                ≡ (some (length t + length (gap_after t) + length key + 3), buf')))
    unfolding write_add_definition_text gap_after put_at
    write_add_definition_text_lem =
        let long = length-definition_line key text in
        let plain : length t + 0 ≡ length t = omega arith in
        elim (Bool-cases (not (length t == 0) && not (is_eol (get_or t (length t - 1) 0)))) [
          | inl gap ↦
              rw (break_test, remaining)
                (rw (gap, strlen-Holds h)
                  (elim (Bool-cases
                    (ltb (max_file_size - length t) (length text + length key + 3 + 2))) [
                      | inl full ↦ inl (omega (arith, long, over full), rw full refl)
                      | inr fits ↦
                          elim (Bool-cases (
                            ltb (max_file_size - length t)
                              (length text + length key + 3 + 2 + 2))) [
                                | inl full ↦
                                    inl (omega (arith, long, over full), rw (fits, full) refl)
                                | inr fits' ↦
                                    let added =
                                      added_behind line_break (put_at (length t) line_break buf)
                                        line_break-NoNul
                                        (put_behind t line_break (0 ∷ h.junk) buf h.shape)
                                        (length-put_at (length t) line_break buf
                                          (omega (arith, h.size, long, under fits')))
                                        (omega (arith, long, under fits')) in
                                    inr (
                                      omega (arith, long, under fits'),
                                      put_at (length t + 2) (definition_line key text ++ (0 ∷ []))
                                          (put_at (length t) line_break buf),
                                      added.0,
                                      added.1,
                                      rw (fits, fits') refl,
                                    )
                              ]
                    ]))
          | inr none_missing ↦
              rw (break_test, remaining)
                (rw (none_missing, strlen-Holds h)
                  (elim (Bool-cases
                    (ltb (max_file_size - length t) (length text + length key + 3 + 2))) [
                      | inl full ↦ inl (omega (arith, long, over full), rw full refl)
                      | inr fits ↦
                          let added =
                            added_behind [] buf empty-NoNul h.shape refl
                              (omega (arith, long, under fits)) in
                          inr (
                            omega (arith, long, under fits),
                            put_at (length t + 0) (definition_line key text ++ (0 ∷ [])) buf,
                            added.0,
                            added.1,
                            rw fits (
                                ap
                                  (λ n. (
                                    some (n + length key + 3),
                                    put_at n (definition_line key text ++ (0 ∷ [])) buf,
                                  ))
                                  (sym plain)),
                          )
                    ]))
        ]
