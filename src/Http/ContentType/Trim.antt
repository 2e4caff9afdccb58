-- ===== src/Http/ContentType/Trim.antt =====
-- What a Content-Type value that names JSON looks like, and what trim_whitespace cuts off.
use leta.Prelude.{
  ℕ, ◌+◌, ◌-◌, ◌≤◌, ◌≡◌, ◌⊎◌, inl, inr, refl, ap, sym, ◌∙◌, Bool, true, false, not, some, [], ◌∷◌,
  ◌++◌, append_assoc, arith, ◌==◌, Bytes, length, length-append, take, drop, All,
}
use leta.Prelude.Text.{
  is_in, find_from, find_last_from, nowhere, at, find_from-Found, find_last-append_end,
  take-length-cons, drop-length-append, Last-of, not-false,
}
use leta.Http.ContentType.{json_media_type, optional_whitespace, trim_whitespace}

abbrev pub IsBlank : ℕ → Type 0
IsBlank c = is_in optional_whitespace c ≡ true

abbrev pub solid : ℕ → Bool
solid c = not (is_in optional_whitespace c)

abbrev pub semicolon : ℕ → Bool
semicolon c = c == b';'

-- The same letters, where the first text may have some of them in upper case.
abbrev pub SameLetters : Bytes → Bytes → Type 0
SameLetters [] [] = Unit
SameLetters (c ∷ cs) (d ∷ ds) =
    ((c ≡ d) ⊎ ((b'A' ≤ c) × (c ≤ b'Z') × (c + 32 ≡ d))) × SameLetters cs ds
SameLetters _ _ = ⊥

-- A header: the media type application/json in any case, spaces and tabs around it, and then the end
-- or a `;` with whatever parameters.
pub record NamesJson (header : Bytes) : Type 0 where
  pub lead : Bytes
  pub media : Bytes
  pub trail : Bytes
  pub rest : Bytes
  pub splits : header ≡ (lead ++ (media ++ trail)) ++ rest
  pub lead_blank : All IsBlank lead
  pub trail_blank : All IsBlank trail
  pub names : SameLetters media json_media_type
  pub ends : (rest ≡ []) ⊎ ((parameters : Bytes) × (rest ≡ b';' ∷ parameters))

pub blank_fails : (xs : Bytes) → All IsBlank xs → All (λ c. solid c ≡ false) xs
blank_fails [] h = tt
blank_fails (c ∷ cs) h = (ap not h.0, blank_fails cs h.1)

fails-IsBlank : (xs : Bytes) → All (λ c. solid c ≡ false) xs → All IsBlank xs
fails-IsBlank [] h = tt
fails-IsBlank (c ∷ cs) h = (not-false _ h.0, fails-IsBlank cs h.1)

pub blank_no_semicolon : (xs : Bytes) → All IsBlank xs → All (λ c. semicolon c ≡ false) xs
blank_no_semicolon [] h = tt
blank_no_semicolon (c ∷ cs) h = (one c h.0, blank_no_semicolon cs h.1)
  where
    one : (c : ℕ) → IsBlank c → semicolon c ≡ false
    one c h = ground arith

-- Where the first character kept is known, the text between it and the last one is kept.
pub trim_lem :
    (lead ys : Bytes) (z : ℕ) (trail : Bytes)
    → find_from solid 0 (lead ++ (ys ++ (z ∷ trail))) ≡ some (length lead)
    → solid z ≡ true
    → All (λ c. solid c ≡ false) trail
    → trim_whitespace (lead ++ (ys ++ (z ∷ trail))) ≡ ys ++ z ∷ []
unfolding trim_whitespace
trim_lem lead ys z trail first hit after = rw (first, trim_whitespace) (rw last kept)
  where
    last : find_last_from solid 0 (lead ++ (ys ++ (z ∷ trail))) ≡ some (length lead + length ys)
    last =
        ap (find_last_from solid 0) (sym (append_assoc lead ys (z ∷ trail)))
        ∙ find_last-append_end solid 0 (lead ++ ys) z trail hit after
        ∙ ap some (omega (arith, length-append lead ys))

    kept :
        take
          (length lead + length ys - length lead + 1)
          (drop (length lead) (lead ++ (ys ++ (z ∷ trail))))
        ≡ ys ++ z ∷ []
    kept = rw (drop-length-append lead (ys ++ (z ∷ trail))) (
        ap (λ (n : ℕ). take n (ys ++ (z ∷ trail))) {y = length ys + 1} (omega arith)
        ∙ take-length-cons ys z trail)

-- A text that is not all blank, with its ends.
pub trim_split :
    (text : Bytes)
    → (trim_whitespace text ≡ [])
      ⊎ ((lead : Bytes) × (trail : Bytes) × (text ≡ lead ++ (trim_whitespace text ++ trail))
          × All IsBlank lead
          × All IsBlank trail)
trim_split text = elim (find_from-Found solid 0 text) [
  | nowhere nothing all ↦ inl (unfold trim_whitespace in rw (nothing, trim_whitespace) refl)
  | at lead c post found split before hit ↦
      let l = Last-of solid c post hit in
      let whole : text ≡ lead ++ (l.before ++ (l.hit ∷ l.after)) =
        split ∙ ap (◌++◌ lead) l.splits in
      let kept : trim_whitespace text ≡ l.before ++ l.hit ∷ [] =
        ap trim_whitespace whole
        ∙ trim_lem lead l.before l.hit l.after
            (ap (find_from solid 0) (sym whole) ∙ found ∙ ap some (omega arith)) l.passes l.fails in
      inr (
        lead,
        l.after,
        rw kept (whole ∙ ap (◌++◌ lead) (sym (append_assoc l.before (l.hit ∷ []) l.after))),
        fails-IsBlank lead before,
        fails-IsBlank l.after l.fails,
      )
]
