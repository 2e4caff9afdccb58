-- ===== src/Http/ContentType/Accepts.antt =====
-- Which Content-Type values name JSON.
use leta.Prelude.{
  ℕ, ◌+◌, ◌≤◌, ◌≡◌, ◌≢◌, ==_iff, ◌↔◌, ◌⊎◌, inl, inr, refl, ap, sym, ◌∙◌, Bool, true, false, ◌&&◌,
  some, [], ◌∷◌, ◌++◌, append-nil, append_assoc, arith, ◌==◌, Bytes, length, All, All-append,
}
use mathlib.Core.Bool.{false≢true}
use leta.Prelude.Text.{
  find_from, nowhere, at, find_from-Found, find_from-append, find_from-none, take-length-append,
}
use leta.Http.ContentType.{
  json_media_type, trim_whitespace, to_ascii_lower, equals_ignoring_ascii_case,
  is_json_content_type, prefix_to,
}
use leta.Http.ContentType.Trim.{
  IsBlank, solid, semicolon, SameLetters, NamesJson, blank_fails, blank_no_semicolon, trim_lem,
  trim_split,
}

-- In lower case already, and neither blank nor `;`.
abbrev IsPlain : ℕ → Type 0
IsPlain d = (to_ascii_lower d ≡ d) × (solid d ≡ true) × (semicolon d ≡ false)

IsPlain-json_media_type : All IsPlain json_media_type
unfolding to_ascii_lower
IsPlain-json_media_type = ground arith

same_letter :
    (c d : ℕ)
    → to_ascii_lower d ≡ d
    → (to_ascii_lower c ≡ to_ascii_lower d) ↔ ((c ≡ d) ⊎ ((b'A' ≤ c) × (c ≤ b'Z') × (c + 32 ≡ d)))
unfolding to_ascii_lower
same_letter c d lower = ground arith

letter_plain :
    (c d : ℕ)
    → IsPlain d
    → (c ≡ d) ⊎ ((b'A' ≤ c) × (c ≤ b'Z') × (c + 32 ≡ d))
    → (solid c ≡ true) × (semicolon c ≡ false)
letter_plain c d plain (inl same) = rw same (plain.1, plain.2)
letter_plain c d plain (inr upper) = ground arith

equals-SameLetters :
    (cs ds : Bytes) → All IsPlain ds → (equals_ignoring_ascii_case cs ds ≡ true) ↔ SameLetters cs ds
unfolding equals_ignoring_ascii_case
equals-SameLetters [] [] plain = (λ h. tt, λ h. refl)
equals-SameLetters [] (d ∷ ds) plain = (λ h. absurd (false≢true h), λ h. absurd h)
equals-SameLetters (c ∷ cs) [] plain = (λ h. absurd (false≢true h), λ h. absurd h)
equals-SameLetters (c ∷ cs) (d ∷ ds) plain =
    let (there, back) = equals-SameLetters cs ds plain.1 in
    let (letter, letter_back) = same_letter c d plain.0.0 in
    (
      λ h.
          let (first, others) = and_parts (to_ascii_lower c == to_ascii_lower d) _ h in
          (letter ((==_iff _ _).0 first), there others),
      λ h. rw ((==_iff _ _).1 (letter_back h.0)) (back h.1),
    )
  where
    and_parts : (a b : Bool) → (a && b) ≡ true → (a ≡ true) × (b ≡ true)
    and_parts a b h = ground arith

letters_plain :
    (cs ds : Bytes)
    → All IsPlain ds
    → SameLetters cs ds
    → All (λ c. solid c ≡ true) cs × All (λ c. semicolon c ≡ false) cs
letters_plain [] [] plain h = (tt, tt)
letters_plain [] (d ∷ ds) plain h = absurd h
letters_plain (c ∷ cs) [] plain h = absurd h
letters_plain (c ∷ cs) (d ∷ ds) plain h =
    let (solids, colons) = letters_plain cs ds plain.1 h.1 in
    let (solid_c, colon_c) = letter_plain c d plain.0 h.0 in ((solid_c, solids), (colon_c, colons))

-- A text of characters that are kept is all that trimming leaves of it with blanks around it.
trim_media :
    (lead media trail : Bytes)
    → media ≢ []
    → All IsBlank lead
    → All (λ c. solid c ≡ true) media
    → All IsBlank trail
    → trim_whitespace (lead ++ (media ++ trail)) ≡ media
trim_media lead [] trail some_media blank kept after = absurd (some_media refl)
trim_media lead (m ∷ ms) trail some_media blank kept after =
    let (ys, z, ends, solid_z) = last_kept m ms kept in
    let same : lead ++ ((m ∷ ms) ++ trail) ≡ lead ++ (ys ++ (z ∷ trail)) =
      ap (◌++◌ lead) (ap (λ xs. xs ++ trail) ends ∙ append_assoc ys (z ∷ []) trail) in
    let first : find_from solid 0 (lead ++ (ys ++ (z ∷ trail))) ≡ some (length lead) =
      ap (find_from solid 0) (sym same)
      ∙ find_from-append solid 0 lead m (ms ++ trail) (blank_fails lead blank) kept.0
      ∙ ap some (omega arith) in
    ap trim_whitespace same
    ∙ trim_lem lead ys z trail first solid_z (blank_fails trail after)
    ∙ sym ends
  where
    last_kept :
        (m : ℕ) (ms : Bytes)
        → All (λ c. solid c ≡ true) (m ∷ ms)
        → (ys : Bytes) × (z : ℕ) × (m ∷ ms ≡ ys ++ z ∷ []) × (solid z ≡ true)
    last_kept m [] h = ([], m, refl, h.0)
    last_kept m (n ∷ ns) h =
        let (ys, z, ends, kept) = last_kept n ns h.1 in (m ∷ ys, z, ap (◌∷◌ m) ends, kept)

-- What stands before the first `;`.
abbrev media_range : Bytes → Bytes
media_range header = prefix_to header (find_from semicolon 0 header)

range_lem :
    (front rest : Bytes)
    → All (λ c. semicolon c ≡ false) front
    → (rest ≡ []) ⊎ ((parameters : Bytes) × (rest ≡ b';' ∷ parameters))
    → media_range (front ++ rest) ≡ front
range_lem front rest clear (inl end) =
    rw (end, append-nil front) (ap (prefix_to front) (find_from-none semicolon 0 front clear))
range_lem front rest clear (inr (parameters, more)) = rw more (
    ap (prefix_to (front ++ (b';' ∷ parameters)))
      (find_from-append semicolon 0 front b';' parameters clear refl ∙ ap some (omega arith))
    ∙ take-length-append front (b';' ∷ parameters))

-- The part of a header before the first `;`, and what follows it.
range_split :
    (header : Bytes)
    → (rest : Bytes) × (header ≡ media_range header ++ rest)
      × ((rest ≡ []) ⊎ ((parameters : Bytes) × (rest ≡ b';' ∷ parameters)))
range_split header = elim (find_from-Found semicolon 0 header) [
  | nowhere nothing clear ↦
      ([], sym (append-nil header) ∙ ap (λ xs. xs ++ []) (sym (whole clear)), inl refl)
  | at front c parameters found split clear hit ↦
      let rest = c ∷ parameters in
      let ends : (rest ≡ []) ⊎ ((parameters : Bytes) × (rest ≡ b';' ∷ parameters)) =
        inr (parameters, ap (λ x. x ∷ parameters) ((==_iff c b';').0 hit)) in
      (
        rest,
        split
            ∙ ap (λ xs. xs ++ rest) (sym (ap media_range split ∙ range_lem front rest clear ends)),
        ends,
      )
]
  where
    whole : All (λ c. semicolon c ≡ false) header → media_range header ≡ header
    whole clear = ap media_range (sym (append-nil header)) ∙ range_lem header [] clear (inl refl)

is_json-NamesJson : (header : Bytes) → is_json_content_type header ≡ true → NamesJson header
unfolding is_json_content_type
is_json-NamesJson header h =
    let (rest, split, ends) = range_split header in
    elim (trim_split (media_range header)) [
      | inl nothing ↦ absurd (
          (equals-SameLetters [] json_media_type IsPlain-json_media_type).0
            (ap (λ xs. equals_ignoring_ascii_case xs json_media_type) (sym nothing) ∙ h))
      | inr (lead, trail, kept, before, after) ↦ record {
        lead = lead;
        media = trim_whitespace (media_range header);
        trail = trail;
        rest = rest;
        splits = split ∙ ap (λ xs. xs ++ rest) kept;
        lead_blank = before;
        trail_blank = after;
        names = (equals-SameLetters _ json_media_type IsPlain-json_media_type).0 h;
        ends = ends;
      }
    ]

NamesJson-is_json : (header : Bytes) → NamesJson header → is_json_content_type header ≡ true
unfolding is_json_content_type
NamesJson-is_json header n =
    let (solids, colons) = letters_plain n.media json_media_type IsPlain-json_media_type n.names in
    let clear : All (λ c. semicolon c ≡ false) (n.lead ++ (n.media ++ n.trail)) =
      All-append _ n.lead _ (blank_no_semicolon n.lead n.lead_blank)
        (All-append _ n.media n.trail colons (blank_no_semicolon n.trail n.trail_blank)) in
    let range : media_range header ≡ n.lead ++ (n.media ++ n.trail) =
      ap media_range n.splits ∙ range_lem _ n.rest clear n.ends in
    let trimmed : trim_whitespace (media_range header) ≡ n.media =
      ap trim_whitespace range
      ∙ trim_media n.lead n.media n.trail (not_empty n.media n.names) n.lead_blank solids
          n.trail_blank in
    ap (λ xs. equals_ignoring_ascii_case xs json_media_type) trimmed
    ∙ (equals-SameLetters n.media json_media_type IsPlain-json_media_type).1 n.names
  where
    not_empty : (media : Bytes) → SameLetters media json_media_type → media ≢ []
    not_empty [] names e = names
    not_empty (m ∷ ms) names e = cc

-- A Content-Type value names JSON exactly when it is `application/json` in any mix of upper and lower
-- case, with spaces and tabs around it, alone or followed by `;` and any parameters.
pub is_json_content_type_iff :
    (header : Bytes) → (is_json_content_type header ≡ true) ↔ NamesJson header
is_json_content_type_iff header = (is_json-NamesJson header, NamesJson-is_json header)
