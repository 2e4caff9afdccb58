-- ===== src/Tests/Patterns.antt =====
-- Path patterns matched character by character, with the laws that Dispatcher asks of them.
use mathlib.Core.Option
use leta.Prelude.{
  ℕ, ◌≡◌, ◌≢◌, ◌⊎◌, inl, inr, refl, ap, sym, ◌∙◌, Bool, true, false, ◌&&◌, Option, none, some, List,
  [], ◌∷◌, ◌++◌, append_assoc, append-nil, arith, ◌==◌, ==_iff, if◌then◌else◌, Bytes, equal,
  equal_iff, equal_refl, all_of, Bool-cases,
}
use leta.Http.HttplibServer.Dispatch.{is_plain, has_no_slash, with_segment}

abbrev pub Params : Type 0
Params = List (Bytes × Bytes)

-- What stands before the first slash, and from it on.
abbrev cut : Bytes → Bytes × Bytes
cut [] = ([], [])
cut (c ∷ cs) = let rest = cut cs in if has_no_slash c then (c ∷ rest.0, rest.1) else ([], c ∷ cs)

abbrev step : ℕ → Bytes → (Bytes → Option Params) → Option Params
step p [] next = none
step p (c ∷ cs) next = if p == c then next cs else none

abbrev at_end : Bytes → Params → Option Params
at_end [] params = some params
at_end (c ∷ cs) params = none

-- Matching a pattern: in its plain text, or in the name of a segment whose value is taken already.
unfoldable pub match_from : Option (Bytes × Bytes) → Bytes → Bytes → Option Params
match_from none [] path = at_end path []
match_from none (p ∷ ps) path =
    let in_name = match_from (some ([], (cut path).0)) ps (cut path).1 in
    let plain = step p path (match_from none ps) in if p == b':' then in_name else plain
match_from (some bound) [] path = at_end path (bound ∷ [])
match_from (some bound) (p ∷ ps) path =
    let longer = match_from (some (bound.0 ++ p ∷ [], bound.1)) ps path in
    let closed = Option.map (λ params. bound ∷ params) (step p path (match_from none ps)) in
    if has_no_slash p then longer else closed

and_parts : (a b : Bool) → (a && b) ≡ true → (a ≡ true) × (b ≡ true)
and_parts a b h = ground arith

all_of_parts :
    (test : ℕ → Bool) (xs ys : Bytes)
    → all_of test (xs ++ ys) ≡ true
    → (all_of test xs ≡ true) × (all_of test ys ≡ true)
all_of_parts test [] ys h = (refl, h)
all_of_parts test (x ∷ xs) ys h =
    let (first, others) = and_parts (test x) _ h in
    let (left, right) = all_of_parts test xs ys others in (rw first left, right)

plain_no_colon : (c : ℕ) → is_plain c ≡ true → (c == b':') ≡ false
plain_no_colon c h = ground arith

pub match_plain :
    (pattern path : Bytes)
    → all_of is_plain pattern ≡ true
    → match_from none pattern path ≡ (if equal pattern path then some [] else none)
unfolding match_from
match_plain [] [] h = refl
match_plain [] (c ∷ cs) h = refl
match_plain (p ∷ ps) [] h = rw (plain_no_colon p (and_parts _ _ h).0) refl
match_plain (p ∷ ps) (c ∷ cs) h =
    let (plain, others) = and_parts (is_plain p) _ h in
    rw (plain_no_colon p plain) (elim (Bool-cases (p == c)) [
      | inl same ↦ rw same (match_plain ps cs others)
      | inr differs ↦ rw differs refl
    ])

-- A plain beginning of the pattern is a beginning of the path.
match_before :
    (before rest path : Bytes) (params : Params)
    → all_of is_plain before ≡ true
    → match_from none (before ++ rest) path ≡ some params
    → (tail : Bytes) × (path ≡ before ++ tail) × (match_from none rest tail ≡ some params)
unfolding match_from
match_before [] rest path params plain h = (path, refl, h)
match_before (p ∷ before) rest [] params plain h =
    absurd (none-ne-some (rw (plain_no_colon p (and_parts _ _ plain).0) at h))
  where
    none-ne-some : none ≡ some params → ⊥
    none-ne-some e = cc
match_before (p ∷ before) rest (c ∷ path) params plain h =
    let (plain_p, others) = and_parts (is_plain p) _ plain in
    let taken : step p (c ∷ path) (match_from none (before ++ rest)) ≡ some params =
      rw (plain_no_colon p plain_p) at h in
    elim (Bool-cases (p == c)) [
      | inr differs ↦ absurd (none-ne-some (rw differs at taken))
      | inl same ↦
          let (tail, shape, more) =
            match_before before rest path params others (rw same at taken) in
          (tail, ap (λ x. x ∷ path) (sym ((==_iff p c).0 same)) ∙ ap (◌∷◌ p) shape, more)
    ]
  where
    none-ne-some : none ≡ some params → ⊥
    none-ne-some e = cc

match_before_back :
    (before rest tail : Bytes)
    → all_of is_plain before ≡ true
    → match_from none (before ++ rest) (before ++ tail) ≡ match_from none rest tail
unfolding match_from
match_before_back [] rest tail plain = refl
match_before_back (p ∷ before) rest tail plain =
    let (plain_p, others) = and_parts (is_plain p) _ plain in
    rw (plain_no_colon p plain_p, (==_iff p p).1 refl) (match_before_back before rest tail others)

match_name :
    (bound : Bytes × Bytes) (name behind path : Bytes)
    → all_of has_no_slash name ≡ true
    → match_from (some bound) (name ++ (b'/' ∷ behind)) path
      ≡ Option.map
          (λ params. (bound.0 ++ name, bound.1) ∷ params)
          (step b'/' path (match_from none behind))
unfolding match_from
match_name bound [] behind path clear = rw append-nil refl
match_name bound (p ∷ name) behind path clear =
    let (first, others) = and_parts (has_no_slash p) _ clear in
    rw first
      (match_name (bound.0 ++ p ∷ [], bound.1) name behind path others ∙ rw append_assoc refl)

cut_whole : (xs : Bytes) → (xs ≡ (cut xs).0 ++ (cut xs).1) × (all_of has_no_slash (cut xs).0 ≡ true)
cut_whole [] = (refl, refl)
cut_whole (c ∷ cs) = elim (Bool-cases (has_no_slash c)) [
  | inl clear ↦ rw clear (ap (◌∷◌ c) (cut_whole cs).0, rw clear (cut_whole cs).1)
  | inr slash ↦ rw slash (refl, refl)
]

cut_value :
    (value rest : Bytes)
    → all_of has_no_slash value ≡ true
    → cut (value ++ (b'/' ∷ rest)) ≡ (value, b'/' ∷ rest)
cut_value [] rest h = refl
cut_value (c ∷ value) rest h =
    let (clear, others) = and_parts (has_no_slash c) _ h in
    rw (clear, cut_value value rest others) refl

abbrev pub matches : Bytes → Bytes → Option Params
matches = match_from none

closing :
    (behind path : Bytes) (bound : Bytes × Bytes) (params : Params)
    → all_of is_plain behind ≡ true
    → Option.map (λ ps. bound ∷ ps) (step b'/' path (match_from none behind)) ≡ some params
    → (path ≡ b'/' ∷ behind) × (params ≡ bound ∷ [])
closing behind [] bound params plain h = absurd (no h)
  where
    no : none ≡ some params → ⊥
    no e = cc
closing behind (c ∷ path) bound params plain h = elim (Bool-cases (b'/' == c)) [
  | inr differs ↦ absurd (no (rw differs at h))
  | inl slash ↦
      rest (Bool-cases (equal behind path)) (rw (match_plain behind path plain) at (rw slash at h))
        ((==_iff b'/' c).0 slash)
]
  where
    no : none ≡ some params → ⊥
    no e = cc

    injective : {a b : Params} → some a ≡ some b → a ≡ b
    injective e = cc

    rest :
        (equal behind path ≡ true) ⊎ (equal behind path ≡ false)
        → Option.map (λ ps. bound ∷ ps) (if equal behind path then some [] else none) ≡ some params
        → b'/' ≡ c
        → (c ∷ path ≡ b'/' ∷ behind) × (params ≡ bound ∷ [])
    rest (inl same) h is_slash = (
      ap (λ x. x ∷ path) (sym is_slash) ∙ ap (◌∷◌ b'/') (sym ((equal_iff behind path).0 same)),
      sym (injective (rw same at h)),
    )
    rest (inr differs) h is_slash = absurd (no (rw differs at h))

slashless :
    (xs : Bytes)
    → all_of (λ c. is_plain c && has_no_slash c) xs ≡ true
    → all_of has_no_slash xs ≡ true
slashless [] h = refl
slashless (x ∷ xs) h =
    let (first, others) = and_parts _ _ h in
    rw ((and_parts (is_plain x) _ first).1) (slashless xs others)

pub matches_captures :
    (before name behind requested : Bytes) (params : Params)
    → all_of is_plain (before ++ behind) ≡ true
    → all_of (λ c. is_plain c && has_no_slash c) name ≡ true
    → matches (with_segment before (b':' ∷ name) behind) requested ≡ some params
    → (value : Bytes) × (requested ≡ with_segment before value behind)
      × (all_of has_no_slash value ≡ true)
      × (params ≡ (name, value) ∷ [])
unfolding match_from
matches_captures before name behind requested params plain named h =
    let (plain_before, plain_behind) = all_of_parts is_plain before behind plain in
    let (tail, shape, more) = match_before before _ requested params plain_before h in
    segment tail plain_behind (slashless name named) shape more
  where
    no : none ≡ some params → ⊥
    no e = cc

    segment :
        (tail : Bytes)
        → all_of is_plain behind ≡ true
        → all_of has_no_slash name ≡ true
        → requested ≡ before ++ tail
        → match_from none (b'/' ∷ b':' ∷ (name ++ (b'/' ∷ behind))) tail ≡ some params
        → (value : Bytes) × (requested ≡ with_segment before value behind)
          × (all_of has_no_slash value ≡ true)
          × (params ≡ (name, value) ∷ [])
    segment [] plain clear shape more = absurd (no more)
    segment (c ∷ t) plain clear shape more = elim (Bool-cases (b'/' == c)) [
      | inr differs ↦ absurd (no (rw differs at more))
      | inl slash ↦
          let (ends, bound) =
            closing behind (cut t).1 (name, (cut t).0) params plain
              (sym (match_name ([], (cut t).0) name behind (cut t).1 clear) ∙ (rw slash at more)) in
          let (whole, free) = cut_whole t in
          (
            (cut t).0,
            shape
                ∙ ap (λ x. before ++ (x ∷ t)) (sym ((==_iff b'/' c).0 slash))
                ∙ ap (λ xs. before ++ (b'/' ∷ xs)) (whole ∙ ap (◌++◌ (cut t).0) ends),
            free,
            bound,
          )
    ]

pub matches_every :
    (before name behind value : Bytes)
    → all_of is_plain (before ++ behind) ≡ true
    → all_of (λ c. is_plain c && has_no_slash c) name ≡ true
    → value ≢ []
    → all_of has_no_slash value ≡ true
    → matches (with_segment before (b':' ∷ name) behind) (with_segment before value behind)
      ≡ some ((name, value) ∷ [])
unfolding match_from
matches_every before name behind value plain named filled clear =
    let (plain_before, plain_behind) = all_of_parts is_plain before behind plain in
    match_before_back before _ _ plain_before ∙ segment plain_behind (slashless name named)
  where
    segment :
        all_of is_plain behind ≡ true
        → all_of has_no_slash name ≡ true
        → match_from none
            (b'/' ∷ b':' ∷ (name ++ (b'/' ∷ behind)))
            (b'/' ∷ (value ++ (b'/' ∷ behind)))
          ≡ some ((name, value) ∷ [])
    segment plain_b clear_n = rw (cut_value value behind clear) (
        match_name ([], value) name behind (b'/' ∷ behind) clear_n
        ∙ rw (match_plain behind behind plain_b, equal_refl behind) refl)
