-- ===== src/Http/JsonObject.antt =====
-- Reading the members of a JSON object whose layout is fixed, as the program's responses are.
use leta.Prelude.{◌≡◌, refl, Option, none, some, [], ◌∷◌, ◌++◌, arith, ◌==◌, if◌then◌else◌, Bytes}
use leta.Http.JsonString.Reading.{read_string, read_string-quoted, quoted}

-- What follows a fixed text at the start of the input.
unfoldable pub skip : Bytes → Bytes → Option Bytes
skip [] input = some input
skip (x ∷ xs) [] = none
skip (x ∷ xs) (c ∷ cs) = if x == c then skip xs cs else none

pub skip-append : (xs rest : Bytes) → skip xs (xs ++ rest) ≡ some rest
unfolding skip
skip-append [] rest = refl
skip-append (x ∷ xs) rest = ground (arith, skip-append xs rest)

-- A member of a JSON object: the fixed text before it, then the value, as `read` reads it.
unfoldable pub member {ℓ} :
    {A : Type ℓ} → (Bytes → Option (A × Bytes)) → Bytes → Bytes → Option (A × Bytes)
member read before input = elim (skip before input) [ none ↦ none | some rest ↦ read rest ]

pub member_lem {ℓ} :
    {A : Type ℓ} (read : Bytes → Option (A × Bytes)) (before text rest : Bytes) (a : A)
    → read (text ++ rest) ≡ some (a, rest)
    → member read before (before ++ (text ++ rest)) ≡ some (a, rest)
unfolding member
member_lem read before text rest a h = rw (skip-append before (text ++ rest), member) h

-- A member whose value is a string.
abbrev pub read_member : Bytes → Bytes → Option (Bytes × Bytes)
read_member = member read_string

pub read_member-quoted :
    (before value rest : Bytes)
    → read_member before (before ++ (quoted value ++ rest)) ≡ some (value, rest)
read_member-quoted before value rest =
    member_lem read_string before (quoted value) rest value (read_string-quoted value rest)
