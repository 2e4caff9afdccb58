-- ===== src/Http/JsonTimestamp/Fields.antt =====
-- The fields of an RFC 3339 timestamp: numbers of fixed widths between fixed texts.
use leta.Prelude.{
  ℕ, suc, ◌+◌, ◌-◌, ◌<◌, ◌≡◌, refl, ap, sym, ◌∙◌, Option, none, some, List, [], ◌∷◌, ◌++◌,
  append_assoc, append-nil, arith, ltb, Bytes, codes, length, length-append, replicate, Bool-cases,
  inl, inr,
}
use leta.Prelude.Decimal.{to_string}
use leta.Prelude.Padded.{ten_to, padded, length-padded, read_fixed, read_fixed-padded}
use leta.Http.JsonObject.{skip, skip-append}
use leta.Http.JsonTimestamp.{append_zero_padded}

append_zero_padded-padded :
    (out : Bytes) (value width : ℕ) → append_zero_padded out value width ≡ out ++ padded width value
unfolding append_zero_padded
append_zero_padded-padded out value width =
    elim (Bool-cases (ltb (length (to_string value)) width)) [
      | inl short ↦
          rw short
            (append_assoc out (replicate (width - length (to_string value)) b'0') (to_string value))
      | inr full ↦
          rw full
            (ap (λ (n : ℕ). out ++ (replicate n b'0' ++ to_string value)) {x = 0} (ground arith))
    ]

-- A field: the text before it, and its width less one.
abbrev Field : Type 0
Field = Bytes × ℕ

-- The fields of a timestamp: year, month, day, hours, minutes, seconds and milliseconds.
abbrev pub layout : List Field
layout =
    (codes "\"", 3)
    ∷ (codes "-", 1)
    ∷ (codes "-", 1)
    ∷ (codes "T", 1)
    ∷ (codes ":", 1)
    ∷ (codes ":", 1)
    ∷ (codes ".", 2)
    ∷ []

abbrev pub written : List Field → List ℕ → Bytes
written [] values = []
written (field ∷ fields) [] = []
written (field ∷ fields) (v ∷ values) = field.0 ++ (padded (suc field.1) v ++ written fields values)

abbrev pub Fit : List Field → List ℕ → Type 0
Fit [] [] = Unit
Fit [] (v ∷ values) = ⊥
Fit (field ∷ fields) [] = ⊥
Fit (field ∷ fields) (v ∷ values) = (v < ten_to (suc field.1)) × Fit fields values

unfoldable pub read_all : List Field → Bytes → Option (List ℕ × Bytes)
read_all [] input = some ([], input)
read_all (field ∷ fields) input = elim (skip field.0 input) [
  | none ↦ none
  | some at_value ↦ elim (read_fixed (suc field.1) 0 at_value) [
    | none ↦ none
    | some (v, behind) ↦ elim (read_all fields behind) [
      | none ↦ none
      | some (values, rest) ↦ some (v ∷ values, rest)
    ]
  ]
]

pub read_all-written :
    (fields : List Field) (values : List ℕ) (rest : Bytes)
    → Fit fields values
    → read_all fields (written fields values ++ rest) ≡ some (values, rest)
unfolding read_all
read_all-written [] [] rest h = refl
read_all-written [] (v ∷ values) rest h = absurd h
read_all-written (field ∷ fields) [] rest h = absurd h
read_all-written (field ∷ fields) (v ∷ values) rest h =
    rw
      (
        assoc,
        skip-append field.0 (padded (suc field.1) v ++ (written fields values ++ rest)),
        read_all,
      )
      (rw (read_fixed-padded field.1 v (written fields values ++ rest) h.0)
        (rw (read_all-written fields values rest h.1) refl))
  where
    assoc :
        (field.0 ++ (padded (suc field.1) v ++ written fields values)) ++ rest
        ≡ field.0 ++ (padded (suc field.1) v ++ (written fields values ++ rest))
    assoc =
        append_assoc field.0 (padded (suc field.1) v ++ written fields values) rest
        ∙ ap (◌++◌ field.0) (append_assoc (padded (suc field.1) v) (written fields values) rest)

-- Fields written one after the other, as `append_json_timestamp` writes them.
abbrev pub append_fields : List Field → Bytes → List ℕ → Bytes
append_fields [] out values = out
append_fields (field ∷ fields) out [] = out
append_fields (field ∷ fields) out (v ∷ values) =
    append_fields fields (append_zero_padded (out ++ field.0) v (suc field.1)) values

pub append_fields_lem :
    (fields : List Field) (out : Bytes) (values : List ℕ)
    → append_fields fields out values ≡ out ++ written fields values
append_fields_lem [] out values = sym (append-nil out)
append_fields_lem (field ∷ fields) out [] = sym (append-nil out)
append_fields_lem (field ∷ fields) out (v ∷ values) =
    append_fields_lem fields (append_zero_padded (out ++ field.0) v (suc field.1)) values
    ∙ ap (λ (o : Bytes). o ++ written fields values)
        (append_zero_padded-padded (out ++ field.0) v (suc field.1))
    ∙ append_assoc (out ++ field.0) (padded (suc field.1) v) (written fields values)
    ∙ append_assoc out field.0 (padded (suc field.1) v ++ written fields values)

abbrev size : List Field → ℕ
size [] = 0
size (field ∷ fields) = length field.0 + (suc field.1 + size fields)

pub length-written :
    (fields : List Field) (values : List ℕ)
    → Fit fields values
    → length (written fields values) ≡ size fields
length-written [] values h = refl
length-written (field ∷ fields) [] h = absurd h
length-written (field ∷ fields) (v ∷ values) h =
    length-append field.0 (padded (suc field.1) v ++ written fields values)
    ∙ ap (◌+◌ (length field.0)) (
        length-append (padded (suc field.1) v) (written fields values)
        ∙ omega (arith, length-padded field.1 v h.0, length-written fields values h.1))
