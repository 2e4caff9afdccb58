-- ===== src/Http/DocumentRoutes/Malformed.antt =====
-- Which error a refused batch body gets.
use leta.Prelude.{
  ℕ, zero, suc, ◌+◌, ◌≡◌, inl, inr, refl, Bool, true, false, Option, none, some, List, [], ◌∷◌,
  ◌++◌, ◌==◌, ltb, if◌then◌else◌, Bytes, length, Bool-cases, Option-cases, arith,
}
use leta.Core.Error.{Result, ok, err, ◌>>=◌, malformed_request}
use leta.Core.ExactMatchIndex.{Document}
use leta.Http.DocumentRoutes.Validate.{
  not_json, succeeds, validate_elements, validate_array, validate_fields, validate_object,
  validate_typed, validate_value, validate_field_value,
}
use leta.Http.DocumentRoutes.Batch.{
  is_string, read_text_field, read_text_from, read_document, read_documents_from, at_least_one,
  parse_document_batch,
}
use leta.Http.Simdjson as Json
use leta.Http.Simdjson.{Simdjson, JsonType}

-- A failure, if it is one, with the code malformed_request.
abbrev pub IsMalformed {ℓ} : {A : Type ℓ} → Result A → Type 0
IsMalformed (ok a) = Unit
IsMalformed (err e) = e.code ≡ malformed_request

IsMalformed-bind {ℓ κ} :
    {A : Type ℓ} {B : Type κ} (m : Result A) (f : A → Result B)
    → IsMalformed m
    → ((a : A) → IsMalformed (f a))
    → IsMalformed (m >>= f)
IsMalformed-bind (ok a) f h k = k a
IsMalformed-bind (err e) f h k = h

module _ (json : Simdjson) where
  open json use {
    Value, Object, Field, iterate, document_array, at_end, type, get_array, get_object, get_string,
    raw_json, can_reset, fields, unescaped_key, value,
  }

  module _ (validate : Value → Result (Unit {0})) (h : (w : Value) → IsMalformed (validate w)) where
    elements-IsMalformed :
        (xs : List (Option Value)) → IsMalformed (validate_elements json validate xs)
    unfolding validate_elements
    elements-IsMalformed [] = tt
    elements-IsMalformed (none ∷ xs) = refl
    elements-IsMalformed (some x ∷ xs) =
        IsMalformed-bind (validate x) _ (h x) (λ _. elements-IsMalformed xs)

    fields-IsMalformed : (fs : List (Option Field)) → IsMalformed (validate_fields json validate fs)
    unfolding validate_fields
    fields-IsMalformed [] = tt
    fields-IsMalformed (none ∷ fs) = refl
    fields-IsMalformed (some f ∷ fs) = elim (Bool-cases (succeeds (unescaped_key f))) [
      | inl key ↦
          rw key
            (IsMalformed-bind (validate (value f)) _ (h (value f)) (λ _. fields-IsMalformed fs))
      | inr no_key ↦ rw no_key refl
    ]

    typed-IsMalformed : (v : Value) (t : JsonType) → IsMalformed (validate_typed json validate v t)
    unfolding validate_typed
    typed-IsMalformed v Json.array = elim (Option-cases (get_array v)) [
      | inl no_array ↦ rw (no_array, validate_array) refl
      | inr (xs, got) ↦ rw (got, validate_array) (elements-IsMalformed xs)
    ]
    typed-IsMalformed v Json.object = elim (Option-cases (get_object v)) [
      | inl no_object ↦ rw (no_object, validate_object) refl
      | inr (o, got) ↦ rw (got, validate_object) (fields-IsMalformed (fields o))
    ]
    typed-IsMalformed v t = ground arith

  value-IsMalformed :
      (fuel : ℕ) (v : Value) (depth : ℕ) → IsMalformed (validate_value json fuel v depth)
  unfolding validate_value
  value-IsMalformed zero v depth = refl
  value-IsMalformed (suc fuel) v depth = elim (Bool-cases (ltb 128 depth)) [
    | inl deep ↦ rw deep refl
    | inr shallow ↦ elim (Option-cases (type v)) [
      | inl no_type ↦ rw (shallow, no_type) refl
      | inr (t, e) ↦
          rw (shallow, e) (typed-IsMalformed _ (λ w. value-IsMalformed fuel w (depth + 1)) v t)
    ]
  ]

  text_field-IsMalformed : (f : Field) (acc : List Bytes) → IsMalformed (read_text_field json f acc)
  unfolding read_text_field validate_field_value
  text_field-IsMalformed f acc = elim (Bool-cases (succeeds (unescaped_key f))) [
    | inr no_key ↦ rw (no_key, read_text_field) refl
    | inl key ↦ elim (Option-cases (type (value f))) [
      | inl no_type ↦ rw (key, read_text_field) (rw no_type refl)
      | inr (t, e) ↦
          rw (key, read_text_field)
            (rw e (elim (Bool-cases (is_string t)) [
              | inl text ↦ rw text (elim (Option-cases (get_string (value f))) [
                | inl no_text ↦ rw no_text refl
                | inr (_, got) ↦ rw got tt
              ])
              | inr other ↦ rw other (
                  IsMalformed-bind (validate_value json 128 (value f) 1) _
                    (value-IsMalformed 128 (value f) 1) (λ _. tt))
            ]))
    ]
  ]

  text-IsMalformed :
      (fs : List (Option Field)) (acc : List Bytes) → IsMalformed (read_text_from json acc fs)
  unfolding read_text_from
  text-IsMalformed [] acc = tt
  text-IsMalformed (none ∷ fs) acc = refl
  text-IsMalformed (some f ∷ fs) acc =
      IsMalformed-bind (read_text_field json f acc) _ (text_field-IsMalformed f acc)
        (text-IsMalformed fs)

  document-IsMalformed : (v : Value) (index : ℕ) → IsMalformed (read_document json v index)
  unfolding read_document
  document-IsMalformed v index = elim (Option-cases (get_object v)) [
    | inl no_object ↦ rw (no_object, read_document) refl
    | inr (o, is_object) ↦
        rw (is_object, read_document)
          (elim (Option-cases (raw_json o)) [
            | inl no_raw ↦ rw no_raw refl
            | inr (raw, raw_is) ↦ rw raw_is (elim (Bool-cases (can_reset o)) [
              | inl resets ↦ rw resets (
                  IsMalformed-bind (read_text_from json [] (fields o)) _
                    (text-IsMalformed (fields o) []) (λ _. tt))
              | inr stuck ↦ rw stuck refl
            ])
          ])
  ]

  documents-IsMalformed :
      (vs : List (Option Value)) (docs : List Document)
      → IsMalformed (read_documents_from json docs vs)
  unfolding read_documents_from
  documents-IsMalformed [] docs = tt
  documents-IsMalformed (none ∷ vs) docs = elim (Bool-cases (length docs == 10000)) [
    | inl full ↦ rw full refl
    | inr below ↦ rw below refl
  ]
  documents-IsMalformed (some v ∷ vs) docs = elim (Bool-cases (length docs == 10000)) [
    | inl full ↦ rw full refl
    | inr below ↦ rw below (
        IsMalformed-bind (read_document json v (length docs)) _
          (document-IsMalformed v (length docs)) (λ d. documents-IsMalformed vs (docs ++ d ∷ [])))
  ]

  at_least_one-IsMalformed : (docs : List Document) → IsMalformed (at_least_one docs)
  at_least_one-IsMalformed [] = refl
  at_least_one-IsMalformed (d ∷ docs) = tt

  end-IsMalformed :
      (b : Bool) (docs : List Document) → IsMalformed (if b then ok docs else not_json)
  end-IsMalformed true docs = tt
  end-IsMalformed false docs = refl

  -- A body that is refused, wherever the fault lies, is refused as a malformed_request.
  pub parse-IsMalformed : (body : Bytes) → IsMalformed (parse_document_batch json body)
  unfolding parse_document_batch
  parse-IsMalformed body = elim (Option-cases (iterate body)) [
    | inl no_json ↦ rw (no_json, parse_document_batch) refl
    | inr (document, parsed) ↦
        rw (parsed, parse_document_batch)
          (elim (Option-cases (document_array document)) [
            | inl no_array ↦ rw no_array refl
            | inr (elements, is_array) ↦ rw is_array (
                IsMalformed-bind (read_documents_from json [] elements >>= at_least_one) _
                  (IsMalformed-bind (read_documents_from json [] elements) at_least_one
                    (documents-IsMalformed elements []) at_least_one-IsMalformed)
                  (end-IsMalformed (at_end document)))
          ])
  ]
