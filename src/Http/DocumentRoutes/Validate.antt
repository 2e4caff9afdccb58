-- ===== src/Http/DocumentRoutes/Validate.antt =====
-- src/adapters/http/document_routes.cpp: the messages, and the validation of a document's values.
use leta.Prelude.{
  ℕ, zero, suc, ◌+◌, Bool, true, false, not, Option, none, some, List, [], ◌∷◌, ◌++◌, ltb,
  if◌then◌else◌, Bytes, codes, take,
}
use leta.Prelude.Text.{is_in, find_last_from}
use leta.Prelude.Decimal.{to_string}
use leta.Core.Error.{Result, ok, failure, malformed_request, ◌>>◌}
use leta.Http.Simdjson.{Simdjson, JsonType, array, object, number, string, boolean, null, unknown}

-- MaxBatchDocuments
abbrev pub max_batch_documents : ℕ
max_batch_documents = 10000

-- MaxNestingDepth
abbrev pub max_nesting_depth : ℕ
max_nesting_depth = 128

abbrev pub malformed {ℓ} : {A : Type ℓ} → Bytes → Result A
malformed message = failure malformed_request message

-- malformed(NotJson)
abbrev pub not_json {ℓ} : {A : Type ℓ} → Result A
not_json = malformed (codes "The request body is not valid JSON.")

-- not_an_object
abbrev pub not_an_object {ℓ} : {A : Type ℓ} → ℕ → Result A
not_an_object index =
    malformed
      (codes "The batch's element at index " ++ (to_string index ++ codes " is not a JSON object."))

-- too_many_documents
abbrev pub too_many_documents {ℓ} : {A : Type ℓ} → Result A
too_many_documents =
    malformed
      (codes "A batch holds at most " ++ (to_string max_batch_documents ++ codes " documents."))

-- nested_too_deeply
abbrev pub nested_too_deeply {ℓ} : {A : Type ℓ} → Result A
nested_too_deeply =
    malformed (
      codes "A document nests more than " ++ (to_string max_nesting_depth ++ codes " levels deep."))

-- RFC 8259's four: " \t\n\r"
abbrev pub json_whitespace : Bytes
json_whitespace = 32 ∷ 9 ∷ 10 ∷ 13 ∷ []

-- without_trailing_whitespace
unfoldable pub without_trailing_whitespace : Bytes → Bytes
unfolding find_last_from
without_trailing_whitespace json =
    elim (find_last_from (λ c. not (is_in json_whitespace c)) 0 json) [
      | none ↦ []
      | some last ↦ take (last + 1) json
    ]

-- the test of `null` in reads_as_scalar
abbrev pub is_true : Option Bool → Bool
is_true none = false
is_true (some b) = b

abbrev pub succeeds {ℓ} : {A : Type ℓ} → Option A → Bool
succeeds none = false
succeeds (some a) = true

module _ (json : Simdjson) where
  open json use {
    Value, Object, Field, iterate, document_array, at_end, type, get_array, get_object, get_string,
    is_null, is_double, is_bool, raw_json, can_reset, fields, unescaped_key, value,
  }

  -- reads_as_scalar
  unfoldable pub reads_as_scalar : Value → JsonType → Bool
  reads_as_scalar v number = is_double v
  reads_as_scalar v string = succeeds (get_string v)
  reads_as_scalar v boolean = is_bool v
  reads_as_scalar v null = is_true (is_null v)
  reads_as_scalar v array = false
  reads_as_scalar v object = false
  reads_as_scalar v unknown = false

  -- The three validate functions call one another; the call back to validate_value, at the depth one
  -- below, is handed to the two loops as a function.

  -- the loop of validate_array
  unfoldable pub validate_elements :
      (Value → Result (Unit {0})) → List (Option Value) → Result (Unit {0})
  validate_elements validate [] = ok tt
  validate_elements validate (none ∷ rest) = not_json
  validate_elements validate (some element ∷ rest) =
      validate element >> validate_elements validate rest

  -- validate_array
  unfoldable pub validate_array : (Value → Result (Unit {0})) → Value → Result (Unit {0})
  unfolding validate_elements
  validate_array validate v = elim (get_array v) [
    | none ↦ not_json
    | some elements ↦ validate_elements validate elements
  ]

  -- the loop of validate_object
  unfoldable pub validate_fields :
      (Value → Result (Unit {0})) → List (Option Field) → Result (Unit {0})
  validate_fields validate [] = ok tt
  validate_fields validate (none ∷ rest) = not_json
  validate_fields validate (some field ∷ rest) =
      if succeeds (unescaped_key field)
      then validate (value field) >> validate_fields validate rest
      else not_json

  -- validate_object
  unfoldable pub validate_object : (Value → Result (Unit {0})) → Value → Result (Unit {0})
  unfolding validate_fields
  validate_object validate v = elim (get_object v) [
    | none ↦ not_json
    | some members ↦ validate_fields validate (fields members)
  ]

  -- validate_value past its test of the depth
  unfoldable pub validate_typed : (Value → Result (Unit {0})) → Value → JsonType → Result (Unit {0})
  unfolding validate_array validate_object reads_as_scalar
  validate_typed validate v array = validate_array validate v
  validate_typed validate v object = validate_object validate v
  validate_typed validate v scalar = if reads_as_scalar v scalar then ok tt else not_json

  -- validate_value. A call at depth d makes calls at depth d + 1, and one past max_nesting_depth makes
  -- none.
  unfoldable pub validate_value : ℕ → Value → ℕ → Result (Unit {0})
  unfolding validate_typed
  validate_value zero v depth = nested_too_deeply
  validate_value (suc fuel) v depth =
      let validate = λ (inner : Value). validate_value fuel inner (depth + 1) in
      if ltb max_nesting_depth depth
      then nested_too_deeply
      else elim (type v) [ none ↦ not_json | some t ↦ validate_typed validate v t ]

  -- validate_value(value, 1), as read_searchable_text calls it
  unfoldable pub validate_field_value : Value → Result (Unit {0})
  unfolding validate_value
  validate_field_value v = validate_value max_nesting_depth v 1
