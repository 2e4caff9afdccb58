-- ===== src/Tests/Routes.antt =====
-- The two routes at concrete bodies, with the JSON parser and the repository instantiated.
use leta.Prelude.{ℕ, ◌+◌, ◌≤◌, ◌≡◌, ◌↔◌, refl, [], ◌∷◌, arith, codes, some}
use leta.Core.Error.{ok}
use leta.Core.IndexUid.{parse, is_uid_character}
use leta.Application.IndexService.{CreateIndexCommand}
use leta.Http.IndexRoutes.{parse_create_index_request, create_index_response}
use leta.Http.IndexRoutes.Fields.{Request}
use leta.Http.IndexRoutes.Accepts.{parse_create_index_request_iff}
use leta.Http.IndexRoutes.Responses as Creates
use leta.Http.IndexRoutes.Responses.{create_index_response_lem}
use leta.Http.DocumentRoutes.Validate.{validate_value, validate_field_value}
use leta.Http.DocumentRoutes.Batch.{parse_document_batch, add_documents_response}
use leta.Http.DocumentRoutes.Level.{Below, Reads}
use leta.Http.DocumentRoutes.Depth.{
  validate_value_lem, validate_value_fuel, validate_field_value_iff,
}
use leta.Http.DocumentRoutes.Elements.{Batch}
use leta.Http.DocumentRoutes.Accepts.{parse_document_batch_iff}
use leta.Http.DocumentRoutes.Responses as Ingests
use leta.Http.DocumentRoutes.Responses.{add_documents_response_lem, without_trailing_whitespace_lem}
use leta.Storage.{initial}
use leta.Storage.Laws.{in_memory}
use leta.Tests.Data.{books, noon, dune}
use leta.Tests.Toy.{
  ToyValue, items, and_value, no_values, numeral, toy_json, create_body, batch_body,
}

-- [[1]]
abbrev nested : ToyValue
nested = items (and_value (items (and_value numeral no_values)) no_values)

abbrev pub create_books : CreateIndexCommand
create_books = record { uid = books; primary_key = some (codes "id") }

parse_create_index_request_iff_example :
    (parse_create_index_request toy_json create_body ≡ ok create_books)
    ↔ Request toy_json create_body create_books
parse_create_index_request_iff_example =
    parse_create_index_request_iff toy_json create_body create_books

pub test_create_body : parse_create_index_request toy_json create_body ≡ ok create_books
unfolding parse_create_index_request parse is_uid_character
test_create_body = refl

create_index_response_lem_example :
    Creates.Answered toy_json in_memory create_body noon initial
      (create_index_response toy_json in_memory create_body noon initial)
create_index_response_lem_example =
    create_index_response_lem toy_json in_memory create_body noon initial

parse_document_batch_iff_example :
    (parse_document_batch toy_json batch_body ≡ ok (dune ∷ []))
    ↔ Batch toy_json batch_body (dune ∷ [])
parse_document_batch_iff_example = parse_document_batch_iff toy_json batch_body (dune ∷ [])

pub test_batch_body : parse_document_batch toy_json batch_body ≡ ok (dune ∷ [])
unfolding parse_document_batch
test_batch_body = refl

add_documents_response_lem_example :
    Ingests.Answered toy_json in_memory
      (codes "books")
      batch_body
      noon
      3
      initial
      (add_documents_response toy_json in_memory (codes "books") batch_body noon 3 initial)
add_documents_response_lem_example =
    add_documents_response_lem toy_json in_memory (codes "books") batch_body noon 3 initial

validate_value_lem_example :
    (validate_value toy_json 3 nested 127 ≡ ok tt)
    ↔ ((n : ℕ) (u : ToyValue) → Below toy_json u n nested → (127 + n ≤ 128) × Reads toy_json u)
validate_value_lem_example = validate_value_lem toy_json 3 nested 127 (omega arith)

validate_value_fuel_example :
    validate_value toy_json 4 nested 127 ≡ validate_value toy_json 3 nested 127
validate_value_fuel_example = validate_value_fuel toy_json 3 nested 127 (omega arith)

validate_field_value_iff_example :
    (validate_field_value toy_json nested ≡ ok tt)
    ↔ ((n : ℕ) (u : ToyValue) → Below toy_json u n nested → (1 + n ≤ 128) × Reads toy_json u)
validate_field_value_iff_example = validate_field_value_iff toy_json nested
