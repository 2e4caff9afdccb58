-- ===== src/Tests/Server.antt =====
-- The composed server at concrete requests: an index is created, a batch is sent to it, and a path
-- that no route has is asked for.
use leta.Prelude.{
  ◌^◌, ◌≤◌, ◌≡◌, true, refl, ◌∙◌, none, some, List, [], ◌∷◌, arith, Bytes, codes, length,
}
use leta.Core.Map.{find-empty}
use leta.Core.IndexUid.{IsUid}
use leta.Application.IngestService.{index_if_missing}
use leta.Core.ExactMatchIndex.{documents_containing}
use leta.Core.ExactMatchIndex.Postings.{positions}
use leta.Application.HttpServer.{get, post, Readings, parameter_in}
use leta.Application.IndexRepository.{StoredIndex}
use leta.Application.HealthService.{initial as new_service}
use leta.Application.Services.{Services}
use leta.Application.History.{Operation, run, batches, first_metadata, targets}
use leta.Core.IndexUid as Uid
use leta.Core.IndexUid.{is_uid_character}
use leta.Http.ErrorResponse.{wire_error, wire_type, error_response}
use leta.Http.ContentType.{is_json_content_type}
use leta.Http.IndexRoutes.{parse_create_index_request, create_index_response}
use leta.Http.DocumentRoutes.Batch.{parse_document_batch}
use leta.Storage.{initial, contents}
use leta.Storage.Laws.{in_memory}
use leta.Http.HttplibServer.{resolve_request_id}
use leta.Http.HttplibServer.Finish.{Carries}
use leta.Http.RequestId.{is_acceptable_request_id}
use leta.Http.HttplibServer.Dispatch.{Exchange}
use leta.Server.{expected, answer, after}
use leta.Server.Answers.{answer_lem}
use leta.Server.Runs.{batch_operations, operations_of, operations, after_run}
use leta.Server.Failures.{failures_change_nothing}
use leta.Core.Error.{Error, error_type}
use leta.Http.ErrorResponse.Reading.{read_error}
use leta.Server.Search.{stored-IsUid, search_after_requests}
use leta.Tests.Data.{noon, books, dune}
use leta.Tests.Toy.{
  ToyRequest, bad_body, toy_json, toy_library, post_books, post_batch, get_nowhere,
}
use leta.Tests.Dispatch.{toy_dispatcher}
use leta.Tests.Patterns.{match_from}

abbrev pub readings : Readings
readings = record { now = noon; elapsed = 3; words = (7, 9) }

abbrev services : Services in_memory
services = record { health = new_service; indexes = initial }

abbrev pub exchanges : List (Exchange toy_library)
exchanges =
    record { readings = readings; method = post; request = post_batch }
    ∷ record { readings = readings; method = post; request = post_books }
    ∷ record { readings = readings; method = get; request = get_nowhere }
    ∷ []

abbrev pub made : List Operation
made = operations toy_json in_memory toy_library toy_dispatcher exchanges

books_is_free : contents initial (codes "books") ≡ none
unfolding contents
books_is_free = find-empty (codes "books")

answer_lem_example :
    let result =
      answer toy_json in_memory toy_library toy_dispatcher readings post post_books services in
    let reference =
      expected toy_json in_memory toy_library toy_dispatcher readings post post_books services in
    (is_acceptable_request_id (resolve_request_id toy_library readings.words post_books) ≡ true)
    × Carries toy_library result.0
        (resolve_request_id toy_library readings.words post_books)
        reference.0
    × (result.1 ≡ reference.1)
answer_lem_example =
    answer_lem toy_json in_memory toy_library toy_dispatcher readings post_books services post
      (omega arith) (omega arith)

after_run_example :
    after toy_json in_memory toy_library toy_dispatcher exchanges services
    ≡ record services { indexes = run in_memory made initial }
after_run_example = after_run toy_json in_memory toy_library toy_dispatcher exchanges services

pub first_is_books : first_metadata (codes "books") made ≡ some (index_if_missing books noon)
unfolding operations operations_of batch_operations first_metadata is_json_content_type match_from
    parse_document_batch Uid.parse is_uid_character parse_create_index_request targets parameter_in
first_is_books = refl

pub one_batch : batches (codes "books") made ≡ dune ∷ []
unfolding operations operations_of batch_operations batches is_json_content_type match_from
    parse_document_batch Uid.parse is_uid_character parse_create_index_request targets parameter_in
one_batch = refl

pub room : length (batches (codes "books") made) ≤ 2 ^ 32
room = rw one_batch (omega arith)

search_after_requests_example :
    (stored : StoredIndex) × (contents
        (after toy_json in_memory toy_library toy_dispatcher exchanges services).indexes
        (codes "books")
      ≡ some stored)
    × (stored.metadata ≡ index_if_missing books noon)
    × ((term : Bytes)
        → documents_containing stored.documents term
          ≡ positions 0 (batches (codes "books") made) term)
search_after_requests_example =
    search_after_requests toy_json in_memory toy_library toy_dispatcher exchanges services
      (codes "books") (index_if_missing books noon) books_is_free first_is_books room

stored-IsUid_example :
    IsUid (codes "books") × (search_after_requests_example.0.metadata.uid.value ≡ codes "books")
stored-IsUid_example =
    stored-IsUid toy_json in_memory toy_library toy_dispatcher exchanges services (codes "books")
      search_after_requests_example.0 books_is_free search_after_requests_example.1

-- A POST /indexes whose body is an array.
abbrev post_array : ToyRequest
post_array = record post_books { body = bad_body }

array_is_no_request :
    (expected toy_json in_memory toy_library toy_dispatcher readings post post_array
      services).0.status
    ≡ 400
unfolding expected create_index_response is_json_content_type parse_create_index_request
    error_response
array_is_no_request = refl

array_is_refused :
    (answer toy_json in_memory toy_library toy_dispatcher readings post post_array
      services).0.status
    ≡ 400
array_is_refused =
    let (acceptable, carried, state) =
      answer_lem toy_json in_memory toy_library toy_dispatcher readings post_array services post
        (omega arith) (omega arith) in
    carried.has_status ∙ array_is_no_request

failures_change_nothing_example :
    let result =
      answer toy_json in_memory toy_library toy_dispatcher readings post post_array services in
    (e : Error) × (result.0.status ≡ (error_response e).status)
    × (read_error result.0.body
        ≡ some (record {
          code = (wire_error e.code).code;
          message = e.message;
          type = wire_type (error_type e.code);
        }))
    × (result.1.health ≡ services.health)
    × ((u : Bytes) → contents result.1.indexes u ≡ contents services.indexes u)
failures_change_nothing_example =
    failures_change_nothing toy_json in_memory toy_library post_array services toy_dispatcher
      readings (rw array_is_refused (omega arith))
