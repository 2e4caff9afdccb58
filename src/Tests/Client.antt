-- ===== src/Tests/Client.antt =====
-- What a client reads at concrete requests.
use leta.Prelude.{◌≡◌, refl, none, some, List, arith, codes, length}
use leta.Core.IndexMetadata.{IndexMetadata}
use leta.Core.IndexUid as Uid
use leta.Core.IndexUid.{is_uid_character}
use leta.Core.ExactMatchIndex.{Document}
use leta.Application.IndexRepository.{new_index, with_batch}
use leta.Application.IngestService.{AddDocumentsOutcome}
use leta.Core.Map.{find, empty}
use leta.Storage.{initial, contents, add, add_documents}
use leta.Storage.Laws.{in_memory}
use leta.Http.JsonTimestamp.{date_of, shifted_days, floor_days}
use leta.Http.JsonTimestamp.Reading.{InYears}
use leta.Http.IndexRoutes.{index_json, parse_create_index_request, create_index_response}
use leta.Http.IndexRoutes.Reading.{read_index, read_index-index_json}
use leta.Http.DocumentRoutes.Batch.{
  ingest_result_json, parse_document_batch, add_documents_response,
}
use leta.Http.DocumentRoutes.Elements.{Batch}
use leta.Http.DocumentRoutes.Responses.{target}
use leta.Http.DocumentRoutes.Reading.{read_ingest_result, read_ingest_result-ingest_result_json}
use leta.Server.Client.{created_reads_back, ingested_reads_back}
use leta.Tests.Data.{noon, books_index}
use leta.Tests.Toy.{toy_json, create_body, batch_body}

noon_in_years : InYears noon
unfolding date_of shifted_days floor_days
noon_in_years = (omega arith, omega arith)

read_index-index_json_example : read_index (index_json books_index) ≡ some books_index
read_index-index_json_example = read_index-index_json books_index noon_in_years noon_in_years

abbrev outcome : AddDocumentsOutcome
outcome = record { indexed = 12; primary_key = some (codes "id") }

test_result :
    ingest_result_json 12 outcome 305
    ≡ codes "{\"received\":12,\"indexed\":12,\"primaryKey\":\"id\",\"processingTimeMs\":305}"
unfolding ingest_result_json
test_result = refl

read_ingest_result-ingest_result_json_example :
    read_ingest_result (ingest_result_json 12 outcome 305)
    ≡ some (record { received = 12; outcome = outcome; processing_time = 305 })
read_ingest_result-ingest_result_json_example = read_ingest_result-ingest_result_json 12 305 outcome

created_status : (create_index_response toy_json in_memory create_body noon initial).0.status ≡ 201
unfolding create_index_response parse_create_index_request Uid.parse is_uid_character add find empty
created_status = refl

created_reads_back_example :
    (index : IndexMetadata) × (read_index
        (create_index_response toy_json in_memory create_body noon initial).0.body
      ≡ some index)
    × (contents initial index.uid.value ≡ none)
    × (contents
          (create_index_response toy_json in_memory create_body noon initial).1
          index.uid.value
        ≡ some (new_index index))
created_reads_back_example =
    created_reads_back toy_json in_memory create_body noon initial noon_in_years created_status

ingested_status :
    (add_documents_response toy_json in_memory (codes "books") batch_body noon 3 initial).0.status
    ≡ 200
unfolding add_documents_response parse_document_batch Uid.parse is_uid_character add_documents
ingested_status = refl

ingested_reads_back_example :
    (documents : List Document) × Batch toy_json batch_body documents
    × (read_ingest_result
          (add_documents_response toy_json in_memory
            (codes "books")
            batch_body
            noon
            3
            initial).0.body
        ≡ some (record {
          received = length documents;
          outcome = record {
            indexed = length documents;
            primary_key =
                (target toy_json in_memory (codes "books") noon initial).metadata.primary_key;
          };
          processing_time = 3;
        }))
    × (contents
          (add_documents_response toy_json in_memory (codes "books") batch_body noon 3 initial).1
          (codes "books")
        ≡ some (with_batch documents (target toy_json in_memory (codes "books") noon initial)))
ingested_reads_back_example =
    ingested_reads_back toy_json in_memory (codes "books") batch_body noon 3 initial ingested_status
