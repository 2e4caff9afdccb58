-- ===== src/Server/Client.antt =====
-- What a client learns from a successful answer.
use leta.Prelude.{ℕ, List, ◌≡◌, refl, ap, ◌∙◌, none, some, arith, Bytes, length, equal_refl}
use leta.Core.IndexMetadata.{Timestamp, IndexMetadata}
use leta.Core.ExactMatchIndex.{Document}
use leta.Application.IndexRepository.{IndexRepository, new_index, with_batch}
use leta.Application.IndexService.{created}
use leta.Http.Simdjson.{Simdjson}
use leta.Http.JsonTimestamp.Reading.{InYears}
use leta.Http.IndexRoutes.{create_index_response}
use leta.Http.IndexRoutes.Responses as Creating
use leta.Http.IndexRoutes.Responses.{create_index_response_lem}
use leta.Http.IndexRoutes.Reading.{read_index, read_index-index_json}
use leta.Http.DocumentRoutes.Batch.{add_documents_response}
use leta.Http.DocumentRoutes.Elements.{Batch}
use leta.Http.DocumentRoutes.Responses as Ingesting
use leta.Http.DocumentRoutes.Responses.{target, add_documents_response_lem}
use leta.Http.DocumentRoutes.Reading.{read_ingest_result, read_ingest_result-ingest_result_json}

module _ (json : Simdjson) (repository : IndexRepository) where
  open repository use {State, contents}

  -- A client that is answered 201, at a time in the years 0000 to 9999, reads in the body the index that
  -- is now stored under its uid, with no document, where nothing was stored before.
  pub created_reads_back :
      (body : Bytes) (now : Timestamp) (s : State)
      → InYears now
      → (create_index_response json repository body now s).0.status ≡ 201
      → (index : IndexMetadata) × (read_index
            (create_index_response json repository body now s).0.body
          ≡ some index)
        × (contents s index.uid.value ≡ none)
        × (contents (create_index_response json repository body now s).1 index.uid.value
            ≡ some (new_index index))
  created_reads_back body now s in_years success =
      elim (create_index_response_lem json repository body now s) [
        | Creating.refused no_request status kept ↦ absurd (omega (arith, status, success))
        | Creating.conflict command existing request taken status kept ↦
            absurd (omega (arith, status, success))
        | Creating.stored command request free answer kept ↦ (
          created command now,
          ap (λ r. read_index r.body) answer
              ∙ read_index-index_json (created command now) in_years in_years,
          free,
          kept command.uid.value ∙ rw (equal_refl command.uid.value) refl,
        )
      ]

  -- A client that is answered 200 reads in the body how many documents its batch held, all of them
  -- indexed, and the time that passed; and that batch is now stored under the uid, behind what was.
  pub ingested_reads_back :
      (uid body : Bytes) (now : Timestamp) (elapsed : ℕ) (s : State)
      → (add_documents_response json repository uid body now elapsed s).0.status ≡ 200
      → (documents : List Document) × Batch json body documents
        × (read_ingest_result (add_documents_response json repository uid body now elapsed s).0.body
            ≡ some (record {
              received = length documents;
              outcome = record {
                indexed = length documents;
                primary_key = (target json repository uid now s).metadata.primary_key;
              };
              processing_time = elapsed;
            }))
        × (contents (add_documents_response json repository uid body now elapsed s).1 uid
            ≡ some (with_batch documents (target json repository uid now s)))
  ingested_reads_back uid body now elapsed s success =
      elim (add_documents_response_lem json repository uid body now elapsed s) [
        | Ingesting.bad_uid invalid status kept ↦ absurd (omega (arith, status, success))
        | Ingesting.bad_batch no_batch status kept ↦ absurd (omega (arith, status, success))
        | Ingesting.ingested documents valid batch answer kept ↦ (
          documents,
          batch,
          ap (λ r. read_ingest_result r.body) answer
              ∙ read_ingest_result-ingest_result_json (length documents) elapsed _,
          kept uid ∙ rw (equal_refl uid) refl,
        )
      ]
