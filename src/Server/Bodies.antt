-- ===== src/Server/Bodies.antt =====
-- The bodies of what the routes of the server answer.
use leta.Prelude.{ℕ, refl, arith, Bytes, inl, inr}
use leta.Core.Error.{Result, ok, err, Result-cases}
use leta.Core.IndexUid.{empty}
use leta.Core.IndexUid as Uid
use leta.Core.IndexMetadata.{Timestamp, IndexMetadata}
use leta.Application.IndexRepository.{IndexRepository}
use leta.Application.IndexService.{create_index}
use leta.Application.IngestService.{AddDocumentsOutcome}
use leta.Application.HealthService.{Readiness, starting, available}
use leta.Http.Simdjson.{Simdjson}
use leta.Http.SystemRoutes.{health_response}
use leta.Http.IndexRoutes.{parse_create_index_request, created_or_error, create_index_response}
use leta.Http.DocumentRoutes.Batch.{parse_document_batch, ingested_or_error, add_documents_response}
use leta.Http.HttplibServer.Laws.{error_body}
use leta.Http.HttplibServer.Finish.{HasBody}

pub health_response-HasBody : (r : Readiness) → HasBody (health_response r)
unfolding health_response
health_response-HasBody available = λ h. refl
health_response-HasBody starting = λ h. refl

created_or_error-HasBody : (r : Result IndexMetadata) → HasBody (created_or_error r)
created_or_error-HasBody (err e) = λ h. error_body e
created_or_error-HasBody (ok index) = λ h. absurd (omega arith)

ingested_or_error-HasBody :
    (received elapsed : ℕ) (r : Result AddDocumentsOutcome)
    → HasBody (ingested_or_error received elapsed r)
ingested_or_error-HasBody received elapsed (err e) = λ h. error_body e
ingested_or_error-HasBody received elapsed (ok outcome) = λ h. absurd (omega arith)

module _ (json : Simdjson) (repository : IndexRepository) where
  open repository use {State}

  pub create_index_response-HasBody :
      (body : Bytes) (now : Timestamp) (s : State)
      → HasBody (create_index_response json repository body now s).0
  unfolding create_index_response
  create_index_response-HasBody body now s =
      elim (Result-cases (parse_create_index_request json body)) [
        | inr (e, failed) ↦ rw (failed, create_index_response) (λ h. error_body e)
        | inl (command, parsed) ↦
            rw (parsed, create_index_response)
              (created_or_error-HasBody (create_index repository command now s).0)
      ]

  pub add_documents_response-HasBody :
      (uid body : Bytes) (now : Timestamp) (elapsed : ℕ) (s : State)
      → HasBody (add_documents_response json repository uid body now elapsed s).0
  unfolding add_documents_response
  add_documents_response-HasBody uid body now elapsed s = elim (Result-cases (Uid.parse uid)) [
    | inr (e, failed) ↦ rw (failed, add_documents_response) (λ h. error_body e)
    | inl (index_uid, accepted) ↦ elim (Result-cases (parse_document_batch json body)) [
      | inr (e, failed) ↦ rw (accepted, add_documents_response) (rw failed (λ h. error_body e))
      | inl (documents, parsed) ↦
          rw (accepted, add_documents_response) (rw parsed (ingested_or_error-HasBody _ elapsed _))
    ]
  ]
