-- ===== src/Server/Failures.antt =====
-- What a failed POST leaves.
use leta.Prelude.{
  ℕ, List, ◌≤◌, ◌≡◌, refl, ap, ◌∙◌, not, Option, none, some, arith, Bytes, codes, Bool-cases,
  Option-cases, inl, inr, equal,
}
use leta.Core.Error.{Error, Result-cases, error_type}
use leta.Core.IndexUid as Uid
use leta.Core.IndexMetadata.{Timestamp}
use leta.Application.HttpServer.{HttpResponse, Readings, post}
use leta.Application.IndexRepository.{IndexRepository}
use leta.Application.IndexService.{create_index_free, create_index_taken}
use leta.Application.IngestService.{ingest_lem}
use leta.Application.Services.{Services}
use leta.Http.Simdjson.{Simdjson}
use leta.Http.Httplib.{Httplib}
use leta.Http.ContentType.{is_json_content_type}
use leta.Http.ErrorResponse.{wire_error, wire_type, error_response, error_for_library_status}
use leta.Http.ErrorResponse.Reading.{read_error, read_error-error_response}
use leta.Http.IndexRoutes.{parse_create_index_request, created_or_error, create_index_response}
use leta.Http.DocumentRoutes.Batch.{parse_document_batch, add_documents_response}
use leta.Http.HttplibServer.{content_type_header, non_json_body_error}
use leta.Http.HttplibServer.Dispatch.{Dispatcher}
use leta.Server.{documents_pattern, if_json, expected_documents, expected, answer}
use leta.Server.Answers.{answer-Meets}

module _ (json : Simdjson) (repository : IndexRepository) where
  open repository use {State, contents}

  -- An error, and every uid as it was.
  abbrev Refusal : HttpResponse × State → State → Type 0
  Refusal answer s =
      (e : Error) × (answer.0 ≡ error_response e)
      × ((u : Bytes) → contents answer.1 u ≡ contents s u)

  create_index_response-Refusal :
      (body : Bytes) (now : Timestamp) (s : State)
      → 400 ≤ (create_index_response json repository body now s).0.status
      → Refusal (create_index_response json repository body now s) s
  unfolding create_index_response
  create_index_response-Refusal body now s h =
      elim (Result-cases (parse_create_index_request json body)) [
        | inr (e, failed) ↦ rw (failed, create_index_response) (e, refl, λ u. refl)
        | inl (command, parsed) ↦ elim (Option-cases (contents s command.uid.value)) [
          | inl free ↦
              let (made, kept) = create_index_free repository command now s free in
              absurd (omega (arith, rw made at (rw (parsed, create_index_response) at h)))
          | inr (existing, taken) ↦
              let (refused, kept) = create_index_taken repository command now s existing taken in
              rw (parsed, create_index_response) (_, ap created_or_error refused, kept)
        ]
      ]

  add_documents_response-Refusal :
      (uid body : Bytes) (now : Timestamp) (elapsed : ℕ) (s : State)
      → 400 ≤ (add_documents_response json repository uid body now elapsed s).0.status
      → Refusal (add_documents_response json repository uid body now elapsed s) s
  unfolding add_documents_response
  add_documents_response-Refusal uid body now elapsed s h = elim (Result-cases (Uid.parse uid)) [
    | inr (e, failed) ↦ rw (failed, add_documents_response) (e, refl, λ u. refl)
    | inl (index_uid, accepted) ↦ elim (Result-cases (parse_document_batch json body)) [
      | inr (e, failed) ↦ rw (accepted, add_documents_response) (rw failed (e, refl, λ u. refl))
      | inl (documents, parsed) ↦
          let (made, kept) =
            ingest_lem repository (record { uid = index_uid; documents = documents }) now s in
          absurd
            (omega (arith, rw made at (rw parsed at (rw (accepted, add_documents_response) at h))))
    ]
  ]

  -- An error, the readiness as it was, and every uid as it was.
  abbrev Failed : HttpResponse × Services repository → Services repository → Type 0
  Failed answer s =
      (e : Error) × (answer.0 ≡ error_response e)
      × (answer.1.health ≡ s.health)
      × ((u : Bytes) → contents answer.1.indexes u ≡ contents s.indexes u)

  module _ (library : Httplib) (request : Httplib.Request library) (s : Services repository) where
    open library use {path, request_body, request_header, status, body}

    if_json-Failed :
        (answer : HttpResponse × State)
        → (400 ≤ answer.0.status → Refusal answer s.indexes)
        → 400 ≤ (if_json json repository library request s answer).0.status
        → Failed (if_json json repository library request s answer) s
    if_json-Failed answer refusal h =
        elim (Bool-cases
          (not (is_json_content_type (request_header request content_type_header)))) [
            | inl other ↦ rw other (non_json_body_error, refl, refl, λ u. refl)
            | inr is_json ↦
                let (e, refused, kept) = refusal (rw is_json at h) in
                rw is_json (e, refused, refl, kept)
          ]

    module _ (dispatcher : Dispatcher library) (readings : Readings) where
      open dispatcher use {matches}

      expected_documents-Failed :
          (found : Option (List (Bytes × Bytes)))
          → 400
            ≤ (expected_documents json repository library dispatcher readings request s
                found).0.status
          → Failed
              (expected_documents json repository library dispatcher readings request s found)
              s
      unfolding expected_documents
      expected_documents-Failed none h = (error_for_library_status 404, refl, refl, λ u. refl)
      expected_documents-Failed (some params) h =
          if_json-Failed _
            (add_documents_response-Refusal _ (request_body request) readings.now readings.elapsed
              s.indexes)
            h

      expected-Failed :
          400 ≤ (expected json repository library dispatcher readings post request s).0.status
          → Failed (expected json repository library dispatcher readings post request s) s
      unfolding expected
      expected-Failed h = elim (Bool-cases (equal (codes "/indexes") (path request))) [
        | inl here ↦ rw here (
            if_json-Failed _
              (create_index_response-Refusal (request_body request) readings.now s.indexes)
              (rw here at h))
        | inr elsewhere ↦ rw elsewhere (
            expected_documents-Failed (matches documents_pattern (path request))
              (rw elsewhere at h))
      ]

      -- A POST that is answered with a status of 400 or more leaves the readiness flag and every uid as
      -- they were; and its body is the JSON object of FR-71 for an error with that status.
      pub failures_change_nothing :
          400 ≤ status (answer json repository library dispatcher readings post request s).0
          → (e : Error) × (status
                (answer json repository library dispatcher readings post request s).0
              ≡ (error_response e).status)
            × (read_error
                  (body (answer json repository library dispatcher readings post request s).0)
                ≡ some (record {
                  code = (wire_error e.code).code;
                  message = e.message;
                  type = wire_type (error_type e.code);
                }))
            × ((answer json repository library dispatcher readings post request s).1.health
                ≡ s.health)
            × ((u : Bytes)
                → contents
                    (answer json repository library dispatcher readings post request s).1.indexes
                    u
                  ≡ contents s.indexes u)
      failures_change_nothing h =
          let (carried, state) =
            answer-Meets json repository library dispatcher readings request s post in
          let (e, refused, same_health, kept) =
            expected-Failed (omega (arith, h, carried.has_status)) in
          (
            e,
            carried.has_status ∙ ap (λ r. r.status) refused,
            ap read_error (carried.has_body ∙ ap (λ r. r.body) refused)
                ∙ (read_error-error_response e).0,
            ap (λ t. t.health) state ∙ same_health,
            λ u. ap (λ t. contents t.indexes u) state ∙ kept u,
          )
