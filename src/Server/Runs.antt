-- ===== src/Server/Runs.antt =====
-- What a sequence of requests leaves in the repository, as a run of calls of its port.
use leta.Prelude.{
  ℕ, ◌≡◌, refl, ap, sym, ◌∙◌, not, Option, none, some, List, [], ◌∷◌, ◌++◌, Bytes, codes,
  Bool-cases, Option-cases, inl, inr, equal, if◌then◌else◌,
}
use leta.Core.Error.{Result, ok, err, Result-cases}
use leta.Core.IndexUid as Uid
use leta.Core.IndexUid.{IndexUid, IsUid, IsUid-of_parse}
use leta.Core.IndexMetadata.{Timestamp}
use leta.Core.ExactMatchIndex.{Document}
use leta.Application.HttpServer.{HttpMethod, get, post, Readings}
use leta.Application.IndexRepository.{IndexRepository}
use leta.Application.IndexService.{CreateIndexCommand, created, create_index}
use leta.Application.IngestService.{index_if_missing, ingest as ingest_batch}
use leta.Application.Services.{Services}
use leta.Application.History.{Operation, create, ingest, apply, run}
use leta.Http.Simdjson.{Simdjson}
use leta.Http.Httplib.{Httplib}
use leta.Http.ContentType.{is_json_content_type}
use leta.Http.IndexRoutes.{parse_create_index_request, create_index_response}
use leta.Http.DocumentRoutes.Batch.{parse_document_batch, add_documents_response}
use leta.Http.HttplibServer.{content_type_header}
use leta.Http.HttplibServer.Dispatch.{Dispatcher, Exchange}
use leta.Server.{documents_pattern, uid_of, expected_documents, expected, after}
use leta.Server.Answers.{answer-Meets}

-- The call that an accepted POST /indexes makes.
abbrev pub creating : Result CreateIndexCommand → Timestamp → List Operation
creating (ok command) now = create (created command now) ∷ []
creating (err e) now = []

-- The call that an accepted POST /indexes/{uid}/documents makes.
abbrev pub ingesting : Result IndexUid → Result (List Document) → Timestamp → List Operation
ingesting (err e) batch now = []
ingesting (ok uid) (err e) now = []
ingesting (ok uid) (ok documents) now = ingest (index_if_missing uid now) documents ∷ []

module _ (json : Simdjson) (repository : IndexRepository) where
  open repository use {State}

  create_index_response-run :
      (body : Bytes) (now : Timestamp) (s : State)
      → (create_index_response json repository body now s).1
        ≡ run repository (creating (parse_create_index_request json body) now) s
  unfolding create_index_response create_index run apply
  create_index_response-run body now s =
      elim (Result-cases (parse_create_index_request json body)) [
        | inr (e, failed) ↦ rw (failed, create_index_response) refl
        | inl (command, parsed) ↦ rw (parsed, create_index_response) refl
      ]

  add_documents_response-run :
      (uid body : Bytes) (now : Timestamp) (elapsed : ℕ) (s : State)
      → (add_documents_response json repository uid body now elapsed s).1
        ≡ run repository (ingesting (Uid.parse uid) (parse_document_batch json body) now) s
  unfolding add_documents_response ingest_batch run apply
  add_documents_response-run uid body now elapsed s = elim (Result-cases (Uid.parse uid)) [
    | inr (e, failed) ↦ rw (failed, add_documents_response) refl
    | inl (index_uid, accepted) ↦ elim (Result-cases (parse_document_batch json body)) [
      | inr (e, failed) ↦ rw (accepted, add_documents_response) (rw failed refl)
      | inl (documents, parsed) ↦ rw (accepted, add_documents_response) (rw parsed refl)
    ]
  ]

  abbrev with_indexes : Services repository → State → Services repository
  with_indexes s indexes = record s { indexes = indexes }

  run-append :
      (xs ys : List Operation) (s : State)
      → run repository (xs ++ ys) s ≡ run repository ys (run repository xs s)
  unfolding run
  run-append [] ys s = refl
  run-append (x ∷ xs) ys s = run-append xs ys (apply repository x s)

  module _ (library : Httplib) (dispatcher : Dispatcher library) where
    open library use {Request, path, request_body, request_header}
    open dispatcher use {matches}

    -- The calls that one request makes.
    unfoldable pub batch_operations :
        Readings → Request → Option (List (Bytes × Bytes)) → List Operation
    batch_operations readings request none = []
    batch_operations readings request (some params) =
        ingesting (Uid.parse (uid_of json repository library params))
          (parse_document_batch json (request_body request)) readings.now

    unfoldable pub operations_of : Readings → HttpMethod → Request → List Operation
    unfolding batch_operations
    operations_of readings get request = []
    operations_of readings post request =
        if not (is_json_content_type (request_header request content_type_header))
        then []
        else if equal (codes "/indexes") (path request)
        then creating (parse_create_index_request json (request_body request)) readings.now
        else batch_operations readings request (matches documents_pattern (path request))

    -- The calls of a sequence of requests.
    unfoldable pub operations : List (Exchange library) → List Operation
    unfolding operations_of
    operations [] = []
    operations (e ∷ rest) = operations_of e.readings e.method e.request ++ operations rest

    expected-run :
        (readings : Readings) (method : HttpMethod) (request : Request) (s : Services repository)
        → (expected json repository library dispatcher readings method request s).1
          ≡ record s { indexes = run repository (operations_of readings method request) s.indexes }
    unfolding expected operations_of batch_operations run
    expected-run readings get request s =
        elim (Bool-cases (equal (codes "/health") (path request))) [
          | inl here ↦ rw here refl
          | inr elsewhere ↦ rw elsewhere refl
        ]
    expected-run readings post request s =
        elim (Bool-cases
          (not (is_json_content_type (request_header request content_type_header)))) [
            | inl other ↦ rw other (elim (Bool-cases (equal (codes "/indexes") (path request))) [
              | inl here ↦ rw here refl
              | inr elsewhere ↦
                  rw elsewhere (elim (Option-cases (matches documents_pattern (path request))) [
                    | inl missed ↦ rw (missed, expected_documents) refl
                    | inr (params, matched) ↦ rw (matched, expected_documents) (rw other refl)
                  ])
            ])
            | inr is_json ↦
                rw is_json (elim (Bool-cases (equal (codes "/indexes") (path request))) [
                  | inl here ↦ rw here (
                      ap (with_indexes s)
                        (create_index_response-run (request_body request) readings.now s.indexes))
                  | inr elsewhere ↦
                      rw elsewhere (elim (Option-cases (matches documents_pattern (path request))) [
                        | inl missed ↦ rw (missed, expected_documents) refl
                        | inr (params, matched) ↦
                            rw (matched, expected_documents)
                              (rw is_json (
                                ap (with_indexes s) (
                                  add_documents_response-run (uid_of json repository library params)
                                    (request_body request) readings.now readings.elapsed
                                    s.indexes)))
                      ])
                ])
          ]

    -- However many requests the server answers, the readiness flag stays and the repository is exactly
    -- what the calls of the accepted requests, in their order, make of it: a refused request leaves no
    -- trace, and an accepted one takes effect once.
    pub after_run :
        (exchanges : List (Exchange library)) (s : Services repository)
        → after json repository library dispatcher exchanges s
          ≡ record s { indexes = run repository (operations exchanges) s.indexes }
    unfolding after operations run
    after_run [] s = refl
    after_run (e ∷ rest) s =
        ap (after json repository library dispatcher rest) (
          (answer-Meets json repository library dispatcher e.readings e.request s e.method).1
          ∙ expected-run e.readings e.method e.request s)
        ∙ after_run rest _
        ∙ ap (with_indexes s) (
            sym (
              run-append (operations_of e.readings e.method e.request) (operations rest) s.indexes))
