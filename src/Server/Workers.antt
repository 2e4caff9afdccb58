-- ===== src/Server/Workers.antt =====
-- src/adapters/http/index_routes.cpp and document_routes.cpp, on the worker threads of the server: each
-- worker answers accepted POST requests one after the other, and a handler's one access to what the
-- workers share is its service's call of the repository, which Storage/Threads splits into turns. The
-- rest of a handler, before and after that call, is the worker's own.
pub mod Order
pub mod Progress
use leta.Prelude.{
  length, ℕ, ◌≡◌, refl, ap, sym, ◌∙◌, true, false, none, List, [], ◌∷◌, ◌++◌, ◌==◌, ==_iff,
  if◌then◌else◌, Bytes, Bool-cases, inl, inr, map,
}
use leta.Core.Error.{Result, ok, err}
use leta.Core.IndexUid.{IndexUid}
use leta.Core.IndexUid as Uid
use leta.Core.IndexMetadata.{IndexMetadata, Timestamp}
use leta.Core.ExactMatchIndex.{Document}
use leta.Application.HttpServer.{HttpResponse}
use leta.Application.IndexService.{CreateIndexCommand, created, index_or_error, create_index}
use leta.Application.IngestService.{index_if_missing, outcome_or_error, ingest as ingest_batch}
use leta.Application.History.{Operation, create, ingest}
use leta.Http.Simdjson.{Simdjson}
use leta.Http.IndexRoutes.{parse_create_index_request, create_index_response, created_or_error}
use leta.Http.DocumentRoutes.Batch.{parse_document_batch, add_documents_response, ingested_or_error}
use leta.Http.ErrorResponse.{error_response}
use leta.Http.HttplibServer.Finish.{internal_error}
use leta.Storage.{InMemoryIndexRepository, initial, contents}
use leta.Storage.Laws.{in_memory}
use leta.Storage.Threads.{
  Returned, added, ingested, update, call, after_calls, answers_to, calls_of,
}
use leta.Storage.Threads.Settled.{inside}
use leta.Storage.Threads.Atomic.{reached, calls_are_atomic}

-- The call of the repository that create_index_response makes, through IndexService::create_index, and
-- what it makes of the call's result.
abbrev pub create_call : CreateIndexCommand → Timestamp → Operation
create_call command now = create (created command now)

abbrev pub respond_created : CreateIndexCommand → Timestamp → Result (Unit {0}) → HttpResponse
respond_created command now result = created_or_error (index_or_error (created command now) result)

-- The same of add_documents_response, through IngestService::add_documents.
abbrev pub add_call : IndexUid → List Document → Timestamp → Operation
add_call index_uid documents now = ingest (index_if_missing index_uid now) documents

abbrev pub respond_ingested : List Document → ℕ → Result IndexMetadata → HttpResponse
respond_ingested documents elapsed result =
    ingested_or_error (length documents) elapsed (outcome_or_error (length documents) result)

module _ (json : Simdjson) where
  -- An accepted POST: to /indexes, with its body and the command that it parses to; or to
  -- /indexes/{uid}/documents, with the uid, the body and the batch. Each with the clock's readings.
  pub data Job : Type 0 where
    creating :
        (body : Bytes) (command : CreateIndexCommand) (now : Timestamp)
        → parse_create_index_request json body ≡ ok command
        → Job
    adding :
        (uid body : Bytes) (index_uid : IndexUid) (documents : List Document) (now : Timestamp)
        (elapsed : ℕ)
        → Uid.parse uid ≡ ok index_uid
        → parse_document_batch json body ≡ ok documents
        → Job

  -- the call of the repository that its handler makes
  abbrev pub operation : Job → Operation
  operation (creating body command now parsed) = create_call command now
  operation (adding uid body index_uid documents now elapsed accepted parsed) =
      add_call index_uid documents now

  -- What the handler makes of what that call returns; a call returns nothing of the other kind.
  unfoldable pub respond : Job → Returned → HttpResponse
  respond (creating body command now parsed) (added result) = respond_created command now result
  respond (adding uid body index_uid documents now elapsed accepted parsed) (ingested result) =
      respond_ingested documents elapsed result
  respond (creating body command now parsed) (ingested result) = error_response internal_error
  respond (adding uid body index_uid documents now elapsed accepted parsed) (added result) =
      error_response internal_error

  -- The reference: the whole handler in one step.
  unfoldable pub handle : Job → InMemoryIndexRepository → HttpResponse × InMemoryIndexRepository
  unfolding create_index_response add_documents_response
  handle (creating body command now parsed) s = create_index_response json in_memory body now s
  handle (adding uid body index_uid documents now elapsed accepted parsed) s =
      add_documents_response json in_memory uid body now elapsed s

  handle-call :
      (job : Job) (s : InMemoryIndexRepository)
      → handle job s ≡ (respond job (call (operation job) s).0, (call (operation job) s).1)
  unfolding handle respond create_index_response add_documents_response create_index ingest_batch
  handle-call (creating body command now parsed) s = rw (parsed, create_index_response) refl
  handle-call (adding uid body index_uid documents now elapsed accepted parsed) s =
      rw (accepted, add_documents_response) (rw parsed refl)

  -- What a worker has answered: each returned call, by the handler of the request that made it.
  unfoldable pub responses : List Job → List Returned → List HttpResponse
  responses [] returned = []
  responses (job ∷ jobs) [] = []
  responses (job ∷ jobs) (result ∷ returned) = respond job result ∷ responses jobs returned

  -- The requests of one worker in a sequence, what they are answered when the sequence is handled one
  -- request after the other, and the repository after it.
  unfoldable pub jobs_of : ℕ → List (ℕ × Job) → List Job
  jobs_of i [] = []
  jobs_of i (entry ∷ rest) =
      let later = jobs_of i rest in if entry.0 == i then entry.1 ∷ later else later

  unfoldable pub handled : ℕ → List (ℕ × Job) → InMemoryIndexRepository → List HttpResponse
  unfolding handle
  handled i [] s = []
  handled i (entry ∷ rest) s =
      let later = handled i rest (handle entry.1 s).1 in
      if entry.0 == i then (handle entry.1 s).0 ∷ later else later

  unfoldable pub after_jobs : List (ℕ × Job) → InMemoryIndexRepository → InMemoryIndexRepository
  unfolding handle
  after_jobs [] s = s
  after_jobs (entry ∷ rest) s = after_jobs rest (handle entry.1 s).1
