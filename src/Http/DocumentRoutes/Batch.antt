-- ===== src/Http/DocumentRoutes/Batch.antt =====
-- src/adapters/http/document_routes.cpp: from a body to the documents of the batch, and the route.
use leta.Prelude.{
  inr, ℕ, Bool, true, false, Option, none, some, List, [], ◌∷◌, ◌++◌, ◌==◌, if◌then◌else◌, Bytes,
  codes, length,
}
use leta.Prelude.Decimal.{to_string}
use leta.Core.Error.{Result, ok, err, ◌>>=◌, ◌>>◌}
use leta.Core.IndexUid
use leta.Core.IndexUid.{IndexUid}
use leta.Core.ExactMatchIndex.{Document}
use leta.Core.IndexMetadata.{Timestamp}
use leta.Application.Services.{Services}
use leta.Application.HttpServer.{post, Routing, HttpRequest, HttpResponse, path_parameter}
use leta.Application.IndexRepository.{IndexRepository}
use leta.Application.IngestService.{AddDocumentsCommand, AddDocumentsOutcome, ingest}
use leta.Http.DocumentRoutes.Validate.{
  max_batch_documents, malformed, not_json, not_an_object, too_many_documents,
  without_trailing_whitespace, succeeds, validate_field_value,
}
use leta.Http.ErrorResponse.{error_response}
use leta.Http.JsonString.{append_json_string}
use leta.Http.Simdjson.{Simdjson, JsonType, string}

abbrev pub is_string : JsonType → Bool
is_string string = true
is_string _ = false

-- ingest_result_json
unfoldable pub ingest_result_json : ℕ → AddDocumentsOutcome → ℕ → Bytes
unfolding append_json_string to_string
ingest_result_json received outcome processing_time =
    let counts =
      codes "{\"received\":"
      ++ (to_string received ++ (codes ",\"indexed\":" ++ to_string outcome.indexed)) in
    let with_key : Bytes = elim outcome.primary_key [
      | none ↦ counts
      | some primary_key ↦ append_json_string (counts ++ codes ",\"primaryKey\":") primary_key
    ] in
    with_key ++ (codes ",\"processingTimeMs\":" ++ (to_string processing_time ++ b'}' ∷ []))

abbrev pub at_least_one : List Document → Result (List Document)
at_least_one [] = malformed (codes "A batch holds at least one document.")
at_least_one (d ∷ ds) = ok (d ∷ ds)

module _ (json : Simdjson) where
  open json use {
    Value, Object, Field, iterate, document_array, at_end, type, get_object, get_string, raw_json,
    can_reset, fields, unescaped_key, value,
  }

  -- one round of read_searchable_text, past the reads of the key and the type
  unfoldable pub read_field_text : Value → JsonType → List Bytes → Result (List Bytes)
  unfolding validate_field_value
  read_field_text v t searchable_text =
      if is_string t
      then (elim (get_string v) [ none ↦ not_json | some text ↦ ok (searchable_text ++ text ∷ []) ])
      else validate_field_value json v >> ok searchable_text

  -- one round of read_searchable_text
  unfoldable pub read_text_field : Field → List Bytes → Result (List Bytes)
  unfolding read_field_text
  read_text_field field searchable_text =
      if succeeds (unescaped_key field)
      then (elim (type (value field)) [
        | none ↦ not_json
        | some t ↦ read_field_text (value field) t searchable_text
      ])
      else not_json

  -- the loop of read_searchable_text
  unfoldable pub read_text_from : List Bytes → List (Option Field) → Result (List Bytes)
  unfolding read_text_field
  read_text_from searchable_text [] = ok searchable_text
  read_text_from searchable_text (none ∷ rest) = not_json
  read_text_from searchable_text (some field ∷ rest) =
      read_text_field field searchable_text >>= λ more. read_text_from more rest

  -- read_searchable_text
  unfoldable pub read_searchable_text : Object → Result (List Bytes)
  unfolding read_text_from
  read_searchable_text members = read_text_from [] (fields members)

  -- read_document
  unfoldable pub read_document : Value → ℕ → Result Document
  unfolding read_searchable_text without_trailing_whitespace
  read_document element index = elim (get_object element) [
    | none ↦ not_an_object index
    | some members ↦ elim (raw_json members) [
      | none ↦ not_json
      | some source ↦
          if can_reset members
          then (read_searchable_text members >>= λ searchable_text. ok (record {
            source = without_trailing_whitespace source;
            searchable_text = searchable_text;
          }))
          else not_json
    ]
  ]

  -- the loop of read_documents
  unfoldable pub read_documents_from : List Document → List (Option Value) → Result (List Document)
  unfolding read_document
  read_documents_from documents [] = ok documents
  read_documents_from documents (none ∷ rest) =
      if length documents == max_batch_documents then too_many_documents else not_json
  read_documents_from documents (some element ∷ rest) =
      if length documents == max_batch_documents
      then too_many_documents
      else (read_document element (length documents) >>= λ document.
          read_documents_from (documents ++ document ∷ []) rest)

  -- read_documents
  unfoldable pub read_documents : List (Option Value) → Result (List Document)
  unfolding read_documents_from
  read_documents elements = read_documents_from [] elements >>= at_least_one

  -- parse_document_batch
  unfoldable pub parse_document_batch : Bytes → Result (List Document)
  unfolding read_documents
  parse_document_batch body = elim (iterate body) [
    | none ↦ not_json
    | some document ↦ elim (document_array document) [
      | none ↦ malformed (codes "The request body must be a JSON array of documents.")
      | some elements ↦ read_documents elements >>= λ documents.
          if at_end document then ok documents else not_json
    ]
  ]

abbrev pub ingested_or_error : ℕ → ℕ → Result AddDocumentsOutcome → HttpResponse
ingested_or_error received elapsed (err e) = error_response e
ingested_or_error received elapsed (ok outcome) = record {
  status = 200;
  body = ingest_result_json received outcome elapsed;
}

module _ (json : Simdjson) (repository : IndexRepository) where
  open repository use {State}

  -- add_documents_response; `now` is the service's reading of the clock, and `elapsed` the duration
  -- that the two readings of the steady clock give
  unfoldable pub add_documents_response :
      Bytes → Bytes → Timestamp → ℕ → State → HttpResponse × State
  unfolding ingest
  add_documents_response uid body now elapsed s = elim (IndexUid.parse uid) [
    | err e ↦ (error_response e, s)
    | ok index_uid ↦ elim (parse_document_batch json body) [
      | err e ↦ (error_response e, s)
      | ok documents ↦
          let received = length documents in
          let command : AddDocumentsCommand = record { uid = index_uid; documents = documents } in
          let (outcome, s') = ingest repository command now s in
          (ingested_or_error received elapsed outcome, s')
    ]
  ]

  -- the handler that register_document_routes registers for POST /indexes/{uid}/documents
  unfoldable pub add_documents_handler : HttpRequest → Timestamp → ℕ → State → HttpResponse × State
  unfolding add_documents_response path_parameter
  add_documents_handler request now elapsed s =
      add_documents_response (path_parameter request (codes "uid")) request.body now elapsed s

  -- register_document_routes
  unfoldable pub register_document_routes :
      (server : Routing (Services repository)) → Routing.Server server → Routing.Server server
  unfolding add_documents_handler
  register_document_routes server routes =
      Routing.add_route server post (codes "/indexes/{uid}/documents")
        (λ readings request s.
          let (response, indexes) =
            add_documents_handler request readings.now readings.elapsed s.indexes in
          (inr response, record s { indexes = indexes }))
        routes
