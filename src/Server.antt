-- ===== src/Server.antt =====
-- src/main.cpp, `serve`: the server with its three routes, over one repository and one readiness
-- flag; and the reference for what it answers.
pub mod Routes
pub mod Bodies
pub mod Meets
pub mod Answers
pub mod Runs
pub mod Search
pub mod Client
pub mod Workers
pub mod Failures
use leta.Prelude.{
  ◌≡◌, Bool, true, false, not, Option, none, some, List, [], ◌∷◌, if◌then◌else◌, Bytes, codes,
  equal, map,
}
use leta.Application.HttpServer.{
  HttpMethod, get, post, HttpResponse, HttpHandler, Readings, parameter_in,
}
use leta.Application.IndexRepository.{IndexRepository}
use leta.Application.Services.{Services}
use leta.Application.HealthService.{readiness}
use leta.Http.Simdjson.{Simdjson}
use leta.Http.Httplib.{Httplib}
use leta.Http.ContentType.{is_json_content_type}
use leta.Http.ErrorResponse.{error_response, error_for_library_status}
use leta.Http.SystemRoutes.{health_response, register_system_routes}
use leta.Http.IndexRoutes.{create_index_response, register_index_routes}
use leta.Http.DocumentRoutes.Batch.{add_documents_response, register_document_routes}
use leta.Http.HttplibServer.{content_type_header, non_json_body_error}
use leta.Http.HttplibServer.Registration.{Registered, httplib_routing}
use leta.Http.HttplibServer.Dispatch.{Dispatcher, Exchange, with_segment}

-- The pattern under which the library knows POST /indexes/{uid}/documents.
abbrev pub documents_pattern : Bytes
documents_pattern = with_segment (codes "/indexes") (codes ":uid") (codes "documents")

module _ (json : Simdjson) (repository : IndexRepository) (library : Httplib) where
  open library use {Request, Response, path, request_body, request_header}

  -- the routes, registered in the order of `serve`
  unfoldable pub routes : List (Registered library (Services repository))
  unfolding register_system_routes register_index_routes register_document_routes httplib_routing
  routes =
      let server = httplib_routing library (Services repository) in
      register_document_routes json repository server
        (register_index_routes json repository server (register_system_routes repository server []))

  abbrev pub not_found : HttpResponse
  not_found = error_response (error_for_library_status 404)

  -- A POST that takes JSON: what it is answered where it brings it.
  abbrev pub if_json :
      Request
      → Services repository
      → HttpResponse × IndexRepository.State repository
      → HttpResponse × Services repository
  if_json request s answer =
      if not (is_json_content_type (request_header request content_type_header))
      then (error_response non_json_body_error, s)
      else (answer.0, record s { indexes = answer.1 })

  -- the value of `uid` among captured parameters
  abbrev pub uid_of : List (Bytes × Bytes) → Bytes
  uid_of params = parameter_in (map (λ p. record { name = p.0; value = p.1 }) params) (codes "uid")

  module _ (dispatcher : Dispatcher library) where
    open dispatcher use {matches, process}

    -- What POST /indexes/{uid}/documents is answered, by what the pattern captures.
    unfoldable pub expected_documents :
        Readings
        → Request
        → Services repository
        → Option (List (Bytes × Bytes))
        → HttpResponse × Services repository
    expected_documents readings request s none = (not_found, s)
    expected_documents readings request s (some params) = if_json request s (
        add_documents_response json repository (uid_of params) (request_body request) readings.now
          readings.elapsed s.indexes)

    -- What a request is answered, and the services after it.
    unfoldable pub expected :
        Readings → HttpMethod → Request → Services repository → HttpResponse × Services repository
    unfolding expected_documents
    expected readings get request s =
        if equal (codes "/health") (path request)
        then (health_response (readiness s.health), s)
        else (not_found, s)
    expected readings post request s =
        if equal (codes "/indexes") (path request)
        then if_json request s
            (create_index_response json repository (request_body request) readings.now s.indexes)
        else expected_documents readings request s (matches documents_pattern (path request))

    -- The server's answer to one request.
    unfoldable pub answer :
        Readings → HttpMethod → Request → Services repository → Response × Services repository
    unfolding routes
    answer readings method request s = process routes readings method request s

    -- The services after a sequence of requests.
    unfoldable pub after : List (Exchange library) → Services repository → Services repository
    unfolding answer
    after [] s = s
    after (e ∷ rest) s = after rest (answer e.readings e.method e.request s).1
