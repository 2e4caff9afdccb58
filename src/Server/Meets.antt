-- ===== src/Server/Meets.antt =====
-- What the answer carries of a request that a route takes, refuses, or that no route takes.
use leta.Prelude.{
  ◌≡◌, refl, ap, ◌∙◌, true, false, not, ◌&&◌, some, List, ◌∷◌, ◌++◌, arith, Bytes, All, Bool-cases,
  inl, inr,
}
use leta.Application.HttpServer.{HttpMethod, post, HttpHandler, HttpResponse, Readings}
use leta.Application.IndexRepository.{IndexRepository}
use leta.Application.Services.{Services}
use leta.Http.Simdjson.{Simdjson}
use leta.Http.Httplib.{Httplib}
use leta.Http.ContentType.{is_json_content_type}
use leta.Http.ErrorResponse.{error_response}
use leta.Http.HttplibServer.{
  content_type_header, request_id_header, non_json_body_error, expects_json_body,
  resolve_request_id, neutral, adapt,
}
use leta.Http.HttplibServer.Registration.{Registered}
use leta.Http.HttplibServer.Dispatch.{Dispatcher, Misses, finish, settle}
use leta.Http.HttplibServer.Finish.{
  HasBody, Carries, Carries-adapt, Carries-adapt_refused, Carries-finish_unrouted,
}
use leta.Server.{routes, not_found, if_json, answer}

module _ (json : Simdjson) (repository : IndexRepository) (library : Httplib)
    (dispatcher : Dispatcher library) (readings : Readings) (request : Httplib.Request library)
    (s : Services repository) where
  open library use {
    path, request_body, request_header, set_status, status-set_status, header-set_status,
    body-set_status,
  }
  open dispatcher use {
    matches, with_params, fresh, process, body-fresh, header-fresh, path-with_params,
    request_body-with_params, request_header-with_params, path_params-with_params, matches_plain,
    process_routed, process_unrouted,
  }

  abbrev pub server_answer : HttpMethod → Httplib.Response library × Services repository
  server_answer method = answer json repository library dispatcher readings method request s

  abbrev pub id : Bytes
  id = resolve_request_id library readings.words request

  -- The answer carries what is expected, and leaves the services that are expected.
  abbrev pub Meets : HttpMethod → HttpResponse × Services repository → Type 0
  Meets method expectation =
      Carries library (server_answer method).0 id expectation.0
      × ((server_answer method).1 ≡ expectation.1)

  same_id :
      (params : List (Bytes × Bytes))
      → resolve_request_id library readings.words (with_params params request) ≡ id
  unfolding resolve_request_id
  same_id params = rw (request_header-with_params params request request_id_header)

  module _ (method : HttpMethod) (pattern : Bytes)
      (handler : Readings → HttpHandler (Services repository))
      (before after : List (Registered library (Services repository)))
      (placed : routes json repository library
        ≡ before
          ++ record {
            method = method;
            pattern = pattern;
            handler = λ readings. adapt library method (handler readings) readings.words;
          }
            ∷ after)
      (params : List (Bytes × Bytes))
      (missed_before : All (Misses library matches method (path request)) before)
      (missed_after : All (Misses library matches method (path request)) after)
      (matched : matches pattern (path request) ≡ some params) where
    routed_answer : server_answer method ≡ (
      finish library readings.words (with_params params request) (
          settle library
            (adapt library method
              (handler readings)
              readings.words
              (with_params params request)
              fresh
              s).0),
      (adapt library method
          (handler readings)
          readings.words
          (with_params params request)
          fresh
          s).1,
    )
    unfolding answer
    routed_answer =
        ap (λ rs. process rs readings method request s) placed
        ∙ process_routed readings request s before _ after params missed_before missed_after matched

    Meets-refused :
        (expects_json_body method
            && not (is_json_content_type (request_header request content_type_header)))
          ≡ true
        → Meets method (error_response non_json_body_error, s)
    Meets-refused refused =
        rw (routed_answer, ← same_id params)
          (Carries-adapt_refused library method (handler readings) readings.words
            (with_params params request) fresh s
            (rw (request_header-with_params params request content_type_header) refused))

    pub Meets-handled :
        (result : HttpResponse) (s' : Services repository)
        → (expects_json_body method
            && not (is_json_content_type (request_header request content_type_header)))
          ≡ false
        → handler readings
            (neutral library method
              (with_params params request)
              (resolve_request_id library readings.words (with_params params request)))
            s
          ≡ (inr result, s')
        → HasBody result
        → Meets method (result, s')
    Meets-handled result s' taken handled full =
        rw (routed_answer, ← same_id params)
          (Carries-adapt library method (handler readings) readings.words
            (with_params params request) fresh s result s'
            (rw (request_header-with_params params request content_type_header) taken) handled full)

  -- A POST that one of the routes takes.
  pub Meets-if_json :
      (pattern : Bytes) (handler : Readings → HttpHandler (Services repository))
      (before after : List (Registered library (Services repository)))
      (placed : routes json repository library
        ≡ before
          ++ record {
            method = post;
            pattern = pattern;
            handler = λ readings. adapt library post (handler readings) readings.words;
          }
            ∷ after)
      (params : List (Bytes × Bytes)) (result : HttpResponse × IndexRepository.State repository)
      → All (Misses library matches post (path request)) before
      → All (Misses library matches post (path request)) after
      → matches pattern (path request) ≡ some params
      → handler readings
          (neutral library post
            (with_params params request)
            (resolve_request_id library readings.words (with_params params request)))
          s
        ≡ (inr result.0, record s { indexes = result.1 })
      → HasBody result.0
      → Meets post (if_json json repository library request s result)
  unfolding expects_json_body
  Meets-if_json pattern handler before after placed params result missed_before missed_after matched
        handled full =
      elim (Bool-cases (not (is_json_content_type (request_header request content_type_header)))) [
        | inl other ↦ rw other (
            Meets-refused post pattern handler before after placed params missed_before missed_after
              matched other)
        | inr is_json ↦ rw is_json (
            Meets-handled post pattern handler before after placed params missed_before missed_after
              matched result.0 (record s { indexes = result.1 }) is_json handled full)
      ]

  pub Meets-not_found :
      (method : HttpMethod)
      → All (Misses library matches method (path request)) (routes json repository library)
      → Meets method (not_found json repository library, s)
  unfolding answer
  Meets-not_found method missed =
      rw (process_unrouted (routes json repository library) readings method request s missed) (
        Carries-finish_unrouted library readings.words request (set_status 404 fresh) 404
            (header-set_status 404 fresh request_id_header ∙ header-fresh request_id_header)
            (body-set_status 404 fresh ∙ body-fresh) (status-set_status 404 fresh) (omega arith),
        refl,
      )
