-- ===== src/Server/Answers.antt =====
-- What the server answers to every GET and POST.
use leta.Prelude.{
  ◌^◌, ◌<◌, ◌≡◌, refl, sym, ◌∙◌, true, false, none, List, [], ◌∷◌, Bytes, codes, Bool-cases,
  Option-cases, inl, inr, equal, equal_iff,
}
use leta.Application.HttpServer.{HttpMethod, get, post, Readings, path_parameter}
use leta.Application.IndexRepository.{IndexRepository}
use leta.Application.HealthService.{readiness}
use leta.Application.Services.{Services}
use leta.Http.Simdjson.{Simdjson}
use leta.Http.Httplib.{Httplib}
use leta.Http.RequestId.{is_acceptable_request_id}
use leta.Http.SystemRoutes.{health_response, health_handler}
use leta.Http.IndexRoutes.{create_index_response, create_index_handler}
use leta.Http.DocumentRoutes.Batch.{add_documents_response, add_documents_handler}
use leta.Http.HttplibServer.{expects_json_body, resolve_request_id, neutral, path_parameters_of}
use leta.Http.HttplibServer.Laws.{acceptable}
use leta.Http.HttplibServer.Dispatch.{Dispatcher}
use leta.Http.HttplibServer.Finish.{Carries}
use leta.Server.{documents_pattern, uid_of, expected_documents, expected, answer}
use leta.Server.Meets.{Meets, Meets-handled, Meets-if_json, Meets-not_found}
use leta.Server.Routes.{
  on_health, on_create, on_documents, health_route, create_route, documents_route, routes_lem,
  documents_miss, get-Misses, post-Misses_health,
}
use leta.Server.Bodies.{
  health_response-HasBody, create_index_response-HasBody, add_documents_response-HasBody,
}

module _ (json : Simdjson) (repository : IndexRepository) (library : Httplib)
    (dispatcher : Dispatcher library) (readings : Readings) (request : Httplib.Request library)
    (s : Services repository) where
  open library use {
    path, request_body, request_header, set_status, status-set_status, header-set_status,
    body-set_status,
  }
  open dispatcher use {
    matches, with_params, fresh, process, body-fresh, header-fresh, path-with_params,
    request_body-with_params, request_header-with_params, path_params-with_params, matches_plain,
    process_routed, process_unrouted,
  }

  health_answer :
      Meets json repository library dispatcher readings request s get
        (expected json repository library dispatcher readings get request s)
  unfolding expected expects_json_body
  health_answer = elim (Bool-cases (equal (codes "/health") (path request))) [
    | inl here ↦ rw here (
        Meets-handled json repository library dispatcher readings request s get (codes "/health")
          (on_health json repository) []
          (create_route json repository library ∷ documents_route json repository library ∷ [])
          (routes_lem json repository library) [] tt
          (get-Misses json repository library dispatcher (path request))
          (matches_plain (codes "/health") (path request) refl ∙ rw here refl)
          (health_response (readiness s.health)) s refl (unfold health_handler in refl)
          (health_response-HasBody _))
    | inr elsewhere ↦ rw elsewhere (
        Meets-not_found json repository library dispatcher readings request s get (
          rw (routes_lem json repository library) (
            inr (matches_plain (codes "/health") (path request) refl ∙ rw elsewhere refl),
            get-Misses json repository library dispatcher (path request),
          )))
  ]

  -- The handler of the documents route gets the uid that the pattern captures.
  documents_handled :
      (params : List (Bytes × Bytes)) (request_id : Bytes)
      → on_documents json repository readings
          (neutral library post (with_params params request) request_id)
          s
        ≡ let result =
            add_documents_response json repository
              (uid_of json repository library params)
              (request_body request)
              readings.now
              readings.elapsed
              s.indexes in
          (inr result.0, record s { indexes = result.1 })
  unfolding add_documents_handler path_parameter path_parameters_of
  documents_handled params request_id =
      rw (path_params-with_params params request, request_body-with_params params request)

  documents_answer :
      (elsewhere : equal (codes "/indexes") (path request) ≡ false)
      → Meets json repository library dispatcher readings request s post (
          expected_documents json repository library dispatcher readings request s
            (matches documents_pattern (path request)))
  unfolding expected_documents
  documents_answer elsewhere = elim (Option-cases (matches documents_pattern (path request))) [
    | inl missed ↦ rw missed (
        Meets-not_found json repository library dispatcher readings request s post (
          rw (routes_lem json repository library) (
            post-Misses_health json repository library dispatcher (path request),
            (inr create_missed, (inr missed, tt)),
          )))
    | inr (params, matched) ↦ rw matched (
        Meets-if_json json repository library dispatcher readings request s documents_pattern
          (on_documents json repository)
          (health_route json repository library ∷ create_route json repository library ∷ []) []
          (routes_lem json repository library) params _
          (
            post-Misses_health json repository library dispatcher (path request),
            (inr create_missed, tt),
          )
          tt matched (documents_handled params _)
          (add_documents_response-HasBody json repository _ _ _ _ _))
  ]
    where
      create_missed : matches (codes "/indexes") (path request) ≡ none
      create_missed = matches_plain (codes "/indexes") (path request) refl ∙ rw elsewhere refl

  create_handled :
      (params : List (Bytes × Bytes)) (request_id : Bytes)
      → on_create json repository readings
          (neutral library post (with_params params request) request_id)
          s
        ≡ let result =
            create_index_response json repository (request_body request) readings.now s.indexes in
          (inr result.0, record s { indexes = result.1 })
  unfolding create_index_handler
  create_handled params request_id = rw (request_body-with_params params request)

  post_answer :
      Meets json repository library dispatcher readings request s post
        (expected json repository library dispatcher readings post request s)
  unfolding expected
  post_answer = elim (Bool-cases (equal (codes "/indexes") (path request))) [
    | inr elsewhere ↦ rw elsewhere (documents_answer elsewhere)
    | inl here ↦ rw here (
        Meets-if_json json repository library dispatcher readings request s (codes "/indexes")
          (on_create json repository) (health_route json repository library ∷ [])
          (documents_route json repository library ∷ []) (routes_lem json repository library) [] _
          (post-Misses_health json repository library dispatcher (path request), tt)
          (
            inr (
                documents_miss json repository library dispatcher (path request)
                  (sym ((equal_iff (codes "/indexes") (path request)).0 here))),
            tt,
          )
          (matches_plain (codes "/indexes") (path request) refl ∙ rw here refl)
          (create_handled [] _) (create_index_response-HasBody json repository _ _ _))
  ]

  pub answer-Meets :
      (method : HttpMethod)
      → Meets json repository library dispatcher readings request s method
          (expected json repository library dispatcher readings method request s)
  answer-Meets get = health_answer
  answer-Meets post = post_answer

  -- Every GET and every POST, in every state, with random words of 64 bits, is answered with the status
  -- and the body of the reference `expected`, under an acceptable request id, and leaves the services
  -- as the reference says.
  pub answer_lem :
      (method : HttpMethod)
      → readings.words.0 < 2 ^ 64
      → readings.words.1 < 2 ^ 64
      → let result = answer json repository library dispatcher readings method request s in
        let reference = expected json repository library dispatcher readings method request s in
        (is_acceptable_request_id (resolve_request_id library readings.words request) ≡ true)
        × Carries library result.0 (resolve_request_id library readings.words request) reference.0
        × (result.1 ≡ reference.1)
  answer_lem method h l = (
    acceptable library readings.words request h l,
    (answer-Meets method).0,
    (answer-Meets method).1,
  )
