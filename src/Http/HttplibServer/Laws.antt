-- ===== src/Http/HttplibServer/Laws.antt =====
-- What leaves the server: the request id of every response, and the body of every error.
use mathlib.Core.Bool.{false≢true}
use leta.Http.JsonString.Reading.{append_json_string-quoted}
use leta.Prelude.{
  ℕ, ◌^◌, ◌<◌, ◌≡◌, ◌≢◌, refl, ap, sym, ◌∙◌, true, false, not, ◌&&◌, none, some, Bytes, codes,
  Bool-cases, Option-cases, ◌⊎◌, inl, inr, equal,
}
use leta.Core.Error.{Error}
use leta.Core.IndexUid.{empty}
use leta.Application.HttpServer.{Exception, HttpMethod, HttpResponse, HttpHandler}
use leta.Http.ContentType.{is_json_content_type}
use leta.Http.ErrorResponse.{error_response, error_for_library_status, wire_error}
use leta.Http.RequestId.{is_acceptable_request_id}
use leta.Http.RequestId.Format.{format_request_id_lem}
use leta.Http.Httplib.{Httplib}
use leta.Http.HttplibServer.{
  request_id_header, content_type_header, json_content_type, expects_json_body, write_response,
  resolve_request_id, neutral, write_outcome, adapt, fill_library_error, ensure_request_id,
  non_json_body_error,
}

id_is_no_content_type : request_id_header ≢ codes "Content-Type"
id_is_no_content_type e = absurd (false≢true (sym (ap (equal request_id_header) e)))

pub error_body : (error : Error) → empty (error_response error).body ≡ false
unfolding error_response
error_body error = rw (append_json_string-quoted _ error.message) refl

module _ (library : Httplib) where
  open library use {
    Request, Response, request_header, status, body, header, set_status, set_content, set_header,
    header-set_status, header-set_content, header-set_header, status-set_content, status-set_status,
    body-set_content,
  }

  pub header-write_response :
      (r : Response) (answer : HttpResponse)
      → header (write_response library r answer) request_id_header ≡ header r request_id_header
  unfolding write_response
  header-write_response r answer =
      header-set_content answer.body json_content_type (set_status answer.status r)
        request_id_header id_is_no_content_type
      ∙ header-set_status answer.status r request_id_header

  pub status-write_response :
      (r : Response) (answer : HttpResponse)
      → status (write_response library r answer) ≡ answer.status
  unfolding write_response
  status-write_response r answer =
      status-set_content answer.body json_content_type (set_status answer.status r)
      ∙ status-set_status answer.status r

  pub body-write_response :
      (r : Response) (answer : HttpResponse) → body (write_response library r answer) ≡ answer.body
  unfolding write_response
  body-write_response r answer =
      body-set_content answer.body json_content_type (set_status answer.status r)

  pub acceptable :
      (words : ℕ × ℕ) (request : Request)
      → words.0 < 2 ^ 64
      → words.1 < 2 ^ 64
      → is_acceptable_request_id (resolve_request_id library words request) ≡ true
  unfolding resolve_request_id
  acceptable words request h l =
      elim (Bool-cases (is_acceptable_request_id (request_header request request_id_header))) [
        | inl good ↦ rw good good
        | inr bad ↦ rw bad (format_request_id_lem words.0 words.1 h l).2
      ]

  pub header-write_outcome :
      (r : Response) (outcome : Exception ⊎ HttpResponse)
      → header (write_outcome library r outcome).1 request_id_header ≡ header r request_id_header
  unfolding write_outcome
  header-write_outcome r (inl what) = refl
  header-write_outcome r (inr answer) = header-write_response r answer

  -- Around any handler and for any request, with random words of 64 bits, whether the handler answers
  -- or throws: the response carries an acceptable X-Request-Id, which is the id that the handler sees
  -- or would have seen; a request that must
  -- bring JSON and does not is answered with 400 without the handler being called; and every other
  -- request gets the handler's outcome and leaves the handler's state.
  pub adapt_lem :
      {S : Type 0} (method : HttpMethod) (handler : HttpHandler S) (words : ℕ × ℕ)
      (request : Request) (response : Response) (s : S)
      → words.0 < 2 ^ 64
      → words.1 < 2 ^ 64
      → let answer = adapt library method handler words request response s in
        let id = resolve_request_id library words request in
        let called = handler (neutral library method request id) s in
        let refused =
          expects_json_body method
          && not (is_json_content_type (request_header request content_type_header)) in
        (is_acceptable_request_id id ≡ true)
        × (header answer.0.1 request_id_header ≡ some id)
        × (refused ≡ true → (answer.1 ≡ s) × (answer.0.0 ≡ none) × (status answer.0.1 ≡ 400))
        × (refused ≡ false
            → (answer.1 ≡ called.1)
              × (answer.0
                  ≡ write_outcome library (set_header request_id_header id response) called.0))
  unfolding adapt
  adapt_lem method handler words request response s h l =
      let id = resolve_request_id library words request in
      let response' = set_header request_id_header id response in
      let set : header response' request_id_header ≡ some id =
        header-set_header request_id_header id response in
      (
        acceptable words request h l,
        elim (Bool-cases (
            expects_json_body method
            && not (is_json_content_type (request_header request content_type_header)))) [
              | inl refused ↦
                  rw refused
                    (header-write_response response' (error_response non_json_body_error) ∙ set)
              | inr taken ↦ rw taken (header-write_outcome response' _ ∙ set)
            ],
        λ refused. rw refused (
          refl,
          refl,
          status-write_response response' (error_response non_json_body_error)
              ∙ (unfold error_response wire_error in refl),
        ),
        λ taken. rw taken (refl, refl),
      )

  -- With random words of 64 bits, the last hook leaves every response with an X-Request-Id: the one
  -- that it has, or else an acceptable one.
  ensure_request_id_lem :
      (words : ℕ × ℕ) (request : Request) (response : Response)
      → words.0 < 2 ^ 64
      → words.1 < 2 ^ 64
      → (id : Bytes) × (header (ensure_request_id library words request response) request_id_header
          ≡ some id)
        × ((header response request_id_header ≡ some id) ⊎ (is_acceptable_request_id id ≡ true))
  unfolding ensure_request_id
  ensure_request_id_lem words request response h l =
      elim (Option-cases (header response request_id_header)) [
        | inl missing ↦ (
          resolve_request_id library words request,
          rw (missing, ensure_request_id) (header-set_header request_id_header _ response),
          inr (acceptable words request h l),
        )
        | inr (id, found) ↦ (id, rw (found, ensure_request_id) found, inl found)
      ]

  -- The error hook leaves every response with a body: the one that it has, untouched; or, where the
  -- library wrote none, the error response for the library's status, with the request id kept.
  fill_library_error_lem :
      (response : Response)
      → let filled = (fill_library_error library response).1 in
        (empty (body filled) ≡ false)
        × (header filled request_id_header ≡ header response request_id_header)
        × ((filled ≡ response)
            ⊎ ((body filled ≡ (error_response (error_for_library_status (status response))).body)
                × (status filled
                    ≡ (error_response (error_for_library_status (status response))).status)))
  unfolding fill_library_error
  fill_library_error_lem response =
      let answer = error_response (error_for_library_status (status response)) in
      elim (Bool-cases (empty (body response))) [
        | inr has_body ↦ rw has_body (has_body, refl, inl refl)
        | inl no_body ↦ rw no_body (
          ap empty (body-write_response response answer) ∙ error_body _,
          header-write_response response answer,
          inr (body-write_response response answer, status-write_response response answer),
        )
      ]
