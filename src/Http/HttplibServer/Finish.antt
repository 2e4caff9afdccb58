-- ===== src/Http/HttplibServer/Finish.antt =====
-- What the hooks leave of a response: one that a route wrote, and one that the library wrote.
use leta.Prelude.{
  ℕ, ◌≤◌, ◌≡◌, ◌++◌, ◌&&◌, refl, ap, sym, ◌∙◌, true, false, not, none, some, [], leb, leb→le,
  le→leb, Bytes, codes, Bool-cases, inl, inr,
}
use leta.Core.IndexUid.{empty}
use leta.Core.Error.{Error}
use leta.Core.Error as Core
use leta.Application.HttpServer.{
  Exception, standard, foreign, HttpMethod, HttpHandler, HttpResponse,
}
use leta.Http.JsonString.{append_json_string, escaped}
use leta.Http.ErrorResponse.{error_response, error_for_library_status}
use leta.Http.ContentType.{is_json_content_type}
use leta.Http.Httplib.{Httplib}
use leta.Http.HttplibServer.{
  request_id_header, write_response, resolve_request_id, fill_library_error, ensure_request_id,
  describe, report_handler_exception, expects_json_body, content_type_header, adapt, neutral,
  write_outcome, non_json_body_error,
}
use leta.Http.HttplibServer.Laws.{
  header-write_response, status-write_response, body-write_response, error_body,
}
use leta.Http.HttplibServer.Dispatch.{finish, settle}

-- What the log line says of an exception.
abbrev pub thrown_text : Exception → Bytes
thrown_text (standard what) = what
thrown_text foreign = codes "an exception not derived from std::exception"

-- What a client is told of any exception.
abbrev pub internal_answer : HttpResponse
internal_answer = record {
  status = 500;
  body = codes "{\"code\":\"internal\",\"message\":\"Internal error.\",\"type\":\"internal\"}";
}

describe-thrown_text : (exception : Exception) → describe exception ≡ thrown_text exception
unfolding describe
describe-thrown_text (standard what) = refl
describe-thrown_text foreign = refl

-- An answer whose errors have a body.
abbrev pub HasBody : HttpResponse → Type 0
HasBody answer = 400 ≤ answer.status → empty answer.body ≡ false

abbrev pub internal_error : Error
internal_error = record { code = Core.ErrorCode.internal; message = codes "Internal error." }

error_response-internal : error_response internal_error ≡ internal_answer
unfolding error_response append_json_string escaped
error_response-internal = refl

module _ (library : Httplib) where
  open library use {
    Request, Response, request_header, status, body, header, set_status, set_header,
    body-set_status, status-set_status, body-set_header, status-set_header, header-set_header,
  }

  -- What the client sees of a response: its request id, its status and its body.
  pub record Carries (response : Response) (id : Bytes) (answer : HttpResponse) : Type 0 where
    pub has_id : header response request_id_header ≡ some id
    pub has_status : status response ≡ answer.status
    pub has_body : body response ≡ answer.body

  pub Carries-write_response :
      (r : Response) (id : Bytes) (answer : HttpResponse)
      → header r request_id_header ≡ some id
      → Carries (write_response library r answer) id answer
  Carries-write_response r id answer found = record {
    has_id = header-write_response library r answer ∙ found;
    has_status = status-write_response library r answer;
    has_body = body-write_response library r answer;
  }

  -- A response that a route wrote passes the hooks untouched.
  pub Carries-finish :
      (words : ℕ × ℕ) (request : Request) (r : Response) (id : Bytes) (answer : HttpResponse)
      → HasBody answer
      → Carries r id answer
      → Carries (finish library words request r) id answer
  unfolding finish ensure_request_id fill_library_error
  Carries-finish words request r id answer full c = elim (Bool-cases (leb 400 (status r))) [
    | inr fine ↦ rw fine (rw (c.has_id, ensure_request_id) c)
    | inl error ↦ rw error (
        rw (ap empty c.has_body ∙ full (leb→le 400 _ (ap (leb 400) (sym c.has_status) ∙ error)))
          (rw (c.has_id, ensure_request_id) c))
  ]

  -- A status of 400 or more that the library set on a response with no body and no request id gets the
  -- body and the status of its error, and the id that is resolved from the request.
  pub Carries-finish_unrouted :
      (words : ℕ × ℕ) (request : Request) (r : Response) (n : ℕ)
      → header r request_id_header ≡ none
      → body r ≡ []
      → status r ≡ n
      → 400 ≤ n
      → Carries
          (finish library words request r)
          (resolve_request_id library words request)
          (error_response (error_for_library_status n))
  unfolding finish ensure_request_id fill_library_error
  Carries-finish_unrouted words request r n no_id no_body is_n error =
      let answer = error_response (error_for_library_status n) in
      let written = write_response library r answer in
      rw (is_n, le→leb 400 n error)
        (rw no_body (
          rw (header-write_response library r answer ∙ no_id, ensure_request_id)
            (record {
              has_id = header-set_header request_id_header _ written;
              has_status =
                  status-set_header request_id_header _ written
                  ∙ status-write_response library r answer;
              has_body =
                  body-set_header request_id_header _ written
                  ∙ body-write_response library r answer;
            })))

  -- The hook itself, on a response that has its request id.
  reported :
      (r : Response) (exception : Exception) (id : Bytes)
      → header r request_id_header ≡ some id
      → Carries (report_handler_exception library r exception).1 id internal_answer
        × ((report_handler_exception library r exception).0
            ≡ codes "leta: unhandled exception in request "
              ++ (id ++ (codes ": " ++ (thrown_text exception ++ codes "\n"))))
  unfolding report_handler_exception
  reported r exception id found = (
    rw⁻¹ error_response-internal
        (Carries-write_response r id (error_response internal_error) found),
    rw (found, report_handler_exception, describe-thrown_text exception) refl,
  )

  module _ {S : Type 0} (method : HttpMethod) (handler : HttpHandler S) (words : ℕ × ℕ)
      (request : Request) (r : Response) (s : S) where
    -- What the hooks leave of a request that does not bring the JSON that it must.
    pub Carries-adapt_refused :
        (expects_json_body method
            && not (is_json_content_type (request_header request content_type_header)))
          ≡ true
        → Carries
            (finish library words request
              (settle library (adapt library method handler words request r s).0))
            (resolve_request_id library words request)
            (error_response non_json_body_error)
          × ((adapt library method handler words request r s).1 ≡ s)
    unfolding adapt settle
    Carries-adapt_refused refused = rw refused (
      Carries-finish words request _ _ (error_response non_json_body_error) (λ _. error_body _)
          (Carries-write_response _ _ _ (header-set_header request_id_header _ r)),
      refl,
    )

    -- And of a request that the handler gets and answers.
    pub Carries-adapt :
        (answer : HttpResponse) (s' : S)
        → (expects_json_body method
            && not (is_json_content_type (request_header request content_type_header)))
          ≡ false
        → handler (neutral library method request (resolve_request_id library words request)) s
          ≡ (inr answer, s')
        → HasBody answer
        → Carries
            (finish library words request
              (settle library (adapt library method handler words request r s).0))
            (resolve_request_id library words request)
            answer
          × ((adapt library method handler words request r s).1 ≡ s')
    unfolding adapt settle write_outcome
    Carries-adapt answer s' taken handled full = rw taken (
        rw handled (
          Carries-finish words request _ _ answer full
              (Carries-write_response _ _ _ (header-set_header request_id_header _ r)),
          refl,
        ))

    -- When the handler of a request throws: its exception leaves `adapt`, with the state that the handler
    -- left; past the hooks the client gets status 500 and a fixed body with nothing of the exception,
    -- under the request id; and the line on stderr names that id and the exception's `what()`, or says
    -- that it is not derived from std::exception.
    pub report_handler_exception_lem :
        (exception : Exception) (s' : S)
        → (expects_json_body method
            && not (is_json_content_type (request_header request content_type_header)))
          ≡ false
        → handler (neutral library method request (resolve_request_id library words request)) s
          ≡ (inl exception, s')
        → let id = resolve_request_id library words request in
          let ((left, response), state) = adapt library method handler words request r s in
          (left ≡ some exception)
          × (state ≡ s')
          × Carries
              (finish library words request (settle library (left, response)))
              id
              internal_answer
          × ((report_handler_exception library response exception).0
              ≡ codes "leta: unhandled exception in request "
                ++ (id ++ (codes ": " ++ (thrown_text exception ++ codes "\n"))))
    unfolding adapt settle write_outcome
    report_handler_exception_lem exception s' taken thrown =
        let id = resolve_request_id library words request in
        let response = set_header request_id_header id r in
        let (carried, line) =
          reported response exception id (header-set_header request_id_header id r) in
        rw taken (
          rw thrown (
            refl,
            refl,
            Carries-finish words request _ id internal_answer (λ _. refl) carried,
            line,
          ))
