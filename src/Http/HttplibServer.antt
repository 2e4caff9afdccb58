-- ===== src/Http/HttplibServer.antt =====
-- src/adapters/http/httplib_server.hpp and httplib_server.cpp: what the server does around a route's
-- handler, and the hooks that it installs in the library. The two words of a fresh request id come
-- from a random engine: the argument `words`.
pub mod Laws
pub mod Stream
pub mod Lifecycle
pub mod Registration
pub mod Dispatch
pub mod Port
pub mod Finish
use leta.Prelude.{
  ℕ, Bool, true, false, not, ◌&&◌, Option, none, some, List, [], ◌∷◌, ◌++◌, ◌==◌, if◌then◌else◌,
  Bytes, codes, map, ◌⊎◌, inl, inr,
}
use leta.Core.Error.{Error, malformed_request}
use leta.Core.Error as Core
use leta.Core.IndexUid.{empty}
use leta.Application.HttpServer.{
  HttpMethod, get, post, PathParameter, HttpRequest, HttpResponse, HttpHandler, Exception, standard,
  foreign,
}
use leta.Http.ContentType.{is_json_content_type}
use leta.Http.ErrorResponse.{error_response, error_for_library_status}
use leta.Http.RequestId.{is_acceptable_request_id, generate_request_id}
use leta.Http.Httplib.{Httplib}

-- RequestIdHeader, ContentTypeHeader, JsonContentType
abbrev pub request_id_header : Bytes
request_id_header = codes "X-Request-Id"

abbrev pub content_type_header : Bytes
content_type_header = codes "Content-Type"

abbrev pub json_content_type : Bytes
json_content_type = codes "application/json"

-- expects_json_body
unfoldable pub expects_json_body : HttpMethod → Bool
expects_json_body get = false
expects_json_body post = true

-- non_json_body_error
abbrev pub non_json_body_error : Error
non_json_body_error = record {
  code = malformed_request;
  message = codes "The request body must be JSON, sent with Content-Type: application/json.";
}

-- to_library_pattern, one character of the loop at a time
unfoldable pub to_library_pattern : Bytes → Bytes
to_library_pattern [] = []
to_library_pattern (character ∷ path) =
    let pattern = to_library_pattern path in
    if character == b'{'
    then b':' ∷ pattern
    else if not (character == b'}')
    then character ∷ pattern
    else pattern

-- describe
unfoldable pub describe : Exception → Bytes
describe (standard what) = what
describe foreign = codes "an exception not derived from std::exception"

module _ (library : Httplib) where
  open library use {
    Request, Response, path, request_body, path_params, request_header, status, body, header,
    set_status, set_content, set_header,
  }

  -- write_response
  unfoldable pub write_response : Response → HttpResponse → Response
  write_response out response =
      set_content response.body json_content_type (set_status response.status out)

  -- resolve_request_id
  unfoldable pub resolve_request_id : ℕ × ℕ → Request → Bytes
  resolve_request_id words request =
      let inbound = request_header request request_id_header in
      if is_acceptable_request_id inbound then inbound else generate_request_id words

  -- path_parameters_of
  unfoldable pub path_parameters_of : Request → List PathParameter
  path_parameters_of request = map (λ p. record { name = p.0; value = p.1 }) (path_params request)

  -- the HttpRequest that a handler gets
  abbrev pub neutral : HttpMethod → Request → Bytes → HttpRequest
  neutral method request request_id = record {
    method = method;
    path = path request;
    path_parameters = path_parameters_of request;
    body = request_body request;
    request_id = request_id;
  }

  -- what is written of a handler's outcome; an exception leaves the response and goes on
  unfoldable pub write_outcome : Response → Exception ⊎ HttpResponse → Option Exception × Response
  unfolding write_response
  write_outcome response (inl exception) = (some exception, response)
  write_outcome response (inr answer) = (none, write_response response answer)

  -- adapt: the exception that leaves it, if one does, the response, and the handler's state
  unfoldable pub adapt :
      {S : Type 0}
      → HttpMethod
      → HttpHandler S
      → ℕ × ℕ
      → Request
      → Response
      → S
      → (Option Exception × Response) × S
  unfolding write_outcome write_response resolve_request_id
  adapt method handler words request response s =
      let request_id = resolve_request_id words request in
      let response' = set_header request_id_header request_id response in
      if expects_json_body method
        && not (is_json_content_type (request_header request content_type_header))
      then ((none, write_response response' (error_response non_json_body_error)), s)
      else let (outcome, s') = handler (neutral method request request_id) s in
        (write_outcome response' outcome, s')

  -- fill_library_error: whether it is Handled, and the response
  unfoldable pub fill_library_error : Response → Bool × Response
  unfolding write_response
  fill_library_error response = if not (empty (body response)) then (false, response) else (
    true,
    write_response response (error_response (error_for_library_status (status response))),
  )

  -- report_handler_exception: the line on stderr, and the response
  unfoldable pub report_handler_exception : Response → Exception → Bytes × Response
  unfolding write_response describe
  report_handler_exception response exception = (
    codes "leta: unhandled exception in request "
        ++ (header_value (header response request_id_header)
            ++ (codes ": " ++ (describe exception ++ codes "\n"))),
    write_response response (
        error_response
          (record { code = Core.ErrorCode.internal; message = codes "Internal error." })),
  )
    where
      -- get_header_value, which is empty where there is no such header
      header_value : Option Bytes → Bytes
      header_value none = []
      header_value (some value) = value

  -- ensure_request_id
  unfoldable pub ensure_request_id : ℕ × ℕ → Request → Response → Response
  unfolding resolve_request_id
  ensure_request_id words request response = elim (header response request_id_header) [
    | none ↦ set_header request_id_header (resolve_request_id words request) response
    | some id ↦ response
  ]
