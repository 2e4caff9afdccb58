-- ===== src/Tests/Http.antt =====
-- The HTTP adapter's parts at concrete inputs.
use leta.Prelude.{
  if◌then◌else◌, ℕ, ◌+◌, ◌*◌, ◌^◌, ◌≡◌, ◌↔◌, refl, true, false, not, ◌&&◌, none, some, [], ◌++◌,
  arith, Bytes, Bool, not, codes, length, all_of, inl, inr, zero, suc, pos, ℤ, ◌==◌,
}
use leta.Core.Error.{Error, malformed_request, error_type}
use leta.Application.HttpServer.{post, HttpHandler, standard}
use leta.Http.ContentType.{is_json_content_type}
use leta.Http.ContentType.Accepts.{is_json_content_type_iff}
use leta.Http.ContentType.Trim.{NamesJson}
use leta.Http.JsonString.{append_json_string}
use leta.Http.JsonString.Reading.{read_string, read_string-append_json_string}
use leta.Http.ErrorResponse.{error_response, wire_error, wire_type}
use leta.Http.ErrorResponse.Reading.{
  read_error, code_of_name, type_of_name, read_error-error_response,
}
use leta.Http.RequestId.{format_request_id, is_acceptable_request_id}
use leta.Http.RequestId.Format.{hex_number, format_request_id_lem}
use leta.Http.Hex.{is_lower_hex}
use leta.Http.HttplibServer.{
  report_handler_exception, request_id_header, content_type_header, expects_json_body,
  resolve_request_id, neutral, write_outcome, adapt,
}
use leta.Http.HttplibServer.Dispatch.{finish, settle}
use leta.Http.HttplibServer.Finish.{Carries, internal_answer, report_handler_exception_lem}
use leta.Http.HttplibServer.Laws.{adapt_lem}
use leta.Http.HttplibServer.Stream.Serve.{
  Conversation, finished, receiving, sending, asking, serve_raw, sent, serve_raw_lem,
}
use leta.Tests.Toy.{toy_library, with_header, fresh_response, post_books}

-- A text with a quote, a backslash and a line feed.
abbrev awkward : Bytes
awkward = codes "say \"hi\\\n"

abbrev an_error : Error
an_error = record { code = malformed_request; message = awkward }

read_string-append_json_string_example :
    (append_json_string (codes "x:") awkward ≡ codes "x:" ++ append_json_string [] awkward)
    × (read_string (append_json_string [] awkward ++ codes ",") ≡ some (awkward, codes ","))
read_string-append_json_string_example =
    read_string-append_json_string (codes "x:") awkward (codes ",")

read_error-error_response_example :
    (read_error (error_response an_error).body
      ≡ some (record {
        code = (wire_error malformed_request).code;
        message = awkward;
        type = wire_type (error_type malformed_request);
      }))
    × (code_of_name (wire_error malformed_request).code ≡ some malformed_request)
    × (type_of_name (wire_type (error_type malformed_request))
        ≡ some (error_type malformed_request))
read_error-error_response_example = read_error-error_response an_error

-- Request Header Fields Too Large
abbrev too_large_header : ℕ
too_large_header = 431

format_request_id_lem_example :
    (length (format_request_id 255 7) ≡ 32)
    × (all_of is_lower_hex (format_request_id 255 7) ≡ true)
    × (is_acceptable_request_id (format_request_id 255 7) ≡ true)
    × (hex_number 0 (format_request_id 255 7) ≡ some (255 * 2 ^ 64 + 7))
format_request_id_lem_example = format_request_id_lem 255 7 (omega arith) (omega arith)

-- A handler that counts its calls and throws on the first.
abbrev counting : HttpHandler ℕ
counting request n = elim n [
  | zero ↦ (inl (standard (codes "first call")), 1)
  | suc m ↦ (inr (record { status = 201; body = request.body }), suc (suc m))
]

adapt_lem_example :
    let answer = adapt toy_library post counting (255, 7) post_books fresh_response 1 in
    let id = resolve_request_id toy_library (255, 7) post_books in
    let called = counting (neutral toy_library post post_books id) 1 in
    let refused =
      expects_json_body post
      && not (is_json_content_type (post_books.headers content_type_header)) in
    (is_acceptable_request_id id ≡ true)
    × (answer.0.1.headers request_id_header ≡ some id)
    × (refused ≡ true → (answer.1 ≡ 1) × (answer.0.0 ≡ none) × (answer.0.1.status ≡ 400))
    × (refused ≡ false
        → (answer.1 ≡ called.1)
          × (answer.0
              ≡ write_outcome toy_library
                  (with_header request_id_header id fresh_response)
                  called.0))
adapt_lem_example =
    adapt_lem toy_library post counting (255, 7) post_books fresh_response 1 (omega arith)
      (omega arith)

is_json :
    expects_json_body post && not (is_json_content_type (post_books.headers content_type_header))
    ≡ false
unfolding expects_json_body is_json_content_type
is_json = refl

report_handler_exception_lem_example :
    let id = resolve_request_id toy_library (255, 7) post_books in
    let ((left, response), state) =
      adapt toy_library post counting (255, 7) post_books fresh_response 0 in
    (left ≡ some (standard (codes "first call")))
    × (state ≡ 1)
    × Carries toy_library
        (finish toy_library (255, 7) post_books (settle toy_library (left, response)))
        id
        internal_answer
    × ((report_handler_exception toy_library response (standard (codes "first call"))).0
        ≡ codes "leta: unhandled exception in request "
          ++ (id ++ (codes ": " ++ (codes "first call" ++ codes "\n"))))
report_handler_exception_lem_example =
    report_handler_exception_lem toy_library post counting (255, 7) post_books fresh_response 0
      (standard (codes "first call")) 1 is_json refl

-- A greeting, and then what is asked for, read in two parts.
abbrev echo : Conversation
echo = receiving 4 (λ method. sending (codes "HTTP ") (
    asking (λ stream.
      if stream.is_readable
      then receiving 100 (λ target. sending (target ++ method) finished)
      else finished)))

test_echo : serve_raw echo (codes "GET /health") ≡ codes "HTTP /healthGET "
unfolding serve_raw
test_echo = refl

serve_raw_lem_example : serve_raw echo (codes "GET /health") ≡ sent echo (codes "GET /health")
serve_raw_lem_example = serve_raw_lem echo (codes "GET /health")

is_json_content_type_iff_example :
    (is_json_content_type (codes " Application/JSON ; charset=utf-8") ≡ true)
    ↔ NamesJson (codes " Application/JSON ; charset=utf-8")
is_json_content_type_iff_example =
    is_json_content_type_iff (codes " Application/JSON ; charset=utf-8")

-- A host on which the kernel gives port 50000, and any port but 80 is free.
abbrev any_port : Bytes → ℤ
any_port host = pos 50000

abbrev free_port : Bytes → ℕ → Bool
free_port host port = not (port == 80)
