-- ===== src/Http/ErrorResponse/Reading.antt =====
-- What a client makes of an error response.
use leta.Prelude.{
  ℕ, ◌≤◌, ◌<◌, ◌≡◌, ◌↔◌, refl, ap, ◌∙◌, Option, none, some, ◌++◌, append_assoc, arith,
  if◌then◌else◌, Bytes, codes, equal,
}
use leta.Core.Error.{
  ErrorCode, malformed_request, payload_too_large, invalid_index_uid, unknown_field,
  index_already_exists, route_not_found, ErrorType, invalid_request, auth, not_found, Error,
  error_type,
}
use leta.Http.JsonString.{escaped}
use leta.Http.JsonObject.{read_member, read_member-quoted}
use leta.Http.JsonString.Reading.{quoted, append_json_string-quoted}
use leta.Http.ErrorResponse.{wire_error, wire_type, error_response, error_for_library_status}

-- What a client reads in the body of an error response.
pub record ReadError : Type 0 where
  pub code : Bytes
  pub message : Bytes
  pub type : Bytes

-- Three string members, in the order of FR-71, and the end of the object.
unfoldable pub read_error : Bytes → Option ReadError
read_error input = elim (read_member (codes "{\"code\":") input) [
  | none ↦ none
  | some (code, after_code) ↦ elim (read_member (codes ",\"message\":") after_code) [
    | none ↦ none
    | some (message, after_message) ↦ elim (read_member (codes ",\"type\":") after_message) [
      | none ↦ none
      | some (type, end) ↦
          if equal end (codes "}")
          then some (record { code = code; message = message; type = type })
          else none
    ]
  ]
]

abbrev after_message : Bytes → Bytes
after_message type = codes ",\"type\":" ++ (quoted type ++ codes "}")

abbrev after_code : Bytes → Bytes → Bytes
after_code message type = codes ",\"message\":" ++ (quoted message ++ after_message type)

abbrev laid_out : Bytes → Bytes → Bytes → Bytes
laid_out code message type = codes "{\"code\":" ++ (quoted code ++ after_code message type)

abbrev written_before : ErrorCode → Bytes
written_before c = codes "{\"code\":\"" ++ ((wire_error c).code ++ codes "\",\"message\":")

abbrev written_after : ErrorCode → Bytes
written_after c = codes ",\"type\":\"" ++ (wire_type (error_type c) ++ codes "\"}")

written-laid_out :
    (c : ErrorCode) (message : Bytes)
    → written_before c ++ (quoted message ++ written_after c)
      ≡ laid_out (wire_error c).code message (wire_type (error_type c))
unfolding error_response escaped
written-laid_out malformed_request message = refl
written-laid_out _ message = refl

body-laid_out :
    (c : ErrorCode) (message : Bytes)
    → (error_response (record { code = c; message = message })).body
      ≡ laid_out (wire_error c).code message (wire_type (error_type c))
unfolding error_response
body-laid_out c message =
    ap (λ text. text ++ written_after c) (append_json_string-quoted (written_before c) message)
    ∙ append_assoc (written_before c) (quoted message) (written_after c)
    ∙ written-laid_out c message

read_error-laid_out :
    (code message type : Bytes)
    → read_error (laid_out code message type)
      ≡ some (record { code = code; message = message; type = type })
unfolding read_error
read_error-laid_out code message type =
    rw (read_member-quoted (codes "{\"code\":") code (after_code message type), read_error)
      (rw (read_member-quoted (codes ",\"message\":") message (after_message type))
        (rw (read_member-quoted (codes ",\"type\":") type (codes "}"))))

-- The code and the type that a name of FR-71 stands for.
abbrev pub code_of_name : Bytes → Option ErrorCode
code_of_name name =
    if equal name (codes "malformed_request")
    then some malformed_request
    else if equal name (codes "payload_too_large")
    then some payload_too_large
    else if equal name (codes "invalid_index_uid")
    then some invalid_index_uid
    else if equal name (codes "unknown_field")
    then some unknown_field
    else if equal name (codes "index_already_exists")
    then some index_already_exists
    else if equal name (codes "route_not_found")
    then some route_not_found
    else if equal name (codes "internal")
    then some ErrorCode.internal
    else none

abbrev pub type_of_name : Bytes → Option ErrorType
type_of_name name =
    if equal name (codes "invalid_request")
    then some invalid_request
    else if equal name (codes "auth")
    then some auth
    else if equal name (codes "not_found")
    then some not_found
    else if equal name (codes "internal")
    then some ErrorType.internal
    else none

code_of_name-wire_error : (c : ErrorCode) → code_of_name (wire_error c).code ≡ some c
unfolding wire_error
code_of_name-wire_error malformed_request = refl
code_of_name-wire_error _ = refl

type_of_name-wire_type : (t : ErrorType) → type_of_name (wire_type t) ≡ some t
unfolding wire_type
type_of_name-wire_type invalid_request = refl
type_of_name-wire_type _ = refl

-- For every error: the response body is the JSON object of FR-71, from which a client reads back the
-- message byte for byte, and names that FR-71 gives to the code and to the type of the code, and to no
-- other.
pub read_error-error_response :
    (error : Error)
    → (read_error (error_response error).body
        ≡ some (record {
          code = (wire_error error.code).code;
          message = error.message;
          type = wire_type (error_type error.code);
        }))
      × (code_of_name (wire_error error.code).code ≡ some error.code)
      × (type_of_name (wire_type (error_type error.code)) ≡ some (error_type error.code))
read_error-error_response error = (
  ap read_error (body-laid_out error.code error.message)
      ∙ read_error-laid_out (wire_error error.code).code error.message
          (wire_type (error_type error.code)),
  code_of_name-wire_error error.code,
  type_of_name-wire_type (error_type error.code),
)

-- The status of an error response is an error status that agrees with the type of its code: 5xx
-- exactly for `internal`, 404 exactly for `not_found`, and 4xx for a request that is at fault.
pub error_response_status :
    (error : Error)
    → (400 ≤ (error_response error).status)
      × ((error_response error).status < 600)
      × ((500 ≤ (error_response error).status) ↔ (error_type error.code ≡ ErrorType.internal))
      × (((error_response error).status ≡ 404) ↔ (error_type error.code ≡ not_found))
unfolding error_response
error_response_status error = ground arith

-- A status of 400 or more that the HTTP library set on its own keeps its class: a 5xx is answered by
-- a 5xx and a 4xx by a 4xx, and 404 and 413 by themselves.
pub error_for_library_status_class :
    (status : ℕ)
    → 400 ≤ status
    → (((error_response (error_for_library_status status)).status < 500) ↔ (status < 500))
      × (((error_response (error_for_library_status status)).status ≡ 404) ↔ (status ≡ 404))
      × (((error_response (error_for_library_status status)).status ≡ 413) ↔ (status ≡ 413))
unfolding error_response error_for_library_status
error_for_library_status_class status h = ground arith
