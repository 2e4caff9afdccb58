-- ===== src/Http/ErrorResponse.antt =====
-- src/adapters/http/error_response.hpp and error_response.cpp: the one mapping from an error to a
-- status and an FR-71 body.
pub mod Reading
use leta.Prelude.{ℕ, List, ◌++◌, leb, ◌==◌, if◌then◌else◌, Bytes, codes}
use leta.Core.Error.{
  ErrorCode, malformed_request, payload_too_large, invalid_index_uid, unknown_field,
  index_already_exists, route_not_found, ErrorType, invalid_request, auth, not_found, Error,
  error_type,
}
use leta.Application.HttpServer.{HttpResponse}
use leta.Http.JsonString.{append_json_string}

-- struct WireError
pub record WireError : Type 0 where
  pub code : Bytes
  pub status : ℕ

-- wire_error
unfoldable pub wire_error : ErrorCode → WireError
wire_error malformed_request = record { code = codes "malformed_request"; status = 400 }
wire_error payload_too_large = record { code = codes "payload_too_large"; status = 413 }
wire_error invalid_index_uid = record { code = codes "invalid_index_uid"; status = 400 }
wire_error unknown_field = record { code = codes "unknown_field"; status = 400 }
wire_error index_already_exists = record { code = codes "index_already_exists"; status = 409 }
wire_error route_not_found = record { code = codes "route_not_found"; status = 404 }
wire_error ErrorCode.internal = record { code = codes "internal"; status = 500 }

-- wire_type
unfoldable pub wire_type : ErrorType → Bytes
wire_type invalid_request = codes "invalid_request"
wire_type auth = codes "auth"
wire_type not_found = codes "not_found"
wire_type ErrorType.internal = codes "internal"

-- error_response
unfoldable pub error_response : Error → HttpResponse
unfolding wire_error wire_type error_type
error_response error =
    let wire = wire_error error.code in
    let body = codes "{\"code\":\"" ++ (wire.code ++ codes "\",\"message\":") in
    let body' = append_json_string body error.message in
    record {
      status = wire.status;
      body = body' ++ (codes ",\"type\":\"" ++ (wire_type (error_type error.code) ++ codes "\"}"));
    }

-- error_for_library_status
unfoldable pub error_for_library_status : ℕ → Error
error_for_library_status status =
    if status == 404
    then record { code = route_not_found; message = codes "No route matches this method and path." }
    else if status == 413
    then record { code = payload_too_large; message = codes "The request exceeds a size limit." }
    else if leb 500 status
    then record { code = ErrorCode.internal; message = codes "Internal error." }
    else record { code = malformed_request; message = codes "The request could not be parsed." }
