-- ===== src/Application/HttpServer.antt =====
-- src/application/http_server.hpp: what a route's handler sees and returns, and the port: with
-- which routes are registered, and with which the server is bound, run and stopped.
use leta.Prelude.{ℕ, ◌*◌, List, [], ◌∷◌, ◌⊎◌, if◌then◌else◌, Bytes, equal}
use leta.Core.Error.{Result}
use leta.Core.IndexMetadata.{Timestamp}

-- enum class HttpMethod
pub data HttpMethod : Type 0 where
  get post : HttpMethod

-- struct PathParameter
pub record PathParameter : Type 0 where
  pub name : Bytes
  pub value : Bytes

-- struct HttpRequest
pub record HttpRequest : Type 0 where
  pub method : HttpMethod
  pub path : Bytes
  pub path_parameters : List PathParameter
  pub body : Bytes
  pub request_id : Bytes

-- std::ranges::find by name, and the value found or an empty text
unfoldable pub parameter_in : List PathParameter → Bytes → Bytes
parameter_in [] name = []
parameter_in (parameter ∷ rest) name =
    if equal parameter.name name then parameter.value else parameter_in rest name

-- path_parameter
unfoldable pub path_parameter : HttpRequest → Bytes → Bytes
unfolding parameter_in
path_parameter request name = parameter_in request.path_parameters name

-- struct HttpResponse
pub record HttpResponse : Type 0 where
  pub status : ℕ
  pub body : Bytes

-- What a handler reads outside its request: the wall clock, the time between the two readings of the
-- steady clock in milliseconds, and two words of the random engine.
pub record Readings : Type 0 where
  pub now : Timestamp
  pub elapsed : ℕ
  pub words : ℕ × ℕ

-- What a handler may throw: an exception derived from std::exception, with its `what()`, or any other.
pub data Exception : Type 0 where
  standard : Bytes → Exception
  foreign : Exception

-- HttpHandler: an exception or a response, and the state that it leaves.
abbrev pub HttpHandler : Type 0 → Type 0
HttpHandler S = HttpRequest → S → (Exception ⊎ HttpResponse) × S

-- class HttpServer, as the routes use it: a server whose handlers share the state S
pub record Routing (S : Type 0) : Type 1 where
  pub Server : Type 0
  pub add_route : HttpMethod → Bytes → (Readings → HttpHandler S) → Server → Server

-- class HttpServer: `run` serves until it is stopped, so that the handlers change the state; it returns,
-- or an exception of the library leaves it, with its `what()`
pub record HttpServer (S : Type 0) : Type 1 where
  pub routing : Routing S
  pub bind : Bytes → ℕ → Routing.Server routing → Result ℕ × Routing.Server routing
  pub run : Routing.Server routing → S → (Bytes ⊎ Result (Unit {0})) × (Routing.Server routing × S)
  pub stop : Routing.Server routing → Routing.Server routing

-- struct HttpServerOptions, the timeouts in seconds
pub record HttpServerOptions : Type 0 where
  pub worker_threads : ℕ
  pub max_body_bytes : ℕ
  pub read_timeout : ℕ
  pub write_timeout : ℕ

-- HttpServerOptions{}
abbrev pub default_options : HttpServerOptions
default_options = record {
  worker_threads = 64;
  max_body_bytes = 20 * 1024 * 1024;
  read_timeout = 30;
  write_timeout = 30;
}
