-- ===== src/Http/HttplibServer/Port.antt =====
-- src/adapters/http/httplib_server.hpp and httplib_server.cpp: HttplibServer, from its construction to
-- `stop`, which fills the port HttpServer. The library's listener is a parameter: its socket, what its
-- calls answer, and the requests that it serves until listen_after_bind returns, in the order in which
-- their handlers take effect.
use leta.Prelude.{ℕ, ℤ, Bool, List, [], ◌∷◌, ◌==◌, if◌then◌else◌, Bytes, ◌⊎◌, inl, inr}
use leta.Core.Error.{Result}
use leta.Application.HttpServer.{HttpServerOptions, HttpServer}
use leta.Http.Httplib.{Httplib}
use leta.Http.HttplibServer.Registration.{Registered, add_route}
use leta.Http.HttplibServer.Dispatch.{Dispatcher, Exchange}
use leta.Http.HttplibServer.Lifecycle as Lifecycle
use leta.Http.HttplibServer.Lifecycle.{Settings, configure}

-- The listener of httplib::Server: each call answers, and leaves its socket.
pub record Listener (library : Httplib) : Type 1 where
  pub Socket : Type 0
  pub bind_to_any_port : Bytes → Socket → ℤ × Socket
  pub bind_to_port : Bytes → ℕ → Socket → Bool × Socket
  -- the requests that it serves, and then an exception with its `what()`, or whether it went well
  pub listen_after_bind : Settings → Socket → (List (Exchange library) × (Bytes ⊎ Bool)) × Socket
  pub stop_listening : Socket → Socket

module _ (library : Httplib) (dispatcher : Dispatcher library) (listener : Listener library)
    (S : Type 0) where
  open listener use {Socket, bind_to_any_port, bind_to_port, listen_after_bind, stop_listening}
  open dispatcher use {process}

  -- class HttplibServer
  pub record HttplibServer : Type 0 where
    pub settings : Settings
    pub routes : List (Registered library S)
    pub socket : Socket

  -- HttplibServer::HttplibServer: the `what()` of its exception, or the server
  unfoldable pub construct : HttpServerOptions → Socket → Bytes ⊎ HttplibServer
  unfolding configure
  construct options socket = elim (configure options) [
    | inl what ↦ inl what
    | inr settings ↦ inr (record { settings = settings; routes = []; socket = socket })
  ]

  -- What the requests that a server serves leave.
  unfoldable pub served : List (Registered library S) → List (Exchange library) → S → S
  served routes [] s = s
  served routes (e ∷ rest) s = served routes rest (process routes e.readings e.method e.request s).1

  -- HttplibServer::bind, with the socket that the call of the library leaves
  unfoldable pub bind : Bytes → ℕ → HttplibServer → Result ℕ × HttplibServer
  unfolding Lifecycle.bind
  bind host port server = (
    Lifecycle.bind (λ h. (bind_to_any_port h server.socket).0)
        (λ h p. (bind_to_port h p server.socket).0) host port,
    record server {
      socket =
          if port == 0
          then (bind_to_any_port host server.socket).1
          else (bind_to_port host port server.socket).1;
    },
  )

  -- HttplibServer::run, while the handlers change the state
  unfoldable pub run : HttplibServer → S → (Bytes ⊎ Result (Unit {0})) × (HttplibServer × S)
  unfolding Lifecycle.run served
  run server s =
      let ((exchanges, listened), socket) = listen_after_bind server.settings server.socket in
      (
        elim listened [ inl what ↦ inl what | inr went_well ↦ inr (Lifecycle.run went_well) ],
        (record server { socket = socket }, served server.routes exchanges s),
      )

  -- HttplibServer::stop
  unfoldable pub stop : HttplibServer → HttplibServer
  stop server = record server { socket = stop_listening server.socket }

  -- The port, implemented.
  unfoldable pub httplib_server : HttpServer S
  unfolding add_route bind run stop
  httplib_server = record {
    routing = record {
      Server = HttplibServer;
      add_route = λ method path handler server. record server {
        routes = add_route library S method path handler server.routes;
      };
    };
    bind = bind;
    run = run;
    stop = stop;
  }
