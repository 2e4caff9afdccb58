-- ===== src/Startup/Serving.antt =====
-- src/main.cpp, `serve`: the server is built over a new repository and a new readiness flag, its routes
-- are registered, and it is bound and run.
use leta.Prelude.{List, ◌∷◌, codes, equal, if◌then◌else◌, [], ℕ, ◌++◌, Bytes, ◌⊎◌, inl, inr}
use leta.Core.Error.{Result, ok, err}
use leta.Application.HttpServer.{HttpServer, Routing, default_options}
use leta.Application.HealthService.{mark_available}
use leta.Application.HealthService as Health
use leta.Application.Services.{Services}
use leta.Storage.{initial}
use leta.Storage.Laws.{in_memory}
use leta.Http.Simdjson.{Simdjson}
use leta.Http.Httplib.{Httplib}
use leta.Http.SystemRoutes.{register_system_routes}
use leta.Http.IndexRoutes.{register_index_routes}
use leta.Http.DocumentRoutes.Batch.{register_document_routes}
use leta.Http.HttplibServer.Dispatch.{Dispatcher}
use leta.Http.HttplibServer.Port.{Listener, construct, httplib_server}
use leta.Startup.{
  BuildInfo, version_line, version_flag, listen_host, listen_port, print_line, print_listening,
}

-- What `serve` leaves: the `what()` of an exception or its status, what it wrote to stderr, and the
-- services.
pub record Served : Type 0 where
  pub ended : Bytes ⊎ ℕ
  pub stderr : Bytes
  pub services : Services in_memory

abbrev pub new_services : Services in_memory
new_services = record { health = Health.initial; indexes = initial }

-- What a process leaves: its exit status, what it wrote, and the services, which are new until it
-- serves.
pub record Exited : Type 0 where
  pub status : ℕ
  pub stderr : Bytes
  pub stdout : Bytes
  pub services : Services in_memory

-- the try block of main, around `serve`
unfoldable pub caught : Served → Exited
unfolding print_line
caught s = elim s.ended [
  | inl what ↦ record {
    status = 1;
    stderr = s.stderr ++ print_line what;
    stdout = [];
    services = s.services;
  }
  | inr status ↦ record { status = status; stderr = s.stderr; stdout = []; services = s.services }
]

abbrev usage_error : Exited
usage_error = record {
  status = 2;
  stderr = codes "usage: leta [--version]\n";
  stdout = [];
  services = new_services;
}

-- once `run` has returned, or thrown
unfoldable pub report : Bytes → Bytes ⊎ Result (Unit {0}) → Services in_memory → Served
unfolding print_line
report listening (inl what) services = record {
  ended = inl what;
  stderr = listening;
  services = services;
}
report listening (inr (ok unit)) services = record {
  ended = inr 0;
  stderr = listening;
  services = services;
}
report listening (inr (err error)) services = record {
  ended = inr 1;
  stderr = listening ++ print_line error.message;
  services = services;
}

-- `serve` from the registration of the routes on, over the port
module _ (port : HttpServer (Services in_memory)) where
  open port use {routing}

  unfoldable pub serving : Result ℕ → Routing.Server routing → Services in_memory → Served
  unfolding print_line print_listening report
  serving (err error) server services = record {
    ended = inr 1;
    stderr = print_line error.message;
    services = services;
  }
  serving (ok bound_port) server services =
      let ready = record services { health = mark_available services.health } in
      let (stopped, (server', left)) = HttpServer.run port server ready in
      report (print_listening bound_port default_options.worker_threads) stopped left

  unfoldable pub register_routes : Simdjson → Routing.Server routing → Routing.Server routing
  unfolding register_system_routes register_index_routes register_document_routes
  register_routes json server = register_document_routes json in_memory routing (
      register_index_routes json in_memory routing
        (register_system_routes in_memory routing server))

  unfoldable pub serve_with : Simdjson → Routing.Server routing → Served
  unfolding register_routes serving
  serve_with json server =
      let (bound_port, bound) =
        HttpServer.bind port listen_host listen_port (register_routes json server) in
      serving bound_port bound new_services

module _ (json : Simdjson) (library : Httplib) (dispatcher : Dispatcher library)
    (listener : Listener library) where
  open listener use {Socket}

  -- serve
  unfoldable pub serve : Socket → Served
  unfolding construct serve_with httplib_server
  serve socket =
      elim (construct library dispatcher listener (Services in_memory) default_options socket) [
        | inl what ↦ record { ended = inl what; stderr = []; services = new_services }
        | inr server ↦
            serve_with (httplib_server library dispatcher listener (Services in_memory)) json server
      ]

  -- the first branch of main
  unfoldable pub serve_process : Socket → Exited
  unfolding serve caught
  serve_process socket = caught (serve socket)

  -- main, on the arguments argv
  unfoldable pub main : BuildInfo → List Bytes → Socket → Exited
  unfolding serve_process version_line
  main info (program ∷ []) socket = serve_process socket
  main info (program ∷ argument ∷ []) socket =
      if equal argument version_flag
      then record {
        status = 0;
        stderr = [];
        stdout = version_line info ++ codes "\n";
        services = new_services;
      }
      else usage_error
  main info argv socket = usage_error
