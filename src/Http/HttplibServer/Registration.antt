-- ===== src/Http/HttplibServer/Registration.antt =====
-- src/adapters/http/httplib_server.cpp: `add_route`. The library's two tables of handlers, for GET and for POST, are one list of routes with their methods.
use leta.Prelude.{Option, List, [], ◌∷◌, ◌++◌, Bytes}
use leta.Application.HttpServer.{Exception, HttpMethod, HttpHandler, Readings, Routing}
use leta.Http.Httplib.{Httplib}
use leta.Http.HttplibServer.{to_library_pattern, adapt}

module _ (library : Httplib) (S : Type 0) where
  open library use {Request, Response}

  -- A handler of the library: the exception that leaves it, if one does, the response, and the state.
  abbrev pub LibraryHandler : Type 0
  LibraryHandler = Readings → Request → Response → S → (Option Exception × Response) × S

  -- server.Get(pattern, handler) or server.Post(pattern, handler)
  pub record Registered : Type 0 where
    pub method : HttpMethod
    pub pattern : Bytes
    pub handler : LibraryHandler

  -- HttplibServer::add_route
  unfoldable pub add_route :
      HttpMethod → Bytes → (Readings → HttpHandler S) → List Registered → List Registered
  unfolding to_library_pattern adapt
  add_route method path handler routes =
      routes
      ++ record {
        method = method;
        pattern = to_library_pattern path;
        handler = λ readings. adapt library method (handler readings) readings.words;
      }
        ∷ []

  -- What the routes use of the server, implemented.
  unfoldable pub httplib_routing : Routing S
  unfolding add_route
  httplib_routing = record { Server = List Registered; add_route = add_route }
