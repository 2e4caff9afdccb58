-- ===== src/Server/Routes.antt =====
-- Which requests each of the three routes takes.
use leta.Prelude.{
  ◌≡◌, ◌≢◌, refl, ap, sym, ◌∙◌, none, [], ◌∷◌, arith, Bytes, codes, length, length-append, All,
  Option-cases, inl, inr,
}
use leta.Application.HttpServer.{get, post, HttpHandler, Readings}
use leta.Application.IndexRepository.{IndexRepository}
use leta.Application.Services.{Services}
use leta.Http.Simdjson.{Simdjson}
use leta.Http.Httplib.{Httplib}
use leta.Http.SystemRoutes.{health_handler, register_system_routes}
use leta.Http.IndexRoutes.{create_index_handler, register_index_routes}
use leta.Http.DocumentRoutes.Batch.{add_documents_handler, register_document_routes}
use leta.Http.HttplibServer.{to_library_pattern, adapt}
use leta.Http.HttplibServer.Registration.{Registered, httplib_routing, add_route}
use leta.Http.HttplibServer.Dispatch.{Dispatcher, Misses, with_segment}
use leta.Server.{routes, documents_pattern}

module _ (json : Simdjson) (repository : IndexRepository) where
  abbrev pub on_health : Readings → HttpHandler (Services repository)
  on_health readings request s = (inr (health_handler s.health request), s)

  abbrev pub on_create : Readings → HttpHandler (Services repository)
  on_create readings request s =
      let (response, indexes) =
        create_index_handler json repository request readings.now s.indexes in
      (inr response, record s { indexes = indexes })

  abbrev pub on_documents : Readings → HttpHandler (Services repository)
  on_documents readings request s =
      let (response, indexes) =
        add_documents_handler json repository request readings.now readings.elapsed s.indexes in
      (inr response, record s { indexes = indexes })

  module _ (library : Httplib) where
    open library use {path}

    abbrev pub health_route : Registered library (Services repository)
    health_route = record {
      method = get;
      pattern = codes "/health";
      handler = λ readings. adapt library get (on_health readings) readings.words;
    }

    abbrev pub create_route : Registered library (Services repository)
    create_route = record {
      method = post;
      pattern = codes "/indexes";
      handler = λ readings. adapt library post (on_create readings) readings.words;
    }

    abbrev pub documents_route : Registered library (Services repository)
    documents_route = record {
      method = post;
      pattern = documents_pattern;
      handler = λ readings. adapt library post (on_documents readings) readings.words;
    }

    -- What `serve` registers: the three routes, with the library's pattern of each path.
    pub routes_lem :
        routes json repository library ≡ health_route ∷ create_route ∷ documents_route ∷ []
    unfolding routes register_system_routes register_index_routes register_document_routes
        httplib_routing add_route to_library_pattern
    routes_lem = refl

    module _ (dispatcher : Dispatcher library) where
      open dispatcher use {matches, matches_plain, captures}

      -- A path that the documents pattern takes is not that of POST /indexes.
      pub documents_miss :
          (requested : Bytes)
          → requested ≡ codes "/indexes"
          → matches documents_pattern requested ≡ none
      documents_miss requested same = elim (Option-cases (matches documents_pattern requested)) [
        | inl missed ↦ missed
        | inr (params, taken) ↦
            let (value, shape, _, _) =
              captures (codes "/indexes") (codes "uid") (codes "documents") requested params refl
                refl taken in
            absurd (longer value (sym same ∙ shape))
      ]
        where
          longer :
              (value : Bytes)
              → codes "/indexes" ≢ with_segment (codes "/indexes") value (codes "documents")
          longer value e = omega (arith, ap length e, length-append value (codes "/documents"))

      -- A GET is taken by the health route alone, and a POST never is.
      pub get-Misses :
          (requested : Bytes)
          → All (Misses library matches get requested) (create_route ∷ documents_route ∷ [])
      get-Misses requested = (inl post-ne-get, (inl post-ne-get, tt))
        where
          post-ne-get : post ≢ get
          post-ne-get e = cc

      pub post-Misses_health :
          (requested : Bytes) → Misses library matches post requested health_route
      post-Misses_health requested = inl get-ne-post
        where
          get-ne-post : get ≢ post
          get-ne-post e = cc
