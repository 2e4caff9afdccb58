-- ===== src/Startup/Lifetime.antt =====
-- src/main.cpp, `serve`, from its start to its end, by what the HTTP library answers and by the
-- requests that it serves.
use leta.Prelude.{
  false, ◌++◌, ℕ, ◌≡◌, refl, ap, sym, ◌∙◌, Bool, true, List, [], ◌∷◌, Bytes, codes, ◌⊎◌, inl, inr,
  if◌then◌else◌, Bool-cases, some, none, equal, equal_iff, length, ◌^◌, ◌≤◌,
}
use leta.Prelude.Decimal.{to_string}
use leta.Core.Map.{find-empty}
use leta.Core.IndexMetadata.{IndexMetadata}
use leta.Core.ExactMatchIndex.{documents_containing}
use leta.Core.ExactMatchIndex.Postings.{positions}
use leta.Application.IndexRepository.{StoredIndex}
use leta.Application.History.{batches, first_metadata}
use leta.Application.HttpServer.{Readings, HttpResponse, get}
use leta.Application.HealthService.{mark_available, readiness}
use leta.Application.Services.{Services}
use leta.Storage.{contents}
use leta.Storage.Laws.{in_memory}
use leta.Http.Simdjson.{Simdjson}
use leta.Http.Httplib.{Httplib}
use leta.Http.SystemRoutes.{health_response}
use leta.Http.HttplibServer.Dispatch.{Dispatcher, Exchange}
use leta.Http.HttplibServer.Lifecycle as Lifecycle
use leta.Http.HttplibServer.Lifecycle.{Settings, configure, cannot_listen_message}
use leta.Http.HttplibServer.Port.{Listener, construct, bind, run, served, httplib_server}
use leta.Server.{routes, answer, after, expected}
use leta.Server.Answers.{answer-Meets}
use leta.Server.Runs.{operations, after_run}
use leta.Server.Search.{search_after_requests}
use leta.Startup.{print_line, print_listening}
use leta.Startup.Serving.{
  Served, Exited, caught, new_services, register_routes, report, serving, serve_with, serve,
  serve_process,
}

-- The status and the lines on stderr of a process without arguments, by whether its port is bound and
-- by how listening ends.
abbrev pub listening_line : Bytes
listening_line = codes "leta: listening on 0.0.0.0:7700 (64 worker threads)\n"

abbrev pub said : Bool → Bytes ⊎ Bool → ℕ × Bytes
said false listened = (1, codes "leta: Cannot listen on 0.0.0.0:7700.\n")
said true (inr true) = (0, listening_line)
said true (inr false) =
    (1, listening_line ++ codes "leta: The HTTP listener failed while accepting connections.\n")
said true (inl what) = (1, listening_line ++ (codes "leta: " ++ (what ++ codes "\n")))

-- What `serve` itself leaves: its status, or the exception of the library.
abbrev ends : Bool → Bytes ⊎ Bool → (Bytes ⊎ ℕ) × Bytes
ends false listened = (inr 1, codes "leta: Cannot listen on 0.0.0.0:7700.\n")
ends true (inr true) = (inr 0, listening_line)
ends true (inr false) =
    (inr 1, listening_line ++ codes "leta: The HTTP listener failed while accepting connections.\n")
ends true (inl what) = (inl what, listening_line)

caught-ends :
    (bound : Bool) (listened : Bytes ⊎ Bool) (services : Services in_memory)
    → caught (record {
      ended = (ends bound listened).0;
      stderr = (ends bound listened).1;
      services = services;
    })
      ≡ record {
        status = (said bound listened).0;
        stderr = (said bound listened).1;
        stdout = [];
        services = services;
      }
unfolding caught print_line
caught-ends false listened services = refl
caught-ends true (inr true) services = refl
caught-ends true (inr false) services = refl
caught-ends true (inl what) services = refl

module _ (json : Simdjson) (library : Httplib) (dispatcher : Dispatcher library) where
  served-routes :
      (exchanges : List (Exchange library)) (s : Services in_memory)
      → (listener : Listener library)
      → served library dispatcher listener
          (Services in_memory)
          (routes json in_memory library)
          exchanges
          s
        ≡ after json in_memory library dispatcher exchanges s
  unfolding served after answer
  served-routes [] s listener = refl
  served-routes (e ∷ rest) s listener = served-routes rest _ listener

  module _ (listener : Listener library) (socket : Listener.Socket listener) where
    open library use {path, status, body}
    open listener use {bind_to_any_port, bind_to_port, listen_after_bind}

    abbrev pub default_settings : Settings
    default_settings = record {
      base_threads = 64;
      max_threads = 64;
      payload_max_length = 20971520;
      read_timeout = 30;
      write_timeout = 30;
    }

    -- What the library says to port 7700 on all interfaces; the requests that it serves then; and
    -- how it ended: an exception, or whether it was stopped without an error.
    abbrev pub is_bound : Bool
    is_bound = (bind_to_port (codes "0.0.0.0") 7700 socket).0

    abbrev pub exchanges : List (Exchange library)
    exchanges =
        (listen_after_bind default_settings (bind_to_port (codes "0.0.0.0") 7700 socket).1).0.0

    abbrev pub listened : Bytes ⊎ Bool
    listened =
        (listen_after_bind default_settings (bind_to_port (codes "0.0.0.0") 7700 socket).1).0.1

    abbrev pub ready : Services in_memory
    ready = record new_services { health = record { is_available = true } }

    -- The services once the server has returned.
    abbrev pub left : Services in_memory
    left =
        if is_bound then after json in_memory library dispatcher exchanges ready else new_services

    leaves :
        (ended : Bytes ⊎ ℕ) (stderr : Bytes)
        → ◌≡◌ {A = Served}
            (record {
              ended = ended;
              stderr = stderr;
              services =
                  served library dispatcher listener
                    (Services in_memory)
                    (routes json in_memory library)
                    exchanges
                    ready;
            })
            (record {
              ended = ended;
              stderr = stderr;
              services = after json in_memory library dispatcher exchanges ready;
            })
    leaves ended stderr =
        ap (λ s. record { ended = ended; stderr = stderr; services = s })
          (served-routes exchanges ready listener)

    serve-ends : serve json library dispatcher listener socket ≡ record {
      ended = (ends is_bound listened).0;
      stderr = (ends is_bound listened).1;
      services = left;
    }
    unfolding serve construct serve_with serving register_routes report httplib_server bind run
        Lifecycle.run Lifecycle.bind configure mark_available routes print_line print_listening
        cannot_listen_message to_string
    serve-ends = elim (Bool-cases is_bound) [
      | inr busy ↦ rw (busy, serve) refl
      | inl bound ↦ elim (listened-cases listened) [
        | inl (inl stopped) ↦ rw (bound, serve) (rw stopped (leaves _ _))
        | inl (inr failed) ↦ rw (bound, serve) (rw failed (leaves _ _))
        | inr (what, thrown) ↦ rw (bound, serve) (rw thrown (leaves _ _))
      ]
    ]
      where
        listened-cases :
            (l : Bytes ⊎ Bool)
            → ((l ≡ inr true) ⊎ (l ≡ inr false)) ⊎ ((what : Bytes) × (l ≡ inl what))
        listened-cases (inl what) = inr (what, refl)
        listened-cases (inr true) = inl (inl refl)
        listened-cases (inr false) = inl (inr refl)

    -- A process without arguments leaves the status and the lines of the reference `said`, and nothing on
    -- stdout; and, if the library binds port 7700 on all interfaces, then however many requests it serves until it returns
    -- or throws, the services that these requests, in order, make of an empty repository that is ready;
    -- otherwise new services, which are not.
    pub serve_lem : serve_process json library dispatcher listener socket ≡ record {
      status = (said is_bound listened).0;
      stderr = (said is_bound listened).1;
      stdout = [];
      services = left;
    }
    unfolding serve_process
    serve_lem = ap caught serve-ends ∙ caught-ends is_bound listened left

    free : (uid : Bytes) → contents ready.indexes uid ≡ none
    unfolding contents
    free uid = find-empty uid

    left-ready : left.health.is_available ≡ is_bound
    left-ready = elim (Bool-cases is_bound) [
      | inl bound ↦ rw bound (rw (after_run json in_memory library dispatcher exchanges ready) refl)
      | inr busy ↦ rw busy refl
    ]

    exited-ready :
        (serve_process json library dispatcher listener socket).services.health.is_available
        ≡ is_bound
    exited-ready = ap (λ (e : Exited). e.services.health.is_available) serve_lem ∙ left-ready

    -- If the library binds the port, and then, until it returns or throws, serves requests of which some accepted
    -- one names a uid and the accepted batches for it hold at most 2^32 documents, then the index that
    -- `serve` leaves under the uid has the metadata of the first such request, and answers every term
    -- with the positions of exactly the documents, of all accepted batches for it in order, that hold
    -- the term.
    pub search_after_serve :
        (uid : Bytes) (index : IndexMetadata)
        → is_bound ≡ true
        → first_metadata uid (operations json in_memory library dispatcher exchanges) ≡ some index
        → length (batches uid (operations json in_memory library dispatcher exchanges)) ≤ 2 ^ 32
        → (outcome : Exited) × (stored : StoredIndex) × (serve_process json library dispatcher
              listener socket
            ≡ outcome)
          × (contents outcome.services.indexes uid ≡ some stored)
          × (stored.metadata ≡ index)
          × ((term : Bytes)
              → documents_containing stored.documents term
                ≡ positions 0
                    (batches uid (operations json in_memory library dispatcher exchanges))
                    term)
    search_after_serve uid index bound first room =
        let (stored, found, is_index, finds) =
          search_after_requests json in_memory library dispatcher exchanges ready uid index
            (free uid) first room in
        (_, stored, serve_lem, rw bound found, is_index, finds)

  health_answered :
      (readings : Readings) (request : Httplib.Request library) (s : Services in_memory)
      → s.health.is_available ≡ true
      → Httplib.path library request ≡ codes "/health"
      → let response = (answer json in_memory library dispatcher readings get request s).0 in
        (Httplib.status library response ≡ 200)
        × (Httplib.body library response ≡ codes "{\"status\":\"available\"}")
  unfolding expected health_response readiness
  health_answered readings request s up asked =
      let carried = (answer-Meets json in_memory library dispatcher readings request s get).0 in
      (
        carried.has_status ∙ ap (λ (r : HttpResponse). r.status) expectation,
        carried.has_body ∙ ap (λ (r : HttpResponse). r.body) expectation,
      )
    where
      same : equal (codes "/health") (Httplib.path library request) ≡ true
      same = (equal_iff (codes "/health") (Httplib.path library request)).1 (sym asked)

      expectation :
          (expected json in_memory library dispatcher readings get request s).0
          ≡ record { status = 200; body = codes "{\"status\":\"available\"}" }
      expectation = rw same (rw (up, readiness) refl)

  -- The same library, where it serves the given requests and no others.
  abbrev pub until : List (Exchange library) → Listener library → Listener library
  until served listener = record listener {
    listen_after_bind = λ settings socket.
        let ((exchanges, listened), closed) = Listener.listen_after_bind listener settings socket in
        ((served, listened), closed);
  }

  pub ready_while_serving :
      (listener : Listener library) (socket : Listener.Socket listener)
      → ((serve_process json library dispatcher listener socket).services.health.is_available
          ≡ (Listener.bind_to_port listener (codes "0.0.0.0") 7700 socket).0)
        × ((before : List (Exchange library)) (readings : Readings)
              (request : Httplib.Request library)
            → (Listener.bind_to_port listener (codes "0.0.0.0") 7700 socket).0 ≡ true
            → Httplib.path library request ≡ codes "/health"
            → let reached =
                (serve_process json library dispatcher (until before listener) socket).services in
              let response =
                (answer json in_memory library dispatcher readings get request reached).0 in
              (reached.health.is_available ≡ true)
              × (Httplib.status library response ≡ 200)
              × (Httplib.body library response ≡ codes "{\"status\":\"available\"}"))
  ready_while_serving listener socket = (
    exited-ready listener socket,
    λ before readings request bound asked.
        let up = exited-ready (until before listener) socket ∙ bound in
        let (is_ok, says_available) = health_answered readings request _ up asked in
        (up, is_ok, says_available),
  )
