-- ===== src/Tests/Lifetime.antt =====
-- The whole of `serve` at a listener that binds its port and then serves three requests.
use leta.Prelude.{[], ap, inl, ◌++◌, ◌≡◌, pos, Bool, true, false, refl, some, Bytes, codes, inr}
use leta.Core.ExactMatchIndex.{documents_containing}
use leta.Core.ExactMatchIndex.Postings.{positions}
use leta.Application.HttpServer.{default_options}
use leta.Application.IndexRepository.{StoredIndex}
use leta.Application.IngestService.{index_if_missing}
use leta.Application.History.{batches}
use leta.Storage.{contents}
use leta.Http.HttplibServer.Port.{Listener, construct, stop}
use leta.Startup.Serving.{Exited, serve_process}
use leta.Startup.Lifetime.{left, serve_lem, search_after_serve}
use leta.Tests.Data.{noon, books}
use leta.Tests.Toy.{toy_json, toy_library}
use leta.Tests.Dispatch.{toy_dispatcher}
use leta.Tests.Server.{exchanges, made, first_is_books, room}

-- A socket is open or not.
abbrev pub toy_listener : Listener toy_library
toy_listener = record {
  Socket = Bool;
  bind_to_any_port = λ host socket. (pos 50000, true);
  bind_to_port = λ host port socket. (true, true);
  listen_after_bind = λ settings socket. ((exchanges, inr true), false);
  stop_listening = λ socket. false;
}

serve_lem_example : serve_process toy_json toy_library toy_dispatcher toy_listener false ≡ record {
  status = 0;
  stderr = codes "leta: listening on 0.0.0.0:7700 (64 worker threads)\n";
  stdout = [];
  services = left toy_json toy_library toy_dispatcher toy_listener false;
}
serve_lem_example = serve_lem toy_json toy_library toy_dispatcher toy_listener false

-- A listener that binds its port and then cannot create its workers.
abbrev broken_listener : Listener toy_library
broken_listener = record toy_listener {
  listen_after_bind = λ settings socket. (([], inl (codes "no threads")), false);
}

test_thrown :
    (serve_process toy_json toy_library toy_dispatcher broken_listener false).stderr
    ≡ codes "leta: listening on 0.0.0.0:7700 (64 worker threads)\n" ++ codes "leta: no threads\n"
test_thrown =
    ap (λ (e : Exited). e.stderr)
      (serve_lem toy_json toy_library toy_dispatcher broken_listener false)

search_after_serve_example :
    (outcome : Exited) × (stored : StoredIndex) × (serve_process toy_json toy_library toy_dispatcher
        toy_listener false
      ≡ outcome)
    × (contents outcome.services.indexes (codes "books") ≡ some stored)
    × (stored.metadata ≡ index_if_missing books noon)
    × ((term : Bytes)
        → documents_containing stored.documents term
          ≡ positions 0 (batches (codes "books") made) term)
search_after_serve_example =
    search_after_serve toy_json toy_library toy_dispatcher toy_listener false (codes "books")
      (index_if_missing books noon) refl first_is_books room

-- A server that is stopped before it serves.
stopped_socket :
    elim (construct toy_library toy_dispatcher toy_listener Bool default_options true) [
      | inr server ↦ (stop toy_library toy_dispatcher toy_listener Bool server).socket
      | _ ↦ true
    ]
    ≡ false
unfolding construct stop
stopped_socket = refl
