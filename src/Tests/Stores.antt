-- ===== src/Tests/Stores.antt =====
-- The repository and the services at concrete calls.
use leta.Prelude.{◌^◌, ◌≤◌, ◌≡◌, refl, none, some, List, [], ◌∷◌, arith, codes, length}
use leta.Core.Map.{find-empty}
use leta.Application.IndexRepository.{StoredIndex, new_index}
use leta.Application.IndexService.{CreateIndexCommand}
use leta.Application.IngestService.{AddDocumentsCommand}
use leta.Application.HealthService.{
  initial as new_service, Call, read_readiness, mark, answers, mark_available, NeverReverts,
  AllAvailable, readiness-NeverReverts,
}
use leta.Application.History.{batches, first_metadata, successes, creates_once}
use leta.Storage.{initial, InMemoryIndexRepository, add, contents}
use leta.Storage.Laws.{in_memory, add_free}
use leta.Tests.Data.{books, books_index, two_documents, calls}

books_is_free : contents initial (codes "books") ≡ none
unfolding contents
books_is_free = find-empty (codes "books")

-- The repository once `books` is created.
abbrev with_books : InMemoryIndexRepository
with_books = (add books_index initial).1

books_is_taken : contents with_books (codes "books") ≡ some (new_index books_index)
books_is_taken = (add_free books_index initial books_is_free).1 (codes "books")

abbrev create_books : CreateIndexCommand
create_books = record { uid = books; primary_key = some (codes "id") }

abbrev ingest_books : AddDocumentsCommand
ingest_books = record { uid = books; documents = two_documents }

first_is_books : first_metadata (codes "books") calls ≡ some books_index
unfolding first_metadata
first_is_books = refl

room : length (batches (codes "books") calls) ≤ 2 ^ 32
unfolding batches
room = omega arith

creates_once_example :
    (successes in_memory (codes "books") calls initial ≤ 1)
    × ((stored : StoredIndex)
        → contents initial (codes "books") ≡ some stored
        → successes in_memory (codes "books") calls initial ≡ 0)
creates_once_example = creates_once in_memory (codes "books") calls initial

abbrev probes : List Call
probes = read_readiness ∷ mark ∷ read_readiness ∷ read_readiness ∷ []

readiness-NeverReverts_example :
    NeverReverts (answers new_service probes)
    × AllAvailable (answers (mark_available new_service) probes)
readiness-NeverReverts_example = readiness-NeverReverts new_service probes
