-- ===== src/Storage.antt =====
-- src/adapters/storage/in_memory_index_repository.hpp and .cpp: the repository in process memory. Both
-- operations hold the one mutex from the first statement to the last; here each is one step on the
-- map. Threads has them statement by statement.
pub mod Laws
pub mod Threads
use leta.Prelude.{ℕ, Bool, true, false, not, Option, none, some, List, Bytes, if◌then◌else◌}
use leta.Core.Error.{Result, ok, err}
use leta.Core.Map
use leta.Core.Map.{Map}
use leta.Core.ExactMatchIndex.{Document, add_all}
use leta.Core.IndexMetadata.{IndexMetadata}
use leta.Application.IndexRepository.{StoredIndex, new_index, with_batch, already_exists}

pub record InMemoryIndexRepository : Type 0 where
  pub indexes : Map StoredIndex

abbrev pub initial : InMemoryIndexRepository
initial = record { indexes = Map.empty }

-- what try_emplace returns, `first->second` and `second`, with the map after it
pub record Emplaced : Type 0 where
  pub value : StoredIndex
  pub is_new : Bool
  pub map : Map StoredIndex

-- std::map::try_emplace: inserts only when the key is free
unfoldable pub try_emplace : Map StoredIndex → Bytes → StoredIndex → Emplaced
try_emplace m key value = elim (Map.find m key) [
  | none ↦ record { value = value; is_new = true; map = Map.put m key value }
  | some stored ↦ record { value = stored; is_new = false; map = m }
]

-- InMemoryIndexRepository::add
unfoldable pub add :
    IndexMetadata → InMemoryIndexRepository → Result (Unit {0}) × InMemoryIndexRepository
unfolding try_emplace
add index repository =
    let emplaced = try_emplace repository.indexes index.uid.value (new_index index) in
    (
      if not emplaced.is_new then err (already_exists index.uid) else ok tt,
      record { indexes = emplaced.map },
    )

-- InMemoryIndexRepository::add_documents; the reference `stored` is written back to its key
unfoldable pub add_documents :
    IndexMetadata
    → List Document
    → InMemoryIndexRepository
    → Result IndexMetadata × InMemoryIndexRepository
unfolding try_emplace
add_documents index_if_missing documents repository =
    let key = index_if_missing.uid.value in
    let emplaced = try_emplace repository.indexes key (new_index index_if_missing) in
    let stored = with_batch documents emplaced.value in
    (ok stored.metadata, record { indexes = Map.put emplaced.map key stored })

-- what the map holds under a uid
unfoldable pub contents : InMemoryIndexRepository → Bytes → Option StoredIndex
contents repository uid = Map.find repository.indexes uid
