-- ===== src/Application/IndexRepository.antt =====
-- src/application/index_repository.hpp: the port behind which indexes live, as operations on an
-- abstract state and the laws that its comments promise. The text of the one error is that of the
-- implementation (src/adapters/storage).
use leta.Prelude.{◌≡◌, Option, none, some, List, Bytes, ◌++◌, codes, equal, if◌then◌else◌}
use leta.Core.Error.{Error, Result, ok, err, index_already_exists}
use leta.Core.IndexUid.{IndexUid}
use leta.Core.ExactMatchIndex.{Document, ExactMatchIndex, empty, add_all}
use leta.Core.IndexMetadata.{IndexMetadata}

-- An index and its documents together.
pub record StoredIndex : Type 0 where
  pub metadata : IndexMetadata
  pub documents : ExactMatchIndex

-- A new index holds no document.
abbrev pub new_index : IndexMetadata → StoredIndex
new_index metadata = record { metadata = metadata; documents = empty }

-- The index that a batch goes to: the one under the uid, or a new one when there is none.
abbrev pub existing_or : Option StoredIndex → IndexMetadata → StoredIndex
existing_or none index_if_missing = new_index index_if_missing
existing_or (some stored) index_if_missing = stored

abbrev pub with_batch : List Document → StoredIndex → StoredIndex
with_batch documents stored = record stored { documents = add_all documents stored.documents }

-- already_exists_message
unfoldable pub already_exists_message : IndexUid → Bytes
already_exists_message uid = codes "Index `" ++ (uid.value ++ codes "` already exists.")

abbrev pub already_exists : IndexUid → Error
already_exists uid = record { code = index_already_exists; message = already_exists_message uid }

-- class IndexRepository. `contents` is what a state holds under a uid; each operation is one atomic
-- step from a state to a result and the next state.
pub record IndexRepository : Type 1 where
  pub State : Type 0
  pub contents : State → Bytes → Option StoredIndex
  pub add : IndexMetadata → State → Result (Unit {0}) × State
  pub add_documents : IndexMetadata → List Document → State → Result IndexMetadata × State
  -- the uid is free: the index is stored under it, and no other uid is touched
  pub add_free :
      (index : IndexMetadata) (s : State)
      → contents s index.uid.value ≡ none
      → ((add index s).0 ≡ ok tt)
        × ((u : Bytes)
            → contents (add index s).1 u
              ≡ (if equal index.uid.value u then some (new_index index) else contents s u))
  -- the uid is taken: IndexAlreadyExists, and nothing is stored
  pub add_taken :
      (index : IndexMetadata) (s : State) (stored : StoredIndex)
      → contents s index.uid.value ≡ some stored
      → ((add index s).0 ≡ err (already_exists index.uid))
        × ((u : Bytes) → contents (add index s).1 u ≡ contents s u)
  -- the batch goes to the index under the uid, a new one when there is none
  pub add_documents_stores :
      (index_if_missing : IndexMetadata) (documents : List Document) (s : State)
      → ((add_documents index_if_missing documents s).0
          ≡ ok (existing_or (contents s index_if_missing.uid.value) index_if_missing).metadata)
        × ((u : Bytes)
            → contents (add_documents index_if_missing documents s).1 u ≡ (
                if equal index_if_missing.uid.value u
                then some (
                    with_batch documents
                      (existing_or (contents s index_if_missing.uid.value) index_if_missing))
                else contents s u))
