-- ===== src/Storage/Laws.antt =====
-- The laws of the port, for the in-memory repository.
use leta.Prelude.{◌≡◌, none, some, List, Bytes, equal, if◌then◌else◌, inl, inr, Option-cases}
use leta.Core.Error.{ok, err}
use leta.Core.Map.{find-put, find-put_twice}
use leta.Core.ExactMatchIndex.{Document}
use leta.Core.IndexMetadata.{IndexMetadata}
use leta.Application.IndexRepository.{
  IndexRepository, StoredIndex, new_index, existing_or, with_batch, already_exists,
}
use leta.Storage.{InMemoryIndexRepository, try_emplace, add, add_documents, contents}

module _ (index : IndexMetadata) (s : InMemoryIndexRepository) where
  -- With the uid free, `add` succeeds and stores the index with no document, and no other uid changes.
  pub add_free :
      contents s index.uid.value ≡ none
      → ((add index s).0 ≡ ok tt)
        × ((u : Bytes)
            → contents (add index s).1 u
              ≡ (if equal index.uid.value u then some (new_index index) else contents s u))
  unfolding add contents
  add_free free = (
    rw (free, try_emplace),
    λ u. rw (free, try_emplace) (find-put s.indexes index.uid.value u (new_index index)),
  )

  -- With the uid taken, `add` fails with IndexAlreadyExists, naming the uid, and no uid changes.
  pub add_taken :
      (stored : StoredIndex)
      → contents s index.uid.value ≡ some stored
      → ((add index s).0 ≡ err (already_exists index.uid))
        × ((u : Bytes) → contents (add index s).1 u ≡ contents s u)
  unfolding add contents
  add_taken stored taken = (rw (taken, try_emplace), λ u. rw (taken, try_emplace))

module _ (index_if_missing : IndexMetadata) (documents : List Document)
    (s : InMemoryIndexRepository) where
  -- `add_documents` appends the batch, in order, to the index under the uid, first storing the given
  -- one when the uid is free, returns the metadata as stored, and no other uid changes.
  pub add_documents_stores :
      ((add_documents index_if_missing documents s).0
        ≡ ok (existing_or (contents s index_if_missing.uid.value) index_if_missing).metadata)
      × ((u : Bytes)
          → contents (add_documents index_if_missing documents s).1 u ≡ (
              if equal index_if_missing.uid.value u
              then some (
                  with_batch documents
                    (existing_or (contents s index_if_missing.uid.value) index_if_missing))
              else contents s u))
  unfolding add_documents contents
  add_documents_stores = elim (Option-cases (contents s index_if_missing.uid.value)) [
    | inl free ↦ (
      rw (free, try_emplace),
      λ u. rw (free, try_emplace) (find-put_twice s.indexes index_if_missing.uid.value u _ _),
    )
    | inr (stored, taken) ↦ (
      rw (taken, try_emplace),
      λ u. rw (taken, try_emplace) (find-put s.indexes index_if_missing.uid.value u _),
    )
  ]

-- The implementation behind the port.
abbrev pub in_memory : IndexRepository
in_memory = record {
  State = InMemoryIndexRepository;
  contents = contents;
  add = add;
  add_documents = add_documents;
  add_free = add_free;
  add_taken = add_taken;
  add_documents_stores = add_documents_stores;
}
