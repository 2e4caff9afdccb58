-- ===== src/Application/IndexService.antt =====
-- src/application/index_service.hpp and index_service.cpp, over any repository that keeps its port's
-- laws. The clock is read once per call: its reading is the argument `now`.
use leta.Prelude.{◌≡◌, Option, none, some, Bytes, equal, if◌then◌else◌, ap}
use leta.Core.Error.{Result, ok, err}
use leta.Core.IndexUid.{IndexUid}
use leta.Core.IndexMetadata.{IndexMetadata, Timestamp}
use leta.Application.IndexRepository.{IndexRepository, StoredIndex, new_index, already_exists}

-- struct CreateIndexCommand
pub record CreateIndexCommand : Type 0 where
  pub uid : IndexUid
  pub primary_key : Option Bytes

-- the metadata that create_index builds from one reading of the clock
abbrev pub created : CreateIndexCommand → Timestamp → IndexMetadata
created command now = record {
  uid = command.uid;
  primary_key = command.primary_key;
  created_at = now;
  updated_at = now;
}

abbrev pub index_or_error : IndexMetadata → Result (Unit {0}) → Result IndexMetadata
index_or_error index (ok _) = ok index
index_or_error index (err e) = err e

module _ (repository : IndexRepository) where
  open repository use {State, contents, add, add_free, add_taken}

  -- IndexService::create_index
  unfoldable pub create_index :
      CreateIndexCommand → Timestamp → State → Result IndexMetadata × State
  create_index command now s =
      let index = created command now in
      let (added, s') = add index s in (index_or_error index added, s')

  -- With the uid free, `create_index` returns the index that it stores, both timestamps the one
  -- reading of the clock and no document in it, and touches no other uid.
  pub create_index_free :
      (command : CreateIndexCommand) (now : Timestamp) (s : State)
      → contents s command.uid.value ≡ none
      → ((create_index command now s).0 ≡ ok (created command now))
        × ((u : Bytes)
            → contents (create_index command now s).1 u ≡ (
                if equal command.uid.value u
                then some (new_index (created command now))
                else contents s u))
  unfolding create_index
  create_index_free command now s free =
      let (added, stored) = add_free (created command now) s free in
      (ap (index_or_error (created command now)) added, stored)

  -- With the uid taken, `create_index` fails with IndexAlreadyExists, naming the uid, and every uid
  -- holds what it held.
  pub create_index_taken :
      (command : CreateIndexCommand) (now : Timestamp) (s : State) (stored : StoredIndex)
      → contents s command.uid.value ≡ some stored
      → ((create_index command now s).0 ≡ err (already_exists command.uid))
        × ((u : Bytes) → contents (create_index command now s).1 u ≡ contents s u)
  unfolding create_index
  create_index_taken command now s stored taken =
      let (added, kept) = add_taken (created command now) s stored taken in
      (ap (index_or_error (created command now)) added, kept)
