-- ===== src/Application/IngestService.antt =====
-- src/application/ingest_service.hpp and ingest_service.cpp, over any repository that keeps its
-- port's laws. The clock is read once per call: its reading is the argument `now`.
use leta.Prelude.{ℕ, ◌≡◌, Option, none, some, List, Bytes, length, equal, if◌then◌else◌, ap}
use leta.Core.Error.{Result, ok, err}
use leta.Core.IndexUid.{IndexUid}
use leta.Core.ExactMatchIndex.{Document}
use leta.Core.IndexMetadata.{IndexMetadata, Timestamp}
use leta.Application.IndexRepository.{IndexRepository, existing_or, with_batch}

-- struct AddDocumentsCommand
pub record AddDocumentsCommand : Type 0 where
  pub uid : IndexUid
  pub documents : List Document

-- struct AddDocumentsOutcome
pub record AddDocumentsOutcome : Type 0 where
  pub indexed : ℕ
  pub primary_key : Option Bytes

-- index_if_missing: what is stored when no index has the uid
abbrev pub index_if_missing : IndexUid → Timestamp → IndexMetadata
index_if_missing uid now = record {
  uid = uid;
  primary_key = none;
  created_at = now;
  updated_at = now;
}

abbrev pub outcome_or_error : ℕ → Result IndexMetadata → Result AddDocumentsOutcome
outcome_or_error batch_size (ok stored) =
    ok (record { indexed = batch_size; primary_key = stored.primary_key })
outcome_or_error batch_size (err e) = err e

module _ (repository : IndexRepository) where
  open repository use {State, contents, add_documents, add_documents_stores}

  -- IngestService::add_documents
  unfoldable pub ingest :
      AddDocumentsCommand → Timestamp → State → Result AddDocumentsOutcome × State
  ingest command now s =
      let batch_size = length command.documents in
      let (stored, s') = add_documents (index_if_missing command.uid now) command.documents s in
      (outcome_or_error batch_size stored, s')

  -- `IngestService::add_documents` always succeeds: it reports the size of the batch and the primary
  -- key of the index as stored before (none for an index that it creates), appends the batch to that
  -- index, and touches no other uid.
  pub ingest_lem :
      (command : AddDocumentsCommand) (now : Timestamp) (s : State)
      → ((ingest command now s).0
          ≡ ok (record {
            indexed = length command.documents;
            primary_key =
                (existing_or
                  (contents s command.uid.value)
                  (index_if_missing command.uid now)).metadata.primary_key;
          }))
        × ((u : Bytes)
            → contents (ingest command now s).1 u ≡ (
                if equal command.uid.value u
                then some (
                    with_batch command.documents (
                      existing_or
                        (contents s command.uid.value)
                        (index_if_missing command.uid now)))
                else contents s u))
  unfolding ingest
  ingest_lem command now s =
      let (returned, stored) =
        add_documents_stores (index_if_missing command.uid now) command.documents s in
      (ap (outcome_or_error (length command.documents)) returned, stored)
