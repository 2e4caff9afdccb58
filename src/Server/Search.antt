-- ===== src/Server/Search.antt =====
-- What a sequence of requests to the server leaves to be found, and under which names.
use mathlib.Core.Option
use leta.Prelude.{
  ◌^◌, ◌≤◌, ◌≡◌, ap, sym, ◌∙◌, not, none, some, List, [], ◌∷◌, Bytes, codes, length, All,
  All-append, Bool-cases, Option-cases, inl, inr, equal, equal_iff,
}
use leta.Core.Error.{Result, Result-cases}
use leta.Core.IndexUid as Uid
use leta.Core.IndexUid.{IsUid, IsUid-of_parse}
use leta.Core.IndexMetadata.{Timestamp, IndexMetadata}
use leta.Core.ExactMatchIndex.{Document, documents_containing}
use leta.Core.ExactMatchIndex.Postings.{positions}
use leta.Application.HttpServer.{HttpMethod, get, post, Readings}
use leta.Application.IndexRepository.{IndexRepository, StoredIndex, new_index, with_batch}
use leta.Application.Services.{Services}
use leta.Application.History.{
  Operation, metadata_of, targets, batches, first_metadata, contents-run_free,
}
use leta.Application.History.Search.{search_after_run}
use leta.Http.Simdjson.{Simdjson}
use leta.Http.Httplib.{Httplib}
use leta.Http.ContentType.{is_json_content_type}
use leta.Http.IndexRoutes.{parse_create_index_request}
use leta.Http.IndexRoutes.Accepts.{parse_create_index_request_iff}
use leta.Http.HttplibServer.{content_type_header}
use leta.Http.HttplibServer.Dispatch.{Dispatcher, Exchange}
use leta.Server.{documents_pattern, after}
use leta.Server.Runs.{creating, ingesting, batch_operations, operations_of, operations, after_run}

abbrev HasUid : Operation → Type 0
HasUid operation = IsUid (metadata_of operation).uid.value

first_metadata-HasUid :
    (uid : Bytes) (calls : List Operation) (index : IndexMetadata)
    → All HasUid calls
    → first_metadata uid calls ≡ some index
    → IsUid uid × (index.uid.value ≡ uid)
unfolding first_metadata
first_metadata-HasUid uid [] index h found = cc
first_metadata-HasUid uid (call ∷ calls) index h found = elim (Bool-cases (targets call uid)) [
  | inr other ↦ first_metadata-HasUid uid calls index h.1 (rw other at found)
  | inl same ↦
      let named : (metadata_of call).uid.value ≡ uid = (equal_iff _ uid).0 same in
      let first : metadata_of call ≡ index = some_injective (rw same at found) in
      (rw⁻¹ named h.0, ap (λ (i : IndexMetadata). i.uid.value) (sym first) ∙ named)
]
  where
    some_injective : {a b : IndexMetadata} → some a ≡ some b → a ≡ b
    some_injective e = cc

module _ (json : Simdjson) (repository : IndexRepository) (library : Httplib)
    (dispatcher : Dispatcher library) where
  open repository use {contents}
  open library use {path, request_body, request_header}
  open dispatcher use {matches}

  creating-HasUid :
      (body : Bytes) (now : Timestamp)
      → All HasUid (creating (parse_create_index_request json body) now)
  creating-HasUid body now = elim (Result-cases (parse_create_index_request json body)) [
    | inr (e, failed) ↦ rw failed tt
    | inl (command, parsed) ↦
        rw parsed (((parse_create_index_request_iff json body command).0 parsed).valid_uid, tt)
  ]

  ingesting-HasUid :
      (uid : Bytes) (batch : Result (List Document)) (now : Timestamp)
      → All HasUid (ingesting (Uid.parse uid) batch now)
  ingesting-HasUid uid batch now = elim (Result-cases (Uid.parse uid)) [
    | inr (e, failed) ↦ rw failed tt
    | inl (index_uid, accepted) ↦ elim (Result-cases batch) [
      | inr (e, failed) ↦ rw (accepted, failed) tt
      | inl (documents, parsed) ↦ rw (accepted, parsed) ((IsUid-of_parse uid accepted).0, tt)
    ]
  ]

  operations_of-HasUid :
      (readings : Readings) (method : HttpMethod) (request : Httplib.Request library)
      → All HasUid (operations_of json repository library dispatcher readings method request)
  unfolding operations_of batch_operations
  operations_of-HasUid readings get request = tt
  operations_of-HasUid readings post request =
      elim (Bool-cases (not (is_json_content_type (request_header request content_type_header)))) [
        | inl other ↦ rw other tt
        | inr is_json ↦ rw is_json (elim (Bool-cases (equal (codes "/indexes") (path request))) [
          | inl here ↦ rw here (creating-HasUid (request_body request) readings.now)
          | inr elsewhere ↦
              rw elsewhere (elim (Option-cases (matches documents_pattern (path request))) [
                | inl missed ↦ rw missed tt
                | inr (params, matched) ↦ rw matched (ingesting-HasUid _ _ readings.now)
              ])
        ])
      ]

  operations-HasUid :
      (exchanges : List (Exchange library))
      → All HasUid (operations json repository library dispatcher exchanges)
  unfolding operations
  operations-HasUid [] = tt
  operations-HasUid (e ∷ rest) =
      All-append HasUid
        (operations_of json repository library dispatcher e.readings e.method e.request) _
        (operations_of-HasUid e.readings e.method e.request) (operations-HasUid rest)

  -- Whatever requests arrive, every index that they create is stored under a uid of FR-01: the one in
  -- its metadata.
  pub stored-IsUid :
      (exchanges : List (Exchange library)) (s : Services repository) (uid : Bytes)
      (stored : StoredIndex)
      → contents s.indexes uid ≡ none
      → contents (after json repository library dispatcher exchanges s).indexes uid ≡ some stored
      → IsUid uid × (stored.metadata.uid.value ≡ uid)
  stored-IsUid exchanges s uid stored free holds =
      let calls = operations json repository library dispatcher exchanges in
      let held : Option.map (λ index. with_batch (batches uid calls) (new_index index))
            (first_metadata uid calls)
          ≡ some stored =
        sym (contents-run_free repository uid calls s.indexes free)
        ∙ ap (λ (t : Services repository). contents t.indexes uid)
            (sym (after_run json repository library dispatcher exchanges s))
        ∙ holds in
      elim (Option-cases (first_metadata uid calls)) [
        | inl none_named ↦ absurd (none-ne-some (rw none_named at held))
        | inr (index, first) ↦
            let (valid, named) =
              first_metadata-HasUid uid calls index (operations-HasUid exchanges) first in
            (
              valid,
              ap (λ (i : StoredIndex). i.metadata.uid.value)
                    (sym (some_injective (rw first at held)))
                  ∙ named,
            )
      ]
    where
      none-ne-some : none ≡ some stored → ⊥
      none-ne-some e = cc

      some_injective : {a b : StoredIndex} → some a ≡ some b → a ≡ b
      some_injective e = cc

  -- From a state in which a uid is free, whatever requests the server answers: if an accepted request
  -- names the uid, and the accepted batches for it hold at most 2^32 documents, then the index under
  -- it has the metadata of the first such request, and answers every term with the positions of
  -- exactly the documents, of all accepted batches for it in order, that hold the term.
  pub search_after_requests :
      (exchanges : List (Exchange library)) (s : Services repository) (uid : Bytes)
      (index : IndexMetadata)
      → contents s.indexes uid ≡ none
      → first_metadata uid (operations json repository library dispatcher exchanges) ≡ some index
      → length (batches uid (operations json repository library dispatcher exchanges)) ≤ 2 ^ 32
      → (stored : StoredIndex) × (contents
            (after json repository library dispatcher exchanges s).indexes
            uid
          ≡ some stored)
        × (stored.metadata ≡ index)
        × ((term : Bytes)
            → documents_containing stored.documents term
              ≡ positions 0
                  (batches uid (operations json repository library dispatcher exchanges))
                  term)
  search_after_requests exchanges s uid index free first room =
      let calls = operations json repository library dispatcher exchanges in
      let (stored, found, is_index, finds) =
        search_after_run repository uid calls s.indexes index free first room in
      (
        stored,
        ap (λ (t : Services repository). contents t.indexes uid)
              (after_run json repository library dispatcher exchanges s)
            ∙ found,
        is_index,
        finds,
      )
