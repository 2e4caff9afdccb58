-- ===== src/Application/History/Search.antt =====
-- What a search finds after a run of calls: the positions of the documents sent.
use leta.Prelude.{◌^◌, ◌≤◌, ◌≡◌, refl, ap, ◌∙◌, none, some, List, ◌++◌, arith, Bytes, length}
use leta.Core.ExactMatchIndex.{
  Document, DocId, empty, add_all, document_count, documents_containing, posting_of,
}
use leta.Core.Map.{find-empty}
use leta.Core.ExactMatchIndex.Postings.{positions, IsValid-empty}
use leta.Core.ExactMatchIndex.Refinement.{documents_containing-add_all}
use leta.Core.IndexMetadata.{IndexMetadata}
use leta.Application.IndexRepository.{IndexRepository, StoredIndex, new_index, with_batch}
use leta.Application.History.{Operation, batches, first_metadata, run, contents-run_free}

search_new :
    (documents : List Document) (term : Bytes)
    → length documents ≤ 2 ^ 32
    → documents_containing (add_all documents empty) term ≡ positions 0 documents term
unfolding document_count documents_containing
search_new documents term room =
    documents_containing-add_all documents empty term IsValid-empty (omega arith)
    ∙ ap (λ (ds : List DocId). ds ++ positions 0 documents term) (ap posting_of (find-empty term))

module _ (repository : IndexRepository) where
  open repository use {State, contents}

  -- From a state in which the uid is free, after any calls that name it and send it at most 2^32
  -- documents, the index under it has the metadata of the first call that names it, and answers every
  -- term with the positions of exactly the documents that hold the term, in the order in which they
  -- were sent.
  pub search_after_run :
      (uid : Bytes) (operations : List Operation) (s : State) (index : IndexMetadata)
      → contents s uid ≡ none
      → first_metadata uid operations ≡ some index
      → length (batches uid operations) ≤ 2 ^ 32
      → (stored : StoredIndex) × (contents (run repository operations s) uid ≡ some stored)
        × (stored.metadata ≡ index)
        × ((term : Bytes)
            → documents_containing stored.documents term
              ≡ positions 0 (batches uid operations) term)
  search_after_run uid operations s index free first room = (
    with_batch (batches uid operations) (new_index index),
    contents-run_free repository uid operations s free ∙ rw first,
    refl,
    λ term. search_new (batches uid operations) term room,
  )
