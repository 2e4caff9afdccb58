-- ===== src/Core/ExactMatchIndex/Refinement.antt =====
-- The index against its specification: the list of the documents that hold a term, and the bytes
-- under an id.
use mathlib.Core.Option
use native.Mathlib.Numerals.{add-one}
use leta.Prelude.{
  ℕ, zero, suc, ◌+◌, ◌^◌, ◌≤◌, ◌<◌, ◌≡◌, refl, ap, sym, ◌∙◌, Bool, true, false, some, List, [], ◌∷◌,
  ◌++◌, append-nil, append_assoc, arith, if◌then◌else◌, Bytes, length, get_elem?, All, All-append,
  map, length-append, get_elem?-append_left, get_elem?-append_length, Bool-cases, inl, inr,
}
use leta.Core.ExactMatchIndex.{
  DocId, Document, ExactMatchIndex, empty, to_uint32, add, add_all, document_count,
  documents_containing, source,
}
use leta.Core.ExactMatchIndex.Postings.{
  holds_term, positions, updated, posting-record_texts, push_if_new-if, ends_in-below, All-weaken,
  IsValid,
}

to_uint32_small : (n : ℕ) → n < 2 ^ 32 → to_uint32 n ≡ n
to_uint32_small n h = omega arith

updated-below :
    (n : ℕ) (b : Bool) (ds : List DocId)
    → All (λ d. d < n) ds
    → updated n b ds ≡ (if b then ds ++ n ∷ [] else ds)
updated-below n true ds h = push_if_new-if n ds ∙ rw (ends_in-below n ds h)
updated-below n false ds h = refl

pub document_count-add :
    (document : Document) (index : ExactMatchIndex)
    → document_count (add document index).1 ≡ suc (document_count index)
unfolding add document_count
document_count-add document index = length-append index.sources (document.source ∷ []) ∙ omega arith

source-add_self :
    (document : Document) (index : ExactMatchIndex)
    → source (add document index).1 (document_count index) ≡ some document.source
unfolding add source document_count
source-add_self document index = get_elem?-append_length index.sources document.source []

source-add_older :
    (document : Document) (index : ExactMatchIndex) (d : DocId)
    → d < document_count index
    → source (add document index).1 d ≡ source index d
unfolding add source document_count
source-add_older document index d h = get_elem?-append_left index.sources (document.source ∷ []) d h

module _ (document : Document) (index : ExactMatchIndex) (v : IsValid index)
    (room : document_count index < 2 ^ 32) where
  add_id : (add document index).0 ≡ document_count index
  unfolding add document_count
  add_id = to_uint32_small _ room

  documents_containing-add :
      (term : Bytes)
      → documents_containing (add document index).1 term ≡ (
          if holds_term document term
          then documents_containing index term ++ document_count index ∷ []
          else documents_containing index term)
  unfolding add documents_containing document_count
  documents_containing-add term =
      posting-record_texts document.searchable_text term _ index.postings
      ∙ rw (to_uint32_small _ room) (
          updated-below _ (holds_term document term) (documents_containing index term)
            (v.below_count term))

  pub add-IsValid : IsValid (add document index).1
  add-IsValid = record {
    below_count = λ term.
        rw (documents_containing-add term, document_count-add document index)
          (elim (Bool-cases (holds_term document term)) [
            | inl holds ↦ rw holds (
                All-append _ (documents_containing index term) _
                  (All-weaken _ _ (v.below_count term)) (omega arith, tt))
            | inr lacks ↦ rw lacks (All-weaken _ _ (v.below_count term))
          ]);
  }

  -- `add` on a valid index with fewer than 2^32 documents returns the number of documents so far as
  -- the id, counts one more document, finds the new document's bytes under the id and every older
  -- document's bytes where they were, and appends the id to the posting list of exactly the terms
  -- that the document holds.
  pub add_lem :
      ((add document index).0 ≡ document_count index)
      × (document_count (add document index).1 ≡ suc (document_count index))
      × (source (add document index).1 (add document index).0 ≡ some document.source)
      × ((d : DocId) → d < document_count index → source (add document index).1 d ≡ source index d)
      × ((term : Bytes)
          → documents_containing (add document index).1 term ≡ (
              if holds_term document term
              then documents_containing index term ++ document_count index ∷ []
              else documents_containing index term))
  add_lem = (
    add_id,
    document_count-add document index,
    rw add_id (source-add_self document index),
    source-add_older document index,
    documents_containing-add,
  )

pub document_count-add_all :
    (documents : List Document) (index : ExactMatchIndex)
    → document_count (add_all documents index) ≡ document_count index + length documents
unfolding add_all
document_count-add_all [] index = omega arith
document_count-add_all (d ∷ ds) index =
    omega (arith, document_count-add_all ds (add d index).1, document_count-add d index)

-- A valid index stays valid under a batch that keeps it within 2^32 documents.
pub add_all-IsValid :
    (documents : List Document) (index : ExactMatchIndex)
    → IsValid index
    → document_count index + length documents ≤ 2 ^ 32
    → IsValid (add_all documents index)
unfolding add_all
add_all-IsValid [] index v room = v
add_all-IsValid (d ∷ ds) index v room =
    add_all-IsValid ds (add d index).1 (add-IsValid d index v (omega arith))
      (omega (arith, document_count-add d index))

-- After a batch on a valid index that stays within 2^32 documents, the posting list of every term
-- is the old one followed by the ids of the batch's documents that hold the term, each once, in
-- the order of the batch.
pub documents_containing-add_all :
    (documents : List Document) (index : ExactMatchIndex) (term : Bytes)
    → IsValid index
    → document_count index + length documents ≤ 2 ^ 32
    → documents_containing (add_all documents index) term
      ≡ documents_containing index term ++ positions (document_count index) documents term
unfolding add_all
documents_containing-add_all [] index term v room = sym (append-nil _)
documents_containing-add_all (d ∷ ds) index term v room =
    let smaller : document_count index < 2 ^ 32 = omega arith in
    documents_containing-add_all ds (add d index).1 term (add-IsValid d index v smaller)
      (omega (arith, document_count-add d index))
    ∙ rw (documents_containing-add d index v smaller term, document_count-add d index)
        (elim (Bool-cases (holds_term d term)) [
          | inl holds ↦ rw (holds, add-one) (append_assoc (documents_containing index term) _ _)
          | inr lacks ↦ rw (lacks, add-one)
        ])

sources-add_all :
    (documents : List Document) (index : ExactMatchIndex)
    → (add_all documents index).sources ≡ index.sources ++ map (λ d. d.source) documents
unfolding add_all add
sources-add_all [] index = sym (append-nil _)
sources-add_all (d ∷ ds) index =
    sources-add_all ds (add d index).1 ∙ append_assoc index.sources (d.source ∷ []) _

get_elem?-map_source :
    (documents : List Document) (i : ℕ)
    → get_elem? (map (λ d. d.source) documents) i
      ≡ Option.map (λ d. d.source) (get_elem? documents i)
get_elem?-map_source [] i = refl
get_elem?-map_source (d ∷ ds) zero = refl
get_elem?-map_source (d ∷ ds) (suc i) = get_elem?-map_source ds i

-- After a batch on a new index, `source` gives back the bytes of the document at that position of
-- the batch, and nothing past its end.
source-add_all :
    (documents : List Document) (i : ℕ)
    → source (add_all documents empty) i ≡ Option.map (λ d. d.source) (get_elem? documents i)
unfolding source
source-add_all documents i =
    ap (λ xs. get_elem? xs i) (sources-add_all documents empty) ∙ get_elem?-map_source documents i
