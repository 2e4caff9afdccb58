-- ===== src/Core/ExactMatchIndex.antt =====
-- src/core/doc_id.hpp, document.hpp, exact_match_index.hpp and exact_match_index.cpp: the documents
-- of one index and the map from a term to the documents that contain it.
pub mod Postings
pub mod Refinement
use leta.Prelude.{
  ℕ, ◌%◌, ◌^◌, Bool, true, false, Option, none, some, List, [], ◌∷◌, ◌++◌, ◌==◌, if◌then◌else◌,
  Bytes, length, get_elem?,
}
use leta.Core.Map
use leta.Core.Map.{Map}
use leta.Core.WhitespaceTokenizer.{split_on_whitespace}

-- enum class DocId : std::uint32_t
abbrev pub DocId : Type 0
DocId = ℕ

-- struct Document
pub record Document : Type 0 where
  pub source : Bytes
  pub searchable_text : List Bytes

pub record ExactMatchIndex : Type 0 where
  pub sources : List Bytes
  pub postings : Map (List DocId)

abbrev pub empty : ExactMatchIndex
empty = record { sources = []; postings = Map.empty }

-- static_cast<std::uint32_t>
abbrev pub to_uint32 : ℕ → ℕ
to_uint32 n = n % 2 ^ 32

-- documents.back(), `none` on an empty vector
unfoldable pub back : List DocId → Option DocId
back [] = none
back (d ∷ []) = some d
back (d ∷ e ∷ ds) = back (e ∷ ds)

-- if (documents.empty() || documents.back() != document_id) documents.push_back(document_id);
unfoldable pub push_if_new : DocId → List DocId → List DocId
push_if_new document_id documents = elim (back documents) [
  | none ↦ documents ++ document_id ∷ []
  | some last ↦ if last == document_id then documents else documents ++ document_id ∷ []
]

-- postings_[term], which is an empty vector for a new term
abbrev pub posting_of : Option (List DocId) → List DocId
posting_of none = []
posting_of (some documents) = documents

-- ExactMatchIndex::record
unfoldable pub record_term : Bytes → DocId → Map (List DocId) → Map (List DocId)
record_term term document_id postings =
    Map.put postings term (push_if_new document_id (posting_of (Map.find postings term)))

-- the inner loop of `add`, over the words of one text
unfoldable pub record_words : List Bytes → DocId → Map (List DocId) → Map (List DocId)
record_words [] document_id postings = postings
record_words (word ∷ words) document_id postings =
    record_words words document_id (record_term word document_id postings)

-- the outer loop of `add`, over the searchable texts
unfoldable pub record_texts : List Bytes → DocId → Map (List DocId) → Map (List DocId)
record_texts [] document_id postings = postings
record_texts (text ∷ texts) document_id postings =
    record_texts texts document_id (record_words (split_on_whitespace text) document_id postings)

-- ExactMatchIndex::add: the id that it returns, and the index after it
unfoldable pub add : Document → ExactMatchIndex → DocId × ExactMatchIndex
add document index =
    let document_id = to_uint32 (length index.sources) in
    (
      document_id,
      record {
        sources = index.sources ++ document.source ∷ [];
        postings = record_texts document.searchable_text document_id index.postings;
      },
    )

-- for (core::Document& document : documents) stored.documents.add(std::move(document));
unfoldable pub add_all : List Document → ExactMatchIndex → ExactMatchIndex
add_all [] index = index
add_all (document ∷ documents) index = add_all documents (add document index).1

unfoldable pub document_count : ExactMatchIndex → ℕ
document_count index = length index.sources

-- ExactMatchIndex::documents_containing
unfoldable pub documents_containing : ExactMatchIndex → Bytes → List DocId
documents_containing index term = posting_of (Map.find index.postings term)

-- ExactMatchIndex::source; `none` where `at` throws
unfoldable pub source : ExactMatchIndex → DocId → Option Bytes
source index document_id = get_elem? index.sources document_id
