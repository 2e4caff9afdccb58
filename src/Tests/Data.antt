-- ===== src/Tests/Data.antt =====
-- The inputs that the examples share: two laptops, an index and calls on it.
use leta.Prelude.{none, some, List, [], ◌∷◌, codes, pos}
use leta.Core.IndexUid.{IndexUid}
use leta.Core.ExactMatchIndex.{Document}
use leta.Core.IndexMetadata.{IndexMetadata, Timestamp}
use leta.Application.History.{Operation, create, ingest}

abbrev pub books : IndexUid
books = record { value = codes "books" }

abbrev pub noon : Timestamp
noon = pos 1760000000123

abbrev pub books_index : IndexMetadata
books_index = record {
  uid = books;
  primary_key = some (codes "id");
  created_at = noon;
  updated_at = noon;
}

abbrev pub other_index : IndexMetadata
other_index = record {
  uid = record { value = codes "films" };
  primary_key = none;
  created_at = noon;
  updated_at = noon;
}

abbrev pub dune : Document
dune = record { source = codes "{\"t\":\"dune dune\"}"; searchable_text = codes "dune dune" ∷ [] }

abbrev pub emma : Document
emma = record {
  source = codes "{\"t\":\"emma\"}";
  searchable_text = codes "emma" ∷ codes "of dune" ∷ [];
}

abbrev pub two_documents : List Document
two_documents = dune ∷ emma ∷ []

-- Two creates of one uid, a batch for another uid, and two batches.
abbrev pub calls : List Operation
calls =
    create books_index
    ∷ ingest other_index (emma ∷ [])
    ∷ ingest books_index (dune ∷ [])
    ∷ create books_index
    ∷ ingest books_index (emma ∷ [])
    ∷ []
