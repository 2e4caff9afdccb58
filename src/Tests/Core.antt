-- ===== src/Tests/Core.antt =====
-- The core at concrete texts and documents.
use leta.Prelude.{◌+◌, ◌^◌, ◌≤◌, ◌<◌, ◌≡◌, ◌⊎◌, ◌++◌, arith, codes, length, All}
use leta.Core.Error.{ok, err}
use leta.Core.IndexUid.{IsUid, parse, uid_error, parse_decides}
use leta.Core.WhitespaceTokenizer.{split_on_whitespace}
use leta.Core.WhitespaceTokenizer.Words.{words, IsWord, without_whitespace, concat}
use leta.Core.WhitespaceTokenizer.Laws.{split-eq-words, split_partitions}
use leta.Core.ExactMatchIndex.{empty, add_all, document_count, documents_containing}
use leta.Core.ExactMatchIndex.Postings.{IsValid, IsValid-empty, positions}
use leta.Core.ExactMatchIndex.Refinement.{add_all-IsValid, documents_containing-add_all}
use leta.Tests.Data.{two_documents}

room_for_one : document_count empty < 2 ^ 32
unfolding document_count
room_for_one = omega arith

room_for_two : document_count empty + length two_documents ≤ 2 ^ 32
unfolding document_count
room_for_two = omega arith

add_all-IsValid_example : IsValid (add_all two_documents empty)
add_all-IsValid_example = add_all-IsValid two_documents empty IsValid-empty room_for_two

documents_containing-add_all_example :
    documents_containing (add_all two_documents empty) (codes "dune")
    ≡ documents_containing empty (codes "dune")
      ++ positions (document_count empty) two_documents (codes "dune")
documents_containing-add_all_example =
    documents_containing-add_all two_documents empty (codes "dune") IsValid-empty room_for_two

split-eq-words_example :
    split_on_whitespace (codes " war and\tpeace ") ≡ words (codes " war and\tpeace ")
split-eq-words_example = split-eq-words (codes " war and\tpeace ")

split_partitions_example :
    All IsWord (split_on_whitespace (codes " war and\tpeace "))
    × (concat (split_on_whitespace (codes " war and\tpeace "))
        ≡ without_whitespace (codes " war and\tpeace "))
split_partitions_example = split_partitions (codes " war and\tpeace ")

parse_decides_example :
    (IsUid (codes "books-2") × (parse (codes "books-2") ≡ ok (record { value = codes "books-2" })))
    ⊎ ((¬ IsUid (codes "books-2")) × (parse (codes "books-2") ≡ err uid_error))
parse_decides_example = parse_decides (codes "books-2")
