-- ===== src/Tests/Threads.antt =====
-- Threads over the in-memory repository at concrete programs and schedules: two threads create one uid,
-- and a third sends it a batch.
use leta.Prelude.{
  ℕ, zero, suc, replicate, all_below, ◌^◌, ◌≤◌, ◌≡◌, refl, true, false, none, some, List, [], ◌∷◌,
  ◌++◌, arith, Bytes, codes, length, All,
}
use leta.Core.Error.{err}
use leta.Core.ExactMatchIndex.{documents_containing}
use leta.Core.ExactMatchIndex.Postings.{positions}
use leta.Application.IndexRepository.{StoredIndex, already_exists}
use leta.Application.History.{Operation, create, ingest, batches, first_metadata, run}
use leta.Core.Map.{find, put, empty}
use leta.Storage.{initial, contents, try_emplace}
use leta.Storage.Laws.{in_memory}
use leta.Storage.Threads.{added, execute, answers_to, calls_of}
use leta.Storage.Threads.Settled.{inside}
use leta.Storage.Threads.Atomic.{logged_calls, reached, calls_are_atomic, search_after_threads}
use leta.Storage.Threads.Moves.{is_round, all_rounds}
use leta.Storage.Threads.Progress.{every_call_returns}
use leta.Tests.Data.{books, books_index, two_documents}

abbrev programs : ℕ → List Operation
programs zero = create books_index ∷ []
programs (suc zero) = ingest books_index two_documents ∷ []
programs (suc (suc zero)) = create books_index ∷ []
programs (suc (suc (suc i))) = []

-- Thread 1 takes the mutex; the others wait until it has added both documents.
abbrev schedule : List ℕ
schedule = 1 ∷ 0 ∷ 1 ∷ 2 ∷ 1 ∷ 0 ∷ 1 ∷ 1 ∷ 2 ∷ 0 ∷ 2 ∷ 2 ∷ 0 ∷ 0 ∷ 0 ∷ []

second_create_fails :
    ((reached programs schedule).threads 0).returned ≡ added (err (already_exists books)) ∷ []
unfolding execute try_emplace find put empty
second_create_fails = refl

calls_are_atomic_example :
    ((reached programs schedule).memory.owner ≡ none
      → contents (record { indexes = (reached programs schedule).memory.indexes })
        ≡ contents (run in_memory (logged_calls (reached programs schedule).memory.log) initial))
    × ((i : ℕ)
        → inside ((reached programs schedule).threads i).pc ≡ false
        → ((reached programs schedule).threads i).returned
          ≡ answers_to i (reached programs schedule).memory.log initial)
    × ((i : ℕ)
        → calls_of i (reached programs schedule).memory.log
            ++ ((reached programs schedule).threads i).todo
          ≡ programs i)
calls_are_atomic_example = calls_are_atomic programs schedule

-- The mutex is free when the batch is in and both creates have been refused.
at_rest : (reached programs schedule).memory.owner ≡ none
unfolding execute
at_rest = refl

log_is :
    logged_calls (reached programs schedule).memory.log
    ≡ ingest books_index two_documents ∷ create books_index ∷ create books_index ∷ []
unfolding execute
log_is = refl

first_is_books :
    first_metadata
      (codes "books")
      (ingest books_index two_documents ∷ create books_index ∷ create books_index ∷ [])
    ≡ some books_index
unfolding first_metadata
first_is_books = refl

room :
    length (
      batches
        (codes "books")
        (ingest books_index two_documents ∷ create books_index ∷ create books_index ∷ []))
    ≤ 2 ^ 32
unfolding batches
room = omega arith

search_after_threads_example :
    (stored : StoredIndex) × (contents
        (record { indexes = (reached programs schedule).memory.indexes })
        (codes "books")
      ≡ some stored)
    × (stored.metadata ≡ books_index)
    × ((term : Bytes)
        → documents_containing stored.documents term
          ≡ positions 0
              (batches (codes "books") (logged_calls (reached programs schedule).memory.log))
              term)
search_after_threads_example =
    search_after_threads programs schedule (codes "books") books_index at_rest
      (rw log_is first_is_books) (rw log_is room)

few_programs : (j : ℕ) → 3 ≤ j → programs j ≡ []
few_programs zero h = absurd (omega arith)
few_programs (suc zero) h = absurd (omega arith)
few_programs (suc (suc zero)) h = absurd (omega arith)
few_programs (suc (suc (suc j))) h = refl

abbrev pub round : List ℕ
round = 2 ∷ 0 ∷ 1 ∷ 0 ∷ []

pub All-fair : (k : ℕ) → All (λ r. is_round 3 r ≡ true) (replicate k round)
unfolding all_below
All-fair zero = tt
All-fair (suc k) = (refl, All-fair k)

every_call_returns_example :
    let s = reached programs (all_rounds (replicate 11 round)) in
    ((i : ℕ)
      → (calls_of i s.memory.log ≡ programs i)
        × ((s.threads i).returned ≡ answers_to i s.memory.log initial))
    × (contents (record { indexes = s.memory.indexes })
        ≡ contents (run in_memory (logged_calls s.memory.log) initial))
every_call_returns_example =
    every_call_returns 3 programs (replicate 11 round) few_programs (All-fair 11) (omega arith)
