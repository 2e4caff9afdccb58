-- ===== src/Storage/Threads/Atomic.antt =====
-- src/adapters/storage/in_memory_index_repository.cpp: what all schedules of Storage/Threads have in
-- common.
use mathlib.Core.Bool.{true≢false}
use leta.Prelude.{
  ℕ, ◌^◌, ◌≤◌, ◌≡◌, refl, ap, sym, ◌∙◌, true, false, none, some, List, [], ◌∷◌, ◌++◌, append-nil,
  map, Bytes, length,
}
use leta.Core.Map.{find-empty}
use leta.Core.ExactMatchIndex.{documents_containing}
use leta.Core.ExactMatchIndex.Postings.{positions}
use leta.Core.IndexMetadata.{IndexMetadata}
use leta.Application.IndexRepository.{StoredIndex}
use leta.Application.History.{Operation, create, ingest, batches, first_metadata, apply, run}
use leta.Application.History.Search.{search_after_run}
use leta.Storage.{InMemoryIndexRepository, initial, contents}
use leta.Storage.Laws.{in_memory}
use leta.Storage.Threads.{System, step, execute, start, after_calls, answers_to, calls_of}
use leta.Storage.Threads.Settled.{inside, outside_pending}
use leta.Storage.Threads.Invariant.{Inv, some_injective, none≢some}
use leta.Storage.Threads.Kept.{step-Inv}

-- The calls in the order in which they took the mutex.
abbrev pub logged_calls : List (ℕ × Operation) → List Operation
logged_calls log = map (λ entry. entry.1) log

pub after_calls-run :
    (log : List (ℕ × Operation)) (s : InMemoryIndexRepository)
    → after_calls log s ≡ run in_memory (logged_calls log) s
unfolding after_calls run apply
after_calls-run [] s = refl
after_calls-run ((i, create index) ∷ log) s = after_calls-run log _
after_calls-run ((i, ingest index documents) ∷ log) s = after_calls-run log _

module _ (programs : ℕ → List Operation) where
  pub start-Inv : Inv programs (start programs)
  unfolding after_calls answers_to calls_of contents
  start-Inv = record {
    each = λ j. record {
      held = λ e. absurd (true≢false (sym e));
      holder = λ e. absurd (none≢some e);
      there = tt;
      settled = λ e. absurd (none≢some e);
      answered = refl;
      ordered = refl;
    };
    at_rest = λ free. refl;
  }

  pub execute-Inv :
      (schedule : List ℕ) (s : System) → Inv programs s → Inv programs (execute schedule s)
  unfolding execute
  execute-Inv [] s inv = inv
  execute-Inv (i ∷ rest) s inv = execute-Inv rest (step i s) (step-Inv programs s inv i)

  module _ (schedule : List ℕ) where
    abbrev pub reached : System
    reached = execute schedule (start programs)

    reached-Inv : Inv programs reached
    reached-Inv = execute-Inv schedule (start programs) start-Inv

    -- However the threads' turns interleave, two threads are never both under the mutex.
    mutual_exclusion :
        (i j : ℕ)
        → inside (reached.threads i).pc ≡ true
        → inside (reached.threads j).pc ≡ true
        → i ≡ j
    mutual_exclusion i j i_in j_in =
        some_injective (sym ((reached-Inv.each i).held i_in) ∙ (reached-Inv.each j).held j_in)

    -- However the threads' turns interleave, the calls act as if each were made whole, in the order in
    -- which they took the mutex: while no thread holds it, the map holds what those calls make of the
    -- empty repository; a thread that is between calls has been returned what its calls return in
    -- that sequence; and each thread's calls stand in the sequence in the order of its program.
    pub calls_are_atomic :
        (reached.memory.owner ≡ none
          → contents (record { indexes = reached.memory.indexes })
            ≡ contents (run in_memory (logged_calls reached.memory.log) initial))
        × ((i : ℕ)
            → inside (reached.threads i).pc ≡ false
            → (reached.threads i).returned ≡ answers_to i reached.memory.log initial)
        × ((i : ℕ) → calls_of i reached.memory.log ++ (reached.threads i).todo ≡ programs i)
    unfolding contents
    calls_are_atomic = (
      λ free. reached-Inv.at_rest free ∙ ap contents (after_calls-run reached.memory.log initial),
      λ i outside.
          sym (append-nil (reached.threads i).returned)
          ∙ ap (◌++◌ (reached.threads i).returned)
              (sym (outside_pending (reached.threads i).pc _ outside))
          ∙ (reached-Inv.each i).answered,
      λ i. (reached-Inv.each i).ordered,
    )

    -- However the threads' turns interleave, once the mutex is free: if some call that took it names a
    -- uid, and the batches sent to the uid by those calls hold at most 2^32 documents, then the index
    -- under it has the metadata of the first such call, and answers every term with the positions of
    -- exactly the documents, of all those batches in that order, that hold the term.
    pub search_after_threads :
        (uid : Bytes) (index : IndexMetadata)
        → reached.memory.owner ≡ none
        → first_metadata uid (logged_calls reached.memory.log) ≡ some index
        → length (batches uid (logged_calls reached.memory.log)) ≤ 2 ^ 32
        → (stored : StoredIndex) × (contents (record { indexes = reached.memory.indexes }) uid
            ≡ some stored)
          × (stored.metadata ≡ index)
          × ((term : Bytes)
              → documents_containing stored.documents term
                ≡ positions 0 (batches uid (logged_calls reached.memory.log)) term)
    unfolding contents
    search_after_threads uid index free first room =
        let (stored, found, is_index, finds) =
          search_after_run in_memory uid (logged_calls reached.memory.log) initial index
            (find-empty uid) first room in
        (stored, ap (λ v. v uid) (calls_are_atomic.0 free) ∙ found, is_index, finds)
