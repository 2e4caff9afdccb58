-- ===== src/Storage/Threads.antt =====
-- src/adapters/storage/in_memory_index_repository.cpp, statement by statement: threads that call `add`
-- and `add_documents` at the same time, each call split at its accesses to the mutex and to the map.
-- A schedule says which thread takes the next turn; a thread that waits for the mutex spends its turn.
pub mod Log
pub mod View
pub mod Settled
pub mod Invariant
pub mod Kept
pub mod Atomic
pub mod Work
pub mod Moves
pub mod Progress
use leta.Prelude.{
  ℕ, ◌≡◌, Bool, true, false, not, Option, none, some, List, [], ◌∷◌, ◌++◌, ◌==◌, if◌then◌else◌,
  Bytes,
}
use leta.Core.Error.{Result, ok, err}
use leta.Core.Map
use leta.Core.Map.{Map}
use leta.Core.ExactMatchIndex.{Document}
use leta.Core.IndexMetadata.{IndexMetadata}
use leta.Application.IndexRepository.{
  StoredIndex, new_index, existing_or, with_batch, already_exists,
}
use leta.Application.History.{Operation, create, ingest}
use leta.Storage.{InMemoryIndexRepository, try_emplace, add, add_documents}

-- What a call returns.
pub data Returned : Type 0 where
  added : Result (Unit {0}) → Returned
  ingested : Result IndexMetadata → Returned

-- Where a thread stands: between calls; holding the mutex before try_emplace; in `add`, with what
-- try_emplace said; in the loop of `add_documents`, with the documents that are left.
pub data Pc : Type 0 where
  idle : Pc
  entered : Operation → Pc
  emplaced : IndexMetadata → Bool → Pc
  filling : IndexMetadata → List Document → Pc

-- A thread: where it stands, the calls that it has still to make, and what its calls returned.
pub record Thread : Type 0 where
  pub pc : Pc
  pub todo : List Operation
  pub returned : List Returned

-- mutex_, by the thread that holds it, and indexes_; and, for the theorems alone, the calls in the
-- order in which they took the mutex, each with its thread
pub record Memory : Type 0 where
  pub owner : Option ℕ
  pub indexes : Map StoredIndex
  pub log : List (ℕ × Operation)

pub record System : Type 0 where
  pub memory : Memory
  pub threads : ℕ → Thread

abbrev pub is_free : Option ℕ → Bool
is_free none = true
is_free (some i) = false

-- stored.documents.add(document), through the reference that try_emplace returned
abbrev pub fill : IndexMetadata → Document → Map StoredIndex → Map StoredIndex
fill index document indexes =
    let stored = existing_or (Map.find indexes index.uid.value) index in
    Map.put indexes index.uid.value (with_batch (document ∷ []) stored)

-- the first statement under the mutex
abbrev pub emplace : Operation → Memory → Memory × Pc
emplace (create index) m =
    let result = try_emplace m.indexes index.uid.value (new_index index) in
    (record m { indexes = result.map }, emplaced index result.is_new)
emplace (ingest index documents) m =
    let result = try_emplace m.indexes index.uid.value (new_index index) in
    (record m { indexes = result.map }, filling index documents)

-- One turn of thread i, if it can move: std::scoped_lock, a statement, or the return, which gives
-- the mutex back.
unfoldable pub turn : ℕ → Memory → Pc → List Operation → List Returned → Option (Memory × Thread)
turn i m idle [] returned = none
turn i m idle (call ∷ todo) returned =
    if is_free m.owner
    then some (
      record m { owner = some i; log = m.log ++ (i, call) ∷ [] },
      record { pc = entered call; todo = todo; returned = returned },
    )
    else none
turn i m (entered call) todo returned =
    let (m', pc) = emplace call m in some (m', record { pc = pc; todo = todo; returned = returned })
turn i m (emplaced index is_new) todo returned = some (
  record m { owner = none },
  record {
    pc = idle;
    todo = todo;
    returned =
        returned ++ added (if not is_new then err (already_exists index.uid) else ok tt) ∷ [];
  },
)
turn i m (filling index (document ∷ rest)) todo returned = some (
  record m { indexes = fill index document m.indexes },
  record { pc = filling index rest; todo = todo; returned = returned },
)
turn i m (filling index []) todo returned = some (
  record m { owner = none },
  record {
    pc = idle;
    todo = todo;
    returned =
        returned
        ++ ingested (ok (existing_or (Map.find m.indexes index.uid.value) index).metadata) ∷ [];
  },
)

abbrev pub update {ℓ} : {A : Type ℓ} → (ℕ → A) → ℕ → A → ℕ → A
update f i a j = if i == j then a else f j

abbrev pub moved : System → ℕ → Option (Memory × Thread) → System
moved s i none = s
moved s i (some (memory, thread)) = record { memory = memory; threads = update s.threads i thread }

unfoldable pub step : ℕ → System → System
unfolding turn
step i s =
    let thread = s.threads i in moved s i (turn i s.memory thread.pc thread.todo thread.returned)

-- the turns of a schedule, in order
unfoldable pub execute : List ℕ → System → System
unfolding step
execute [] s = s
execute (i ∷ rest) s = execute rest (step i s)

-- Threads that have made no call yet, over an empty repository.
abbrev pub start : (ℕ → List Operation) → System
start programs = record {
  memory = record { owner = none; indexes = Map.empty; log = [] };
  threads = λ i. record { pc = idle; todo = programs i; returned = [] };
}

-- The reference: whole calls, one after the other.
abbrev pub call : Operation → InMemoryIndexRepository → Returned × InMemoryIndexRepository
call (create index) s = let (result, s') = add index s in (added result, s')
call (ingest index documents) s =
    let (result, s') = add_documents index documents s in (ingested result, s')

-- The repository after such a sequence of calls.
unfoldable pub after_calls :
    List (ℕ × Operation) → InMemoryIndexRepository → InMemoryIndexRepository
after_calls [] s = s
after_calls (entry ∷ rest) s = after_calls rest (call entry.1 s).1

-- What one thread's calls return in such a sequence, and which calls they are.
unfoldable pub answers_to : ℕ → List (ℕ × Operation) → InMemoryIndexRepository → List Returned
answers_to i [] s = []
answers_to i (entry ∷ rest) s =
    let later = answers_to i rest (call entry.1 s).1 in
    if entry.0 == i then (call entry.1 s).0 ∷ later else later

unfoldable pub calls_of : ℕ → List (ℕ × Operation) → List Operation
calls_of i [] = []
calls_of i (entry ∷ rest) =
    let later = calls_of i rest in if entry.0 == i then entry.1 ∷ later else later
