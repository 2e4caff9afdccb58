-- ===== src/Application/History.antt =====
-- What any number of concurrent callers do to one repository (src/application/index_repository.hpp):
-- each call is one atomic step, so a run is a sequence of steps, in the order in which they take the
-- lock. The theorems hold for every repository that keeps its port's laws.
pub mod Search
use mathlib.Core.Bool.{false≢true}
use mathlib.Core.Option
use leta.Prelude.{
  ℕ, ◌+◌, ◌^◌, ◌≤◌, ◌≡◌, refl, ap, sym, ◌∙◌, Bool, true, false, ◌&&◌, Option, none, some, List, [],
  ◌∷◌, ◌++◌, arith, if◌then◌else◌, Bytes, equal, equal_iff, length, Bool-cases, Option-cases, inl,
  inr,
}
use leta.Core.Error.{Result, ok, err}
use leta.Core.ExactMatchIndex as Index
use leta.Core.ExactMatchIndex.{
  Document, DocId, ExactMatchIndex, empty, add_all, document_count, documents_containing,
  posting_of,
}
use leta.Core.Map.{find-empty}
use leta.Core.ExactMatchIndex.Postings.{positions, IsValid-empty}
use leta.Core.ExactMatchIndex.Refinement.{documents_containing-add_all}
use leta.Core.IndexMetadata.{IndexMetadata}
use leta.Application.IndexRepository.{IndexRepository, StoredIndex, new_index, with_batch}

-- One call of the port.
pub data Operation : Type 0 where
  create : IndexMetadata → Operation
  ingest : IndexMetadata → List Document → Operation

abbrev pub metadata_of : Operation → IndexMetadata
metadata_of (create index) = index
metadata_of (ingest index documents) = index

abbrev pub documents_of : Operation → List Document
documents_of (create index) = []
documents_of (ingest index documents) = documents

abbrev pub targets : Operation → Bytes → Bool
targets operation uid = equal (metadata_of operation).uid.value uid

-- The documents that a sequence of calls sends to one uid, in order.
unfoldable pub batches : Bytes → List Operation → List Document
batches uid [] = []
batches uid (operation ∷ rest) =
    (if targets operation uid then documents_of operation else []) ++ batches uid rest

-- The metadata of the first call for one uid.
unfoldable pub first_metadata : Bytes → List Operation → Option IndexMetadata
first_metadata uid [] = none
first_metadata uid (operation ∷ rest) =
    if targets operation uid then some (metadata_of operation) else first_metadata uid rest

abbrev pub is_ok {ℓ} : {A : Type ℓ} → Result A → Bool
is_ok (ok a) = true
is_ok (err e) = false

add_all-append :
    (xs ys : List Document) (index : ExactMatchIndex)
    → add_all ys (add_all xs index) ≡ add_all (xs ++ ys) index
unfolding add_all
add_all-append [] ys index = refl
add_all-append (x ∷ xs) ys index = add_all-append xs ys (Index.add x index).1

pub with_batch-append :
    (xs ys : List Document) (stored : StoredIndex)
    → with_batch ys (with_batch xs stored) ≡ with_batch (xs ++ ys) stored
with_batch-append xs ys stored =
    ap (λ documents. record stored { documents = documents })
      (add_all-append xs ys stored.documents)

module _ (repository : IndexRepository) where
  open repository use {
    State, contents, add, add_documents, add_free, add_taken, add_documents_stores,
  }

  unfoldable pub apply : Operation → State → State
  apply (create index) s = (add index s).1
  apply (ingest index documents) s = (add_documents index documents s).1

  unfoldable pub run : List Operation → State → State
  unfolding apply
  run [] s = s
  run (operation ∷ rest) s = run rest (apply operation s)

  -- Whether a call is a successful create of the uid.
  unfoldable pub creates : Bytes → Operation → State → Bool
  creates uid (create index) s = equal index.uid.value uid && is_ok (add index s).0
  creates uid (ingest index documents) s = false

  -- How many calls of a sequence are successful creates of the uid.
  unfoldable pub successes : Bytes → List Operation → State → ℕ
  unfolding creates
  successes uid [] s = 0
  successes uid (operation ∷ rest) s =
      (if creates uid operation s then 1 else 0) + successes uid rest (apply operation s)

  apply_other :
      (uid : Bytes) (operation : Operation) (s : State)
      → targets operation uid ≡ false
      → contents (apply operation s) uid ≡ contents s uid
  unfolding apply
  apply_other uid (create index) s other = elim (Option-cases (contents s index.uid.value)) [
    | inl free ↦ (add_free index s free).1 uid ∙ rw other
    | inr (stored, taken) ↦ (add_taken index s stored taken).1 uid
  ]
  apply_other uid (ingest index documents) s other =
      (add_documents_stores index documents s).1 uid ∙ rw other

  apply_free :
      (uid : Bytes) (operation : Operation) (s : State)
      → targets operation uid ≡ true
      → contents s uid ≡ none
      → contents (apply operation s) uid
        ≡ some (with_batch (documents_of operation) (new_index (metadata_of operation)))
  unfolding apply add_all
  apply_free uid (create index) s same free =
      (add_free index s (rw ((equal_iff _ uid).0 same) free)).1 uid ∙ rw same
  apply_free uid (ingest index documents) s same free =
      (add_documents_stores index documents s).1 uid ∙ rw (same, (equal_iff _ uid).0 same, free)

  apply_taken :
      (uid : Bytes) (operation : Operation) (s : State) (stored : StoredIndex)
      → targets operation uid ≡ true
      → contents s uid ≡ some stored
      → contents (apply operation s) uid ≡ some (with_batch (documents_of operation) stored)
  unfolding apply add_all
  apply_taken uid (create index) s stored same taken =
      (add_taken index s stored (rw ((equal_iff _ uid).0 same) taken)).1 uid ∙ taken
  apply_taken uid (ingest index documents) s stored same taken =
      (add_documents_stores index documents s).1 uid ∙ rw (same, (equal_iff _ uid).0 same, taken)

  -- An index, once stored, keeps its metadata whatever is called, and its documents become exactly
  -- the old ones followed by the batches sent to it, in the order of the calls.
  pub contents-run_taken :
      (uid : Bytes) (operations : List Operation) (s : State) (stored : StoredIndex)
      → contents s uid ≡ some stored
      → contents (run operations s) uid ≡ some (with_batch (batches uid operations) stored)
  unfolding run batches add_all
  contents-run_taken uid [] s stored taken = taken
  contents-run_taken uid (operation ∷ rest) s stored taken =
      elim (Bool-cases (targets operation uid)) [
        | inl same ↦
            contents-run_taken uid rest (apply operation s) _
              (apply_taken uid operation s stored same taken)
            ∙ rw same
                (ap some (with_batch-append (documents_of operation) (batches uid rest) stored))
        | inr other ↦
            contents-run_taken uid rest (apply operation s) stored
              (apply_other uid operation s other ∙ taken)
            ∙ rw other
      ]

  -- From a state in which the uid is free: after any calls it holds nothing if no call named it, and
  -- otherwise the metadata of the first such call, with all batches sent to it in order.
  pub contents-run_free :
      (uid : Bytes) (operations : List Operation) (s : State)
      → contents s uid ≡ none
      → contents (run operations s) uid
        ≡ Option.map
            (λ index. with_batch (batches uid operations) (new_index index))
            (first_metadata uid operations)
  unfolding run batches first_metadata
  contents-run_free uid [] s free = free
  contents-run_free uid (operation ∷ rest) s free = elim (Bool-cases (targets operation uid)) [
    | inl same ↦
        contents-run_taken uid rest (apply operation s) _ (apply_free uid operation s same free)
        ∙ rw same (ap some (with_batch-append (documents_of operation) (batches uid rest) _))
    | inr other ↦
        contents-run_free uid rest (apply operation s) (apply_other uid operation s other ∙ free)
        ∙ rw other
  ]

  creates_taken :
      (uid : Bytes) (operation : Operation) (s : State) (stored : StoredIndex)
      → contents s uid ≡ some stored
      → creates uid operation s ≡ false
  unfolding creates
  creates_taken uid (create index) s stored taken = elim (Bool-cases (equal index.uid.value uid)) [
    | inl same ↦ rw (same, (add_taken index s stored (rw ((equal_iff _ uid).0 same) taken)).0)
    | inr other ↦ rw other
  ]
  creates_taken uid (ingest index documents) s stored taken = refl

  stays_taken :
      (uid : Bytes) (operation : Operation) (s : State) (stored : StoredIndex)
      → contents s uid ≡ some stored
      → (after : StoredIndex) × (contents (apply operation s) uid ≡ some after)
  stays_taken uid operation s stored taken = elim (Bool-cases (targets operation uid)) [
    | inl same ↦ (_, apply_taken uid operation s stored same taken)
    | inr other ↦ (stored, apply_other uid operation s other ∙ taken)
  ]

  successes_taken :
      (uid : Bytes) (operations : List Operation) (s : State) (stored : StoredIndex)
      → contents s uid ≡ some stored
      → successes uid operations s ≡ 0
  unfolding successes
  successes_taken uid [] s stored taken = refl
  successes_taken uid (operation ∷ rest) s stored taken =
      let (after, still) = stays_taken uid operation s stored taken in
      rw (creates_taken uid operation s stored taken)
        (omega (arith, successes_taken uid rest (apply operation s) after still))

  creates-targets :
      (uid : Bytes) (operation : Operation) (s : State)
      → creates uid operation s ≡ true
      → targets operation uid ≡ true
  unfolding creates
  creates-targets uid (create index) s h = ground arith
  creates-targets uid (ingest index documents) s h = cc

  at_most_one :
      (uid : Bytes) (operations : List Operation) (s : State) → successes uid operations s ≤ 1
  unfolding successes
  at_most_one uid [] s = omega arith
  at_most_one uid (operation ∷ rest) s = elim (Bool-cases (creates uid operation s)) [
    | inr no_create ↦ rw no_create (omega (arith, at_most_one uid rest (apply operation s)))
    | inl creating ↦ elim (Option-cases (contents s uid)) [
      | inr (stored, taken) ↦
          absurd (false≢true (sym (creates_taken uid operation s stored taken) ∙ creating))
      | inl free ↦
          let now = apply_free uid operation s (creates-targets uid operation s creating) free in
          rw creating (omega (arith, successes_taken uid rest (apply operation s) _ now))
    ]
  ]

  -- However the calls of all callers interleave, and from whatever state, at most one create of a
  -- uid succeeds, and none does where the uid is taken.
  pub creates_once :
      (uid : Bytes) (operations : List Operation) (s : State)
      → (successes uid operations s ≤ 1)
        × ((stored : StoredIndex) → contents s uid ≡ some stored → successes uid operations s ≡ 0)
  creates_once uid operations s = (at_most_one uid operations s, successes_taken uid operations s)
