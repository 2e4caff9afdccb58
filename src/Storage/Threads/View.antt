-- ===== src/Storage/Threads/View.antt =====
-- The map as a function from uids, and what a whole call, or the rest of a call, makes of it.
use mathlib.Core.Path.{fun_ext}
use mathlib.Core.Bool.{true≢false}
use leta.Prelude.{
  ◌≡◌, refl, ap, sym, ◌∙◌, Bool, true, false, not, Option, none, some, List, [], ◌∷◌, ◌++◌,
  if◌then◌else◌, Bytes, equal, equal_iff, equal_refl, Bool-cases, Option-cases, inl, inr,
}
use leta.Core.Error.{ok, err}
use leta.Core.Map.{Map, find, find-put}
use leta.Core.ExactMatchIndex.{Document, add_all}
use leta.Core.IndexMetadata.{IndexMetadata}
use leta.Application.IndexRepository.{
  StoredIndex, new_index, existing_or, with_batch, already_exists,
}
use leta.Application.History.{Operation, create, ingest, with_batch-append}
use leta.Storage.{InMemoryIndexRepository, try_emplace, contents}
use leta.Storage.Laws.{add_free, add_taken, add_documents_stores}
use leta.Storage.Threads.{Returned, added, ingested, fill, call}

abbrev pub View : Type 0
View = Bytes → Option StoredIndex

abbrev pub is_vacant : Option StoredIndex → Bool
is_vacant none = true
is_vacant (some stored) = false

abbrev pub existing : IndexMetadata → View → StoredIndex
existing index v = existing_or (v index.uid.value) index

-- A batch, appended to the index under its uid.
abbrev pub extended : IndexMetadata → List Document → View → View
extended index documents v u =
    if equal index.uid.value u then some (with_batch documents (existing index v)) else v u

abbrev pub apply_view : Operation → View → View
apply_view (create index) = extended index []
apply_view (ingest index documents) = extended index documents

abbrev pub answer_view : Operation → View → Returned
answer_view (create index) v =
    added (if not (is_vacant (v index.uid.value)) then err (already_exists index.uid) else ok tt)
answer_view (ingest index documents) v = ingested (ok (existing index v).metadata)

-- An index that is there already is as it was with no document more.
pub extended-nil :
    (index : IndexMetadata) (v : View)
    → is_vacant (v index.uid.value) ≡ false
    → extended index [] v ≡ v
unfolding add_all
extended-nil index v there = fun_ext λ u. elim (Option-cases (v index.uid.value)) [
  | inl vacant ↦ absurd (true≢false (rw vacant at there))
  | inr (stored, found) ↦ elim (Bool-cases (equal index.uid.value u)) [
    | inr other ↦ rw other refl
    | inl same ↦ rw (same, found) (sym found ∙ ap v ((equal_iff index.uid.value u).0 same))
  ]
]

module _ (index : IndexMetadata) (documents : List Document) (v : View) where
  existing-extended :
      existing index (extended index documents v) ≡ with_batch documents (existing index v)
  existing-extended = rw (equal_refl index.uid.value) refl

  -- A batch changes no metadata, and its index is there afterwards.
  pub metadata-extended :
      {w : View}
      → w ≡ extended index documents v
      → (existing index w).metadata ≡ (existing index v).metadata
  metadata-extended e =
      ap (λ w. (existing index w).metadata) e ∙ ap (λ i. i.metadata) existing-extended

  pub is_vacant-extended :
      {w : View} → w ≡ extended index documents v → is_vacant (w index.uid.value) ≡ false
  is_vacant-extended e =
      ap (λ w. is_vacant (w index.uid.value)) e ∙ rw (equal_refl index.uid.value) refl

  pub extended-extended :
      {w : View} (more : List Document)
      → w ≡ extended index documents v
      → extended index more w ≡ extended index (documents ++ more) v
  extended-extended more e =
      ap (extended index more) e
      ∙ fun_ext λ u. elim (Bool-cases (equal index.uid.value u)) [
        | inl same ↦ rw same (
            ap some (
              ap (with_batch more) existing-extended
              ∙ with_batch-append documents more (existing index v)))
        | inr other ↦ rw other refl
      ]

-- A whole call of the repository, on the view.
pub call-view :
    (operation : Operation) (s : InMemoryIndexRepository)
    → ((call operation s).0 ≡ answer_view operation (contents s))
      × (contents (call operation s).1 ≡ apply_view operation (contents s))
unfolding add_all
call-view (create index) s = elim (Option-cases (contents s index.uid.value)) [
  | inl free ↦
      let (answer, kept) = add_free index s free in
      (ap added (rw free answer), fun_ext λ u. rw free (kept u))
  | inr (stored, taken) ↦
      let (answer, kept) = add_taken index s stored taken in
      (
        ap added (rw taken answer),
        fun_ext kept ∙ sym (extended-nil index (contents s) (rw taken refl)),
      )
]
call-view (ingest index documents) s =
    let (answer, kept) = add_documents_stores index documents s in
    (ap ingested answer, fun_ext kept)

-- What try_emplace leaves, and what it says.
pub try_emplace-view :
    (index : IndexMetadata) (m : Map StoredIndex)
    → (find (try_emplace m index.uid.value (new_index index)).map ≡ extended index [] (find m))
      × ((try_emplace m index.uid.value (new_index index)).is_new
          ≡ is_vacant (find m index.uid.value))
unfolding try_emplace add_all
try_emplace-view index m = elim (Option-cases (find m index.uid.value)) [
  | inl free ↦ (
    fun_ext λ u. rw (free, try_emplace) (find-put m index.uid.value u (new_index index)),
    rw (free, try_emplace) refl,
  )
  | inr (stored, taken) ↦ (
    rw (taken, try_emplace) (sym (extended-nil index (find m) (rw taken refl))),
    rw (taken, try_emplace) refl,
  )
]

pub fill-view :
    (index : IndexMetadata) (document : Document) (m : Map StoredIndex)
    → find (fill index document m) ≡ extended index (document ∷ []) (find m)
fill-view index document m = fun_ext λ u. find-put m index.uid.value u _
