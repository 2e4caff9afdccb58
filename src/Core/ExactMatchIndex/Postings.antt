-- ===== src/Core/ExactMatchIndex/Postings.antt =====
-- What `add` does to the posting list of one term, and the validity of an index.
use leta.Prelude.{
  ℕ, suc, ◌+◌, ◌<◌, ◌≡◌, refl, ap, ◌∙◌, Bool, true, false, ◌||◌, none, some, List, [], ◌∷◌, ◌++◌,
  arith, ◌==◌, if◌then◌else◌, Bytes, All, equal, equal_iff, Bool-cases, inl, inr,
}
use leta.Core.Map
use leta.Core.Map.{Map, find-put, find-empty}
use leta.Core.WhitespaceTokenizer.{split_on_whitespace}
use leta.Core.WhitespaceTokenizer.Words.{words}
use leta.Core.WhitespaceTokenizer.Laws.{split-eq-words}
use leta.Core.ExactMatchIndex.{
  DocId, Document, ExactMatchIndex, empty, back, push_if_new, posting_of, record_term, record_words,
  record_texts, document_count, documents_containing,
}

abbrev pub is_among : List Bytes → Bytes → Bool
is_among [] term = false
is_among (w ∷ ws) term = equal w term || is_among ws term

-- Whether a term is one of the words of some text, by the reference tokenizer.
abbrev pub texts_hold : List Bytes → Bytes → Bool
texts_hold [] term = false
texts_hold (text ∷ texts) term = is_among (words text) term || texts_hold texts term

abbrev pub holds_term : Document → Bytes → Bool
holds_term document = texts_hold document.searchable_text

-- The documents of a batch that hold the term, by their position counted from `i`.
abbrev pub positions : ℕ → List Document → Bytes → List DocId
positions i [] term = []
positions i (document ∷ documents) term =
    let rest = positions (i + 1) documents term in
    if holds_term document term then i ∷ rest else rest

abbrev pub ends_in : DocId → List DocId → Bool
ends_in n ds = elim (back ds) [ none ↦ false | some last ↦ last == n ]

back-append : (n : DocId) (ds : List DocId) → back (ds ++ n ∷ []) ≡ some n
unfolding back
back-append n [] = refl
back-append n (d ∷ []) = refl
back-append n (d ∷ e ∷ ds) = back-append n (e ∷ ds)

pub push_if_new-if :
    (n : DocId) (ds : List DocId) → push_if_new n ds ≡ (if ends_in n ds then ds else ds ++ n ∷ [])
unfolding push_if_new
push_if_new-if n ds = ground arith

push_if_new_idem :
    (n : DocId) (ds : List DocId) → push_if_new n (push_if_new n ds) ≡ push_if_new n ds
unfolding push_if_new
push_if_new_idem n ds = ground (arith, back-append n ds)

-- What recording `n` under some terms, or under none, does to the posting list of one term.
abbrev pub updated : DocId → Bool → List DocId → List DocId
updated n recorded ds = if recorded then push_if_new n ds else ds

updated-updated :
    (n : DocId) (a b : Bool) (ds : List DocId)
    → updated n b (updated n a ds) ≡ updated n (a || b) ds
updated-updated n true true ds = push_if_new_idem n ds
updated-updated n true false ds = refl
updated-updated n false b ds = refl

abbrev pub posting : Map (List DocId) → Bytes → List DocId
posting postings term = posting_of (Map.find postings term)

posting-record_term :
    (w term : Bytes) (n : DocId) (m : Map (List DocId))
    → posting (record_term w n m) term ≡ updated n (equal w term) (posting m term)
unfolding record_term
posting-record_term w term n m = elim (Bool-cases (equal w term)) [
  | inl same ↦
      rw (find-put m w term, same)
        (ap (λ k. push_if_new n (posting m k)) ((equal_iff w term).0 same))
  | inr other ↦ rw (find-put m w term, other)
]

posting-record_words :
    (ws : List Bytes) (term : Bytes) (n : DocId) (m : Map (List DocId))
    → posting (record_words ws n m) term ≡ updated n (is_among ws term) (posting m term)
unfolding record_words
posting-record_words [] term n m = refl
posting-record_words (w ∷ ws) term n m =
    posting-record_words ws term n (record_term w n m)
    ∙ ap (updated n (is_among ws term)) (posting-record_term w term n m)
    ∙ updated-updated n (equal w term) (is_among ws term) (posting m term)

pub posting-record_texts :
    (texts : List Bytes) (term : Bytes) (n : DocId) (m : Map (List DocId))
    → posting (record_texts texts n m) term ≡ updated n (texts_hold texts term) (posting m term)
unfolding record_texts
posting-record_texts [] term n m = refl
posting-record_texts (text ∷ texts) term n m =
    posting-record_texts texts term n (record_words (split_on_whitespace text) n m)
    ∙ ap (updated n (texts_hold texts term)) (
        posting-record_words (split_on_whitespace text) term n m
        ∙ ap (λ ws. updated n (is_among ws term) (posting m term)) (split-eq-words text))
    ∙ updated-updated n (is_among (words text) term) (texts_hold texts term) (posting m term)

-- Every id in a posting list is the id of a stored document.
pub record IsValid (index : ExactMatchIndex) : Type 0 where
  pub below_count :
      (term : Bytes) → All (λ d. d < document_count index) (documents_containing index term)

pub IsValid-empty : IsValid empty
unfolding documents_containing
IsValid-empty = record { below_count = λ term. rw (find-empty term) tt }

pub ends_in-below : (n : ℕ) (ds : List DocId) → All (λ d. d < n) ds → ends_in n ds ≡ false
unfolding back
ends_in-below n [] h = refl
ends_in-below n (d ∷ []) h = ground (arith, h.0)
ends_in-below n (d ∷ e ∷ ds) h = ends_in-below n (e ∷ ds) h.1

pub All-weaken : (n : ℕ) (ds : List DocId) → All (λ d. d < n) ds → All (λ d. d < suc n) ds
All-weaken n [] h = tt
All-weaken n (d ∷ ds) h = (omega (arith, h.0), All-weaken n ds h.1)
