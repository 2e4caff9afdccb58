-- ===== src/Storage/Threads/Settled.antt =====
-- src/adapters/storage/in_memory_index_repository.cpp: the map and the answer once a thread under the
-- mutex has finished.
use mathlib.Core.Bool.{true≢false}
use leta.Prelude.{
  ℕ, ◌≡◌, refl, ap, Bool, true, false, not, Option, none, some, List, [], ◌∷◌, ◌++◌, if◌then◌else◌,
  Bool-cases, inl, inr,
}
use leta.Core.Error.{ok, err}
use leta.Core.Map.{find}
use leta.Application.IndexRepository.{already_exists}
use leta.Application.History.{Operation, create, ingest}
use leta.Storage.Threads.{
  Returned, added, ingested, Pc, idle, entered, emplaced, filling, Thread, Memory, is_free, turn,
}
use leta.Storage.Threads.View.{
  View, is_vacant, existing, extended, apply_view, answer_view, extended-nil, extended-extended,
  metadata-extended, is_vacant-extended, try_emplace-view, fill-view,
}

-- Holding the mutex.
abbrev pub inside : Pc → Bool
inside idle = false
inside _ = true

abbrev pub settle : Pc → View → View
settle idle v = v
settle (entered call) v = apply_view call v
settle (emplaced index is_new) v = v
settle (filling index rest) v = extended index rest v

abbrev pub pending : Pc → View → List Returned
pending idle v = []
pending (entered call) v = answer_view call v ∷ []
pending (emplaced index is_new) v =
    added (if not is_new then err (already_exists index.uid) else ok tt) ∷ []
pending (filling index rest) v = ingested (ok (existing index v).metadata) ∷ []

-- The index that a loop fills stays in the map.
abbrev pub Present : Pc → View → Type 0
Present (filling index rest) v = is_vacant (v index.uid.value) ≡ false
Present _ v = Unit

pub outside-Present : (pc : Pc) (v : View) → inside pc ≡ false → Present pc v
outside-Present idle v h = tt
outside-Present (entered call) v h = tt
outside-Present (emplaced index is_new) v h = tt
outside-Present (filling index rest) v h = absurd (true≢false h)

pub outside_pending : (pc : Pc) (v : View) → inside pc ≡ false → pending pc v ≡ []
outside_pending idle v h = refl
outside_pending (entered call) v h = absurd (true≢false h)
outside_pending (emplaced index is_new) v h = absurd (true≢false h)
outside_pending (filling index rest) v h = absurd (true≢false h)

module _ (i : ℕ) (m : Memory) (pc : Pc) (todo : List Operation) (returned : List Returned) where
  -- What a turn of a thread is: it takes the mutex for its next call; or it works under the mutex,
  -- and what will be is unchanged; or it returns, and what will be is what is.
  pub data Turned (m' : Memory) (t' : Thread) : Type 0 where
    acquires :
        (call : Operation) (rest : List Operation)
        → pc ≡ idle
        → todo ≡ call ∷ rest
        → is_free m.owner ≡ true
        → m' ≡ record m { owner = some i; log = m.log ++ (i, call) ∷ [] }
        → t' ≡ record { pc = entered call; todo = rest; returned = returned }
        → Turned m' t'
    works :
        inside pc ≡ true
        → inside t'.pc ≡ true
        → m'.owner ≡ m.owner
        → m'.log ≡ m.log
        → t'.todo ≡ todo
        → t'.returned ≡ returned
        → settle t'.pc (find m'.indexes) ≡ settle pc (find m.indexes)
        → pending t'.pc (find m'.indexes) ≡ pending pc (find m.indexes)
        → Present t'.pc (find m'.indexes)
        → Turned m' t'
    returns :
        inside pc ≡ true
        → m' ≡ record m { owner = none }
        → t' ≡ record { pc = idle; todo = todo; returned = returned ++ pending pc (find m.indexes) }
        → settle pc (find m.indexes) ≡ find m.indexes
        → Turned m' t'

  abbrev pub Sound : Option (Memory × Thread) → Type 0
  Sound none = Unit
  Sound (some (m', t')) = Turned m' t'

pub turn-Turned :
    (i : ℕ) (m : Memory) (pc : Pc) (todo : List Operation) (returned : List Returned)
    → Present pc (find m.indexes)
    → Sound i m pc todo returned (turn i m pc todo returned)
unfolding turn
turn-Turned i m idle [] returned h = tt
turn-Turned i m idle (call ∷ todo) returned h = elim (Bool-cases (is_free m.owner)) [
  | inl free ↦ rw free (acquires call todo refl refl free refl refl)
  | inr busy ↦ rw busy tt
]
turn-Turned i m (entered (create index)) todo returned h =
    let (mapped, says) = try_emplace-view index m.indexes in
    works refl refl refl refl refl refl mapped
      (ap (λ (b : Bool). added (if not b then err (already_exists index.uid) else ok tt) ∷ []) says)
      tt
turn-Turned i m (entered (ingest index documents)) todo returned h =
    let (mapped, says) = try_emplace-view index m.indexes in
    works refl refl refl refl refl refl
      (extended-extended index [] (find m.indexes) documents mapped)
      (ap (λ metadata. ingested (ok metadata) ∷ [])
        (metadata-extended index [] (find m.indexes) mapped))
      (is_vacant-extended index [] (find m.indexes) mapped)
turn-Turned i m (emplaced index is_new) todo returned h = returns refl refl refl refl
turn-Turned i m (filling index (document ∷ rest)) todo returned h =
    let filled = fill-view index document m.indexes in
    works refl refl refl refl refl refl
      (extended-extended index (document ∷ []) (find m.indexes) rest filled)
      (ap (λ metadata. ingested (ok metadata) ∷ [])
        (metadata-extended index (document ∷ []) (find m.indexes) filled))
      (is_vacant-extended index (document ∷ []) (find m.indexes) filled)
turn-Turned i m (filling index []) todo returned h =
    returns refl refl refl (extended-nil index (find m.indexes) h)
