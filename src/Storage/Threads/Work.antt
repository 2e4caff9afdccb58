-- ===== src/Storage/Threads/Work.antt =====
-- The turns that the threads have still to take, and which threads can take one.
use mathlib.Core.Bool.{true≢false}
use leta.Prelude.{
  ℕ, zero, suc, ◌+◌, ◌≤◌, ◌<◌, ◌≡◌, inl, inr, refl, ap, sym, Bool, true, false, Option, none, some,
  List, [], ◌∷◌, ◌==◌, ==_iff, arith, ltb, ltb→lt, Bool-cases,
}
use leta.Core.ExactMatchIndex.{Document}
use leta.Application.History.{Operation, create, ingest}
use leta.Storage.Threads.{
  Returned, Pc, idle, entered, emplaced, filling, Thread, Memory, is_free, turn, update,
}
use leta.Storage.Threads.Settled.{inside}

-- The turns that a thread needs.
abbrev documents_work : List Document → ℕ
documents_work [] = 0
documents_work (d ∷ ds) = suc (documents_work ds)

abbrev pub pc_work : Pc → ℕ
pc_work idle = 0
pc_work (entered (create index)) = 2
pc_work (entered (ingest index documents)) = 2 + documents_work documents
pc_work (emplaced index is_new) = 1
pc_work (filling index rest) = 1 + documents_work rest

abbrev pub todo_work : List Operation → ℕ
todo_work [] = 0
todo_work (call ∷ rest) = suc (pc_work (entered call)) + todo_work rest

abbrev pub work : Thread → ℕ
work t = pc_work t.pc + todo_work t.todo

abbrev pub total : ℕ → (ℕ → Thread) → ℕ
total zero threads = 0
total (suc n) threads = work (threads n) + total n threads

total-update_above :
    (n : ℕ) (threads : ℕ → Thread) (i : ℕ) (t : Thread)
    → n ≤ i
    → total n (update threads i t) ≡ total n threads
total-update_above zero threads i t h = refl
total-update_above (suc n) threads i t h = ground (arith, total-update_above n threads i t)

pub total-update :
    (n : ℕ) (threads : ℕ → Thread) (i : ℕ) (t : Thread)
    → i < n
    → total n (update threads i t) + work (threads i) ≡ total n threads + work t
total-update zero threads i t h = absurd (omega arith)
total-update (suc n) threads i t h = elim (Bool-cases (ltb i n)) [
  | inl below ↦
      let other : (i == n) ≡ false = ground arith in
      rw other (omega (arith, total-update n threads i t (ltb→lt i n below)))
  | inr above ↦
      let last : (i == n) ≡ true = ground arith in
      rw last (
        omega (
          arith,
          total-update_above n threads i t (least above),
          ap (λ j. work (threads j)) ((==_iff i n).0 last),
        ))
]
  where
    least : ltb i n ≡ false → n ≤ i
    least above = ground arith

-- A turn that a thread does not spend waiting is one of those that it needs.
abbrev pub Cheaper : ℕ → Option (Memory × Thread) → Type 0
Cheaper before none = Unit
Cheaper before (some (m', t')) = suc (work t') ≡ before

pub turn-Cheaper :
    (i : ℕ) (m : Memory) (pc : Pc) (todo : List Operation) (returned : List Returned)
    → Cheaper (pc_work pc + todo_work todo) (turn i m pc todo returned)
unfolding turn
turn-Cheaper i m idle [] returned = tt
turn-Cheaper i m idle (call ∷ todo) returned = elim (Bool-cases (is_free m.owner)) [
  | inl free ↦ rw free (omega arith)
  | inr busy ↦ rw busy tt
]
turn-Cheaper i m (entered (create index)) todo returned = omega arith
turn-Cheaper i m (entered (ingest index documents)) todo returned = omega arith
turn-Cheaper i m (emplaced index is_new) todo returned = omega arith
turn-Cheaper i m (filling index (document ∷ rest)) todo returned = omega arith
turn-Cheaper i m (filling index []) todo returned = omega arith

-- A thread that has made all its calls has no turn to take; every other one that the mutex does not
-- stop has.
pub resting :
    (i : ℕ) (m : Memory) (pc : Pc) (todo : List Operation) (returned : List Returned)
    → pc ≡ idle
    → todo ≡ []
    → turn i m pc todo returned ≡ none
unfolding turn
resting i m pc todo returned at_rest no_call = rw (at_rest, no_call) refl

abbrev pub is_some {ℓ} : {A : Type ℓ} → Option A → Bool
is_some none = false
is_some (some a) = true

pub under_mutex :
    (i : ℕ) (m : Memory) (pc : Pc) (todo : List Operation) (returned : List Returned)
    → inside pc ≡ true
    → is_some (turn i m pc todo returned) ≡ true
unfolding turn
under_mutex i m idle todo returned h = absurd (true≢false (sym h))
under_mutex i m (entered call) todo returned h = refl
under_mutex i m (emplaced index is_new) todo returned h = refl
under_mutex i m (filling index (document ∷ rest)) todo returned h = refl
under_mutex i m (filling index []) todo returned h = refl

pub next_in :
    (i : ℕ) (m : Memory) (pc : Pc) (todo : List Operation) (returned : List Returned)
    → is_free m.owner ≡ true
    → 0 < pc_work pc + todo_work todo
    → is_some (turn i m pc todo returned) ≡ true
unfolding turn
next_in i m idle [] returned free h = absurd (omega arith)
next_in i m idle (call ∷ todo) returned free h = rw free refl
next_in i m (entered call) todo returned free h = refl
next_in i m (emplaced index is_new) todo returned free h = refl
next_in i m (filling index (document ∷ rest)) todo returned free h = refl
next_in i m (filling index []) todo returned free h = refl

pub total_positive :
    (n : ℕ) (threads : ℕ → Thread)
    → 0 < total n threads
    → (j : ℕ) × (j < n) × (0 < work (threads j))
total_positive zero threads h = absurd (omega arith)
total_positive (suc n) threads h = elim (Bool-cases (work (threads n) == 0)) [
  | inl none_left ↦
      let (j, below, positive) =
        total_positive n threads (omega (arith, (==_iff (work (threads n)) 0).0 none_left)) in
      (j, omega (arith, below), positive)
  | inr left ↦ (n, omega arith, ground (arith, left))
]

pub total_zero :
    (n : ℕ) (threads : ℕ → Thread) (j : ℕ) → total n threads ≡ 0 → j < n → work (threads j) ≡ 0
total_zero zero threads j h small = absurd (omega arith)
total_zero (suc n) threads j h small = elim (Bool-cases (ltb j n)) [
  | inl below ↦ total_zero n threads j (omega arith) (ltb→lt j n below)
  | inr last ↦ let same : n ≡ j = ground arith in omega (arith, ap (λ k. work (threads k)) same)
]

pub no_work :
    (pc : Pc) (todo : List Operation)
    → pc_work pc + todo_work todo ≡ 0
    → (inside pc ≡ false) × (todo ≡ [])
no_work idle [] h = (refl, refl)
no_work idle (call ∷ todo) h = absurd (omega arith)
no_work (entered (create index)) todo h = absurd (omega arith)
no_work (entered (ingest index documents)) todo h = absurd (omega arith)
no_work (emplaced index is_new) todo h = absurd (omega arith)
no_work (filling index rest) todo h = absurd (omega arith)
