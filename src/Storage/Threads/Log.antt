-- ===== src/Storage/Threads/Log.antt =====
-- The reference sequences with one call more.
use leta.Prelude.{ℕ, ◌≡◌, refl, ap, List, [], ◌∷◌, ◌++◌, ◌==◌, if◌then◌else◌, Bool-cases, inl, inr}
use leta.Application.History.{Operation}
use leta.Storage.{InMemoryIndexRepository}
use leta.Storage.Threads.{call, after_calls, answers_to, calls_of}

module _ (entry : ℕ × Operation) where
  pub after_calls-append :
      (log : List (ℕ × Operation)) (s : InMemoryIndexRepository)
      → after_calls (log ++ entry ∷ []) s ≡ (call entry.1 (after_calls log s)).1
  unfolding after_calls
  after_calls-append [] s = refl
  after_calls-append (x ∷ log) s = after_calls-append log (call x.1 s).1

  pub answers_to-append :
      (i : ℕ) (log : List (ℕ × Operation)) (s : InMemoryIndexRepository)
      → answers_to i (log ++ entry ∷ []) s
        ≡ answers_to i log s
          ++ (if entry.0 == i then (call entry.1 (after_calls log s)).0 ∷ [] else [])
  unfolding answers_to after_calls
  answers_to-append i [] s = refl
  answers_to-append i (x ∷ log) s = elim (Bool-cases (x.0 == i)) [
    | inl own ↦ rw own (ap (◌∷◌ (call x.1 s).0) (answers_to-append i log (call x.1 s).1))
    | inr other ↦ rw other (answers_to-append i log (call x.1 s).1)
  ]

  pub calls_of-append :
      (i : ℕ) (log : List (ℕ × Operation))
      → calls_of i (log ++ entry ∷ [])
        ≡ calls_of i log ++ (if entry.0 == i then entry.1 ∷ [] else [])
  unfolding calls_of
  calls_of-append i [] = refl
  calls_of-append i (x ∷ log) = elim (Bool-cases (x.0 == i)) [
    | inl own ↦ rw own (ap (◌∷◌ x.1) (calls_of-append i log))
    | inr other ↦ rw other (calls_of-append i log)
  ]
