-- ===== src/Storage/Threads/Invariant.antt =====
-- src/adapters/storage/in_memory_index_repository.cpp: the state between two turns.
use mathlib.Core.Bool.{true≢false}
use leta.Prelude.{
  ℕ, ◌≡◌, ap, sym, ◌∙◌, true, false, none, some, List, ◌++◌, ◌==◌, ==_iff, Bool-cases, inl, inr,
}
use leta.Core.Map.{find}
use leta.Application.History.{Operation}
use leta.Storage.{InMemoryIndexRepository, initial, contents}
use leta.Storage.Threads.{Thread, Memory, System, update, after_calls, answers_to, calls_of}
use leta.Storage.Threads.Settled.{
  inside, settle, pending, Present, outside-Present, outside_pending,
}

-- What the logged calls make of the empty repository, one after the other.
abbrev pub logged : Memory → InMemoryIndexRepository
logged m = after_calls m.log initial

pub some_injective : {i j : ℕ} → some i ≡ some j → i ≡ j
some_injective e = cc

pub none≢some : {i : ℕ} → none ≡ some i → ⊥
none≢some e = cc

-- The threads after a turn of thread i: that one, and the others.
pub everywhere :
    (P : ℕ → Thread → Type 0) (threads : ℕ → Thread) (i : ℕ) (t : Thread)
    → P i t
    → ((j : ℕ) → (i == j) ≡ false → P j (threads j))
    → (j : ℕ) → P j (update threads i t j)
everywhere P threads i t own others j = elim (Bool-cases (i == j)) [
  | inr other ↦ rw other (others j other)
  | inl same ↦ rw same (rw ((==_iff i j).0 same) at own)
]

pub not_other : {i j : ℕ} → (i == j) ≡ false → some i ≡ some j → ⊥
not_other {i} {j} other e = true≢false (sym ((==_iff i j).1 (some_injective e)) ∙ other)

module _ (programs : ℕ → List Operation) where
  -- A thread is under the mutex just when it holds it; then the map will be what the logged calls make
  -- of it. What it returned, with what it will return, is what its logged calls return.
  pub record Fits (m : Memory) (j : ℕ) (t : Thread) : Type 0 where
    pub held : inside t.pc ≡ true → m.owner ≡ some j
    pub holder : m.owner ≡ some j → inside t.pc ≡ true
    pub there : Present t.pc (find m.indexes)
    pub settled : m.owner ≡ some j → settle t.pc (find m.indexes) ≡ contents (logged m)
    pub answered : t.returned ++ pending t.pc (find m.indexes) ≡ answers_to j m.log initial
    pub ordered : calls_of j m.log ++ t.todo ≡ programs j

  pub record Inv (s : System) : Type 0 where
    pub each : (j : ℕ) → Fits s.memory j (s.threads j)
    pub at_rest : s.memory.owner ≡ none → find s.memory.indexes ≡ contents (logged s.memory)

  -- A thread that the mutex does not belong to fits whatever map and owner come of another's turn.
  pub bystander :
      {m m' : Memory} {j : ℕ} {t : Thread}
      → Fits m j t
      → ¬ (m.owner ≡ some j)
      → ¬ (m'.owner ≡ some j)
      → answers_to j m'.log initial ≡ answers_to j m.log initial
      → calls_of j m'.log ≡ calls_of j m.log
      → Fits m' j t
  bystander {m} {m'} {j} {t} fits before after answers calls =
      let outside : inside t.pc ≡ false = elim (Bool-cases (inside t.pc)) [
        | inl in_it ↦ absurd (before (fits.held in_it))
        | inr out ↦ out
      ] in
      record {
        held = λ in_it. absurd (true≢false (sym in_it ∙ outside));
        holder = λ owned. absurd (after owned);
        there = outside-Present t.pc (find m'.indexes) outside;
        settled = λ owned. absurd (after owned);
        answered =
            ap (◌++◌ t.returned) (
              outside_pending t.pc (find m'.indexes) outside
              ∙ sym (outside_pending t.pc (find m.indexes) outside))
            ∙ fits.answered
            ∙ sym answers;
        ordered = ap (λ cs. cs ++ t.todo) calls ∙ fits.ordered;
      }
