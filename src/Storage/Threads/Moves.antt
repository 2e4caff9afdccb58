-- ===== src/Storage/Threads/Moves.antt =====
-- src/adapters/storage/in_memory_index_repository.cpp: the turns that a schedule
-- leaves to take.
use mathlib.Core.Bool.{true≢false}
use leta.Prelude.{
  ℕ, suc, ◌≤◌, ◌<◌, ◌≡◌, ◌⊎◌, inl, inr, refl, ap, sym, ◌∙◌, Bool, true, false, ◌||◌, Option, none,
  some, List, [], ◌∷◌, ◌++◌, ◌==◌, ==_iff, arith, ltb, ltb→lt, all_below, Bool-cases, Option-cases,
}
use leta.Storage.Threads.{idle, Thread, Memory, System, turn, step, execute}
use leta.Storage.Threads.Work.{work, total, total-update, turn-Cheaper, resting}

-- Whether a schedule has a turn for a thread; and whether it has one for each of n threads.
abbrev pub visits : ℕ → List ℕ → Bool
visits j [] = false
visits j (i ∷ rest) = i == j || visits j rest

abbrev pub is_round : ℕ → List ℕ → Bool
is_round n round = all_below n (λ j. visits j round)

abbrev pub all_rounds : List (List ℕ) → List ℕ
all_rounds [] = []
all_rounds (round ∷ rest) = round ++ all_rounds rest

pub execute-append :
    (xs ys : List ℕ) (s : System) → execute (xs ++ ys) s ≡ execute ys (execute xs s)
unfolding execute
execute-append [] ys s = refl
execute-append (i ∷ xs) ys s = execute-append xs ys (step i s)

module _ (n : ℕ) where
  -- Only the first n threads make calls.
  abbrev pub Few : System → Type 0
  Few s = (j : ℕ) → n ≤ j → ((s.threads j).pc ≡ idle) × ((s.threads j).todo ≡ [])

  -- A turn that is taken, not spent waiting, leaves one turn less to take.
  abbrev pub Moves : ℕ → System → Type 0
  Moves i s = (i < n) × (suc (total n (step i s).threads) ≡ total n s.threads) × Few (step i s)

  abbrev pub turn_of : ℕ → System → Option (Memory × Thread)
  turn_of i s = let t = s.threads i in turn i s.memory t.pc t.todo t.returned

  pub taken-Moves :
      (i : ℕ) (s : System) (m' : Memory) (t' : Thread)
      → Few s
      → turn_of i s ≡ some (m', t')
      → Moves i s
  unfolding step
  taken-Moves i s m' t' few moves =
      let below : i < n = elim (Bool-cases (ltb i n)) [
        | inl small ↦ ltb→lt i n small
        | inr large ↦ absurd (nowhere large)
      ] in
      rw (moves, step)
        (
          below,
          omega (arith, total-update n s.threads i t' below, cheaper),
          λ j above. let other : (i == j) ≡ false = ground arith in rw other (few j above),
        )
    where
      least : ltb i n ≡ false → n ≤ i
      least large = ground arith

      not_taken : {taken : Memory × Thread} → none ≡ some taken → ⊥
      not_taken e = cc

      cheaper : suc (work t') ≡ work (s.threads i)
      cheaper =
          rw moves at
            (turn-Cheaper i s.memory (s.threads i).pc (s.threads i).todo (s.threads i).returned)

      nowhere : ltb i n ≡ false → ⊥
      nowhere large =
          let (at_rest, no_call) = few i (least large) in
          not_taken (
            sym (
              resting i s.memory (s.threads i).pc (s.threads i).todo (s.threads i).returned at_rest
                no_call)
            ∙ moves)

  step_cases : (i : ℕ) (s : System) → Few s → (step i s ≡ s) ⊎ Moves i s
  unfolding step
  step_cases i s few = elim (Option-cases (turn_of i s)) [
    | inl waits ↦ inl (rw (waits, step) refl)
    | inr ((m', t'), moves) ↦ inr (taken-Moves i s m' t' few moves)
  ]

  -- A schedule leaves no more turns to take than there were; and fewer, if it has a turn for a thread
  -- that can move.
  pub execute_le :
      (schedule : List ℕ) (s : System)
      → Few s
      → (total n (execute schedule s).threads ≤ total n s.threads) × Few (execute schedule s)
  unfolding execute
  execute_le [] s few = (omega arith, few)
  execute_le (i ∷ rest) s few = elim (step_cases i s few) [
    | inl same ↦ rw (same, execute) (execute_le rest s few)
    | inr (below, less, few') ↦
        let (le, few_at_end) = execute_le rest (step i s) few' in
        (omega (arith, le, less), few_at_end)
  ]

  pub execute_lt :
      (schedule : List ℕ) (s : System) (j : ℕ)
      → Few s
      → Moves j s
      → visits j schedule ≡ true
      → total n (execute schedule s).threads < total n s.threads
  unfolding execute
  execute_lt [] s j few moves h = absurd (true≢false (sym h))
  execute_lt (i ∷ rest) s j few moves h = elim (step_cases i s few) [
    | inr (below, less, few') ↦ omega (arith, (execute_le rest (step i s) few').0, less)
    | inl same ↦ elim (Bool-cases (i == j)) [
      | inl it ↦ absurd (
          omega (
            arith,
            moves.1,
            ap (λ k. total n (step k s).threads) ((==_iff i j).0 it),
            ap (λ t. total n t.threads) same,
          ))
      | inr other ↦ rw (same, execute) (execute_lt rest s j few moves (rw other at h))
    ]
  ]
