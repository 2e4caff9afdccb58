-- ===== src/Storage/Threads/Progress.antt =====
-- src/adapters/storage/in_memory_index_repository.cpp: the calls that return, by the turns of a schedule.
use mathlib.Core.Bool.{true≢false}
use leta.Prelude.{
  ℕ, ◌≤◌, ◌<◌, ◌≡◌, inl, inr, refl, ap, sym, ◌∙◌, true, false, none, List, [], ◌∷◌, ◌++◌,
  append-nil, ◌==◌, ==_iff, arith, ltb, ltb→lt, length, All, all_below_sound, Bool-cases,
  Option-cases,
}
use leta.Application.History.{Operation, run}
use leta.Storage.{initial, contents}
use leta.Storage.Laws.{in_memory}
use leta.Storage.Threads.{System, is_free, execute, start, answers_to, calls_of}
use leta.Storage.Threads.Settled.{inside}
use leta.Storage.Threads.Invariant.{Inv}
use leta.Storage.Threads.Atomic.{start-Inv, execute-Inv, logged_calls, reached, calls_are_atomic}
use leta.Storage.Threads.Work.{
  total, is_some, under_mutex, next_in, total_positive, total_zero, no_work,
}
use leta.Storage.Threads.Moves.{
  visits, is_round, all_rounds, execute-append, Few, Moves, turn_of, taken-Moves, execute_le,
  execute_lt,
}

module _ (n : ℕ) where
  some_mover :
      (programs : ℕ → List Operation) (s : System)
      → Inv programs s
      → Few n s
      → 0 < total n s.threads
      → (j : ℕ) × Moves n j s
  some_mover programs s inv few left = elim (Option-cases s.memory.owner) [
    | inr (j, owned) ↦
        let t = s.threads j in
        (j, mover j (under_mutex j s.memory t.pc t.todo t.returned ((inv.each j).holder owned)))
    | inl free ↦
        let (j, below, positive) = total_positive n s.threads left in
        let t = s.threads j in
        (j, mover j (next_in j s.memory t.pc t.todo t.returned (ap is_free free) positive))
  ]
    where
      mover : (j : ℕ) → is_some (turn_of n j s) ≡ true → Moves n j s
      mover j can = elim (Option-cases (turn_of n j s)) [
        | inl waits ↦ absurd (true≢false (sym can ∙ ap is_some waits))
        | inr ((m', t'), moves) ↦ taken-Moves n j s m' t' few moves
      ]

  rounds_end :
      (programs : ℕ → List Operation) (rounds : List (List ℕ)) (s : System)
      → Inv programs s
      → Few n s
      → All (λ round. is_round n round ≡ true) rounds
      → total n s.threads ≤ length rounds
      → (total n (execute (all_rounds rounds) s).threads ≡ 0)
        × Few n (execute (all_rounds rounds) s)
  unfolding execute
  rounds_end programs [] s inv few fair enough = (omega arith, few)
  rounds_end programs (round ∷ rest) s inv few fair enough =
      rw (execute-append round (all_rounds rest) s) (
        rounds_end programs rest (execute round s) (execute-Inv programs round s inv)
          (execute_le n round s few).1 fair.1 fewer)
    where
      fewer : total n (execute round s).threads ≤ length rest
      fewer = elim (Bool-cases (total n s.threads == 0)) [
        | inl none_left ↦
            omega (arith, (execute_le n round s few).0, (==_iff (total n s.threads) 0).0 none_left)
        | inr left ↦
            let (j, moves) = some_mover programs s inv few (ground (arith, left)) in
            omega (
              arith,
              execute_lt n round s j few moves
                  (all_below_sound n (λ k. visits k round) j fair.0 moves.0),
            )
      ]

  -- Where only the first n threads make calls: after as many rounds as there are turns to take, each of
  -- them any schedule with a turn for each of the n threads, however often and in whatever order,
  -- every call of every thread has returned, with what it returns in the sequence in which the calls
  -- took the mutex; and the map holds what that sequence makes of the empty repository.
  pub every_call_returns :
      (programs : ℕ → List Operation) (rounds : List (List ℕ))
      → ((j : ℕ) → n ≤ j → programs j ≡ [])
      → All (λ round. is_round n round ≡ true) rounds
      → total n (start programs).threads ≤ length rounds
      → let s = reached programs (all_rounds rounds) in
        ((i : ℕ)
          → (calls_of i s.memory.log ≡ programs i)
            × ((s.threads i).returned ≡ answers_to i s.memory.log initial))
        × (contents (record { indexes = s.memory.indexes })
            ≡ contents (run in_memory (logged_calls s.memory.log) initial))
  every_call_returns programs rounds above fair enough =
      let atomic = calls_are_atomic programs (all_rounds rounds) in
      (
        λ i.
            let (outside, none_left) = at_end i in
            (
              sym (append-nil (calls_of i s.memory.log))
                  ∙ ap (◌++◌ (calls_of i s.memory.log)) (sym none_left)
                  ∙ atomic.2 i,
              atomic.1 i outside,
            ),
        atomic.0 free,
      )
    where
      s : System
      s = reached programs (all_rounds rounds)

      ended : (total n s.threads ≡ 0) × Few n s
      ended =
          rounds_end programs rounds (start programs) (start-Inv programs)
            (λ j h. (refl, above j h)) fair enough

      at_end : (i : ℕ) → (inside (s.threads i).pc ≡ false) × ((s.threads i).todo ≡ [])
      at_end i = elim (Bool-cases (ltb i n)) [
        | inl below ↦
            no_work (s.threads i).pc (s.threads i).todo
              (total_zero n s.threads i ended.0 (ltb→lt i n below))
        | inr large ↦
            let (at_rest, no_call) = ended.1 i (ground arith) in (ap inside at_rest, no_call)
      ]

      free : s.memory.owner ≡ none
      free = elim (Option-cases s.memory.owner) [
        | inl none_owns ↦ none_owns
        | inr (j, owned) ↦ absurd (
            true≢false (
              sym (
                ((execute-Inv programs (all_rounds rounds) (start programs)
                      (start-Inv programs)).each
                    j).holder
                  owned)
              ∙ (at_end j).0))
      ]
