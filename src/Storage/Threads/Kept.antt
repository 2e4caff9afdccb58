-- ===== src/Storage/Threads/Kept.antt =====
-- src/adapters/storage/in_memory_index_repository.cpp: one turn, from the state before it to the state
-- after it.
use mathlib.Core.Bool.{true≢false}
use leta.Prelude.{
  ℕ, ◌≡◌, refl, ap, sym, ◌∙◌, true, Option, none, some, List, [], ◌∷◌, ◌++◌, append-nil,
  append_assoc, ◌==◌, ==_iff, Option-cases, inl, inr,
}
use leta.Core.Map.{find}
use leta.Application.History.{Operation}
use leta.Storage.{initial, contents}
use leta.Storage.Threads.{
  idle, entered, Thread, Memory, System, is_free, turn, update, moved, step, after_calls,
  answers_to, calls_of,
}
use leta.Storage.Threads.Log.{after_calls-append, answers_to-append, calls_of-append}
use leta.Storage.Threads.View.{View, apply_view, answer_view, call-view}
use leta.Storage.Threads.Settled.{
  inside, settle, pending, Present, Turned, acquires, works, returns, turn-Turned,
}
use leta.Storage.Threads.Invariant.{logged, none≢some, everywhere, not_other, Fits, Inv, bystander}

module _ (programs : ℕ → List Operation) where
  module _ (s : System) (inv : Inv programs s) (i : ℕ) where
    open s use {memory, threads}

    abbrev mover : Thread
    mover = threads i

    abbrev view : View
    view = find memory.indexes

    mine : Fits programs memory i mover
    mine = inv.each i

    -- The thread takes the mutex for a call, which is logged.
    acquired :
        (called : Operation) (rest : List Operation)
        → mover.pc ≡ idle
        → mover.todo ≡ called ∷ rest
        → memory.owner ≡ none
        → Inv programs (record {
          memory = record memory { owner = some i; log = memory.log ++ (i, called) ∷ [] };
          threads =
              update threads i
                (record { pc = entered called; todo = rest; returned = mover.returned });
        })
    acquired called rest was_idle next free = record {
      each =
          everywhere (Fits programs memory') threads i thread'
            (record {
              held = λ in_it. refl;
              holder = λ owned. refl;
              there = tt;
              settled = λ owned. ap (apply_view called) (inv.at_rest free) ∙ sym after';
              answered =
                  ap (λ returned. returned ++ answer_view called view ∷ []) so_far
                  ∙ ap (λ answer. answers_to i memory.log initial ++ answer ∷ [])
                      (ap (answer_view called) (inv.at_rest free)
                        ∙ sym (call-view called (logged memory)).0)
                  ∙ sym (answers_to-append (i, called) i memory.log initial ∙ rw own refl);
              ordered =
                  ap (λ calls. calls ++ rest)
                    (calls_of-append (i, called) i memory.log ∙ rw own refl)
                  ∙ append_assoc (calls_of i memory.log) (called ∷ []) rest
                  ∙ ap (◌++◌ (calls_of i memory.log)) (sym next)
                  ∙ mine.ordered;
            })
            (λ j other.
              bystander programs (inv.each j) (λ owned. none≢some (sym free ∙ owned))
                (not_other other)
                (answers_to-append (i, called) j memory.log initial
                  ∙ rw other (append-nil (answers_to j memory.log initial)))
                (calls_of-append (i, called) j memory.log
                  ∙ rw other (append-nil (calls_of j memory.log))));
      at_rest = λ none_owned. absurd (none≢some (sym none_owned));
    }
      where
        memory' : Memory
        memory' = record memory { owner = some i; log = memory.log ++ (i, called) ∷ [] }

        thread' : Thread
        thread' = record { pc = entered called; todo = rest; returned = mover.returned }

        own : (i == i) ≡ true
        own = (==_iff i i).1 refl

        so_far : mover.returned ≡ answers_to i memory.log initial
        so_far =
            sym (append-nil mover.returned)
            ∙ ap (λ pc. mover.returned ++ pending pc view) (sym was_idle)
            ∙ mine.answered

        after' : contents (logged memory') ≡ apply_view called (contents (logged memory))
        after' =
            ap contents (after_calls-append (i, called) memory.log initial)
            ∙ (call-view called (logged memory)).1

    -- The thread works on under the mutex.
    worked :
        (memory' : Memory) (thread' : Thread)
        → inside mover.pc ≡ true
        → inside thread'.pc ≡ true
        → memory'.owner ≡ memory.owner
        → memory'.log ≡ memory.log
        → thread'.todo ≡ mover.todo
        → thread'.returned ≡ mover.returned
        → settle thread'.pc (find memory'.indexes) ≡ settle mover.pc view
        → pending thread'.pc (find memory'.indexes) ≡ pending mover.pc view
        → Present thread'.pc (find memory'.indexes)
        → Inv programs (record { memory = memory'; threads = update threads i thread' })
    worked memory' thread' was_in is_in same_owner same_log same_todo same_returned same_settled
          same_pending there =
        record {
          each =
              everywhere (Fits programs memory') threads i thread'
                (record {
                  held = λ in_it. same_owner ∙ mine.held was_in;
                  holder = λ owned. is_in;
                  there = there;
                  settled = λ owned.
                      same_settled
                      ∙ mine.settled (mine.held was_in)
                      ∙ ap (λ log. contents (after_calls log initial)) (sym same_log);
                  answered = rw (same_returned, same_pending, same_log) mine.answered;
                  ordered = rw (same_log, same_todo) mine.ordered;
                })
                (λ j other.
                  let elsewhere : ¬ (memory.owner ≡ some j) =
                    λ owned. not_other other (sym (mine.held was_in) ∙ owned) in
                  bystander programs (inv.each j) elsewhere
                    (λ owned. elsewhere (sym same_owner ∙ owned))
                    (ap (λ log. answers_to j log initial) same_log) (ap (calls_of j) same_log));
          at_rest =
              λ none_owned. absurd (none≢some (sym none_owned ∙ same_owner ∙ mine.held was_in));
        }

    -- The thread returns and gives the mutex back.
    gave_back :
        inside mover.pc ≡ true
        → settle mover.pc view ≡ view
        → Inv programs (record {
          memory = record memory { owner = none };
          threads = update threads i (record {
            pc = idle;
            todo = mover.todo;
            returned = mover.returned ++ pending mover.pc view;
          });
        })
    gave_back was_in at_end = record {
      each =
          everywhere (Fits programs (record memory { owner = none })) threads i _
            (record {
              held = λ in_it. absurd (true≢false (sym in_it));
              holder = λ owned. absurd (none≢some owned);
              there = tt;
              settled = λ owned. absurd (none≢some owned);
              answered = append-nil (mover.returned ++ pending mover.pc view) ∙ mine.answered;
              ordered = mine.ordered;
            })
            (λ j other.
              bystander programs (inv.each j)
                (λ owned. not_other other (sym (mine.held was_in) ∙ owned)) none≢some refl refl);
      at_rest = λ none_owned. sym at_end ∙ mine.settled (mine.held was_in);
    }

    turned :
        (m' : Memory) (t' : Thread)
        → Turned i memory mover.pc mover.todo mover.returned m' t'
        → Inv programs (moved s i (some (m', t')))
    turned m' t' (acquires called rest was_idle next free same_memory same_thread) =
        rw (same_memory, same_thread)
          (acquired called rest was_idle next (vacant memory.owner free))
      where
        vacant : (owner : Option ℕ) → is_free owner ≡ true → owner ≡ none
        vacant none h = refl
        vacant (some j) h = absurd (true≢false (sym h))
    turned m' t' (works was_in is_in owner log todo returned later answer there) =
        worked m' t' was_in is_in owner log todo returned later answer there
    turned m' t' (returns was_in same_memory same_thread at_end) =
        rw (same_memory, same_thread) (gave_back was_in at_end)

    pub step-Inv : Inv programs (step i s)
    unfolding step
    step-Inv = elim (Option-cases (turn i memory mover.pc mover.todo mover.returned)) [
      | inl waits ↦ rw (waits, step) inv
      | inr ((m', t'), moves) ↦
          rw (moves, step)
            (turned m' t'
              (rw moves at (turn-Turned i memory mover.pc mover.todo mover.returned mine.there)))
    ]
