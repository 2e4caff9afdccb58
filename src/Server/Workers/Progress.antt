-- ===== src/Server/Workers/Progress.antt =====
-- Workers whose turns come again and again, until all their requests are answered.
use leta.Prelude.{
  ℕ, suc, ◌≤◌, ◌≡◌, refl, ap, sym, ◌∙◌, true, List, [], ◌∷◌, ◌++◌, ◌==◌, Bool-cases, inl, inr, map,
  arith, length, length-append, All, append-nil,
}
use leta.Application.History.{Operation}
use leta.Http.Simdjson.{Simdjson}
use leta.Storage.{initial}
use leta.Storage.Threads.{update, calls_of, start}
use leta.Storage.Threads.Work.{total}
use leta.Storage.Threads.Moves.{is_round, all_rounds}
use leta.Storage.Threads.Progress.{every_call_returns}
use leta.Server.Workers.{Job, operation, responses, jobs_of, handled}
use leta.Server.Workers.Order.{
  Fits, next-Step, in_order, in_order-own, in_order-handled, calls, worked, order,
}

module _ (json : Simdjson) where
  in_order-calls :
      (i : ℕ) (log : List (ℕ × Operation)) (jobs : ℕ → List (Job json))
      → Fits json log jobs
      → length (jobs_of json i (in_order json log jobs)) ≡ length (calls_of i log)
  unfolding in_order jobs_of calls_of
  in_order-calls i [] jobs fits = refl
  in_order-calls i ((k, op) ∷ log) jobs fits =
      let next = next-Step json k op log jobs fits in
      let later = in_order-calls i log (update jobs k next.queue) next.fits in
      elim (Bool-cases (k == i)) [
        | inl here ↦ rw (next.is_next, jobs_of, here) (ap suc later)
        | inr elsewhere ↦ rw (next.is_next, jobs_of, elsewhere) later
      ]

  length-map : (jobs : List (Job json)) → length (map (operation json) jobs) ≡ length jobs
  length-map [] = refl
  length-map (job ∷ jobs) = ap suc (length-map jobs)

  all_of_it : (xs rest ys : List (Job json)) → xs ++ rest ≡ ys → length xs ≡ length ys → xs ≡ ys
  all_of_it xs [] ys e same = sym (append-nil xs) ∙ e
  all_of_it xs (job ∷ rest) ys e same =
      absurd (omega (arith, length-append xs (job ∷ rest), ap length e, same))

  -- Where only the first n workers have requests: after as many rounds as their calls have turns to
  -- take, each with a turn for every worker in any order, every worker has answered all its requests,
  -- as the handlers answer them one after the other in the order in which their calls took the mutex,
  -- and that order has each worker's requests, all of them, in their own order.
  pub every_request_answered :
      (n : ℕ) (jobs : ℕ → List (Job json)) (rounds : List (List ℕ))
      → ((j : ℕ) → n ≤ j → jobs j ≡ [])
      → All (λ round. is_round n round ≡ true) rounds
      → total n (start (calls json jobs)).threads ≤ length rounds
      → (i : ℕ)
      → (jobs_of json i (order json jobs (all_rounds rounds)) ≡ jobs i)
        × (responses json (jobs i) ((worked json jobs (all_rounds rounds)).threads i).returned
            ≡ handled json i (order json jobs (all_rounds rounds)) initial)
  every_request_answered n jobs rounds few fair enough i =
      let log = (worked json jobs (all_rounds rounds)).memory.log in
      let ended =
        (every_call_returns n (calls json jobs) rounds
          (λ j above. ap (map (operation json)) (few j above)) fair enough).0 in
      let fits : Fits json log jobs = λ j. ([], append-nil (calls_of j log) ∙ (ended j).0) in
      let (rest, follows) = in_order-own json i log jobs fits in
      (
        all_of_it _ rest (jobs i) follows
            (in_order-calls i log jobs fits ∙ ap length (ended i).0 ∙ length-map (jobs i)),
        ap (responses json (jobs i)) (ended i).1 ∙ in_order-handled json i log jobs initial fits,
      )
