-- ===== src/Tests/Workers.antt =====
-- Three workers at the toy libraries: two create one index, and a third sends it a batch.
use leta.Prelude.{
  map, replicate, arith, ◌≤◌, ℕ, zero, suc, ◌≡◌, refl, false, none, List, [], ◌∷◌, ◌++◌, codes,
}
use leta.Core.IndexUid.{parse, is_uid_character}
use leta.Core.Error.{ok}
use leta.Core.Map.{find, put, empty}
use leta.Application.HttpServer.{HttpResponse}
use leta.Http.ErrorResponse.{error_response}
use leta.Storage.{initial, contents, try_emplace}
use leta.Storage.Threads.{execute}
use leta.Storage.Threads.Settled.{inside}
use leta.Server.Workers.{Job, creating, adding, responses, jobs_of, handled, after_jobs, respond}
use leta.Server.Workers.Order.{worked, order, workers_are_atomic}
use leta.Tests.Data.{books, noon, dune}
use leta.Tests.Toy.{toy_json, create_body, batch_body}
use leta.Tests.Routes.{create_books, test_create_body, test_batch_body}
use leta.Tests.Threads.{round, All-fair}
use leta.Server.Workers.Progress.{every_request_answered}
use leta.Storage.Threads.Moves.{all_rounds}

test_uid : parse (codes "books") ≡ ok books
unfolding parse is_uid_character
test_uid = refl

abbrev create_job : Job toy_json
create_job = creating create_body create_books noon test_create_body

abbrev jobs : ℕ → List (Job toy_json)
jobs zero = create_job ∷ []
jobs (suc zero) =
    adding (codes "books") batch_body books (dune ∷ []) noon 3 test_uid test_batch_body ∷ []
jobs (suc (suc zero)) = create_job ∷ []
jobs (suc (suc (suc i))) = []

-- Worker 2 takes the mutex first; the others wait.
abbrev schedule : List ℕ
schedule = 2 ∷ 0 ∷ 1 ∷ 2 ∷ 1 ∷ 2 ∷ 1 ∷ 1 ∷ 0 ∷ 1 ∷ 1 ∷ 0 ∷ 0 ∷ 0 ∷ []

statuses : (i : ℕ) → List ℕ
statuses i =
    map (λ (r : HttpResponse). r.status)
      (responses toy_json (jobs i) ((worked toy_json jobs schedule).threads i).returned)

test_statuses : (statuses 2 ≡ 201 ∷ []) × (statuses 1 ≡ 200 ∷ []) × (statuses 0 ≡ 409 ∷ [])
unfolding statuses execute try_emplace find put empty responses respond error_response
test_statuses = (refl, refl, refl)

workers_are_atomic_example :
    ((i : ℕ)
      → (rest : List (Job toy_json)) × (jobs_of toy_json i (order toy_json jobs schedule) ++ rest
          ≡ jobs i))
    × ((i : ℕ)
        → inside ((worked toy_json jobs schedule).threads i).pc ≡ false
        → responses toy_json (jobs i) ((worked toy_json jobs schedule).threads i).returned
          ≡ handled toy_json i (order toy_json jobs schedule) initial)
    × ((worked toy_json jobs schedule).memory.owner ≡ none
        → contents (record { indexes = (worked toy_json jobs schedule).memory.indexes })
          ≡ contents (after_jobs toy_json (order toy_json jobs schedule) initial))
workers_are_atomic_example = workers_are_atomic toy_json jobs schedule

few_jobs : (j : ℕ) → 3 ≤ j → jobs j ≡ []
few_jobs zero h = absurd (omega arith)
few_jobs (suc zero) h = absurd (omega arith)
few_jobs (suc (suc zero)) h = absurd (omega arith)
few_jobs (suc (suc (suc j))) h = refl

every_request_answered_example :
    let turns = all_rounds (replicate 10 round) in
    (jobs_of toy_json 0 (order toy_json jobs turns) ≡ jobs 0)
    × (responses toy_json (jobs 0) ((worked toy_json jobs turns).threads 0).returned
        ≡ handled toy_json 0 (order toy_json jobs turns) initial)
every_request_answered_example =
    every_request_answered toy_json 3 jobs (replicate 10 round) few_jobs (All-fair 10) (omega arith)
      0
