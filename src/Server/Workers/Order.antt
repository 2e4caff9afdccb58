-- ===== src/Server/Workers/Order.antt =====
-- The workers' requests in the order in which their calls took the repository's mutex.
use leta.Prelude.{
  ℕ, ◌≡◌, refl, ap, sym, ◌∙◌, true, false, none, List, [], ◌∷◌, ◌++◌, ◌==◌, ==_iff, Bool-cases, inl,
  inr, map,
}
use leta.Application.History.{Operation}
use leta.Http.Simdjson.{Simdjson}
use leta.Storage.{InMemoryIndexRepository, initial, contents}
use leta.Storage.Threads.{System, update, call, after_calls, answers_to, calls_of}
use leta.Storage.Threads.Settled.{inside}
use leta.Storage.Threads.Atomic.{reached, calls_are_atomic, after_calls-run}
use leta.Server.Workers.{
  Job, operation, respond, handle, handle-call, responses, jobs_of, handled, after_jobs,
}

cons-ne_nil : {A : Type 0} {x : A} {xs : List A} → x ∷ xs ≡ [] → ⊥
cons-ne_nil e = cc

same_head : {A : Type 0} {x y : A} {xs ys : List A} → x ∷ xs ≡ y ∷ ys → x ≡ y
same_head e = cc

same_tail : {A : Type 0} {x y : A} {xs ys : List A} → x ∷ xs ≡ y ∷ ys → xs ≡ ys
same_tail e = cc

module _ (json : Simdjson) where
  -- The next request of a worker, if there is one, and then the rest.
  abbrev serve_next :
      ℕ → List (Job json) → (List (Job json) → List (ℕ × Job json)) → List (ℕ × Job json)
  serve_next i [] rest = rest []
  serve_next i (job ∷ queue) rest = (i, job) ∷ rest queue

  -- The requests that made the calls of a log.
  unfoldable pub in_order : List (ℕ × Operation) → (ℕ → List (Job json)) → List (ℕ × Job json)
  in_order [] jobs = []
  in_order (entry ∷ log) jobs =
      serve_next entry.0 (jobs entry.0) (λ queue. in_order log (update jobs entry.0 queue))

  -- The log has calls of the first requests of each worker, in their order.
  abbrev pub Fits : List (ℕ × Operation) → (ℕ → List (Job json)) → Type 0
  Fits log jobs =
      (i : ℕ) → (rest : List Operation) × (calls_of i log ++ rest ≡ map (operation json) (jobs i))

  -- Where a log goes on with a call of a worker: the request that made it, and what is left.
  pub record Step (k : ℕ) (op : Operation) (log : List (ℕ × Operation)) (jobs : ℕ → List (Job json))
      : Type 0 where
    pub job : Job json
    pub queue : List (Job json)
    pub is_next : jobs k ≡ job ∷ queue
    pub makes : op ≡ operation json job
    pub fits : Fits log (update jobs k queue)

  pub next-Step :
      (k : ℕ) (op : Operation) (log : List (ℕ × Operation)) (jobs : ℕ → List (Job json))
      → Fits ((k, op) ∷ log) jobs
      → Step k op log jobs
  unfolding calls_of
  next-Step k op log jobs fits = go (jobs k) refl (rw own at (fits k).1)
    where
      own : (k == k) ≡ true
      own = (==_iff k k).1 refl

      go :
          (queue : List (Job json))
          → jobs k ≡ queue
          → op ∷ (calls_of k log ++ (fits k).0) ≡ map (operation json) (jobs k)
          → Step k op log jobs
      go [] same h = absurd (cons-ne_nil (rw same at h))
      go (job ∷ queue) same h = record {
        job = job;
        queue = queue;
        is_next = same;
        makes = same_head (rw same at h);
        fits = λ i. elim (Bool-cases (k == i)) [
          | inl here ↦ rw (← (==_iff k i).0 here, own) ((fits k).0, same_tail (rw same at h))
          | inr elsewhere ↦ rw elsewhere ((fits i).0, rw elsewhere at (fits i).1)
        ];
      }

  next_call :
      (k : ℕ) (op : Operation) (job : Job json) (s : InMemoryIndexRepository)
      → op ≡ operation json job
      → handle json job s ≡ (respond json job (call op s).0, (call op s).1)
  next_call k op job s makes = rw makes (handle-call json job s)

  in_order-after :
      (log : List (ℕ × Operation)) (jobs : ℕ → List (Job json)) (s : InMemoryIndexRepository)
      → Fits log jobs
      → after_jobs json (in_order log jobs) s ≡ after_calls log s
  unfolding in_order after_jobs after_calls
  in_order-after [] jobs s fits = refl
  in_order-after ((k, op) ∷ log) jobs s fits =
      let next = next-Step k op log jobs fits in
      rw (next.is_next, after_jobs)
        (rw (next_call k op next.job s next.makes)
          (in_order-after log (update jobs k next.queue) (call op s).1 next.fits))

  pub in_order-own :
      (i : ℕ) (log : List (ℕ × Operation)) (jobs : ℕ → List (Job json))
      → Fits log jobs
      → (rest : List (Job json)) × (jobs_of json i (in_order log jobs) ++ rest ≡ jobs i)
  unfolding in_order jobs_of
  in_order-own i [] jobs fits = (jobs i, refl)
  in_order-own i ((k, op) ∷ log) jobs fits =
      let next = next-Step k op log jobs fits in
      let (rest, follows) = in_order-own i log (update jobs k next.queue) next.fits in
      elim (Bool-cases (k == i)) [
        | inl here ↦
            let mine : jobs i ≡ next.job ∷ next.queue =
              ap jobs (sym ((==_iff k i).0 here)) ∙ next.is_next in
            (
              rest,
              rw (next.is_next, jobs_of, here) (ap (◌∷◌ next.job) (rw here at follows) ∙ sym mine),
            )
        | inr elsewhere ↦ (rest, rw (next.is_next, jobs_of, elsewhere) (rw elsewhere at follows))
      ]

  responses-nil : (queue : List (Job json)) → responses json queue [] ≡ []
  unfolding responses
  responses-nil [] = refl
  responses-nil (job ∷ queue) = refl

  pub in_order-handled :
      (i : ℕ) (log : List (ℕ × Operation)) (jobs : ℕ → List (Job json))
      (s : InMemoryIndexRepository)
      → Fits log jobs
      → responses json (jobs i) (answers_to i log s) ≡ handled json i (in_order log jobs) s
  unfolding in_order responses answers_to handled
  in_order-handled i [] jobs s fits = responses-nil (jobs i)
  in_order-handled i ((k, op) ∷ log) jobs s fits =
      let next = next-Step k op log jobs fits in
      let later = in_order-handled i log (update jobs k next.queue) (call op s).1 next.fits in
      elim (Bool-cases (k == i)) [
        | inl here ↦
            let mine : jobs i ≡ next.job ∷ next.queue =
              ap jobs (sym ((==_iff k i).0 here)) ∙ next.is_next in
            rw (mine, next.is_next, handled, here)
              (rw (next_call k op next.job s next.makes)
                (ap (◌∷◌ (respond json next.job (call op s).0)) (rw here at later)))
        | inr elsewhere ↦
            rw (next.is_next, handled, elsewhere)
              (rw (next_call k op next.job s next.makes) (rw elsewhere at later))
      ]

  -- The calls that the workers' requests make.
  abbrev pub calls : (ℕ → List (Job json)) → ℕ → List Operation
  calls jobs i = map (operation json) (jobs i)

  module _ (jobs : ℕ → List (Job json)) (schedule : List ℕ) where
    -- The repository and the workers once a schedule has been taken.
    abbrev pub worked : System
    worked = reached (calls jobs) schedule

    -- the requests, in the order in which their calls took the mutex
    abbrev pub order : List (ℕ × Job json)
    order = in_order worked.memory.log jobs

    pub fits : Fits worked.memory.log jobs
    fits i = ((worked.threads i).todo, (calls_are_atomic (calls jobs) schedule).2 i)

    -- However the turns of the workers interleave within the repository, the workers' accepted requests
    -- act as if each were handled whole, one after the other, in the order in which their calls took the
    -- mutex: each worker's requests stand in it in their own order; a worker that is outside the mutex
    -- has answered as the handlers answer in that order; and while the mutex is free the repository
    -- holds what they leave.
    pub workers_are_atomic :
        ((i : ℕ) → (rest : List (Job json)) × (jobs_of json i order ++ rest ≡ jobs i))
        × ((i : ℕ)
            → inside (worked.threads i).pc ≡ false
            → responses json (jobs i) (worked.threads i).returned ≡ handled json i order initial)
        × (worked.memory.owner ≡ none
            → contents (record { indexes = worked.memory.indexes })
              ≡ contents (after_jobs json order initial))
    workers_are_atomic = (
      λ i. in_order-own i worked.memory.log jobs fits,
      λ i outside.
          ap (responses json (jobs i)) ((calls_are_atomic (calls jobs) schedule).1 i outside)
          ∙ in_order-handled i worked.memory.log jobs initial fits,
      λ free.
          (calls_are_atomic (calls jobs) schedule).0 free
          ∙ ap contents (
              sym (after_calls-run worked.memory.log initial)
              ∙ sym (in_order-after worked.memory.log jobs initial fits)),
    )
