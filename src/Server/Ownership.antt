-- ===== src/Server/Ownership.antt =====
-- Who may report on a job: `handleResult` of internal/server/server.go acts for the owner, once.
use orqestra.Base.{
  ℕ, ◌≡◌, true, false, none, some, String, arith, ==_refl, inl, inr, sym, subst, Outcome,
}
use orqestra.Queue.Interface.{JobQueue}
use orqestra.Workflow.Registry.{Registry}
use orqestra.Db.Tables.{JobRow, Db, found, Query-cases}
use orqestra.Db.Jobs.{get_job}
use orqestra.Db.Integrity.{job_row, job_row-id}
use orqestra.Server.State.{World, clear_ownership, worker_owns_job}
use orqestra.Server.Results.{
  TaskResult, ResultCalls, handle_success, handle_failure, handle_row, handle_result,
}

pub get_job-found :
    (o : Outcome) (id : ℕ) (db : Db) (row : JobRow)
    → get_job o id db ≡ found row
    → (job_row id db ≡ some row) × (row.id ≡ id)
unfolding get_job
get_job-found o id db row h =
    let at : job_row id db ≡ some row = ground arith in (at, job_row-id id db.jobs row at)

module _ (q : JobQueue) (registry : Registry) where
  open q use {State}

  clear-unowned : (id : ℕ) (w : World State) → (clear_ownership id w).owner id ≡ none
  unfolding clear_ownership
  clear-unowned id w = ground (arith, ==_refl id)

  success-unowned :
      (c : ResultCalls) (r : TaskResult) (row : JobRow) (w : World State)
      → (handle_success q registry c r row w).owner r.job_id ≡ none
  unfolding handle_success clear_ownership
  success-unowned c r row w = ground (arith, ==_refl r.job_id)

  failure-unowned :
      (c : ResultCalls) (now : ℕ) (row : JobRow) (w : World State)
      → (handle_failure q registry c now row w).owner row.id ≡ none
  unfolding handle_failure clear_ownership
  failure-unowned c now row w = ground (arith, ==_refl row.id)

  row-unowned :
      (c : ResultCalls) (now : ℕ) (r : TaskResult) (row : JobRow) (w : World State)
      → row.id ≡ r.job_id
      → (handle_row q registry c now r row w).owner r.job_id ≡ none
  unfolding handle_row
  row-unowned c now r row w e =
      let failed =
        subst (λ i. (handle_failure q registry c now row w).owner i ≡ none) e
          (failure-unowned c now row w) in
      ground (arith, clear-unowned r.job_id w, success-unowned c r row w, failed)

  owned_result :
      (c : ResultCalls) (now : ℕ) (r : TaskResult) (sender : String) (w : World State)
      → worker_owns_job r.job_id sender w ≡ true
      → (handle_result q registry c now r sender w).owner r.job_id ≡ none
  unfolding handle_result
  owned_result c now r sender w h = elim (Query-cases (get_job c.get r.job_id w.db)) [
    | inl e ↦ rw (h, e, handle_result) (clear-unowned r.job_id w)
    | inr (inl e) ↦ rw (h, e, handle_result) (clear-unowned r.job_id w)
    | inr (inr (row, e)) ↦
        rw (h, e, handle_result)
          (row-unowned c now r row w (get_job-found c.get r.job_id w.db row e).1)
  ]

  -- A result from a worker that does not own the job changes nothing.
  handle_result_ignored :
      (c : ResultCalls) (now : ℕ) (r : TaskResult) (sender : String) (w : World State)
      → worker_owns_job r.job_id sender w ≡ false
      → handle_result q registry c now r sender w ≡ w
  unfolding handle_result
  handle_result_ignored c now r sender w h = rw h

  owner-none :
      (id : ℕ) (worker : String) (w : World State)
      → w.owner id ≡ none
      → worker_owns_job id worker w ≡ false
  unfolding worker_owns_job
  owner-none id worker w e = rw (e, worker_owns_job)

  -- After a result from the owner of a job has been handled, whatever it came to, a second result for
  -- the job, by any worker and with any calls, changes nothing.
  pub handle_result_once :
      (c c' : ResultCalls) (now now' : ℕ) (r r' : TaskResult) (sender sender' : String)
      (w : World State)
      → worker_owns_job r.job_id sender w ≡ true
      → r'.job_id ≡ r.job_id
      → let w' = handle_result q registry c now r sender w in
        handle_result q registry c' now' r' sender' w' ≡ w'
  handle_result_once c c' now now' r r' sender sender' w h e =
      let w' = handle_result q registry c now r sender w in
      handle_result_ignored c' now' r' sender' w' (
        owner-none r'.job_id sender' w'
          (subst (λ i. w'.owner i ≡ none) (sym e) (owned_result c now r sender w h)))
