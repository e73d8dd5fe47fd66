-- ===== src/Server/InOrder.antt =====
-- `handleResult` of internal/server/server.go, and the order of the steps: whatever a worker reports, no
-- step of a run gets its job before the steps it depends on are completed.
use orqestra.Base.{
  ℕ, ◌≡◌, sym, ◌∙◌, false, Option, none, some, String, arith, ◌==◌, Bool-cases, inl, inr, ltb, In,
  ◌+◌, List, [], ◌∷◌, subst,
}
use orqestra.Queue.Interface.{JobQueue}
use orqestra.Workflow.Registry.{Registry}
use orqestra.Db.Tables.{JobStatus, JobRow, Query-cases, has_status, first_where}
use orqestra.Db.Jobs.{get_job}
use orqestra.Db.Integrity.{job_row, job_row-id}
use orqestra.Service.Jobs.{is_final}
use orqestra.Service.Ordered.{IsOrdered, fail-IsOrdered}
use orqestra.Service.DependencyOrder.{advance-IsOrdered}
use orqestra.Service.Statuses.{complete_job-IsOrdered, update_job_state-IsOrdered, IsUnfinished}
use orqestra.Server.State.{World, clear_ownership, worker_owns_job}
use orqestra.Server.Results.{
  TaskResult, ResultCalls, advance_run, fail_run, handle_success, handle_retry,
  handle_final_failure, handle_failure, handle_row, handle_result,
}
use orqestra.Server.Ownership.{get_job-found}

-- A number is that of one row.
abbrev pub IsNumbered : List JobRow → Type 0
IsNumbered rows = (row row' : JobRow) → In row rows → In row' rows → row.id ≡ row'.id → row ≡ row'

first_where-In :
    (id : ℕ) (rows : List JobRow) (row : JobRow)
    → first_where (λ r. r.id == id) rows ≡ some row
    → In row rows
first_where-In id [] row h = absurd (cc)
first_where-In id (r ∷ rows) row h = elim (Bool-cases (r.id == id)) [
  | inl e ↦ inl (let same : some r ≡ some row = rw e at h in cc)
  | inr e ↦ inr (first_where-In id rows row (rw e at h))
]

open-unfinished :
    (row : JobRow) → is_final row.status ≡ false → has_status JobStatus.completed row ≡ false
open-unfinished row h = ground arith

row-IsUnfinished :
    (id : ℕ) (rows : List JobRow) (row : JobRow)
    → IsNumbered rows
    → first_where (λ r. r.id == id) rows ≡ some row
    → is_final row.status ≡ false
    → IsUnfinished id rows
row-IsUnfinished id rows row numbered at open_ row' m e =
    let same =
      numbered row row' (first_where-In id rows row at) m (job_row-id id rows row at ∙ sym e) in
    subst (λ (r : JobRow). has_status JobStatus.completed r ≡ false) same
      (open-unfinished row open_)

module _ (q : JobQueue) (registry : Registry) where
  open q use {State}

  advance_run-IsOrdered :
      (c : ResultCalls) (run : Option ℕ) (w : World State)
      → IsOrdered registry w.db
      → IsOrdered registry (advance_run q registry c run w).db
  advance_run-IsOrdered c none w k = k
  advance_run-IsOrdered c (some run) w k = advance-IsOrdered c.advance registry run w.db k

  fail_run-IsOrdered :
      (c : ResultCalls) (run : Option ℕ) (w : World State)
      → IsOrdered registry w.db
      → IsOrdered registry (fail_run q registry c run w).db
  fail_run-IsOrdered c none w k = k
  fail_run-IsOrdered c (some run) w k = fail-IsOrdered c.fail_run registry run w.db k

  success-IsOrdered :
      (c : ResultCalls) (r : TaskResult) (row : JobRow) (w : World State)
      → IsOrdered registry w.db
      → IsOrdered registry (handle_success q registry c r row w).db
  unfolding handle_success clear_ownership
  success-IsOrdered c r row w k =
      advance_run-IsOrdered c row.workflow_run_id _
        (complete_job-IsOrdered c.complete registry r.job_id r.output w.db k)

  failure-IsOrdered :
      (c : ResultCalls) (now : ℕ) (row : JobRow) (w : World State)
      → IsUnfinished row.id w.db.jobs
      → IsOrdered registry w.db
      → IsOrdered registry (handle_failure q registry c now row w).db
  unfolding handle_failure handle_retry handle_final_failure clear_ownership
  failure-IsOrdered c now row w open_ k = elim (Bool-cases (ltb row.retry_count row.max_retries)) [
    | inl more ↦
        rw (more, handle_failure)
          (update_job_state-IsOrdered c.update registry row.id JobStatus.retrying
            (row.retry_count + 1) w.db open_ k)
    | inr last ↦
        rw (last, handle_failure)
          (fail_run-IsOrdered c row.workflow_run_id _ (
            update_job_state-IsOrdered c.update registry row.id JobStatus.failed row.retry_count
              w.db open_ k))
  ]

  row-IsOrdered :
      (c : ResultCalls) (now : ℕ) (r : TaskResult) (row : JobRow) (w : World State)
      → IsNumbered w.db.jobs
      → job_row r.job_id w.db ≡ some row
      → IsOrdered registry w.db
      → IsOrdered registry (handle_row q registry c now r row w).db
  unfolding handle_row handle_success clear_ownership
  row-IsOrdered c now r row w numbered at k = elim (Bool-cases (is_final row.status)) [
    | inl over ↦ rw (over, handle_row) k
    | inr open_ ↦ elim (Bool-cases r.success) [
      | inl won ↦ rw (open_, won, handle_row) (success-IsOrdered c r row w k)
      | inr lost_ ↦
          rw (open_, lost_, handle_row)
            (failure-IsOrdered c now row w
              (subst (λ id. IsUnfinished id w.db.jobs) (sym (job_row-id r.job_id w.db.jobs row at))
                (row-IsUnfinished r.job_id w.db.jobs row numbered at open_))
              k)
    ]
  ]

  -- If a number is that of one job, then whatever a worker reports and however the calls end, a run has
  -- jobs only for steps whose dependencies are all completed, if that was so before.
  pub handle_result-IsOrdered :
      (c : ResultCalls) (now : ℕ) (r : TaskResult) (sender : String) (w : World State)
      → IsNumbered w.db.jobs
      → IsOrdered registry w.db
      → IsOrdered registry (handle_result q registry c now r sender w).db
  unfolding handle_result clear_ownership
  handle_result-IsOrdered c now r sender w numbered k =
      elim (Bool-cases (worker_owns_job r.job_id sender w)) [
        | inr stranger ↦ rw (stranger, handle_result) k
        | inl owner ↦ elim (Query-cases (get_job c.get r.job_id w.db)) [
          | inl e ↦ rw (owner, e, handle_result) k
          | inr (inl e) ↦ rw (owner, e, handle_result) k
          | inr (inr (row, e)) ↦
              rw (owner, e, handle_result)
                (row-IsOrdered c now r row w numbered (get_job-found c.get r.job_id w.db row e).0 k)
        ]
      ]
