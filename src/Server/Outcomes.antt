-- ===== src/Server/Outcomes.antt =====
-- What a result does to the job's row: `handleResult` of internal/server/server.go.
use orqestra.Base.{
  ℕ, ◌+◌, ◌≡◌, refl, true, false, Option, none, some, String, arith, ◌==◌, ==_refl, if◌then◌else◌,
  Bool-cases, inl, inr, sym, subst, ltb, ap, ◌∙◌, Outcome, done,
}
use orqestra.Queue.Interface.{JobQueue}
use orqestra.Workflow.Registry.{Registry}
use orqestra.Db.Tables.{JobStatus, JobRow, Db, found, first_where}
use orqestra.Db.Jobs.{get_job, update_job_state}
use orqestra.Db.Runs.{fail_workflow_run}
use orqestra.Db.Integrity.{job_row, job_row-id, job_row-update_job_state}
use orqestra.Service.Jobs.{is_final}
use orqestra.Server.State.{World, clear_ownership, worker_owns_job}
use orqestra.Server.Results.{
  TaskResult, ResultCalls, fail_run, handle_retry, handle_final_failure, handle_success,
  handle_failure, handle_row, handle_result,
}

-- The row that a failed attempt leaves: it is tried again as long as the retries last.
abbrev pub after_failure : JobRow → JobRow
after_failure row =
    if ltb row.retry_count row.max_retries
    then record row { status = JobStatus.retrying; retry_count = row.retry_count + 1 }
    else record row { status = JobStatus.failed }

fail_workflow_run-jobs :
    (o : Outcome) (run : ℕ) (db : Db) → (fail_workflow_run o run db).0.jobs ≡ db.jobs
unfolding fail_workflow_run
fail_workflow_run-jobs o run db = ground arith

get_done :
    (o : Outcome) (id : ℕ) (db : Db) (row : JobRow)
    → o ≡ done
    → job_row id db ≡ some row
    → get_job o id db ≡ found row
unfolding get_job
get_done o id db row g e = ground arith

update_row :
    (o : Outcome) (id : ℕ) (st : JobStatus) (n : ℕ) (db : Db) (row : JobRow)
    → o ≡ done
    → job_row id db ≡ some row
    → job_row id (update_job_state o id st n db).0
      ≡ some (record row { status = st; retry_count = n })
update_row o id st n db row u e =
    rw u (ground (arith, job_row-update_job_state id id st n db, ==_refl id))

module _ (q : JobQueue) (registry : Registry) where
  open q use {State}

  fail_run-row :
      (c : ResultCalls) (run : Option ℕ) (w : World State) (id : ℕ)
      → job_row id (fail_run q registry c run w).db ≡ job_row id w.db
  fail_run-row c none w id = refl
  fail_run-row c (some run) w id =
      ap (first_where (λ row. row.id == id)) (fail_workflow_run-jobs c.fail_run run w.db)

  retry-row :
      (c : ResultCalls) (now : ℕ) (row : JobRow) (w : World State)
      → c.update ≡ done
      → job_row row.id w.db ≡ some row
      → job_row row.id (handle_retry q registry c now row w).db
        ≡ some (record row { status = JobStatus.retrying; retry_count = row.retry_count + 1 })
  unfolding handle_retry clear_ownership
  retry-row c now row w u e =
      update_row c.update row.id JobStatus.retrying (row.retry_count + 1) w.db row u e

  final-row :
      (c : ResultCalls) (row : JobRow) (w : World State)
      → c.update ≡ done
      → job_row row.id w.db ≡ some row
      → job_row row.id (handle_final_failure q registry c row w).db
        ≡ some (record row { status = JobStatus.failed })
  unfolding handle_final_failure clear_ownership
  final-row c row w u e =
      fail_run-row c row.workflow_run_id _ row.id
      ∙ update_row c.update row.id JobStatus.failed row.retry_count w.db row u e

  failure-row :
      (c : ResultCalls) (now : ℕ) (row : JobRow) (w : World State)
      → c.update ≡ done
      → job_row row.id w.db ≡ some row
      → job_row row.id (handle_failure q registry c now row w).db ≡ some (after_failure row)
  unfolding handle_failure
  failure-row c now row w u e = elim (Bool-cases (ltb row.retry_count row.max_retries)) [
    | inl more ↦ rw (more, handle_failure) (retry-row c now row w u e)
    | inr last ↦ rw (last, handle_failure) (final-row c row w u e)
  ]

  -- The owner's result for a job that is not settled reaches its branch.
  pub reaches :
      (c : ResultCalls) (now : ℕ) (r : TaskResult) (sender : String) (w : World State)
      (row : JobRow)
      → c.get ≡ done
      → worker_owns_job r.job_id sender w ≡ true
      → job_row r.job_id w.db ≡ some row
      → is_final row.status ≡ false
      → handle_result q registry c now r sender w ≡ (
          if r.success
          then handle_success q registry c r row w
          else handle_failure q registry c now row w)
  unfolding handle_result handle_row
  reaches c now r sender w row g own e f =
      rw (own, get_done c.get r.job_id w.db row g e, f, handle_result, handle_row)

  -- If reading the job and updating it succeed, a failure that its owner reports on a job not settled
  -- yet leaves it retrying, with one more attempt counted, or, with its retries used up, failed.
  pub handle_result_failure :
      (c : ResultCalls) (now : ℕ) (r : TaskResult) (sender : String) (w : World State)
      (row : JobRow)
      → c.get ≡ done
      → c.update ≡ done
      → worker_owns_job r.job_id sender w ≡ true
      → job_row r.job_id w.db ≡ some row
      → is_final row.status ≡ false
      → r.success ≡ false
      → job_row r.job_id (handle_result q registry c now r sender w).db ≡ some (after_failure row)
  handle_result_failure c now r sender w row g u own e f s =
      let same = job_row-id r.job_id w.db.jobs row e in
      rw (reaches c now r sender w row g own e f, s)
        (subst
          (λ i. job_row i (handle_failure q registry c now row w).db ≡ some (after_failure row))
          same (failure-row c now row w u (subst (λ i. job_row i w.db ≡ some row) (sym same) e)))
