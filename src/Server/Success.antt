-- ===== src/Server/Success.antt =====
-- A job whose worker reports success: `handleResult` of internal/server/server.go.
use orqestra.Base.{ℕ, ◌≡◌, true, false, Option, none, some, String, arith, ==_refl, Outcome, done}
use orqestra.Queue.Interface.{JobQueue}
use orqestra.Workflow.Registry.{Registry}
use orqestra.Db.Tables.{JobStatus, JobRow, Db}
use orqestra.Db.Jobs.{complete_job}
use orqestra.Db.Integrity.{job_row, job_row-complete_job}
use orqestra.Service.Jobs.{is_final}
use orqestra.Service.Progress.{advance-job_row}
use orqestra.Server.State.{World, clear_ownership, worker_owns_job}
use orqestra.Server.Results.{TaskResult, ResultCalls, advance_run, handle_success, handle_result}
use orqestra.Server.Outcomes.{reaches}

abbrev completed_with : String → JobRow → JobRow
completed_with output row = record row { status = JobStatus.completed; output = output }

completed_row :
    (o : Outcome) (id : ℕ) (output : String) (db : Db) (row : JobRow)
    → o ≡ done
    → job_row id db ≡ some row
    → job_row id (complete_job o id output db).0 ≡ some (completed_with output row)
completed_row o id output db row u e =
    rw u (ground (arith, job_row-complete_job id id output db, ==_refl id))

module _ (q : JobQueue) (registry : Registry) where
  open q use {State}

  advance_run-row :
      (c : ResultCalls) (run : Option ℕ) (w : World State) (id : ℕ) (row : JobRow)
      → job_row id w.db ≡ some row
      → job_row id (advance_run q registry c run w).db ≡ some row
  advance_run-row c none w id row h = h
  advance_run-row c (some run) w id row h = advance-job_row c.advance registry run w.db id row h

  success-row :
      (c : ResultCalls) (r : TaskResult) (row : JobRow) (w : World State)
      → c.complete ≡ done
      → job_row r.job_id w.db ≡ some row
      → job_row r.job_id (handle_success q registry c r row w).db
        ≡ some (completed_with r.output row)
  unfolding handle_success clear_ownership
  success-row c r row w u e =
      advance_run-row c row.workflow_run_id _ r.job_id (completed_with r.output row)
        (completed_row c.complete r.job_id r.output w.db row u e)

  -- If reading the job and completing it succeed, a success that its owner reports on a job not
  -- settled yet leaves the job completed, with the output that is reported, also after the run of its
  -- workflow has advanced.
  pub handle_result_success :
      (c : ResultCalls) (now : ℕ) (r : TaskResult) (sender : String) (w : World State)
      (row : JobRow)
      → c.get ≡ done
      → c.complete ≡ done
      → worker_owns_job r.job_id sender w ≡ true
      → job_row r.job_id w.db ≡ some row
      → is_final row.status ≡ false
      → r.success ≡ true
      → job_row r.job_id (handle_result q registry c now r sender w).db
        ≡ some (record row { status = JobStatus.completed; output = r.output })
  unfolding handle_success
  handle_result_success c now r sender w row g u own e f s =
      rw (reaches q registry c now r sender w row g own e f, s) (success-row c r row w u e)
