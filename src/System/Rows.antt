-- ===== src/System/Rows.antt =====
-- What the statements of internal/db do to the table of jobs: rows change in place, but for their run and
-- their step, and rows are added.
use orqestra.Base.{
  ℕ, ◌≡◌, refl, sym, subst, Bool, true, false, none, List, [], ◌∷◌, ◌++◌, String, Outcome, done,
  refused, lost, Replies, attempt, answers, if◌then◌else◌, ◌&&◌, ◌==◌, is_some,
}
use orqestra.Queue.Keyspace.{Payload}
use orqestra.Db.Tables.{JobStatus, JobRow, Db, update_where, first_where, has_status}
use orqestra.Db.Jobs.{
  complete_job, update_job_state, reset_running_jobs, reset_running, running_ids, on_jobs,
}
use orqestra.Db.Restart.{insert_missing-jobs}
use orqestra.Db.Outbox.{insert_job, insert_with_entry, new_job, numbered}
use orqestra.Db.Runs.{cancel_workflow_run_atomic, cancel_run, cancel_jobs, commit, is_active}

-- The rows may change by `f`.
abbrev pub KeepsStep : (JobRow → JobRow) → Type 0
KeepsStep f =
    (row : JobRow)
    → ((f row).workflow_run_id ≡ row.workflow_run_id) × ((f row).step_index ≡ row.step_index)

module _ (P : List JobRow → Type 0)
    (changed : (p : JobRow → Bool) (f : JobRow → JobRow) (rows : List JobRow)
      → KeepsStep f
      → P rows
      → P (update_where p f rows))
    (added : (row : JobRow) (rows : List JobRow)
      → row.workflow_run_id ≡ none
      → P rows
      → P (rows ++ row ∷ [])) where
  abbrev Kept : Db → Type 0
  Kept db = P db.jobs

  attempt-Kept :
      (o : Outcome) (f : Db → Db) (db : Db) → Kept (f db) → Kept db → Kept (attempt o f db).0
  attempt-Kept done f db k h = k
  attempt-Kept refused f db k h = h
  attempt-Kept lost f db k h = k

  pub update_job_state-Kept :
      (o : Outcome) (id : ℕ) (st : JobStatus) (n : ℕ) (db : Db)
      → Kept db
      → Kept (update_job_state o id st n db).0
  unfolding update_job_state
  update_job_state-Kept o id st n db k =
      attempt-Kept o _ db
        (changed (λ row. row.id == id) (λ row. record row { status = st; retry_count = n }) db.jobs
          (λ row. (refl, refl)) k)
        k

  pub complete_job-Kept :
      (o : Outcome) (id : ℕ) (output : String) (db : Db)
      → Kept db
      → Kept (complete_job o id output db).0
  unfolding complete_job
  complete_job-Kept o id output db k =
      attempt-Kept o _ db
        (changed (λ row. row.id == id)
          (λ row. record row { status = JobStatus.completed; output = output }) db.jobs
          (λ row. (refl, refl)) k)
        k

  numbered-Kept : (id : ℕ) (x : Db × Bool) → Kept x.0 → Kept (numbered id x).0
  numbered-Kept id (db, ok) k = k

  if-Kept :
      {A : Type 0} (b : Bool) (x y : Db × A) → Kept x.0 → Kept y.0 → Kept (if b then x else y).0
  if-Kept true x y k h = k
  if-Kept false x y k h = h

  pub insert_job-Kept :
      (o : Replies) (max_retries : ℕ) (job_type : String) (payload : Payload) (db : Db)
      → Kept db
      → Kept (insert_job o max_retries job_type payload db).0
  unfolding insert_job insert_with_entry new_job
  insert_job-Kept o max_retries job_type payload db k =
      let row = new_job db.next_job max_retries job_type payload in
      let x = attempt (o 3) (insert_with_entry row) db in
      if-Kept (answers (o 0) && (answers (o 1) && answers (o 2))) (numbered db.next_job x)
        (db, none)
        (numbered-Kept db.next_job x
          (attempt-Kept (o 3) (insert_with_entry row) db (added row db.jobs refl k) k))
        k

  commit-Kept : (o : Outcome) (db' db : Db) → Kept db' → Kept db → Kept (commit o db' db).0
  unfolding commit
  commit-Kept done db' db k h = k
  commit-Kept refused db' db k h = h
  commit-Kept lost db' db k h = k

  pub cancel_workflow_run_atomic-Kept :
      (o : Replies) (now run : ℕ) (db : Db)
      → Kept db
      → Kept (cancel_workflow_run_atomic o now run db).0
  unfolding cancel_workflow_run_atomic cancel_jobs cancel_run
  cancel_workflow_run_atomic-Kept o now run db k =
      if-Kept (answers (o 0) && answers (o 1)) _ _
        (if-Kept (is_some (first_where (is_active run) db.runs)) _ _
          (if-Kept (answers (o 2)) _ _
            (commit-Kept (o 3) _ db
              (changed _ (λ row. record row { status = JobStatus.cancelled }) db.jobs
                (λ row. (refl, refl)) k)
              k)
            k)
          k)
        k

  pub reset_running_jobs-Kept : (o : Outcome) (db : Db) → Kept db → Kept (reset_running_jobs o db).0
  unfolding reset_running_jobs reset_running
  reset_running_jobs-Kept o db k =
      let running = has_status JobStatus.running in
      let f : JobRow → JobRow = λ row. record row { status = JobStatus.pending } in
      attempt-Kept o _ db
        (subst P
          (sym (
            insert_missing-jobs db.outbox (running_ids db.jobs)
              (on_jobs (update_where running f) db)))
          (changed running f db.jobs (λ row. (refl, refl)) k))
        k
