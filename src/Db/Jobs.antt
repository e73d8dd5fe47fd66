-- ===== src/Db/Jobs.antt =====
-- internal/db/jobs.go. `true` is a nil error.
use orqestra.Base.{
  ℕ, Bool, false, not, ◌&&◌, Option, none, some, List, [], ◌∷◌, ◌++◌, filter, any, String, ◌==◌,
  suc, if◌then◌else◌, Outcome, attempt, answers,
}
use orqestra.Db.Tables.{
  JobStatus, JobRow, OutboxRow, Db, has_status, is_value, update_where, first_where, Query, no_rows,
  broken, found, of_row,
}

abbrev pub on_jobs : (List JobRow → List JobRow) → Db → Db
on_jobs f db = record db { jobs = f db.jobs }

complete : ℕ → String → Db → Db
complete id output = on_jobs (
    update_where (λ row. row.id == id)
      (λ row. record row { status = JobStatus.completed; output = output }))

unfoldable pub complete_job : Outcome → ℕ → String → Db → Db × Bool
unfolding complete
complete_job o id output db = attempt o (complete id output) db

set_state : ℕ → JobStatus → ℕ → Db → Db
set_state id st retry_count = on_jobs (
    update_where (λ row. row.id == id)
      (λ row. record row { status = st; retry_count = retry_count }))

unfoldable pub update_job_state : Outcome → ℕ → JobStatus → ℕ → Db → Db × Bool
unfolding set_state
update_job_state o id st retry_count db = attempt o (set_state id st retry_count) db

-- The ids that `UPDATE … RETURNING id` lists.
unfoldable pub running_ids : List JobRow → List ℕ
running_ids [] = []
running_ids (row ∷ rows) =
    if has_status JobStatus.running row then row.id ∷ running_ids rows else running_ids rows

-- Whether a job has an unprocessed entry.
unfoldable pub has_open_entry : List OutboxRow → ℕ → Bool
has_open_entry rows id = any (λ o. o.job_id == id && not o.processed) rows

abbrev pub new_entry : ℕ → ℕ → OutboxRow
new_entry id job_id = record { id = id; job_id = job_id; processed = false; processed_at = none }

-- INSERT … SELECT … WHERE NOT EXISTS, which looks at the entries from before the statement.
unfoldable pub insert_missing : List OutboxRow → List ℕ → Db → Db
unfolding has_open_entry
insert_missing before [] db = db
insert_missing before (id ∷ ids) db = insert_missing before ids (
    if has_open_entry before id then db else record db {
      outbox = db.outbox ++ new_entry db.next_entry id ∷ [];
      next_entry = suc db.next_entry;
    })

unfoldable pub reset_running : Db → Db
unfolding running_ids insert_missing
reset_running db = insert_missing db.outbox (running_ids db.jobs) (
    on_jobs
      (update_where (has_status JobStatus.running)
        (λ row. record row { status = JobStatus.pending }))
      db)

unfoldable pub reset_running_jobs : Outcome → Db → Db × Bool
unfolding reset_running
reset_running_jobs o db = attempt o reset_running db

unfoldable pub get_job : Outcome → ℕ → Db → Query JobRow
get_job o id db = if answers o then of_row (first_where (λ row. row.id == id) db.jobs) else broken

step_output : JobRow → String
step_output row = row.output

unfoldable pub get_job_output_by_workflow_step : Outcome → ℕ → ℕ → Db → Query String
unfolding step_output
get_job_output_by_workflow_step o run step db =
    if answers o
    then elim (first_where
        (λ row.
          is_value row.workflow_run_id run
          && (is_value row.step_index step && has_status JobStatus.completed row))
        db.jobs) [ none ↦ no_rows | some row ↦ found (step_output row) ]
    else broken

-- ORDER BY id DESC.
unfoldable pub newest_first : List JobRow → List JobRow
newest_first [] = []
newest_first (row ∷ rows) = newest_first rows ++ row ∷ []

-- A status of `none` is the empty string. An error is `none`.
unfoldable pub list_jobs : Outcome → Option JobStatus → Db → Option (List JobRow)
unfolding newest_first
list_jobs o none db = if answers o then some (newest_first db.jobs) else none
list_jobs o (some st) db =
    if answers o then some (newest_first (filter (has_status st) db.jobs)) else none
