-- ===== src/Db/Runs.antt =====
-- internal/db/workflows.go. `true` is a nil error.
use orqestra.Base.{
  ℕ, Bool, true, not, ◌&&◌, ◌||◌, Option, none, some, List, [], ◌∷◌, ◌++◌, any, String, str_eq,
  ◌==◌, ◌+◌, suc, if◌then◌else◌, Outcome, done, attempt, answers, Replies, refused, lost, is_some,
}
use orqestra.Db.Tables.{
  JobStatus, RunStatus, JobRow, RunRow, Db, has_status, is_running, is_value, update_where,
  first_where, Query, no_rows, broken, found, of_row,
}

abbrev pub on_runs : (List RunRow → List RunRow) → Db → Db
on_runs f db = record db { runs = f db.runs }

unfoldable pub insert_run : String → ℕ → Db → Db
insert_run name total db = record db {
  runs =
      db.runs
      ++ record {
        id = db.next_run;
        workflow_name = name;
        status = RunStatus.running;
        current_step = 0;
        total_steps = total;
      }
        ∷ [];
  next_run = suc db.next_run;
}

-- The number of the new run; `none` is an error.
unfoldable pub create_workflow_run : Outcome → String → ℕ → Db → Db × Option ℕ
unfolding insert_run
create_workflow_run o name total db =
    let (db', ok) = attempt o (insert_run name total) db in
    (db', if ok then some db.next_run else none)

unfoldable pub get_workflow_run : Outcome → ℕ → Db → Query RunRow
get_workflow_run o id db =
    if answers o then of_row (first_where (λ run. run.id == id) db.runs) else broken

abbrev pub is_active : ℕ → RunRow → Bool
is_active id run = run.id == id && is_running run

unfoldable pub count_step : ℕ → Db → Db
count_step id =
    on_runs
      (update_where (is_active id) (λ run. record run { current_step = run.current_step + 1 }))

-- RETURNING current_step, total_steps, workflow_name.
unfoldable pub advanced : ℕ → Db → Query (ℕ × ℕ × String)
advanced id db = elim (first_where (is_active id) db.runs) [
  | none ↦ no_rows
  | some run ↦ found (run.current_step + 1, run.total_steps, run.workflow_name)
]

unfoldable pub advance_workflow_run : Outcome → ℕ → Db → Db × Query (ℕ × ℕ × String)
unfolding count_step advanced
advance_workflow_run done id db = (count_step id db, advanced id db)
advance_workflow_run refused id db = (db, broken)
advance_workflow_run lost id db = (count_step id db, broken)

-- The statements of `CancelWorkflowRunAtomic`.
unfoldable pub cancel_run : ℕ → Db → Db
cancel_run id =
    on_runs (update_where (is_active id) (λ run. record run { status = RunStatus.cancelled }))

unfoldable pub is_cancellable : ℕ → JobRow → Bool
is_cancellable run row =
    is_value row.workflow_run_id run
    && (has_status JobStatus.pending row || has_status JobStatus.retrying row)

unfoldable pub cancelled_ids : ℕ → List JobRow → List ℕ
unfolding is_cancellable
cancelled_ids run [] = []
cancelled_ids run (row ∷ rows) =
    if is_cancellable run row then row.id ∷ cancelled_ids run rows else cancelled_ids run rows

unfoldable pub cancel_jobs : ℕ → ℕ → Db → Db
unfolding is_cancellable cancelled_ids
cancel_jobs now run db = record db {
  jobs =
      update_where (is_cancellable run) (λ row. record row { status = JobStatus.cancelled })
        db.jobs;
  outbox =
      update_where (λ o. any (λ i. i == o.job_id) (cancelled_ids run db.jobs) && not o.processed)
        (λ o. record o { processed = true; processed_at = some now }) db.outbox;
}

-- How a call that commits ends, for callers that tell pgx.ErrNoRows apart.
pub data Committed : Type 0 where
  committed not_active failed : Committed

unfoldable pub commit : Outcome → Db → Db → Db × Committed
commit done db' db = (db', committed)
commit refused db' db = (db, failed)
commit lost db' db = (db', failed)

-- The calls are Begin, the two statements and Commit; an error in between rolls back.
unfoldable pub cancel_workflow_run_atomic : Replies → ℕ → ℕ → Db → Db × Committed
unfolding cancel_run cancel_jobs commit
cancel_workflow_run_atomic o now run db =
    if answers (o 0) && answers (o 1)
    then if is_some (first_where (is_active run) db.runs)
      then if answers (o 2)
        then commit (o 3) (cancel_jobs now run (cancel_run run db)) db
        else (db, failed)
      else (db, not_active)
    else (db, failed)

unfoldable pub has_active_workflow_run : Outcome → String → Db → Query Bool
has_active_workflow_run o name db =
    if answers o
    then found (any (λ run. str_eq run.workflow_name name && is_running run) db.runs)
    else broken

newest_first : List RunRow → List RunRow
newest_first [] = []
newest_first (run ∷ runs) = newest_first runs ++ run ∷ []

unfoldable pub list_workflow_runs : Outcome → Db → Option (List RunRow)
unfolding newest_first
list_workflow_runs o db = if answers o then some (newest_first db.runs) else none

abbrev pub set_status : RunStatus → ℕ → Db → Db
set_status st id = on_runs (update_where (λ run. run.id == id) (λ run. record run { status = st }))

unfoldable pub complete_workflow_run : Outcome → ℕ → Db → Db × Bool
complete_workflow_run o id db = attempt o (set_status RunStatus.completed id) db

unfoldable pub fail_workflow_run : Outcome → ℕ → Db → Db × Bool
fail_workflow_run o id db = attempt o (set_status RunStatus.failed id) db

-- The indices of a `map[int]bool`, as its test; `none` is an error.
unfoldable pub get_completed_step_indices : Outcome → ℕ → Db → Option (ℕ → Bool)
get_completed_step_indices o run db =
    if answers o
    then some (λ i.
      any
        (λ row.
          is_value row.workflow_run_id run
          && (has_status JobStatus.completed row && is_value row.step_index i))
        db.jobs)
    else none

unfoldable pub get_submitted_step_indices : Outcome → ℕ → Db → Option (ℕ → Bool)
get_submitted_step_indices o run db =
    if answers o
    then some
        (λ i. any (λ row. is_value row.workflow_run_id run && is_value row.step_index i) db.jobs)
    else none
