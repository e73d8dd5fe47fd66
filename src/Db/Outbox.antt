-- ===== src/Db/Outbox.antt =====
-- internal/db/outbox.go. The calls of a transaction end by `Replies`, Begin first and Commit last; an
-- error before Commit rolls back, and a reply to Commit that is lost leaves the changes in place.
use orqestra.Base.{
  ℕ, Bool, true, false, not, ◌&&◌, Option, none, some, List, [], ◌∷◌, ◌++◌, filter, any, String,
  ◌==◌, ◌+◌, suc, if◌then◌else◌, Outcome, attempt, answers, Replies, ltb, length,
}
use orqestra.Queue.Keyspace.{Payload}
use orqestra.Db.Tables.{JobStatus, JobRow, OutboxRow, Db, is_value, update_where, first_where}
use orqestra.Db.Jobs.{new_entry}

pub record OutboxEntry : Type 0 where
  pub id : ℕ
  pub job_id : ℕ
  pub job_type : String
  pub payload : Payload
  pub max_retries : ℕ

-- The job and its entry, which one transaction inserts.
unfoldable pub insert_with_entry : JobRow → Db → Db
insert_with_entry row db = record db {
  jobs = db.jobs ++ row ∷ [];
  outbox = db.outbox ++ new_entry db.next_entry row.id ∷ [];
  next_job = suc db.next_job;
  next_entry = suc db.next_entry;
}

unfoldable pub new_job : ℕ → ℕ → String → Payload → JobRow
new_job id max_retries job_type payload = record {
  id = id;
  status = JobStatus.pending;
  retry_count = 0;
  max_retries = max_retries;
  job_type = job_type;
  payload = payload;
  output = "";
  workflow_run_id = none;
  step_index = none;
}

-- The number that is returned; `none` is an error.
abbrev pub numbered : ℕ → Db × Bool → Db × Option ℕ
numbered id (db, ok) = (db, if ok then some id else none)

unfoldable pub insert_job : Replies → ℕ → String → Payload → Db → Db × Option ℕ
unfolding insert_with_entry new_job
insert_job o max_retries job_type payload db =
    if answers (o 0) && (answers (o 1) && answers (o 2))
    then numbered db.next_job
        (attempt (o 3) (insert_with_entry (new_job db.next_job max_retries job_type payload)) db)
    else (db, none)

-- The unique key (workflow_run_id, step_index).
unfoldable pub is_step : ℕ → ℕ → JobRow → Bool
is_step run step row = is_value row.workflow_run_id run && is_value row.step_index step

unfoldable pub new_step : ℕ → ℕ → ℕ → ℕ → Payload → JobRow
unfolding new_job
new_step id run step max_retries payload = record (new_job id max_retries "shell" payload) {
  workflow_run_id = some run;
  step_index = some step;
}

unfoldable pub insert_workflow_step : Replies → ℕ → ℕ → ℕ → Payload → Db → Db × Option ℕ
unfolding insert_with_entry new_step is_step
insert_workflow_step o run step max_retries payload db =
    if answers (o 0) && answers (o 1)
    then if any (is_step run step) db.jobs
      then numbered 0 (attempt (o 3) (λ x. x) db)
      else if answers (o 2)
      then numbered db.next_job
          (attempt (o 3) (insert_with_entry (new_step db.next_job run step max_retries payload)) db)
      else (db, none)
    else (db, none)

-- The join of the unprocessed entries with their jobs, oldest first.
unfoldable pub unprocessed : List JobRow → List OutboxRow → List OutboxEntry
unprocessed jobs [] = []
unprocessed jobs (o ∷ os) =
    let rest = unprocessed jobs os in
    if o.processed then rest else elim (first_where (λ row. row.id == o.job_id) jobs) [
      | none ↦ rest
      | some row ↦
          record {
            id = o.id;
            job_id = o.job_id;
            job_type = row.job_type;
            payload = row.payload;
            max_retries = row.max_retries;
          }
          ∷ rest
    ]

-- The entries, in a transaction; no other relay has them locked. `none` is an error.
unfoldable pub get_unprocessed_outbox : Replies → Db → Option (List OutboxEntry)
unfolding unprocessed
get_unprocessed_outbox o db =
    if answers (o 0) && answers (o 1) then some (unprocessed db.jobs db.outbox) else none

abbrev pub on_outbox : (List OutboxRow → List OutboxRow) → Db → Db
on_outbox f db = record db { outbox = f db.outbox }

abbrev pub processed_at : ℕ → OutboxRow → OutboxRow
processed_at now o = record o { processed = true; processed_at = some now }

unfoldable pub mark_outbox_processed : Outcome → ℕ → ℕ → Db → Db × Bool
mark_outbox_processed o now id db =
    attempt o (on_outbox (update_where (λ e. e.id == id) (processed_at now))) db

unfoldable pub cancel_outbox_entry : Outcome → ℕ → ℕ → Db → Db × Bool
cancel_outbox_entry o now job_id db =
    attempt o
      (on_outbox (update_where (λ e. e.job_id == job_id && not e.processed) (processed_at now))) db

-- `processed_at < NOW() - olderThan`, which NULL does not satisfy.
unfoldable pub is_stale : ℕ → ℕ → OutboxRow → Bool
is_stale now older_than e =
    e.processed && elim e.processed_at [ none ↦ false | some t ↦ ltb (t + older_than) now ]

-- The number of rows deleted; `none` is an error.
unfoldable pub cleanup_processed_outbox : Outcome → ℕ → ℕ → Db → Db × Option ℕ
unfolding is_stale
cleanup_processed_outbox o now older_than db =
    let (db', ok) = attempt o (on_outbox (filter (λ e. not (is_stale now older_than e)))) db in
    (db', if ok then some (length (filter (is_stale now older_than) db.outbox)) else none)
