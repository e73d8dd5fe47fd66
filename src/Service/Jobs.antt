-- ===== src/Service/Jobs.antt =====
-- internal/service/job_service.go.
use orqestra.Base.{ℕ, Bool, true, false, Option, List, String, Outcome, Replies, if◌then◌else◌}
use orqestra.Queue.Keyspace.{Job, Payload, other}
use orqestra.Queue.Interface.{JobQueue}
use orqestra.Db.Tables.{JobStatus, JobRow, Db, Query, found, no_rows, broken}
use orqestra.Db.Jobs.{get_job, list_jobs, update_job_state}
use orqestra.Db.Outbox.{insert_job, cancel_outbox_entry}

abbrev pub submit_job : Replies → ℕ → String → Payload → Db → Db × Option ℕ
submit_job o max_retries job_type payload db = insert_job o max_retries job_type payload db

abbrev pub job_status : Outcome → ℕ → Db → Query JobRow
job_status o id db = get_job o id db

abbrev pub jobs_with : Outcome → Option JobStatus → Db → Option (List JobRow)
jobs_with o st db = list_jobs o st db

-- A settled job is not cancelled.
abbrev pub is_final : JobStatus → Bool
is_final JobStatus.completed = true
is_final JobStatus.failed = true
is_final JobStatus.cancelled = true
is_final _ = false

-- What `CancelJob` returns: nil, the error of `GetJob`, the refusal of a settled job, or the error of
-- the update.
pub data Cancelled : Type 0 where
  ok : Cancelled
  not_found : Cancelled
  get_failed : Cancelled
  already : JobStatus → Cancelled
  update_failed : Cancelled

pub record CancelCalls : Type 0 where
  pub get : Outcome
  pub update : Outcome
  pub outbox : Outcome
  pub queue : Replies

-- `queue.Job{ID: jobID}`.
abbrev pub bare_job : ℕ → Job
bare_job id = record {
  id = id;
  retry_count = 0;
  max_retries = 0;
  job_type = "";
  payload = other "";
}

module _ (q : JobQueue) where
  open q use {State, cancel_job}

  -- The errors of the last two calls are logged or dropped.
  unfoldable pub cancel_row : CancelCalls → ℕ → ℕ → JobRow → Db → State → Db × State × Cancelled
  cancel_row c now id row db s =
      if is_final row.status
      then (db, s, already row.status)
      else let (db', updated) =
          update_job_state c.update id JobStatus.cancelled row.retry_count db in
        if updated
        then (
          (cancel_outbox_entry c.outbox now id db').0,
          (cancel_job c.queue (bare_job id) s).0,
          ok,
        )
        else (db', s, update_failed)

  unfoldable pub cancel : CancelCalls → ℕ → ℕ → Db → State → Db × State × Cancelled
  unfolding cancel_row
  cancel c now id db s = elim (get_job c.get id db) [
    | no_rows ↦ (db, s, not_found)
    | broken ↦ (db, s, get_failed)
    | found row ↦ cancel_row c now id row db s
  ]
