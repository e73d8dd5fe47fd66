-- ===== src/Api.antt =====
-- internal/api: the handlers of handler.go behind the check of the API key in middleware.go. A request is
-- what net/http and encoding/json make of it, with `none` for a path value or a body that they refuse; the
-- SHA-256 hash is a parameter.
pub mod Requests
pub mod Access
pub mod Routes
pub mod Encoding
use orqestra.Base.{
  ℕ, pos, negsuc, answers, Bool, true, false, ◌&&◌, not, Option, none, some, List, [], ◌∷◌, map,
  String, str_eq, length, Outcome, Replies, if◌then◌else◌,
}
use orqestra.Queue.Interface.{JobQueue}
use orqestra.Workflow.Registry.{Registry}
use orqestra.Db.Tables.{Db, JobRow, RunRow, Query, found, no_rows, broken}
use orqestra.Db.ApiKeys.{ApiKey, validate_api_key}
use orqestra.Db.Runs.{Committed, committed, not_active, failed}
use orqestra.Service.Jobs.{CancelCalls, Cancelled, ok, submit_job, job_status, jobs_with, cancel}
use orqestra.Service.Workflows.{
  TriggerCalls, trigger_workflow, get_workflow_status, list_runs, cancel_workflow_run,
}
use Requests.{
  Request, submits, reads_job, lists_jobs, cancels_job, lists_workflows, triggers, lists_runs,
  reads_run, cancels_run, Filter, any_status, with_status, unknown_status, Body, error, job_id,
  run_id, job, jobs, run, runs, workflows, Response, respond, Header, bearer, no_bearer, ApiCalls,
  of_workflow,
}

abbrev created : Option ℕ → (ℕ → Body) → ℕ → Response
created (some id) body status = respond 201 (body id)
created none body status = respond status error

abbrev one {ℓ} : {A : Type ℓ} → (A → Body) → Query A → Response
one body (found a) = respond 200 (body a)
one body no_rows = respond 404 error
one body broken = respond 500 error

abbrev many {ℓ} : {A : Type ℓ} → (List A → Body) → Option (List A) → Response
many body (some rows) = respond 200 (body rows)
many body none = respond 500 error

abbrev pub cancelled_job : ℕ → Cancelled → Response
cancelled_job id ok = respond 200 (job_id id)
cancelled_job id _ = respond 400 error

abbrev cancelled_run : ℕ → Committed → Response
cancelled_run id committed = respond 200 (run_id id)
cancelled_run id not_active = respond 404 error
cancelled_run id failed = respond 500 error

-- No row has a number below zero.
abbrev missing {ℓ} : {A : Type ℓ} → Outcome → Query A
missing o = if answers o then no_rows else broken

abbrev not_cancelled : Replies → Committed
not_cancelled o = if answers (o 0) && answers (o 1) then not_active else failed

-- A status that no job has selects no row.
abbrev jobs_of : Outcome → Filter → Db → Option (List JobRow)
jobs_of o any_status db = jobs_with o none db
jobs_of o (with_status st) db = jobs_with o (some st) db
jobs_of o unknown_status db = elim (jobs_with o none db) [ none ↦ none | some _ ↦ some [] ]

abbrev pub is_valid : Query Bool → Bool
is_valid (found valid) = valid
is_valid no_rows = false
is_valid broken = false

module _ (q : JobQueue) where
  open q use {State}

  -- The handlers.
  unfoldable pub handle : ApiCalls → Registry → ℕ → Request → Db → State → Db × State × Response
  handle c registry now (submits none) db s = (db, s, respond 400 error)
  handle c registry now (submits (some (max_retries, job_type, payload))) db s =
      let (db', id) = submit_job c.insert max_retries job_type payload db in
      (db', s, created id job_id 500)
  handle c registry now (reads_job none) db s = (db, s, respond 400 error)
  handle c registry now (reads_job (some (pos id))) db s =
      (db, s, one job (job_status c.read id db))
  handle c registry now (reads_job (some (negsuc n))) db s = (db, s, one job (missing c.read))
  handle c registry now (lists_jobs f) db s = (db, s, many jobs (jobs_of c.read f db))
  handle c registry now (cancels_job none) db s = (db, s, respond 400 error)
  handle c registry now (cancels_job (some (pos id))) db s =
      let (db', s', result) = cancel q c.cancel now id db s in (db', s', cancelled_job id result)
  handle c registry now (cancels_job (some (negsuc n))) db s = (db, s, respond 400 error)
  handle c registry now lists_workflows db s =
      (db, s, respond 200 (workflows (map of_workflow registry)))
  handle c registry now (triggers name) db s =
      let (db', id) = trigger_workflow c.trigger registry name db in (db', s, created id run_id 400)
  handle c registry now lists_runs db s = (db, s, many runs (list_runs c.read db))
  handle c registry now (reads_run none) db s = (db, s, respond 400 error)
  handle c registry now (reads_run (some (pos id))) db s =
      (db, s, one run (get_workflow_status c.read id db))
  handle c registry now (reads_run (some (negsuc n))) db s = (db, s, one run (missing c.read))
  handle c registry now (cancels_run none) db s = (db, s, respond 400 error)
  handle c registry now (cancels_run (some (pos id))) db s =
      let (db', result) = cancel_workflow_run c.cancel_run now id db in
      (db', s, cancelled_run id result)
  handle c registry now (cancels_run (some (negsuc n))) db s =
      (db, s, cancelled_run 0 (not_cancelled c.cancel_run))

  -- `authMiddleware` before the handlers.
  unfoldable pub serve :
      (String → String)
      → List ApiKey
      → ApiCalls
      → Registry
      → ℕ
      → Header
      → Request
      → Db
      → State
      → Db × State × Response
  serve hash keys c registry now no_bearer r db s = (db, s, respond 401 error)
  serve hash keys c registry now (bearer key) r db s =
      let handled = handle c registry now r db s in
      if str_eq key ""
      then (db, s, respond 401 error)
      else if is_valid (validate_api_key c.auth (hash key) keys)
      then handled
      else (db, s, respond 401 error)
