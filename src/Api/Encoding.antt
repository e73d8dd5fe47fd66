-- ===== src/Api/Encoding.antt =====
-- `writeJSON` and `writeError` of internal/api/handler.go, with the tags of internal/db/jobs.go and
-- internal/db/workflows.go: the responses as documents. The texts of errors, and the text of a payload, are
-- parameters.
use orqestra.Base.{pos, [], ◌∷◌, ◌++◌, map, String, str_eq, if◌then◌else◌}
use orqestra.Queue.Keyspace.{Payload}
use orqestra.Db.Tables.{JobStatus, RunStatus, JobRow, RunRow}
use orqestra.Cli.Json.{number, string, Object, entry, Document, map_of, array_of}
use orqestra.Api.Requests.{
  Body, error, job_id, run_id, job, jobs, run, runs, workflows, Summary, Request, cancels_job,
  cancels_run,
}

-- The texts of the columns `status`.
unfoldable pub job_status_text : JobStatus → String
job_status_text JobStatus.pending = "pending"
job_status_text JobStatus.running = "running"
job_status_text JobStatus.retrying = "retrying"
job_status_text JobStatus.completed = "completed"
job_status_text JobStatus.failed = "failed"
job_status_text JobStatus.cancelled = "cancelled"

unfoldable pub run_status_text : RunStatus → String
run_status_text RunStatus.running = "running"
run_status_text RunStatus.completed = "completed"
run_status_text RunStatus.failed = "failed"
run_status_text RunStatus.cancelled = "cancelled"

unfoldable pub encode_run : RunRow → Object
unfolding run_status_text
encode_run r =
    ("id", number (pos r.id))
    ∷ ("workflow_name", string r.workflow_name)
    ∷ ("status", string (run_status_text r.status))
    ∷ ("current_step", number (pos r.current_step))
    ∷ ("total_steps", number (pos r.total_steps))
    ∷ []

-- `omitempty` leaves an empty schedule out.
unfoldable pub encode_summary : Summary → Object
encode_summary s =
    ("name", string s.name)
    ∷ ((if str_eq s.schedule "" then [] else ("schedule", string s.schedule) ∷ [])
        ++ ("step_count", number (pos s.step_count)) ∷ [])

module _ (message : String) (payload_text : Payload → String) where
  unfoldable pub encode_job : JobRow → Object
  unfolding job_status_text
  encode_job r =
      ("id", number (pos r.id))
      ∷ ("status", string (job_status_text r.status))
      ∷ ("retry_count", number (pos r.retry_count))
      ∷ ("max_retries", number (pos r.max_retries))
      ∷ ("type", string r.job_type)
      ∷ ("payload", string (payload_text r.payload))
      ∷ ("output", string r.output)
      ∷ []

  -- Cancelling answers with the status too.
  status_of : Request → Object
  status_of (cancels_job id) = ("status", string "cancelled") ∷ []
  status_of (cancels_run id) = ("status", string "cancelled") ∷ []
  status_of _ = []

  unfoldable pub encode : Request → Body → Document
  unfolding encode_job encode_run encode_summary status_of
  encode r error = map_of (("error", string message) ∷ [])
  encode r (job_id id) = map_of (("job_id", number (pos id)) ∷ status_of r)
  encode r (run_id id) = map_of (("run_id", number (pos id)) ∷ status_of r)
  encode r (job row) = map_of (encode_job row)
  encode r (jobs rows) = array_of (map (λ row. entry (encode_job row)) rows)
  encode r (run row) = map_of (encode_run row)
  encode r (runs rows) = array_of (map (λ row. entry (encode_run row)) rows)
  encode r (workflows ws) = array_of (map (λ w. entry (encode_summary w)) ws)
