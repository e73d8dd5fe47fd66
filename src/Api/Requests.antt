-- ===== src/Api/Requests.antt =====
-- The requests and responses of internal/api/handler.go.
use orqestra.Base.{ℕ, ℤ, Option, List, String, length, Outcome, Replies}
use orqestra.Queue.Keyspace.{Payload}
use orqestra.Workflow.{Workflow}
use orqestra.Db.Tables.{JobStatus, JobRow, RunRow}
use orqestra.Service.Jobs.{CancelCalls}
use orqestra.Service.Workflows.{TriggerCalls}

-- The query value `status`.
pub data Filter : Type 0 where
  any_status : Filter
  with_status : JobStatus → Filter
  unknown_status : Filter

-- The routes of `NewRouter`.
pub data Request : Type 0 where
  submits : Option (ℕ × String × Payload) → Request
  lists_jobs : Filter → Request
  reads_job cancels_job reads_run cancels_run : Option ℤ → Request
  lists_workflows : Request
  triggers : String → Request
  lists_runs : Request

pub record Summary : Type 0 where
  pub name : String
  pub schedule : String
  pub step_count : ℕ

abbrev pub of_workflow : Workflow → Summary
of_workflow w = record { name = w.name; schedule = w.schedule; step_count = length w.steps }

-- What is encoded as JSON; the texts of errors are left out.
pub data Body : Type 0 where
  error : Body
  job_id run_id : ℕ → Body
  job : JobRow → Body
  jobs : List JobRow → Body
  run : RunRow → Body
  runs : List RunRow → Body
  workflows : List Summary → Body

pub record Response : Type 0 where
  pub status : ℕ
  pub body : Body

abbrev pub respond : ℕ → Body → Response
respond status body = record { status = status; body = body }

-- The header `Authorization`, by whether `strings.CutPrefix` finds "Bearer ".
pub data Header : Type 0 where
  bearer : String → Header
  no_bearer : Header

pub record ApiCalls : Type 0 where
  pub auth : Outcome
  pub read : Outcome
  pub insert : Replies
  pub cancel : CancelCalls
  pub trigger : TriggerCalls
  pub cancel_run : Replies
