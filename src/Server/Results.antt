-- ===== src/Server/Results.antt =====
-- `handleResult` of internal/server/server.go.
use orqestra.Base.{ℕ, ◌+◌, Bool, Option, none, some, String, Outcome, Replies, ltb, if◌then◌else◌}
use orqestra.Queue.Keyspace.{Job}
use orqestra.Queue.Interface.{JobQueue}
use orqestra.Workflow.Registry.{Registry}
use orqestra.Db.Tables.{JobStatus, JobRow, found, no_rows, broken}
use orqestra.Db.Jobs.{get_job, complete_job, update_job_state}
use orqestra.Db.Runs.{fail_workflow_run}
use orqestra.Service.Jobs.{is_final, bare_job}
use orqestra.Service.Workflows.{AdvanceCalls, advance}
use orqestra.Server.Backoff.{retry_delay}
use orqestra.Server.State.{World, clear_ownership, worker_owns_job}

pub record TaskResult : Type 0 where
  pub job_id : ℕ
  pub success : Bool
  pub output : String

pub record ResultCalls : Type 0 where
  pub get : Outcome
  pub ack : Replies
  pub complete : Outcome
  pub advance : AdvanceCalls
  pub update : Outcome
  pub retry : Replies
  pub fail : Replies
  pub fail_run : Outcome

abbrev pub job_of_row : JobRow → Job
job_of_row row = record {
  id = row.id;
  retry_count = row.retry_count;
  max_retries = row.max_retries;
  job_type = row.job_type;
  payload = row.payload;
}

module _ (q : JobQueue) (registry : Registry) where
  open q use {State, ack_job, retry_job, fail_job}

  abbrev pub advance_run : ResultCalls → Option ℕ → World State → World State
  advance_run c none w = w
  advance_run c (some run) w = record w { db = advance c.advance registry run w.db }

  -- Errors are logged, and the handler goes on.
  unfoldable pub handle_success : ResultCalls → TaskResult → JobRow → World State → World State
  handle_success c result row w = advance_run c row.workflow_run_id (
      clear_ownership result.job_id (record w {
        queue = (ack_job c.ack (bare_job result.job_id) w.queue).0;
        db = (complete_job c.complete result.job_id result.output w.db).0;
      }))

  unfoldable pub handle_retry : ResultCalls → ℕ → JobRow → World State → World State
  handle_retry c now row w =
      let count = row.retry_count + 1 in
      let w' =
        clear_ownership row.id
          (record w { db = (update_job_state c.update row.id JobStatus.retrying count w.db).0 }) in
      record w' {
        queue =
            (retry_job c.retry now (record (job_of_row row) { retry_count = count })
              (retry_delay count) w'.queue).0;
      }

  abbrev pub fail_run : ResultCalls → Option ℕ → World State → World State
  fail_run c none w = w
  fail_run c (some run) w = record w { db = (fail_workflow_run c.fail_run run w.db).0 }

  unfoldable pub handle_final_failure : ResultCalls → JobRow → World State → World State
  handle_final_failure c row w =
      let w' = clear_ownership row.id (record w {
        db = (update_job_state c.update row.id JobStatus.failed row.retry_count w.db).0;
      }) in
      fail_run c row.workflow_run_id
        (record w' { queue = (fail_job c.fail (job_of_row row) w'.queue).0 })

  unfoldable pub handle_failure : ResultCalls → ℕ → JobRow → World State → World State
  unfolding handle_retry handle_final_failure
  handle_failure c now row w =
      if ltb row.retry_count row.max_retries
      then handle_retry c now row w
      else handle_final_failure c row w

  -- A job that is settled already is left alone.
  unfoldable pub handle_row : ResultCalls → ℕ → TaskResult → JobRow → World State → World State
  handle_row c now result row w =
      if is_final row.status
      then clear_ownership result.job_id w
      else if result.success
      then handle_success c result row w
      else handle_failure c now row w

  unfoldable pub handle_result : ResultCalls → ℕ → TaskResult → String → World State → World State
  handle_result c now result sender w =
      if worker_owns_job result.job_id sender w
      then elim (get_job c.get result.job_id w.db) [
        | no_rows ↦ clear_ownership result.job_id w
        | broken ↦ clear_ownership result.job_id w
        | found row ↦ handle_row c now result row w
      ]
      else w
