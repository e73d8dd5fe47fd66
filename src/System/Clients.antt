-- ===== src/System/Clients.antt =====
-- What a request to internal/api and a tick of internal/scheduler do to the table of jobs.
use orqestra.Base.{
  ℕ, ◌≡◌, sym, subst, Bool, true, false, none, some, List, [], ◌∷◌, ◌++◌, String, Replies, inl, inr,
  Bool-cases, pos, negsuc,
}
use orqestra.Queue.Interface.{JobQueue}
use orqestra.Workflow.{Step}
use orqestra.Workflow.Registry.{Registry}
use orqestra.Db.Tables.{JobStatus, JobRow, Db, Query-cases, update_where}
use orqestra.Db.Jobs.{get_job, update_job_state}
use orqestra.Db.ApiKeys.{ApiKey}
use orqestra.Service.Jobs.{is_final, CancelCalls, cancel, cancel_row}
use orqestra.Service.Cancellation.{cancel_outbox-jobs}
use orqestra.Service.Workflows.{submit_step, has_active_run}
use orqestra.Service.Keeps.{trigger-Keeps}
use orqestra.Scheduler.{TickCalls, tick}
use orqestra.Api.Requests.{
  Request, reads_job, lists_jobs, cancels_job, lists_workflows, triggers, lists_runs, reads_run,
  cancels_run, Header, ApiCalls,
}
use orqestra.Api.{handle, serve}
use orqestra.Api.Access.{serve_refuses}
use orqestra.System.Rows.{
  KeepsStep, update_job_state-Kept, insert_job-Kept, cancel_workflow_run_atomic-Kept,
}

module _ (P : List JobRow → Type 0)
    (changed : (p : JobRow → Bool) (f : JobRow → JobRow) (rows : List JobRow)
      → KeepsStep f
      → P rows
      → P (update_where p f rows))
    (added : (row : JobRow) (rows : List JobRow)
      → row.workflow_run_id ≡ none
      → P rows
      → P (rows ++ row ∷ []))
    (submits : (o : Replies) (run i : ℕ) (ss : List Step) (previous : String) (db : Db)
      → P db.jobs
      → P (submit_step o run i ss previous db).0.jobs)
    (q : JobQueue) (registry : Registry) where
  open q use {State}

  abbrev KeptDb : Db → Type 0
  KeptDb db = P db.jobs

  cancel_row-Kept :
      (c : CancelCalls) (now id : ℕ) (row : JobRow) (db : Db) (s : State)
      → KeptDb db
      → KeptDb (cancel_row q c now id row db s).0
  unfolding cancel_row
  cancel_row-Kept c now id row db s k =
      let x = update_job_state c.update id JobStatus.cancelled row.retry_count db in
      let k' =
        update_job_state-Kept P changed added c.update id JobStatus.cancelled row.retry_count db
          k in
      elim (Bool-cases (is_final row.status)) [
        | inl f ↦ rw (f, cancel_row) k
        | inr f ↦ elim (Bool-cases x.1) [
          | inl u ↦
              rw (f, u, cancel_row) (subst P (sym (cancel_outbox-jobs c.outbox now id x.0)) k')
          | inr u ↦ rw (f, u, cancel_row) k'
        ]
      ]

  cancel-Kept :
      (c : CancelCalls) (now id : ℕ) (db : Db) (s : State)
      → KeptDb db
      → KeptDb (cancel q c now id db s).0
  unfolding cancel
  cancel-Kept c now id db s k = elim (Query-cases (get_job c.get id db)) [
    | inl e ↦ rw (e, cancel) k
    | inr (inl e) ↦ rw (e, cancel) k
    | inr (inr (row, e)) ↦ rw (e, cancel) (cancel_row-Kept c now id row db s k)
  ]

  handle-Kept :
      (c : ApiCalls) (now : ℕ) (r : Request) (db : Db) (s : State)
      → KeptDb db
      → KeptDb (handle q c registry now r db s).0
  unfolding handle
  handle-Kept c now (Request.submits none) db s k = k
  handle-Kept c now (Request.submits (some (max_retries, job_type, payload))) db s k =
      insert_job-Kept P changed added c.insert max_retries job_type payload db k
  handle-Kept c now (reads_job none) db s k = k
  handle-Kept c now (reads_job (some (pos id))) db s k = k
  handle-Kept c now (reads_job (some (negsuc n))) db s k = k
  handle-Kept c now (lists_jobs f) db s k = k
  handle-Kept c now (cancels_job none) db s k = k
  handle-Kept c now (cancels_job (some (pos id))) db s k = cancel-Kept c.cancel now id db s k
  handle-Kept c now (cancels_job (some (negsuc n))) db s k = k
  handle-Kept c now lists_workflows db s k = k
  handle-Kept c now (triggers name) db s k = trigger-Keeps P submits c.trigger registry name db k
  handle-Kept c now lists_runs db s k = k
  handle-Kept c now (reads_run none) db s k = k
  handle-Kept c now (reads_run (some (pos id))) db s k = k
  handle-Kept c now (reads_run (some (negsuc n))) db s k = k
  handle-Kept c now (cancels_run none) db s k = k
  handle-Kept c now (cancels_run (some (pos id))) db s k =
      cancel_workflow_run_atomic-Kept P changed added c.cancel_run now id db k
  handle-Kept c now (cancels_run (some (negsuc n))) db s k = k

  pub serve-Kept :
      (hash : String → String) (keys : List ApiKey) (c : ApiCalls) (now : ℕ) (header : Header)
      (r : Request) (db : Db) (s : State)
      → KeptDb db
      → KeptDb (serve q hash keys c registry now header r db s).0
  serve-Kept hash keys c now header r db s k =
      elim (serve_refuses q hash keys c registry now header r db s) [
        | inl e ↦ rw e k
        | inr (_, e) ↦ rw e (handle-Kept c now r db s k)
      ]

  pub tick-Kept :
      (c : TickCalls) (name : String) (db : Db) → KeptDb db → KeptDb (tick c registry name db)
  unfolding tick
  tick-Kept c name db k = elim (Query-cases (has_active_run c.active name db)) [
    | inl e ↦ rw (e, tick) k
    | inr (inl e) ↦ rw (e, tick) k
    | inr (inr (true, e)) ↦ rw (e, tick) k
    | inr (inr (false, e)) ↦ rw (e, tick) (trigger-Keeps P submits c.trigger registry name db k)
  ]
