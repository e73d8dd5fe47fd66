-- ===== src/System/Handlers.antt =====
-- What the handlers of internal/server do to the table of jobs, by the statements that they run.
use orqestra.Base.{
  ℕ, ◌≡◌, sym, subst, Bool, true, false, Option, none, some, List, [], ◌∷◌, ◌++◌, String, Outcome,
  Replies, if◌then◌else◌, Option-cases, inl, inr, ltb, Bool-cases, ◌+◌,
}
use orqestra.Queue.Keyspace.{Job}
use orqestra.Queue.Redis.{Consumed, delivered, failed, blocked}
use orqestra.Queue.Interface.{JobQueue}
use orqestra.Workflow.{Step}
use orqestra.Workflow.Registry.{Registry}
use orqestra.Db.Tables.{JobStatus, JobRow, Db, Query-cases, update_where}
use orqestra.Db.Jobs.{get_job, list_jobs, update_job_state}
use orqestra.Service.Jobs.{is_final}
use orqestra.Service.Workflows.{submit_step}
use orqestra.Service.Keeps.{advance-Keeps, fail-jobs}
use orqestra.Server.State.{
  World, clear_ownership, take_ownership, worker_owns_job, record_heartbeat,
}
use orqestra.Server.Results.{
  TaskResult, ResultCalls, advance_run, fail_run, handle_success, handle_retry,
  handle_final_failure, handle_failure, handle_row, handle_result,
}
use orqestra.Server.Work.{
  WorkCalls, Event, ready, heartbeat, result, empty, disconnected, Session, give_back, disconnect,
  assign, after_consume, work_event,
}
use orqestra.Server.Reaper.{ReapCalls, is_stale, is_owned, reclaim, reap_one, reap_all, reaper_tick}
use orqestra.System.Rows.{KeepsStep, update_job_state-Kept, complete_job-Kept}

module _ (P : List JobRow → Type 0)
    (changed : (p : JobRow → Bool) (f : JobRow → JobRow) (rows : List JobRow)
      → KeepsStep f
      → P rows
      → P (update_where p f rows))
    (added : (row : JobRow) (rows : List JobRow)
      → row.workflow_run_id ≡ none
      → P rows
      → P (rows ++ row ∷ []))
    (submits : (o : Replies) (run i : ℕ) (ss : List Step) (previous : String) (db : Db)
      → P db.jobs
      → P (submit_step o run i ss previous db).0.jobs)
    (q : JobQueue) (registry : Registry) where
  open q use {State}

  abbrev KeptDb : Db → Type 0
  KeptDb db = P db.jobs

  updated :
      (o : Outcome) (id : ℕ) (st : JobStatus) (n : ℕ) (db : Db)
      → KeptDb db
      → KeptDb (update_job_state o id st n db).0
  updated o id st n db k = update_job_state-Kept P changed added o id st n db k

  if-Kept :
      (b : Bool) (w w' : World State) → KeptDb w.db → KeptDb w'.db → KeptDb (if b then w else w').db
  if-Kept true w w' k h = k
  if-Kept false w w' k h = h

  advance_run-Kept :
      (c : ResultCalls) (run : Option ℕ) (w : World State)
      → KeptDb w.db
      → KeptDb (advance_run q registry c run w).db
  advance_run-Kept c none w k = k
  advance_run-Kept c (some run) w k = advance-Keeps P submits c.advance registry run w.db k

  fail_run-Kept :
      (c : ResultCalls) (run : Option ℕ) (w : World State)
      → KeptDb w.db
      → KeptDb (fail_run q registry c run w).db
  fail_run-Kept c none w k = k
  fail_run-Kept c (some run) w k = subst P (sym (fail-jobs c.fail_run run w.db)) k

  row-Kept :
      (c : ResultCalls) (now : ℕ) (r : TaskResult) (row : JobRow) (w : World State)
      → KeptDb w.db
      → KeptDb (handle_row q registry c now r row w).db
  unfolding handle_row handle_success handle_failure handle_retry handle_final_failure
      clear_ownership
  row-Kept c now r row w k = if-Kept (is_final row.status) _ _ k (
      if-Kept r.success _ _
        (advance_run-Kept c row.workflow_run_id _
          (complete_job-Kept P changed added c.complete r.job_id r.output w.db k))
        (if-Kept (ltb row.retry_count row.max_retries) _ _
          (updated c.update row.id JobStatus.retrying (row.retry_count + 1) w.db k)
          (fail_run-Kept c row.workflow_run_id _
            (updated c.update row.id JobStatus.failed row.retry_count w.db k))))

  pub handle_result-Kept :
      (c : ResultCalls) (now : ℕ) (r : TaskResult) (sender : String) (w : World State)
      → KeptDb w.db
      → KeptDb (handle_result q registry c now r sender w).db
  unfolding handle_result clear_ownership
  handle_result-Kept c now r sender w k = elim (Bool-cases (worker_owns_job r.job_id sender w)) [
    | inr stranger ↦ rw (stranger, handle_result) k
    | inl owner ↦ elim (Query-cases (get_job c.get r.job_id w.db)) [
      | inl e ↦ rw (owner, e, handle_result) k
      | inr (inl e) ↦ rw (owner, e, handle_result) k
      | inr (inr (row, e)) ↦ rw (owner, e, handle_result) (row-Kept c now r row w k)
    ]
  ]

  give_back-Kept :
      (c : WorkCalls) (job : Job) (w : World State)
      → KeptDb w.db
      → KeptDb (give_back q registry c job w).db
  unfolding give_back clear_ownership
  give_back-Kept c job w k = updated c.revert job.id JobStatus.pending job.retry_count w.db k

  if_session :
      (b : Bool) (t t' : Session State)
      → KeptDb t.world.db
      → KeptDb t'.world.db
      → KeptDb (if b then t else t').world.db
  if_session true t t' k h = k
  if_session false t t' k h = h

  assign-Kept :
      (c : WorkCalls) (worker : String) (in_flight : Option Job) (job : Job) (w : World State)
      → KeptDb w.db
      → KeptDb (assign q registry c worker in_flight job w).world.db
  unfolding assign take_ownership clear_ownership
  assign-Kept c worker in_flight job w k =
      let x = update_job_state c.start job.id JobStatus.running job.retry_count w.db in
      let k' = updated c.start job.id JobStatus.running job.retry_count w.db k in
      let w' = record (take_ownership job.id worker c.now w) { db = x.0 } in
      if_session x.1 _ _ (if_session c.sent _ _ k' (give_back-Kept c job w' k')) k'

  consumed-Kept :
      (c : WorkCalls) (worker : String) (in_flight : Option Job) (w : World State)
      (x : State × Consumed)
      → KeptDb w.db
      → KeptDb (after_consume q registry c worker in_flight w x).world.db
  consumed-Kept c worker in_flight w (s, delivered job) k =
      assign-Kept c worker in_flight job (record w { queue = s }) k
  consumed-Kept c worker in_flight w (s, failed) k = k
  consumed-Kept c worker in_flight w (s, blocked) k = k

  heartbeat-Kept :
      (id : ℕ) (worker : String) (now : ℕ) (w : World State)
      → KeptDb w.db
      → KeptDb (record_heartbeat id worker now w).0.db
  unfolding record_heartbeat
  heartbeat-Kept id worker now w k = elim (Bool-cases (worker_owns_job id worker w)) [
    | inl e ↦ rw (e, record_heartbeat) k
    | inr e ↦ rw (e, record_heartbeat) k
  ]

  pub work_event-Kept :
      (c : WorkCalls) (e : Event) (in_flight : Option Job) (w : World State)
      → KeptDb w.db
      → KeptDb (work_event q registry c e in_flight w).world.db
  unfolding work_event disconnect
  work_event-Kept c disconnected none w k = k
  work_event-Kept c disconnected (some job) w k = give_back-Kept c job w k
  work_event-Kept c (ready worker) in_flight w k =
      consumed-Kept c worker in_flight w (q.consume_job c.rounds w.queue) k
  work_event-Kept c (heartbeat worker id) in_flight w k = heartbeat-Kept id worker c.now w k
  work_event-Kept c (result worker r) in_flight w k = handle_result-Kept c.handle c.now r worker w k
  work_event-Kept c (empty worker) in_flight w k = k

  reap_all-Kept :
      (c : ReapCalls) (now : ℕ) (rows : List JobRow) (w : World State)
      → KeptDb w.db
      → KeptDb (reap_all q c now rows w).db
  unfolding reap_all reap_one reclaim clear_ownership
  reap_all-Kept c now [] w k = k
  reap_all-Kept c now (row ∷ rows) w k = reap_all-Kept c now rows _ (
      if-Kept (is_stale now (w.last_seen row.id) (is_owned (w.owner row.id))) _ _
        (updated (c.update row.id) row.id JobStatus.pending row.retry_count w.db k) k)

  pub reaper_tick-Kept :
      (c : ReapCalls) (now : ℕ) (w : World State) → KeptDb w.db → KeptDb (reaper_tick q c now w).db
  unfolding reaper_tick
  reaper_tick-Kept c now w k =
      elim (Option-cases (list_jobs c.list (some JobStatus.running) w.db)) [
        | inl e ↦ rw (e, reaper_tick) k
        | inr (rows, e) ↦ rw (e, reaper_tick) (reap_all-Kept c now rows w k)
      ]
