-- ===== src/Server/Paired.antt =====
-- The two maps of `Server` in internal/server/server.go, `lastSeen` and `owner`, hold the same jobs, so that
-- the reaper can tell every job that has a worker.
use orqestra.Base.{
  ℕ, ◌≡◌, refl, Bool, true, false, Option, none, some, String, arith, ◌==◌, Bool-cases, inl, inr,
  ltb, if◌then◌else◌, List, [], ◌∷◌, is_some, str_eq, Option-cases, subst, ==→≡,
}
use orqestra.Queue.Keyspace.{Job}
use orqestra.Queue.Redis.{Consumed, delivered, failed, blocked}
use orqestra.Queue.Interface.{JobQueue}
use orqestra.Workflow.Registry.{Registry}
use orqestra.Db.Tables.{JobStatus, JobRow, Query-cases}
use orqestra.Db.Jobs.{get_job, update_job_state}
use orqestra.Service.Jobs.{is_final}
use orqestra.Server.State.{
  World, clear_ownership, take_ownership, worker_owns_job, record_heartbeat,
}
use orqestra.Server.Results.{
  TaskResult, ResultCalls, advance_run, fail_run, handle_success, handle_retry,
  handle_final_failure, handle_failure, handle_row, handle_result,
}
use orqestra.Server.Work.{
  Event, ready, heartbeat, result, empty, disconnected, WorkCalls, Stream, open_, closed, waiting,
  Session, give_back, disconnect, assign, after_consume, work_event, work,
}

-- A job has an owner exactly if it has a time at which it was last heard of.
abbrev pub IsPaired : {S : Type 0} → World S → Type 0
IsPaired w = (id : ℕ) → is_some (w.owner id) ≡ is_some (w.last_seen id)

module _ {S : Type 0} where
  pub clear-IsPaired : (id : ℕ) (w : World S) → IsPaired w → IsPaired (clear_ownership id w)
  unfolding clear_ownership
  clear-IsPaired id w p i = ground (arith, p i)

  take-IsPaired :
      (id : ℕ) (worker : String) (now : ℕ) (w : World S)
      → IsPaired w
      → IsPaired (take_ownership id worker now w)
  unfolding take_ownership
  take-IsPaired id worker now w p i = ground (arith, p i)

  heartbeat-IsPaired :
      (id : ℕ) (worker : String) (now : ℕ) (w : World S)
      → IsPaired w
      → IsPaired (record_heartbeat id worker now w).0
  unfolding record_heartbeat worker_owns_job
  heartbeat-IsPaired id worker now w p i = elim (Option-cases (w.owner id)) [
    | inl e ↦ rw (e, record_heartbeat, worker_owns_job) (p i)
    | inr (owner, e) ↦ elim (Bool-cases (str_eq owner worker)) [
      | inr f ↦ rw (e, f, record_heartbeat, worker_owns_job) (p i)
      | inl f ↦ elim (Bool-cases (id == i)) [
        | inl same ↦
            let at_i : w.owner i ≡ some owner =
              subst (λ j. w.owner j ≡ some owner) (==→≡ id i same) e in
            rw (e, f, same, at_i, record_heartbeat, worker_owns_job) refl
        | inr other ↦ rw (e, f, other, record_heartbeat, worker_owns_job) (p i)
      ]
    ]
  ]

  pub if-IsPaired :
      (b : Bool) (w w' : World S) → IsPaired w → IsPaired w' → IsPaired (if b then w else w')
  if-IsPaired true w w' p p' = p
  if-IsPaired false w w' p p' = p'

module _ (q : JobQueue) (registry : Registry) where
  open q use {State}

  advance_run-IsPaired :
      (c : ResultCalls) (run : Option ℕ) (w : World State)
      → IsPaired w
      → IsPaired (advance_run q registry c run w)
  advance_run-IsPaired c none w p = p
  advance_run-IsPaired c (some run) w p = p

  fail_run-IsPaired :
      (c : ResultCalls) (run : Option ℕ) (w : World State)
      → IsPaired w
      → IsPaired (fail_run q registry c run w)
  fail_run-IsPaired c none w p = p
  fail_run-IsPaired c (some run) w p = p

  failure-IsPaired :
      (c : ResultCalls) (now : ℕ) (row : JobRow) (w : World State)
      → IsPaired w
      → IsPaired (handle_failure q registry c now row w)
  unfolding handle_failure handle_retry handle_final_failure
  failure-IsPaired c now row w p = elim (Bool-cases (ltb row.retry_count row.max_retries)) [
    | inl more ↦ rw (more, handle_failure) (clear-IsPaired row.id _ p)
    | inr last ↦
        rw (last, handle_failure)
          (fail_run-IsPaired c row.workflow_run_id _ (clear-IsPaired row.id _ p))
  ]

  row-IsPaired :
      (c : ResultCalls) (now : ℕ) (r : TaskResult) (row : JobRow) (w : World State)
      → IsPaired w
      → IsPaired (handle_row q registry c now r row w)
  unfolding handle_row handle_success
  row-IsPaired c now r row w p =
      if-IsPaired (is_final row.status) _ _ (clear-IsPaired r.job_id w p) (
        if-IsPaired r.success _ _
          (advance_run-IsPaired c row.workflow_run_id _ (clear-IsPaired r.job_id _ p))
          (failure-IsPaired c now row w p))

  pub handle_result-IsPaired :
      (c : ResultCalls) (now : ℕ) (r : TaskResult) (sender : String) (w : World State)
      → IsPaired w
      → IsPaired (handle_result q registry c now r sender w)
  unfolding handle_result
  handle_result-IsPaired c now r sender w p =
      elim (Bool-cases (worker_owns_job r.job_id sender w)) [
        | inr stranger ↦ rw (stranger, handle_result) p
        | inl owner ↦ elim (Query-cases (get_job c.get r.job_id w.db)) [
          | inl e ↦ rw (owner, e, handle_result) (clear-IsPaired r.job_id w p)
          | inr (inl e) ↦ rw (owner, e, handle_result) (clear-IsPaired r.job_id w p)
          | inr (inr (row, e)) ↦ rw (owner, e, handle_result) (row-IsPaired c now r row w p)
        ]
      ]

  give_back-IsPaired :
      (c : WorkCalls) (job : Job) (w : World State)
      → IsPaired w
      → IsPaired (give_back q registry c job w)
  unfolding give_back
  give_back-IsPaired c job w p = clear-IsPaired job.id w p

  disconnect-IsPaired :
      (c : WorkCalls) (job : Option Job) (w : World State)
      → IsPaired w
      → IsPaired (disconnect q registry c job w)
  unfolding disconnect
  disconnect-IsPaired c none w p = p
  disconnect-IsPaired c (some job) w p = give_back-IsPaired c job w p

  if_session :
      (b : Bool) (t t' : Session State)
      → IsPaired t.world
      → IsPaired t'.world
      → IsPaired (if b then t else t').world
  if_session true t t' p p' = p
  if_session false t t' p p' = p'

  assign-IsPaired :
      (c : WorkCalls) (worker : String) (in_flight : Option Job) (job : Job) (w : World State)
      → IsPaired w
      → IsPaired (assign q registry c worker in_flight job w).world
  unfolding assign
  assign-IsPaired c worker in_flight job w p =
      let p' = take-IsPaired job.id worker c.now w p in
      let w' = take_ownership job.id worker c.now w in
      let x = update_job_state c.start job.id JobStatus.running job.retry_count w'.db in
      let w'' = record w' { db = x.0 } in
      if_session x.1 _ _ (if_session c.sent _ _ p' (give_back-IsPaired c job w'' p'))
        (clear-IsPaired job.id w'' p')

  consumed-IsPaired :
      (c : WorkCalls) (worker : String) (in_flight : Option Job) (w : World State)
      (x : State × Consumed)
      → IsPaired w
      → IsPaired (after_consume q registry c worker in_flight w x).world
  consumed-IsPaired c worker in_flight w (s, delivered job) p =
      assign-IsPaired c worker in_flight job (record w { queue = s }) p
  consumed-IsPaired c worker in_flight w (s, failed) p = p
  consumed-IsPaired c worker in_flight w (s, blocked) p = p

  pub event-IsPaired :
      (c : WorkCalls) (e : Event) (in_flight : Option Job) (w : World State)
      → IsPaired w
      → IsPaired (work_event q registry c e in_flight w).world
  unfolding work_event
  event-IsPaired c disconnected in_flight w p = disconnect-IsPaired c in_flight w p
  event-IsPaired c (ready worker) in_flight w p =
      consumed-IsPaired c worker in_flight w (q.consume_job c.rounds w.queue) p
  event-IsPaired c (heartbeat worker id) in_flight w p = heartbeat-IsPaired id worker c.now w p
  event-IsPaired c (result worker r) in_flight w p =
      handle_result-IsPaired c.handle c.now r worker w p
  event-IsPaired c (empty worker) in_flight w p = p

  -- Whatever a stream brings and however the calls end, `Work` keeps a job in both maps or in neither.
  pub work-IsPaired :
      (es : List (WorkCalls × Event)) (t : Session State)
      → IsPaired t.world
      → IsPaired (work q registry es t).world
  unfolding work
  work-IsPaired [] t p = p
  work-IsPaired ((c, e) ∷ es) t p =
      let t' = work_event q registry c e t.in_flight t.world in
      let p' = event-IsPaired c e t.in_flight t.world p in
      stop t'.stream (work q registry es t') t' (work-IsPaired es t' p') p'
    where
      stop :
          (s : Stream) (rest t' : Session State)
          → IsPaired rest.world
          → IsPaired t'.world
          → let end : Session State = elim s [ open_ ↦ rest | closed ↦ t' | waiting ↦ t' ] in
            IsPaired end.world
      stop open_ rest t' p p' = p
      stop closed rest t' p p' = p'
      stop waiting rest t' p p' = p'
