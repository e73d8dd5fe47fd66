-- ===== src/Server/Assignment.antt =====
-- The assignment of a job to a worker: `Work` of internal/server/server.go after `Consume`.
use orqestra.Base.{
  ℕ, ◌≡◌, refl, Bool, true, false, Option, none, some, String, eq_iff, arith, ==_refl,
  if◌then◌else◌, inl, inr, ◌⊎◌,
}
use orqestra.Queue.Keyspace.{Job}
use orqestra.Queue.Interface.{JobQueue}
use orqestra.Workflow.Registry.{Registry}
use orqestra.Db.Tables.{JobStatus}
use orqestra.Db.Jobs.{update_job_state}
use orqestra.Server.State.{World, clear_ownership, take_ownership, worker_owns_job}
use orqestra.Server.Work.{WorkCalls, Session, open_, closed, task_of, give_back, assign}

module _ (q : JobQueue) (registry : Registry) where
  open q use {State}

  -- What the handler holds after an assignment: a task that is sent has an owner, who has it in flight; when
  -- none is sent, the stream ends and the job has no owner.
  abbrev pub Assigned : String → Job → Session State → Type 0
  Assigned worker job t =
      ((t.task ≡ some (task_of job))
        × (worker_owns_job job.id worker t.world ≡ true)
        × (t.in_flight ≡ some job)
        × (t.stream ≡ open_))
      ⊎ ((t.task ≡ none) × (t.world.owner job.id ≡ none) × (t.stream ≡ closed))

  took : WorkCalls → String → Job → World State → World State
  took c worker job w =
      let w' = take_ownership job.id worker c.now w in
      record w' { db = (update_job_state c.start job.id JobStatus.running job.retry_count w'.db).0 }

  took-owns :
      (c : WorkCalls) (worker : String) (job : Job) (w : World State)
      → worker_owns_job job.id worker (took c worker job w) ≡ true
  unfolding took take_ownership worker_owns_job
  took-owns c worker job w = ground (arith, ==_refl job.id, (eq_iff worker worker).1 refl)

  cleared : (id : ℕ) (w : World State) → (clear_ownership id w).owner id ≡ none
  unfolding clear_ownership
  cleared id w = ground (arith, ==_refl id)

  given_back :
      (c : WorkCalls) (job : Job) (w : World State)
      → (give_back q registry c job w).owner job.id ≡ none
  unfolding give_back clear_ownership
  given_back c job w = ground (arith, ==_refl job.id)

  if-Assigned :
      (worker : String) (job : Job) (b : Bool) (x y : Session State)
      → Assigned worker job x
      → Assigned worker job y
      → Assigned worker job (if b then x else y)
  if-Assigned worker job true x y h k = h
  if-Assigned worker job false x y h k = k

  -- After `Consume` has delivered a job, either the task is sent, and then the worker owns the job and has
  -- it in flight, or no task is sent, and then the job has no owner and the stream ends.
  pub assign-Assigned :
      (c : WorkCalls) (worker : String) (in_flight : Option Job) (job : Job) (w : World State)
      → Assigned worker job (assign q registry c worker in_flight job w)
  unfolding assign took
  assign-Assigned c worker in_flight job w =
      if-Assigned worker job
        (update_job_state c.start job.id JobStatus.running job.retry_count
          (take_ownership job.id worker c.now w).db).1
        _ _
        (if-Assigned worker job c.sent _ _ (inl (refl, took-owns c worker job w, refl, refl))
          (inr (refl, given_back c job (took c worker job w), refl)))
        (inr (refl, cleared job.id (took c worker job w), refl))
