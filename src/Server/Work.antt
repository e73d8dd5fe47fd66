-- ===== src/Server/Work.antt =====
-- `Work` of internal/server/server.go: one stream of a worker, message by message.
use Prim.Native.Nat.{◌%◌}
use orqestra.Base.{
  ℕ, ◌^◌, Bool, Option, none, some, List, [], ◌∷◌, String, Outcome, Replies, if◌then◌else◌,
}
use orqestra.Queue.Keyspace.{Job, Payload}
use orqestra.Queue.Redis.{Round, Consumed, delivered, failed, blocked}
use orqestra.Queue.Interface.{JobQueue}
use orqestra.Workflow.Registry.{Registry}
use orqestra.Db.Tables.{JobStatus}
use orqestra.Db.Jobs.{update_job_state}
use orqestra.Server.State.{World, clear_ownership, take_ownership, record_heartbeat}
use orqestra.Server.Results.{TaskResult, ResultCalls, handle_result}

-- `pb.TaskAssignment`; the int32 fields are bit patterns.
pub record Task : Type 0 where
  pub job_id : ℕ
  pub job_type : String
  pub payload : Payload
  pub retry_count : ℕ
  pub max_retries : ℕ

abbrev pub int32 : ℕ → ℕ
int32 n = n % 2 ^ 32

abbrev pub task_of : Job → Task
task_of job = record {
  job_id = int32 job.id;
  job_type = job.job_type;
  payload = job.payload;
  retry_count = int32 job.retry_count;
  max_retries = int32 job.max_retries;
}

-- What `Recv` returns: a worker's message, or an error.
pub data Event : Type 0 where
  ready : String → Event
  heartbeat : String → ℕ → Event
  result : String → TaskResult → Event
  empty : String → Event
  disconnected : Event

pub record WorkCalls : Type 0 where
  pub now : ℕ
  pub rounds : List Round
  pub start : Outcome
  pub sent : Bool
  pub revert : Outcome
  pub requeue : Replies
  pub handle : ResultCalls

-- What becomes of the stream: it reads on, it returns, or it still waits in `Consume`.
pub data Stream : Type 0 where
  open_ closed waiting : Stream

-- `inFlight` is the local variable of the handler.
pub record Session (S : Type 0) : Type 0 where
  pub world : World S
  pub in_flight : Option Job
  pub stream : Stream
  pub task : Option Task

module _ (q : JobQueue) (registry : Registry) where
  open q use {State, consume_job, retry_job}

  abbrev pub session : World State → Option Job → Stream → Session State
  session w job st = record { world = w; in_flight = job; stream = st; task = none }

  -- The clean-up after a lost worker.
  unfoldable pub give_back : WorkCalls → Job → World State → World State
  give_back c job w =
      let w' = clear_ownership job.id w in
      record w' {
        db = (update_job_state c.revert job.id JobStatus.pending job.retry_count w'.db).0;
        queue = (retry_job c.requeue c.now job 0 w'.queue).0;
      }

  unfoldable pub disconnect : WorkCalls → Option Job → World State → World State
  unfolding give_back
  disconnect c none w = w
  disconnect c (some job) w = give_back c job w

  -- After `Consume` has delivered a job.
  unfoldable pub assign : WorkCalls → String → Option Job → Job → World State → Session State
  unfolding give_back
  assign c worker in_flight job w =
      let w' = take_ownership job.id worker c.now w in
      let (db', started) =
        update_job_state c.start job.id JobStatus.running job.retry_count w'.db in
      let w'' = record w' { db = db' } in
      if started
      then if c.sent
        then record (session w'' (some job) open_) { task = some (task_of job) }
        else session (give_back c job w'') (some job) closed
      else session (clear_ownership job.id w'') in_flight closed

  abbrev pub after_consume :
      WorkCalls → String → Option Job → World State → State × Consumed → Session State
  after_consume c worker in_flight w (s, delivered job) =
      assign c worker in_flight job (record w { queue = s })
  after_consume c worker in_flight w (s, failed) = session (record w { queue = s }) in_flight closed
  after_consume c worker in_flight w (s, blocked) =
      session (record w { queue = s }) in_flight waiting

  -- One turn of the loop.
  unfoldable pub work_event : WorkCalls → Event → Option Job → World State → Session State
  unfolding disconnect assign
  work_event c disconnected in_flight w = session (disconnect c in_flight w) in_flight closed
  work_event c (ready worker) in_flight w =
      after_consume c worker in_flight w (consume_job c.rounds w.queue)
  work_event c (heartbeat worker id) in_flight w =
      session (record_heartbeat id worker c.now w).0 in_flight open_
  work_event c (result worker r) in_flight w =
      session (handle_result q registry c.handle c.now r worker w) none open_
  work_event c (empty worker) in_flight w = session w in_flight open_

  -- The loop, over what the stream brings.
  unfoldable pub work : List (WorkCalls × Event) → Session State → Session State
  work [] t = t
  work ((c, e) ∷ es) t =
      let t' = work_event c e t.in_flight t.world in
      let rest = work es t' in elim t'.stream [ open_ ↦ rest | closed ↦ t' | waiting ↦ t' ]
