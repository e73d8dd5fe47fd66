-- ===== src/Worker/Exchange.antt =====
-- A worker of cmd/worker/main.go and `Work` of internal/server/server.go on the two ends of one stream: what
-- the server hears of one turn.
use orqestra.Base.{
  ℕ, zero, suc, ◌+◌, ◌≡◌, refl, ap, ◌∙◌, Bool, true, false, Option, some, List, [], ◌∷◌, ◌++◌,
  String, arith, Bool-cases, inl, inr, replicate, done, if◌then◌else◌, Outcome, ==_refl, eq_iff,
}
use orqestra.Queue.Keyspace.{Job}
use orqestra.Queue.Interface.{JobQueue}
use orqestra.Workflow.Registry.{Registry}
use orqestra.Db.Tables.{JobStatus, JobRow, Db}
use orqestra.Db.Jobs.{update_job_state}
use orqestra.Db.Integrity.{job_row, job_row-update_job_state}
use orqestra.Server.State.{World, take_ownership, record_heartbeat, worker_owns_job}
use orqestra.Server.Results.{TaskResult}
use orqestra.Server.Work.{
  Event, WorkCalls, Session, Stream, open_, closed, waiting, session, assign, work_event, work,
}
use orqestra.Worker.Command.{Executed}
use orqestra.Worker.{Message, ready, heartbeat, result}

-- What `Recv` of the server makes of a message of the worker.
abbrev pub reported : ℕ → Executed → TaskResult
reported id x = record { job_id = id; success = x.success; output = x.output }

abbrev pub event_of : String → Message → Event
event_of worker ready = Event.ready worker
event_of worker (heartbeat id) = Event.heartbeat worker id
event_of worker (result id x) = Event.result worker (reported id x)

-- The server's calls at the message with the number.
abbrev pub seen : String → (ℕ → WorkCalls) → ℕ → List Message → List (WorkCalls × Event)
seen worker calls n [] = []
seen worker calls n (m ∷ ms) = (calls n, event_of worker m) ∷ seen worker calls (suc n) ms

module _ (q : JobQueue) (registry : Registry) where
  open q use {State, consume_job}

  -- The same, but for when jobs were last heard of.
  pub record Beside (t t' : Session State) : Type 0 where
    pub in_flight : t'.in_flight ≡ t.in_flight
    pub db : t'.world.db ≡ t.world.db
    pub queue : t'.world.queue ≡ t.world.queue
    pub owner : t'.world.owner ≡ t.world.owner

  Beside-refl : (t : Session State) → Beside t t
  Beside-refl t = record { in_flight = refl; db = refl; queue = refl; owner = refl }

  Beside-trans : (t t' t'' : Session State) → Beside t t' → Beside t' t'' → Beside t t''
  Beside-trans t t' t'' a b = record {
    in_flight = b.in_flight ∙ a.in_flight;
    db = b.db ∙ a.db;
    queue = b.queue ∙ a.queue;
    owner = b.owner ∙ a.owner;
  }

  beat : ℕ → String → ℕ → Session State → Session State
  beat id worker now t =
      session q registry (record_heartbeat id worker now t.world).0 t.in_flight open_

  beat-Beside :
      (id : ℕ) (worker : String) (now : ℕ) (t : Session State) → Beside t (beat id worker now t)
  unfolding beat record_heartbeat
  beat-Beside id worker now t = elim (Bool-cases (worker_owns_job id worker t.world)) [
    | inl own ↦
        rw (own, beat, record_heartbeat)
          (record { in_flight = refl; db = refl; queue = refl; owner = refl })
    | inr stranger ↦
        rw (stranger, beat, record_heartbeat)
          (record { in_flight = refl; db = refl; queue = refl; owner = refl })
  ]

  module _ (worker : String) (calls : ℕ → WorkCalls) where
    -- The server over the messages of a worker, from the one with the number on.
    abbrev pub hears : ℕ → List Message → Session State → Session State
    hears n ms t = work q registry (seen worker calls n ms) t

    -- The heartbeats of a job change nothing that matters to its result.
    pub beats-Beside :
        (id k n : ℕ) (ms : List Message) (t : Session State)
        → (t' : Session State) × Beside t t'
          × (hears k (replicate n (heartbeat id) ++ ms) t ≡ hears (k + n) ms t')
    unfolding work work_event beat
    beats-Beside id k zero ms t = (t, Beside-refl t, ap (λ i. hears i ms t) (omega arith))
    beats-Beside id k (suc n) ms t =
        let t₁ = beat id worker (calls k).now t in
        let (t₂, b, e) = beats-Beside id (suc k) n ms t₁ in
        (
          t₂,
          Beside-trans t t₁ t₂ (beat-Beside id worker (calls k).now t) b,
          e ∙ ap (λ i. hears i ms t₂) (omega arith),
        )

    pub ready-hears :
        (n : ℕ) (ms : List Message) (t : Session State)
        → let t₁ = work_event q registry (calls n) (Event.ready worker) t.in_flight t.world in
          t₁.stream ≡ open_ → hears n (ready ∷ ms) t ≡ hears (suc n) ms t₁
    unfolding work
    ready-hears n ms t s =
        let t₁ = work_event q registry (calls n) (Event.ready worker) t.in_flight t.world in
        on_stream t₁ t₁.stream s
      where
        on_stream :
            (t₁ : Session State) (st : Stream)
            → st ≡ open_
            → (let x : Session State = elim st [
              | open_ ↦ hears (suc n) ms t₁
              | closed ↦ t₁
              | waiting ↦ t₁
            ] in
                x)
              ≡ hears (suc n) ms t₁
        on_stream t₁ open_ h = refl
        on_stream t₁ closed h = absurd (cc)
        on_stream t₁ waiting h = absurd (cc)

  -- A job that is assigned and sent.
  pub record Sent (worker : String) (job : Job) (row : JobRow) (t : Session State) : Type 0 where
    pub stream : t.stream ≡ open_
    pub owned : worker_owns_job job.id worker t.world ≡ true
    pub row_of :
        job_row job.id t.world.db
        ≡ some (record row { status = JobStatus.running; retry_count = job.retry_count })

  if-Sent :
      (worker : String) (job : Job) (row : JobRow) (b : Bool) (x y : Session State)
      → b ≡ true
      → Sent worker job row x
      → Sent worker job row (if b then x else y)
  if-Sent worker job row true x y h k = k
  if-Sent worker job row false x y h k = absurd (cc)

  updated :
      (o : Outcome) (id : ℕ) (st : JobStatus) (n : ℕ) (db : Db)
      → o ≡ done
      → (update_job_state o id st n db).1 ≡ true
  unfolding update_job_state
  updated o id st n db u = rw u refl

  running_row :
      (o : Outcome) (job : Job) (row : JobRow) (db : Db)
      → o ≡ done
      → job_row job.id db ≡ some row
      → job_row job.id (update_job_state o job.id JobStatus.running job.retry_count db).0
        ≡ some (record row { status = JobStatus.running; retry_count = job.retry_count })
  running_row o job row db u at = rw u (
      job_row-update_job_state job.id job.id JobStatus.running job.retry_count db
      ∙ ground (arith, at, ==_refl job.id))

  pub assign-Sent :
      (c : WorkCalls) (worker : String) (in_flight : Option Job) (job : Job) (row : JobRow)
      (w : World State)
      → c.start ≡ done
      → c.sent ≡ true
      → job_row job.id w.db ≡ some row
      → Sent worker job row (assign q registry c worker in_flight job w)
  unfolding assign take_ownership worker_owns_job
  assign-Sent c worker in_flight job row w u s at =
      if-Sent worker job row _ _ _ (updated c.start job.id JobStatus.running job.retry_count w.db u)
        (if-Sent worker job row c.sent _ _ s (record {
          stream = refl;
          owned = ground (arith, ==_refl job.id, (eq_iff worker worker).1 refl);
          row_of = running_row c.start job row w.db u at;
        }))
