-- ===== src/Worker/Completes.antt =====
-- A job on its way through `Work` of internal/server/server.go, a worker of cmd/worker/main.go, and back.
use orqestra.Base.{
  ℕ, suc, ◌^◌, ◌<◌, ◌≡◌, ◌≢◌, inl, inr, trim_space, refl, sym, ap, subst, ◌∙◌, Bool, true, Option,
  none, some, List, [], ◌∷◌, ◌++◌, String, arith, replicate, done,
}
use orqestra.Queue.Keyspace.{Job, Payload}
use orqestra.Queue.Redis.{delivered}
use orqestra.Queue.Interface.{JobQueue}
use orqestra.Workflow.Registry.{Registry}
use orqestra.Db.Tables.{JobStatus, JobRow}
use orqestra.Db.Integrity.{job_row}
use orqestra.Server.State.{World, worker_owns_job}
use orqestra.Server.Results.{TaskResult, handle_result}
use orqestra.Server.Success.{handle_result_success}
use orqestra.Server.Work.{
  Event, WorkCalls, Session, open_, session, task_of, int32, assign, work_event, work,
  after_consume,
}
use orqestra.Worker.Command.{
  Decoded, bad, fields, Executed, Shell, decode, previous_env, execute_job, GoesWrong,
  execute_job-Executes,
}
use orqestra.Worker.{ready, heartbeat, result, task, Turn, beats, run_worker}
use orqestra.Worker.Exchange.{reported, hears, Beside, beats-Beside, ready-hears, assign-Sent}

-- A turn in which the worker is sent the job and can send what it has to say.
abbrev pub answered : List Bool → Shell → Job → Turn
answered ticks shell job = record {
  ready_sent = true;
  received = task (task_of job);
  ticks = ticks;
  shell = shell;
  result_sent = true;
}

not_wrong :
    (json : String → Decoded) (shell : Shell) (payload : Payload) (c previous : String)
    → decode json payload ≡ fields c previous
    → c ≢ ""
    → (shell c (previous_env previous)).error ≡ none
    → GoesWrong json shell payload
    → ⊥
not_wrong json shell payload c previous d ne ran (inl (e, b)) =
    (let same : fields c previous ≡ bad e = sym d ∙ b in cc)
not_wrong json shell payload c previous d ne ran (inr (inl (p, b))) =
    ne (let same : fields c previous ≡ fields "" p = sym d ∙ b in cc)
not_wrong json shell payload c previous d ne ran (inr (inr (c', p, e, b, _, r))) =
    let same : fields c previous ≡ fields c' p = sym d ∙ b in
    let same_c : c ≡ c' = cc in
    let same_p : previous ≡ p = cc in
    (let clash : none ≡ some e = sym ran ∙ (rw (same_c, same_p) r) in cc)

module _ (q : JobQueue) (registry : Registry) where
  open q use {State, consume_job}

  owns_beside :
      (id : ℕ) (worker : String) (w w' : World State)
      → w'.owner ≡ w.owner
      → worker_owns_job id worker w ≡ true
      → worker_owns_job id worker w' ≡ true
  unfolding worker_owns_job
  owns_beside id worker w w' e h = rw e h

  -- The numbers of tasks have 32 bits.
  small : (id : ℕ) → id < 2 ^ 31 → int32 id ≡ id
  small id h = omega arith

  module _ (worker : String) (calls : ℕ → WorkCalls) (n : ℕ) where
    -- What the server makes of the result, after the heartbeats.
    abbrev ends : TaskResult → World State → Session State
    ends r w =
        let c = calls (suc n) in
        session q registry (handle_result q registry c.handle c.now r worker w) none open_

    turn-ends :
        (id : ℕ) (x : Executed) (t t₁ : Session State)
        → work_event q registry (calls 0) (Event.ready worker) t.in_flight t.world ≡ t₁
        → t₁.stream ≡ open_
        → (t₂ : Session State) × Beside q registry t₁ t₂
          × (hears q registry worker calls 0
                (ready ∷ (replicate n (heartbeat id) ++ result id x ∷ []))
                t
              ≡ ends (reported id x) t₂.world)
    unfolding work work_event
    turn-ends id x t t₁ e s =
        let ms = replicate n (heartbeat id) ++ result id x ∷ [] in
        let (t₂, b, f) = beats-Beside q registry worker calls id 1 n (result id x ∷ []) t₁ in
        (
          t₂,
          b,
          ready-hears q registry worker calls 0 ms t (ap (λ (y : Session State). y.stream) e ∙ s)
              ∙ ap (λ (y : Session State). hears q registry worker calls 1 ms y) e
              ∙ f
              ∙ ap (λ i. hears q registry worker calls i (result id x ∷ []) t₂) (omega arith),
        )

  -- What is stored is the output of `executeJob`.
  work_stores :
      (json : String → Decoded) (worker : String) (calls : ℕ → WorkCalls) (ticks : List Bool)
      (shell : Shell) (in_flight : Option Job) (w : World State) (s : State) (job : Job)
      (row : JobRow)
      → job.id < 2 ^ 31
      → consume_job (calls 0).rounds w.queue ≡ (s, delivered job)
      → (calls 0).start ≡ done
      → (calls 0).sent ≡ true
      → (calls (suc (beats ticks))).handle.get ≡ done
      → (calls (suc (beats ticks))).handle.complete ≡ done
      → job_row job.id w.db ≡ some row
      → (execute_job json shell job.payload).success ≡ true
      → job_row job.id
          (hears q registry worker calls 0
            (run_worker json (answered ticks shell job ∷ []))
            (session q registry w in_flight open_)).world.db
        ≡ some (record row {
          status = JobStatus.completed;
          retry_count = job.retry_count;
          output = (execute_job json shell job.payload).output;
        })
  unfolding run_worker work work_event
  work_stores json worker calls ticks shell in_flight w s job row small_ e u sent get complete at
        won =
      let t0 = session q registry w in_flight open_ in
      let x = execute_job json shell job.payload in
      let t1 = assign q registry (calls 0) worker in_flight job (record w { queue = s }) in
      let e1 : work_event q registry (calls 0) (Event.ready worker) in_flight w ≡ t1 =
        ap (after_consume q registry (calls 0) worker in_flight w) e in
      let there =
        assign-Sent q registry (calls 0) worker in_flight job row (record w { queue = s }) u sent
          at in
      let c = calls (suc (beats ticks)) in
      let (t2, b, ended) =
        turn-ends worker calls (beats ticks) (int32 job.id) x t0 t1 e1 there.stream in
      ap (λ (y : Session State). job_row job.id y.world.db) ended
      ∙ subst
          (λ id.
            job_row job.id
              (handle_result q registry c.handle c.now (reported id x) worker t2.world).db
            ≡ some (record row {
              status = JobStatus.completed;
              retry_count = job.retry_count;
              output = x.output;
            }))
          (sym (small job.id small_))
          (handle_result_success q registry c.handle c.now (reported job.id x) worker t2.world
            (record row { status = JobStatus.running; retry_count = job.retry_count }) get complete
            (owns_beside job.id worker t1.world t2.world b.owner there.owned)
            (ap (job_row job.id) b.db ∙ there.row_of) refl won)

  run-output :
      (json : String → Decoded) (shell : Shell) (payload : Payload) (c previous : String)
      → decode json payload ≡ fields c previous
      → c ≢ ""
      → (shell c (previous_env previous)).error ≡ none
      → execute_job json shell payload ≡ record {
        success = true;
        error = "";
        output = trim_space (shell c (previous_env previous)).stdout;
      }
  run-output json shell payload c previous d ne ran =
      elim (execute_job-Executes json shell payload) [
        | inl (wrong, _, _, _) ↦ absurd (not_wrong json shell payload c previous d ne ran wrong)
        | inr (c', previous', d', _, _, x) ↦
            let same : fields c previous ≡ fields c' previous' = sym d ∙ d' in
            let same_c : c ≡ c' = cc in
            let same_p : previous ≡ previous' = cc in rw (same_c, same_p) x
      ]

  -- If `Consume` delivers a job with a row and a number below 2^31, which is marked as running and sent, and
  -- its payload has a command that the shell of the worker runs without an error, however many heartbeats
  -- the worker sends, then the result that the server reads and stores leaves the job completed, with what
  -- the command wrote to its standard output, trimmed.
  pub work-completes :
      (json : String → Decoded) (worker : String) (calls : ℕ → WorkCalls) (ticks : List Bool)
      (shell : Shell) (in_flight : Option Job) (w : World State) (s : State) (job : Job)
      (row : JobRow) (c previous : String)
      → job.id < 2 ^ 31
      → consume_job (calls 0).rounds w.queue ≡ (s, delivered job)
      → (calls 0).start ≡ done
      → (calls 0).sent ≡ true
      → (calls (suc (beats ticks))).handle.get ≡ done
      → (calls (suc (beats ticks))).handle.complete ≡ done
      → job_row job.id w.db ≡ some row
      → decode json job.payload ≡ fields c previous
      → c ≢ ""
      → (shell c (previous_env previous)).error ≡ none
      → job_row job.id
          (hears q registry worker calls 0
            (run_worker json (answered ticks shell job ∷ []))
            (session q registry w in_flight open_)).world.db
        ≡ some (record row {
          status = JobStatus.completed;
          retry_count = job.retry_count;
          output = trim_space (shell c (previous_env previous)).stdout;
        })
  work-completes json worker calls ticks shell in_flight w s job row c previous small_ e u sent get
        complete at d ne ran =
      let x = run-output json shell job.payload c previous d ne ran in
      work_stores json worker calls ticks shell in_flight w s job row small_ e u sent get complete
        at (ap (λ (y : Executed). y.success) x)
      ∙ ap
          (λ (y : Executed). some (record row {
            status = JobStatus.completed;
            retry_count = job.retry_count;
            output = y.output;
          }))
          x
