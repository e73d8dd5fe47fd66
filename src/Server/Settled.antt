-- ===== src/Server/Settled.antt =====
-- Jobs that are settled, at the server: what a late result does to them, and what a lost worker does.
use orqestra.Base.{
  ℕ, ◌≡◌, refl, true, some, String, arith, ==_refl, Bool-cases, inl, inr, subst, done,
}
use orqestra.Queue.Keyspace.{Job}
use orqestra.Queue.Interface.{JobQueue}
use orqestra.Workflow.Registry.{Registry}
use orqestra.Db.Tables.{JobStatus, JobRow, Db, Query-cases}
use orqestra.Db.Jobs.{get_job}
use orqestra.Db.Integrity.{job_row, job_row-update_job_state}
use orqestra.Service.Jobs.{is_final, CancelCalls, Cancelled, ok, cancel}
use orqestra.Service.Cancellation.{
  cancel-CancelEnds, CancelEnds, unknown, unread, settled, not_updated, cancels,
}
use orqestra.Server.State.{World, clear_ownership, worker_owns_job}
use orqestra.Server.Results.{TaskResult, ResultCalls, handle_row, handle_result}
use orqestra.Server.Work.{WorkCalls, give_back, disconnect}
use orqestra.Server.Ownership.{get_job-found}

module _ (q : JobQueue) (registry : Registry) where
  open q use {State}

  -- The database and the queue are as they were.
  abbrev pub Leaves : World State → World State → Type 0
  Leaves w w' = (w'.db ≡ w.db) × (w'.queue ≡ w.queue)

  clear-Leaves : (id : ℕ) (w : World State) → Leaves w (clear_ownership id w)
  unfolding clear_ownership
  clear-Leaves id w = (refl, refl)

  row-Leaves :
      (c : ResultCalls) (now : ℕ) (r : TaskResult) (row : JobRow) (w : World State)
      → is_final row.status ≡ true
      → Leaves w (handle_row q registry c now r row w)
  unfolding handle_row
  row-Leaves c now r row w f = rw (f, handle_row) (clear-Leaves r.job_id w)

  -- A result for a job that is completed, failed or cancelled changes neither the database nor the queue,
  -- whoever sends it and however the calls end.
  pub handle_result_settled :
      (c : ResultCalls) (now : ℕ) (r : TaskResult) (sender : String) (w : World State)
      (row : JobRow)
      → job_row r.job_id w.db ≡ some row
      → is_final row.status ≡ true
      → Leaves w (handle_result q registry c now r sender w)
  unfolding handle_result
  handle_result_settled c now r sender w row at f =
      elim (Bool-cases (worker_owns_job r.job_id sender w)) [
        | inr stranger ↦ rw (stranger, handle_result) (refl, refl)
        | inl owner ↦ elim (Query-cases (get_job c.get r.job_id w.db)) [
          | inl e ↦ rw (owner, e, handle_result) (clear-Leaves r.job_id w)
          | inr (inl e) ↦ rw (owner, e, handle_result) (clear-Leaves r.job_id w)
          | inr (inr (row', e)) ↦
              let (at', _) = get_job-found c.get r.job_id w.db row' e in
              let same : row ≡ row' = ground (arith, at, at') in
              rw (owner, e, handle_result)
                (row-Leaves c now r row' w
                  (subst (λ (x : JobRow). is_final x.status ≡ true) same f))
        ]
      ]

  give_back-row :
      (c : WorkCalls) (job : Job) (w : World State) (row : JobRow)
      → c.revert ≡ done
      → job_row job.id w.db ≡ some row
      → job_row job.id (give_back q registry c job w).db
        ≡ some (record row { status = JobStatus.pending; retry_count = job.retry_count })
  unfolding give_back clear_ownership
  give_back-row c job w row u at = rw u (
      ground (
        arith,
        at,
        ==_refl job.id,
        job_row-update_job_state job.id job.id JobStatus.pending job.retry_count w.db,
      ))

  -- If `CancelJob` returns nil for the job that a stream has in flight, and then the stream breaks and
  -- the update of the row succeeds, the cancelled job is pending again.
  pub disconnect_revives :
      (k : CancelCalls) (c : WorkCalls) (now : ℕ) (job : Job) (w : World State)
      → (cancel q k now job.id w.db w.queue).2 ≡ ok
      → c.revert ≡ done
      → let x = cancel q k now job.id w.db w.queue in
        let w' = record w { db = x.0; queue = x.1 } in
        (row : JobRow) × (job_row job.id w'.db ≡ some (record row { status = JobStatus.cancelled }))
        × (job_row job.id (disconnect q registry c (some job) w').db
            ≡ some (record row { status = JobStatus.pending; retry_count = job.retry_count }))
  unfolding disconnect
  disconnect_revives k c now job w h u = go (cancel-CancelEnds q k now job.id w.db w.queue)
    where
      x : Db × State × Cancelled
      x = cancel q k now job.id w.db w.queue

      w' : World State
      w' = record w { db = x.0; queue = x.1 }

      go :
          CancelEnds q k job.id w.db w.queue x
          → (row : JobRow) × (job_row job.id w'.db
              ≡ some (record row { status = JobStatus.cancelled }))
            × (job_row job.id (give_back q registry c job w').db
                ≡ some (record row { status = JobStatus.pending; retry_count = job.retry_count }))
      go (unknown a e) = absurd (cc)
      go (unread e) = absurd (cc)
      go (settled row a f e) = absurd (cc)
      go (not_updated a b e) = absurd (cc)
      go (cancels row a f at e) =
          (row, at, give_back-row c job w' (record row { status = JobStatus.cancelled }) u at)
