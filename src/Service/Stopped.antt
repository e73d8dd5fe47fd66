-- ===== src/Service/Stopped.antt =====
-- A job that `CancelJob` of internal/service/job_service.go has cancelled is on no way to a worker.
use orqestra.Base.{ℕ, ◌≡◌, false, Bool-cases, inl, inr, sym, subst, ap, done}
use orqestra.Queue.Place.{absent}
use orqestra.Queue.Interface.{JobQueue}
use orqestra.Db.Tables.{JobStatus, JobRow, Db, Query-cases}
use orqestra.Db.Jobs.{get_job, has_open_entry, update_job_state}
use orqestra.Service.Jobs.{CancelCalls, Cancelled, ok, is_final, bare_job, cancel_row, cancel}
use orqestra.Service.Cancellation.{
  row_settled, row_updated, row_broken, not_applied, reads, cancel_outbox-closed,
}

module _ (q : JobQueue) where
  open q use {State, IsSound, place_of, cancel-moves}

  -- No unprocessed entry, and no place in the queue.
  abbrev pub Stopped : ℕ → Db × State × Cancelled → Type 0
  Stopped id x =
      (has_open_entry x.0.outbox id ≡ false) × IsSound x.1 id × (place_of x.1 id ≡ absent)

  row-Stopped :
      (c : CancelCalls) (now id : ℕ) (row : JobRow) (db : Db) (s : State)
      → IsSound s id
      → c.outbox ≡ done
      → ((n : ℕ) → c.queue n ≡ done)
      → (cancel_row q c now id row db s).2 ≡ ok
      → Stopped id (cancel_row q c now id row db s)
  row-Stopped c now id row db s sound o d h = elim (Bool-cases (is_final row.status)) [
    | inl f ↦
        absurd (cc (ap (λ (x : Db × State × Cancelled). x.2) (row_settled q c now id row db s f)))
    | inr f ↦ elim (not_applied q c.update id JobStatus.cancelled row.retry_count db) [
      | inl u ↦ subst (Stopped id) (sym (row_updated q c now id row db s f u)) (
        cancel_outbox-closed c.outbox now id
            (update_job_state done id JobStatus.cancelled row.retry_count db).0 o,
        (cancel-moves c.queue (bare_job id) s d sound).0,
        (cancel-moves c.queue (bare_job id) s d sound).1,
      )
      | inr (u, _) ↦
          absurd
            (cc (ap (λ (x : Db × State × Cancelled). x.2) (row_broken q c now id row db s f u)))
    ]
  ]

  -- If what the queue stores about a job agrees, then when `CancelJob` returns nil, and its calls on the
  -- outbox and the queue succeed, the job has no unprocessed outbox entry, and it is neither in the ready
  -- list, nor in the processing list, nor delayed.
  pub cancel_stops :
      (c : CancelCalls) (now id : ℕ) (db : Db) (s : State)
      → IsSound s id
      → c.outbox ≡ done
      → ((n : ℕ) → c.queue n ≡ done)
      → (cancel q c now id db s).2 ≡ ok
      → (has_open_entry (cancel q c now id db s).0.outbox id ≡ false)
        × IsSound (cancel q c now id db s).1 id
        × (place_of (cancel q c now id db s).1 id ≡ absent)
  unfolding cancel
  cancel_stops c now id db s sound o d h = elim (Query-cases (get_job c.get id db)) [
    | inl e ↦ absurd (cc (rw (e, cancel) at h))
    | inr (inl e) ↦ absurd (cc (rw (e, cancel) at h))
    | inr (inr (row, e)) ↦
        let at = reads q c now id db s row e in
        subst (Stopped id) (sym at) (
          row-Stopped c now id row db s sound o d
            (subst (λ (x : Db × State × Cancelled). x.2 ≡ ok) at h))
  ]
