-- ===== src/Service/Cancellation.antt =====
-- What `CancelJob` of internal/service/job_service.go comes to.
use orqestra.Base.{
  ℕ, ◌≡◌, refl, true, false, not, ◌&&◌, none, some, List, [], ◌∷◌, arith, ◌==◌, ==_refl, Bool-cases,
  inl, inr, ◌⊎◌, Outcome, done, refused, lost, ap, ◌∙◌, subst, sym,
}
use orqestra.Queue.Interface.{JobQueue}
use orqestra.Db.Tables.{
  JobStatus, JobRow, OutboxRow, Db, found, no_rows, first_where, update_where, Query-cases,
}
use orqestra.Db.Jobs.{get_job, update_job_state, has_open_entry}
use orqestra.Db.Outbox.{cancel_outbox_entry, processed_at}
use orqestra.Db.Integrity.{job_row, job_row-update_job_state}
use orqestra.Service.Jobs.{
  is_final, Cancelled, CancelCalls, ok, not_found, get_failed, already, update_failed, bare_job,
  cancel_row, cancel,
}

-- What `get_job` finds is the job's row.
get_job_row :
    (o : Outcome) (id : ℕ) (db : Db) (row : JobRow)
    → get_job o id db ≡ found row
    → job_row id db ≡ some row
unfolding get_job
get_job_row o id db row h = ground arith

closes :
    (now id : ℕ) (rows : List OutboxRow)
    → has_open_entry
        (update_where (λ e. e.job_id == id && not e.processed) (processed_at now) rows)
        id
      ≡ false
unfolding has_open_entry
closes now id [] = refl
closes now id (e ∷ rows) = ground (arith, closes now id rows)

pub cancel_outbox-jobs :
    (o : Outcome) (now id : ℕ) (db : Db) → (cancel_outbox_entry o now id db).0.jobs ≡ db.jobs
unfolding cancel_outbox_entry
cancel_outbox-jobs done now id db = refl
cancel_outbox-jobs refused now id db = refl
cancel_outbox-jobs lost now id db = refl

pub cancel_outbox-closed :
    (o : Outcome) (now id : ℕ) (db : Db)
    → o ≡ done
    → has_open_entry (cancel_outbox_entry o now id db).0.outbox id ≡ false
unfolding cancel_outbox_entry
cancel_outbox-closed o now id db e = rw e (closes now id db.outbox)

module _ (q : JobQueue) where
  open q use {State, cancel_job}

  -- How a call ends: the job is unknown, or its row is not read; it is settled, and nothing changes; the
  -- update fails, which it may have carried out if its reply is lost, and the queue is not called; or
  -- the row is cancelled.
  pub data CancelEnds (c : CancelCalls) (id : ℕ) (db : Db) (s : State) (x : Db × State × Cancelled)
      : Type 0 where
    unknown : job_row id db ≡ none → x ≡ (db, s, not_found) → CancelEnds c id db s x
    unread : x ≡ (db, s, get_failed) → CancelEnds c id db s x
    settled :
        (row : JobRow)
        → job_row id db ≡ some row
        → is_final row.status ≡ true
        → x ≡ (db, s, already row.status)
        → CancelEnds c id db s x
    not_updated :
        (x.0 ≡ db) ⊎ (c.update ≡ lost) → x.1 ≡ s → x.2 ≡ update_failed → CancelEnds c id db s x
    cancels :
        (row : JobRow)
        → job_row id db ≡ some row
        → is_final row.status ≡ false
        → job_row id x.0 ≡ some (record row { status = JobStatus.cancelled })
        → x.2 ≡ ok
        → CancelEnds c id db s x

  pub row_settled :
      (c : CancelCalls) (now id : ℕ) (row : JobRow) (db : Db) (s : State)
      → is_final row.status ≡ true
      → cancel_row q c now id row db s ≡ (db, s, already row.status)
  unfolding cancel_row
  row_settled c now id row db s f = rw (f, cancel_row) refl

  pub row_updated :
      (c : CancelCalls) (now id : ℕ) (row : JobRow) (db : Db) (s : State)
      → is_final row.status ≡ false
      → c.update ≡ done
      → let db' = (update_job_state done id JobStatus.cancelled row.retry_count db).0 in
        cancel_row q c now id row db s
        ≡ ((cancel_outbox_entry c.outbox now id db').0, (cancel_job c.queue (bare_job id) s).0, ok)
  unfolding cancel_row update_job_state
  row_updated c now id row db s f u = rw (f, u, cancel_row) refl

  pub row_broken :
      (c : CancelCalls) (now id : ℕ) (row : JobRow) (db : Db) (s : State)
      → is_final row.status ≡ false
      → (update_job_state c.update id JobStatus.cancelled row.retry_count db).1 ≡ false
      → cancel_row q c now id row db s ≡ (
        (update_job_state c.update id JobStatus.cancelled row.retry_count db).0,
        s,
        update_failed,
      )
  unfolding cancel_row update_job_state
  row_broken c now id row db s f u = rw (f, u, cancel_row) refl

  pub not_applied :
      (o : Outcome) (id : ℕ) (st : JobStatus) (n : ℕ) (db : Db)
      → (o ≡ done)
        ⊎ (((update_job_state o id st n db).1 ≡ false)
            × (((update_job_state o id st n db).0 ≡ db) ⊎ (o ≡ lost)))
  unfolding update_job_state
  not_applied done id st n db = inl refl
  not_applied refused id st n db = inr (refl, inl refl)
  not_applied lost id st n db = inr (refl, inr refl)

  cancelled_row :
      (o : Outcome) (now id : ℕ) (row : JobRow) (db : Db)
      → job_row id db ≡ some row
      → job_row id
          (cancel_outbox_entry o now id
            (update_job_state done id JobStatus.cancelled row.retry_count db).0).0
        ≡ some (record row { status = JobStatus.cancelled })
  cancelled_row o now id row db at =
      ap (first_where (λ row. row.id == id)) (
        cancel_outbox-jobs o now id
          (update_job_state done id JobStatus.cancelled row.retry_count db).0)
      ∙ ground (
        arith,
        at,
        ==_refl id,
        job_row-update_job_state id id JobStatus.cancelled row.retry_count db,
      )

  row-CancelEnds :
      (c : CancelCalls) (now id : ℕ) (row : JobRow) (db : Db) (s : State)
      → job_row id db ≡ some row
      → CancelEnds c id db s (cancel_row q c now id row db s)
  row-CancelEnds c now id row db s at = elim (Bool-cases (is_final row.status)) [
    | inl f ↦ settled row at f (row_settled c now id row db s f)
    | inr f ↦ elim (not_applied c.update id JobStatus.cancelled row.retry_count db) [
      | inl u ↦
          subst (CancelEnds c id db s) (sym (row_updated c now id row db s f u))
            (cancels row at f (cancelled_row c.outbox now id row db at) refl)
      | inr (u, unsure) ↦
          subst (CancelEnds c id db s) (sym (row_broken c now id row db s f u))
            (not_updated unsure refl refl)
    ]
  ]

  get_job-none : (o : Outcome) (id : ℕ) (db : Db) → get_job o id db ≡ no_rows → job_row id db ≡ none
  unfolding get_job
  get_job-none o id db h = ground arith

  pub reads :
      (c : CancelCalls) (now id : ℕ) (db : Db) (s : State) (row : JobRow)
      → get_job c.get id db ≡ found row
      → cancel q c now id db s ≡ cancel_row q c now id row db s
  unfolding cancel
  reads c now id db s row e = rw (e, cancel) refl

  -- `CancelJob` ends in one of these ways: not found or unread with nothing changed; refused for a settled
  -- job with nothing changed; an error of the update, which has changed the database only if its reply
  -- was lost, with the queue untouched; or nil, with the row of a job that was not settled cancelled.
  pub cancel-CancelEnds :
      (c : CancelCalls) (now id : ℕ) (db : Db) (s : State)
      → CancelEnds c id db s (cancel q c now id db s)
  unfolding cancel
  cancel-CancelEnds c now id db s = elim (Query-cases (get_job c.get id db)) [
    | inl e ↦ unknown (get_job-none c.get id db e) (rw (e, cancel) refl)
    | inr (inl e) ↦ unread (rw (e, cancel) refl)
    | inr (inr (row, e)) ↦
        subst (CancelEnds c id db s) (sym (reads c now id db s row e))
          (row-CancelEnds c now id row db s (get_job_row c.get id db row e))
  ]
