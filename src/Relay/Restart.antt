-- ===== src/Relay/Restart.antt =====
-- The start of a server: `ResetRunningJobs` of internal/db/jobs.go, then a pass of the relay of
-- internal/outbox/relay.go.
use orqestra.Base.{
  ℕ, ◌≡◌, refl, Bool, true, ◌&&◌, some, List, [], ◌∷◌, arith, ◌==◌, any, All, Bool-cases, inl, inr,
  Outcome, done, refused, lost, ==→≡, subst, ap, ◌∙◌,
}
use orqestra.Queue.Interface.{JobQueue}
use orqestra.Db.Tables.{JobStatus, JobRow, OutboxRow, Db, has_status, update_where, first_where}
use orqestra.Db.Jobs.{on_jobs, running_ids, reset_running, reset_running_jobs, has_open_entry}
use orqestra.Db.Outbox.{OutboxEntry, unprocessed}
use orqestra.Db.Restart.{reset_running_jobs-opens, insert_missing-jobs}
use orqestra.Relay.{Calls, relay}
use orqestra.Relay.Delivery.{entries, relay_drains}

-- A job that has a row keeps one.
has_row : List JobRow → ℕ → Bool
has_row rows id = any (λ row. row.id == id) rows

first_where-has_row :
    (rows : List JobRow) (id : ℕ)
    → has_row rows id ≡ true
    → (row : JobRow) × (first_where (λ row. row.id == id) rows ≡ some row)
unfolding has_row
first_where-has_row [] id h = absurd (cc)
first_where-has_row (row ∷ rows) id h = elim (Bool-cases (row.id == id)) [
  | inl e ↦ (row, rw e refl)
  | inr e ↦ let (r, f) = first_where-has_row rows id (ground arith) in (r, rw e f)
]

unprocessed-lists :
    (jobs : List JobRow) (os : List OutboxRow) (id : ℕ)
    → has_row jobs id ≡ true
    → has_open_entry os id ≡ true
    → any (λ e. e.job_id == id) (unprocessed jobs os) ≡ true
unfolding unprocessed has_open_entry
unprocessed-lists jobs [] id r h = cc
unprocessed-lists jobs (o ∷ os) id r h =
    let (row, f) = first_where-has_row jobs id r in
    ground (arith, unprocessed-lists jobs os id r, f, ==→≡ o.job_id id)

running-has_row :
    (rows : List JobRow) (id : ℕ)
    → any (λ row. row.id == id && has_status JobStatus.running row) rows ≡ true
    → has_row
        (update_where
          (has_status JobStatus.running)
          (λ row. record row { status = JobStatus.pending })
          rows)
        id
      ≡ true
unfolding has_row
running-has_row [] id h = cc
running-has_row (row ∷ rows) id h = ground (arith, running-has_row rows id)

reset-has_row :
    (o : Outcome) (db : Db) (id : ℕ)
    → (reset_running_jobs o db).1 ≡ true
    → any (λ row. row.id == id && has_status JobStatus.running row) db.jobs ≡ true
    → has_row (reset_running_jobs o db).0.jobs id ≡ true
unfolding reset_running_jobs reset_running
reset-has_row refused db id h m = cc
reset-has_row lost db id h m = cc
reset-has_row done db id h m =
    ap (λ rows. has_row rows id)
      (insert_missing-jobs db.outbox (running_ids db.jobs) (
        on_jobs
          (update_where (has_status JobStatus.running)
            (λ row. record row { status = JobStatus.pending }))
          db))
    ∙ running-has_row db.jobs id m

All-any :
    (p : ℕ → Bool) (es : List OutboxEntry) (id : ℕ)
    → All (λ e. p e.job_id ≡ true) es
    → any (λ e. e.job_id == id) es ≡ true
    → p id ≡ true
All-any p [] id h m = cc
All-any p (e ∷ es) id h m = elim (Bool-cases (e.job_id == id)) [
  | inl same ↦ subst (λ i. p i ≡ true) (==→≡ e.job_id id same) h.0
  | inr other ↦ All-any p es id h.1 (ground arith)
]

module _ (q : JobQueue) where
  open q use {State, holds}

  -- When `ResetRunningJobs` and the pass of the relay after it return nil, the queue holds every job that
  -- was running, whatever the queue held before.
  pub restart_requeues :
      (o : Outcome) (c : Calls) (now : ℕ) (db : Db) (s : State) (id : ℕ)
      → (reset_running_jobs o db).1 ≡ true
      → (relay q c now (reset_running_jobs o db).0 s).2 ≡ true
      → any (λ row. row.id == id && has_status JobStatus.running row) db.jobs ≡ true
      → holds (relay q c now (reset_running_jobs o db).0 s).1 id ≡ true
  restart_requeues o c now db s id h k m =
      let db' = (reset_running_jobs o db).0 in
      let (held, _) = relay_drains q c now db' s k in
      All-any (λ i. holds (relay q c now db' s).1 i) (entries q db') id held
        (unprocessed-lists db'.jobs db'.outbox id (reset-has_row o db id h m)
          (reset_running_jobs-opens o db id h m).1)
