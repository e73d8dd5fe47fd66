-- ===== src/Db/Cancelling.antt =====
-- `CancelWorkflowRunAtomic` of internal/db/workflows.go.
use orqestra.Base.{
  ℕ, ◌≡◌, ◌≢◌, refl, if◌then◌else◌, ==_refl, Bool, true, false, not, ◌&&◌, none, some, List, [],
  ◌∷◌, arith, ◌==◌, any, Bool-cases, Option-cases, inl, inr, ◌⊎◌, Outcome, done, refused, lost,
  answers, Replies, is_some, Option, ==→≡, ap, ◌||◌,
}
use orqestra.Db.Tables.{
  JobStatus, RunStatus, job_code, is_running, is_value, JobRow, RunRow, OutboxRow, Db, update_where,
  first_where,
}
use orqestra.Db.Runs.{
  is_active, is_cancellable, cancelled_ids, cancel_run, cancel_jobs, Committed, committed,
  not_active, failed, commit, cancel_workflow_run_atomic,
}

-- Two tables have as many rows, and each row and its successor are related.
abbrev pub Rowwise {ℓ} : {A : Type ℓ} → (A → A → Type 0) → List A → List A → Type 0
Rowwise R [] [] = Unit {0}
Rowwise R [] (_ ∷ _) = ⊥
Rowwise R (_ ∷ _) [] = ⊥
Rowwise R (x ∷ xs) (y ∷ ys) = R x y × Rowwise R xs ys

-- A run that runs under the number is cancelled, any other stays.
abbrev pub CancelsRun : ℕ → RunRow → RunRow → Type 0
CancelsRun run r r' =
    (r.id ≡ run → r.status ≡ RunStatus.running → r' ≡ record r { status = RunStatus.cancelled })
    × (r.id ≢ run → r' ≡ r)
    × (r.status ≢ RunStatus.running → r' ≡ r)

-- A job of the run that is pending or retrying is cancelled, any other stays.
abbrev pub CancelsJob : ℕ → JobRow → JobRow → Type 0
CancelsJob run row row' =
    (row.workflow_run_id ≡ some run
      → (row.status ≡ JobStatus.pending) ⊎ (row.status ≡ JobStatus.retrying)
      → row' ≡ record row { status = JobStatus.cancelled })
    × (row.workflow_run_id ≢ some run → row' ≡ row)
    × (row.status ≢ JobStatus.pending → row.status ≢ JobStatus.retrying → row' ≡ row)

-- An unprocessed entry of a job that is cancelled is processed, any other stays.
abbrev pub ClosesEntry : ℕ → ℕ → List JobRow → OutboxRow → OutboxRow → Type 0
ClosesEntry now run jobs o o' =
    (any (λ row. is_cancellable run row && row.id == o.job_id) jobs ≡ true
      → o.processed ≡ false
      → o' ≡ record o { processed = true; processed_at = some now })
    × (any (λ row. is_cancellable run row && row.id == o.job_id) jobs ≡ false → o' ≡ o)
    × (o.processed ≡ true → o' ≡ o)

-- The run was active; it and the jobs of it that waited are cancelled, and their entries are closed.
pub record IsCancelledRun (now run : ℕ) (db db' : Db) : Type 0 where
  pub was_active : is_some (first_where (is_active run) db.runs) ≡ true
  pub runs : Rowwise (CancelsRun run) db.runs db'.runs
  pub jobs : Rowwise (CancelsJob run) db.jobs db'.jobs
  pub outbox : Rowwise (ClosesEntry now run db.jobs) db.outbox db'.outbox

update_where-Rowwise :
    {A : Type 0} (R : A → A → Type 0) (p : A → Bool) (f : A → A) (rows : List A)
    → ((x : A) → R x (if p x then f x else x))
    → Rowwise R rows (update_where p f rows)
update_where-Rowwise R p f [] h = tt
update_where-Rowwise R p f (x ∷ rows) h = (h x, update_where-Rowwise R p f rows h)

run_is_running : (r : RunRow) → is_running r ≡ true → r.status ≡ RunStatus.running
run_is_running r h = by_status r.status h
  where
    by_status :
        (st : RunStatus)
        → (elim st as (λ _. Bool) [ RunStatus.running ↦ true | _ ↦ false ]) ≡ true
        → st ≡ RunStatus.running
    by_status RunStatus.running h = refl
    by_status RunStatus.completed h = absurd (cc)
    by_status RunStatus.failed h = absurd (cc)
    by_status RunStatus.cancelled h = absurd (cc)

active_run :
    (run : ℕ) (r : RunRow) → is_active run r ≡ true → (r.id ≡ run) × (r.status ≡ RunStatus.running)
active_run run r h = (==→≡ r.id run (ground arith), run_is_running r (ground arith))

run_active :
    (run : ℕ) (r : RunRow) → r.id ≡ run → r.status ≡ RunStatus.running → is_active run r ≡ true
run_active run r e f = rw (e, f) (rw (==_refl run) refl)

cancelled-CancelsRun :
    (run : ℕ) (r : RunRow)
    → CancelsRun run r (if is_active run r then record r { status = RunStatus.cancelled } else r)
cancelled-CancelsRun run r = elim (Bool-cases (is_active run r)) [
  | inl h ↦
      let (e, f) = active_run run r h in
      rw h ((λ _ _. refl), (λ ne. absurd (ne e)), (λ ne. absurd (ne f)))
  | inr h ↦ rw h ((λ e f. absurd (let g = run_active run r e f in cc)), (λ _. refl), (λ _. refl))
]

waiting_status :
    (st : JobStatus)
    → ((job_code st == 0) || (job_code st == 2)) ≡ true
    → (st ≡ JobStatus.pending) ⊎ (st ≡ JobStatus.retrying)
waiting_status JobStatus.pending h = inl refl
waiting_status JobStatus.running h = absurd (cc)
waiting_status JobStatus.retrying h = inr refl
waiting_status JobStatus.completed h = absurd (cc)
waiting_status JobStatus.failed h = absurd (cc)
waiting_status JobStatus.cancelled h = absurd (cc)

of_run : (o : Option ℕ) (run : ℕ) → is_value o run ≡ true → o ≡ some run
of_run none run h = absurd (cc)
of_run (some r) run h = ap (λ i. some i) (==→≡ r run h)

waiting_job :
    (run : ℕ) (row : JobRow)
    → is_cancellable run row ≡ true
    → (row.workflow_run_id ≡ some run)
      × ((row.status ≡ JobStatus.pending) ⊎ (row.status ≡ JobStatus.retrying))
unfolding is_cancellable
waiting_job run row h =
    (of_run row.workflow_run_id run (ground arith), waiting_status row.status (ground arith))

job_waits :
    (run : ℕ) (row : JobRow)
    → row.workflow_run_id ≡ some run
    → (row.status ≡ JobStatus.pending) ⊎ (row.status ≡ JobStatus.retrying)
    → is_cancellable run row ≡ true
unfolding is_cancellable
job_waits run row e (inl f) = rw (e, f) (rw (==_refl run) refl)
job_waits run row e (inr f) = rw (e, f) (rw (==_refl run) refl)

cancelled-CancelsJob :
    (run : ℕ) (row : JobRow)
    → CancelsJob run row
        (if is_cancellable run row then record row { status = JobStatus.cancelled } else row)
cancelled-CancelsJob run row = elim (Bool-cases (is_cancellable run row)) [
  | inl h ↦
      let (e, f) = waiting_job run row h in
      rw h (
        (λ _ _. refl),
        (λ ne. absurd (ne e)),
        (λ a b. absurd (elim f [ inl p ↦ a p | inr p ↦ b p ])),
      )
  | inr h ↦ rw h ((λ e f. absurd (let g = job_waits run row e f in cc)), (λ _. refl), (λ _ _. refl))
]

listed_any :
    (run i : ℕ) (rows : List JobRow)
    → any (λ j. j == i) (cancelled_ids run rows)
      ≡ any (λ row. is_cancellable run row && row.id == i) rows
unfolding cancelled_ids
listed_any run i [] = refl
listed_any run i (row ∷ rows) = ground (arith, listed_any run i rows)

closed-ClosesEntry :
    (now run : ℕ) (jobs : List JobRow) (o : OutboxRow)
    → ClosesEntry now run jobs o (
        if any (λ i. i == o.job_id) (cancelled_ids run jobs) && not o.processed
        then record o { processed = true; processed_at = some now }
        else o)
closed-ClosesEntry now run jobs o = rw (listed_any run o.job_id jobs) (ground arith)

cancels :
    (now run : ℕ) (db : Db)
    → is_some (first_where (is_active run) db.runs) ≡ true
    → IsCancelledRun now run db (cancel_jobs now run (cancel_run run db))
unfolding cancel_jobs cancel_run
cancels now run db h = record {
  was_active = h;
  runs =
      update_where-Rowwise (CancelsRun run) (is_active run)
        (λ r. record r { status = RunStatus.cancelled }) db.runs (cancelled-CancelsRun run);
  jobs =
      update_where-Rowwise (CancelsJob run) (is_cancellable run)
        (λ row. record row { status = JobStatus.cancelled }) db.jobs (cancelled-CancelsJob run);
  outbox =
      update_where-Rowwise (ClosesEntry now run db.jobs)
        (λ o. any (λ i. i == o.job_id) (cancelled_ids run db.jobs) && not o.processed)
        (λ o. record o { processed = true; processed_at = some now }) db.outbox
        (closed-ClosesEntry now run db.jobs);
}

-- What the three results stand for.
abbrev pub CancelRunEnds : ℕ → ℕ → Db → Db × Committed → Type 0
CancelRunEnds now run db (db', committed) = IsCancelledRun now run db db'
CancelRunEnds now run db (db', not_active) =
    (db' ≡ db) × (first_where (is_active run) db.runs ≡ none)
CancelRunEnds now run db (db', failed) = (db' ≡ db) ⊎ IsCancelledRun now run db db'

commit-Ends :
    (o : Outcome) (now run : ℕ) (db db' : Db)
    → IsCancelledRun now run db db'
    → CancelRunEnds now run db (commit o db' db)
unfolding commit
commit-Ends done now run db db' h = h
commit-Ends refused now run db db' h = inl refl
commit-Ends lost now run db db' h = inr h

-- `CancelWorkflowRunAtomic` is all or nothing. On nil, the run was active and is cancelled, its pending and
-- retrying jobs are cancelled and their unprocessed outbox entries processed, and every other run, job and
-- entry stays; on `pgx.ErrNoRows`, the run was not active and nothing changes; on another error, nothing
-- has changed or all of that has.
pub cancel_workflow_run_atomic-Ends :
    (o : Replies) (now run : ℕ) (db : Db)
    → CancelRunEnds now run db (cancel_workflow_run_atomic o now run db)
unfolding cancel_workflow_run_atomic
cancel_workflow_run_atomic-Ends o now run db = elim (Bool-cases (answers (o 0) && answers (o 1))) [
  | inr e ↦ rw (e, cancel_workflow_run_atomic) (inl refl)
  | inl e ↦ elim (Option-cases (first_where (is_active run) db.runs)) [
    | inl f ↦ rw (e, f, cancel_workflow_run_atomic) (refl, f)
    | inr (r, f) ↦ elim (Bool-cases (answers (o 2))) [
      | inr g ↦ rw (e, f, g, cancel_workflow_run_atomic) (inl refl)
      | inl g ↦
          rw (e, f, g, cancel_workflow_run_atomic)
            (commit-Ends (o 3) now run db (cancel_jobs now run (cancel_run run db))
              (cancels now run db (rw f refl)))
    ]
  ]
]
