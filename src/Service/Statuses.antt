-- ===== src/Service/Statuses.antt =====
-- New statuses of jobs, by the statements of internal/db/jobs.go: the order of the steps stands as long as
-- no completed job is set back.
use orqestra.Base.{
  ℕ, ◌≡◌, refl, Bool, true, false, List, [], ◌∷◌, String, arith, ◌==◌, ==→≡, In, inl, inr,
  Bool-cases, Outcome, done, refused, lost, attempt,
}
use orqestra.Workflow.{normalize}
use orqestra.Workflow.Registry.{Registry}
use orqestra.Db.Tables.{JobStatus, JobRow, Db, has_status, update_where}
use orqestra.Db.Jobs.{on_jobs, complete_job, update_job_state}
use orqestra.Db.Outbox.{is_step}
use orqestra.Service.Grown.{completed_of, has_step}
use orqestra.Service.Ordered.{IsMet-mono, IsOrdered}

module _ (p : JobRow → Bool) (f : JobRow → JobRow)
    (keeps : (row : JobRow)
      → ((f row).workflow_run_id ≡ row.workflow_run_id)
        × ((f row).step_index ≡ row.step_index)) where
  -- No completed job is set back.
  abbrev Raises : List JobRow → Type 0
  Raises rows =
      (row : JobRow)
      → In row rows
      → p row ≡ true
      → has_status JobStatus.completed row ≡ true
      → has_status JobStatus.completed (f row) ≡ true

  update-has_step :
      (run i : ℕ) (rows : List JobRow)
      → has_step run i (update_where p f rows) ≡ has_step run i rows
  unfolding is_step
  update-has_step run i [] = refl
  update-has_step run i (row ∷ rows) = elim (Bool-cases (p row)) [
    | inl e ↦ rw (e, (keeps row).0, (keeps row).1, update-has_step run i rows) refl
    | inr e ↦ rw (e, update-has_step run i rows) refl
  ]

  update-completed :
      (run i : ℕ) (rows : List JobRow)
      → Raises rows
      → completed_of run rows i ≡ true
      → completed_of run (update_where p f rows) i ≡ true
  update-completed run i [] raises h = cc
  update-completed run i (row ∷ rows) raises h =
      let rest = update-completed run i rows (λ r m. raises r (inr m)) in
      elim (Bool-cases (p row)) [
        | inl e ↦
            rw (e, (keeps row).0, (keeps row).1) (ground (arith, rest, raises row (inl refl) e))
        | inr e ↦ rw e (ground (arith, rest))
      ]

  update-IsOrdered :
      (registry : Registry) (db : Db)
      → Raises db.jobs
      → IsOrdered registry db
      → IsOrdered registry (on_jobs (update_where p f) db)
  update-IsOrdered registry db raises k = record {
    fresh = k.fresh;
    named = k.named;
    owned = λ run i h. k.owned run i (rw (update-has_step run i db.jobs) at h);
    ordered = λ run name wf m l i h.
        IsMet-mono (normalize wf).steps run db.jobs (update_where p f db.jobs) i
          (λ j. update-completed run j db.jobs raises)
          (k.ordered run name wf m l i (rw (update-has_step run i db.jobs) at h));
  }

  attempt-IsOrdered :
      (o : Outcome) (registry : Registry) (db : Db)
      → Raises db.jobs
      → IsOrdered registry db
      → IsOrdered registry (attempt o (on_jobs (update_where p f)) db).0
  attempt-IsOrdered done registry db raises k = update-IsOrdered registry db raises k
  attempt-IsOrdered refused registry db raises k = k
  attempt-IsOrdered lost registry db raises k = update-IsOrdered registry db raises k

pub complete_job-IsOrdered :
    (o : Outcome) (registry : Registry) (id : ℕ) (output : String) (db : Db)
    → IsOrdered registry db
    → IsOrdered registry (complete_job o id output db).0
unfolding complete_job
complete_job-IsOrdered o registry id output db k =
    attempt-IsOrdered (λ row. row.id == id)
      (λ row. record row { status = JobStatus.completed; output = output }) (λ row. (refl, refl)) o
      registry db (λ row m e h. refl) k

-- The jobs with the number are not completed.
abbrev pub IsUnfinished : ℕ → List JobRow → Type 0
IsUnfinished id rows =
    (row : JobRow) → In row rows → row.id ≡ id → has_status JobStatus.completed row ≡ false

pub update_job_state-IsOrdered :
    (o : Outcome) (registry : Registry) (id : ℕ) (st : JobStatus) (n : ℕ) (db : Db)
    → IsUnfinished id db.jobs
    → IsOrdered registry db
    → IsOrdered registry (update_job_state o id st n db).0
unfolding update_job_state
update_job_state-IsOrdered o registry id st n db open_ k =
    attempt-IsOrdered (λ row. row.id == id) (λ row. record row { status = st; retry_count = n })
      (λ row. (refl, refl)) o registry db
      (λ row m e h. absurd (let c = open_ row m (==→≡ row.id id e) in cc)) k
