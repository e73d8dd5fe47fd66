-- ===== src/Service/Grown.antt =====
-- What submitting steps adds to the database: `InsertWorkflowStep` of internal/db/outbox.go, and the loops
-- of internal/service/workflow_service.go that call it.
use orqestra.Base.{
  ℕ, ◌≡◌, refl, ◌⊎◌, inl, inr, Bool, true, false, ◌&&◌, Option, List, [], ◌∷◌, ◌++◌, String, arith,
  if◌then◌else◌, any, In, fun_ext, ◌∙◌, Outcome, done, refused, lost, Replies, attempt, answers,
  is_some, Bool-cases, ==→≡, sym,
}
use orqestra.Queue.Keyspace.{Payload, command}
use orqestra.Workflow.{Step, step_at}
use orqestra.Db.Tables.{JobStatus, JobRow, Db, is_value, has_status}
use orqestra.Db.Outbox.{insert_workflow_step, insert_with_entry, new_step, is_step}
use orqestra.Service.Workflows.{
  AdvanceCalls, submit_step, submit_first, submit_next, previous_output_for,
}

-- `GetCompletedStepIndices` on the rows.
abbrev pub completed_of : ℕ → List JobRow → ℕ → Bool
completed_of run rows i =
    any
      (λ row.
        is_value row.workflow_run_id run
        && (has_status JobStatus.completed row && is_value row.step_index i))
      rows

abbrev pub has_step : ℕ → ℕ → List JobRow → Bool
has_step run i rows = any (is_step run i) rows

-- Some steps of the run, each satisfying `R`, may have a job now that had none; no more steps are
-- completed, and the runs are the same.
pub record Grown (run : ℕ) (R : ℕ → Type 0) (db db' : Db) : Type 0 where
  pub runs : db'.runs ≡ db.runs
  pub next_run : db'.next_run ≡ db.next_run
  pub completed : (r : ℕ) → completed_of r db'.jobs ≡ completed_of r db.jobs
  pub submitted :
      (r i : ℕ) → has_step r i db'.jobs ≡ true → (has_step r i db.jobs ≡ true) ⊎ ((r ≡ run) × R i)

pub Grown-refl : (run : ℕ) (R : ℕ → Type 0) (db : Db) → Grown run R db db
Grown-refl run R db = record {
  runs = refl;
  next_run = refl;
  completed = λ r. refl;
  submitted = λ r i h. inl h;
}

Grown-widen :
    (run : ℕ) (R Q : ℕ → Type 0) (db db' : Db)
    → ((i : ℕ) → R i → Q i)
    → Grown run R db db'
    → Grown run Q db db'
Grown-widen run R Q db db' f g = record {
  runs = g.runs;
  next_run = g.next_run;
  completed = g.completed;
  submitted = λ r i h. elim (g.submitted r i h) [ inl old ↦ inl old | inr (e, x) ↦ inr (e, f i x) ];
}

pub Grown-trans :
    (run : ℕ) (R : ℕ → Type 0) (db db' db'' : Db)
    → Grown run R db db'
    → Grown run R db' db''
    → Grown run R db db''
Grown-trans run R db db' db'' g h = record {
  runs = h.runs ∙ g.runs;
  next_run = h.next_run ∙ g.next_run;
  completed = λ r. h.completed r ∙ g.completed r;
  submitted =
      λ r i m. elim (h.submitted r i m) [ inl old ↦ g.submitted r i old | inr new ↦ inr new ];
}

any-snoc :
    (p : JobRow → Bool) (rows : List JobRow) (row : JobRow)
    → any p (rows ++ row ∷ []) ≡ (if any p rows then true else p row)
any-snoc p [] row = ground arith
any-snoc p (x ∷ rows) row = ground (arith, any-snoc p rows row)

module _ (run i max_retries : ℕ) (payload : Payload) where
  abbrev added : Db → Db
  added db = insert_with_entry (new_step db.next_job run i max_retries payload) db

  added-completed :
      (db : Db) (r j : ℕ) → completed_of r (added db).jobs j ≡ completed_of r db.jobs j
  unfolding insert_with_entry new_step
  added-completed db r j =
      any-snoc _ db.jobs (new_step db.next_job run i max_retries payload) ∙ ground arith

  added-submitted :
      (db : Db) (r j : ℕ)
      → has_step r j (added db).jobs ≡ true
      → (has_step r j db.jobs ≡ true) ⊎ ((r ≡ run) × (j ≡ i))
  unfolding insert_with_entry new_step is_step
  added-submitted db r j h = elim (Bool-cases (has_step r j db.jobs)) [
    | inl old ↦ inl old
    | inr new ↦ inr (
        ground (
          arith,
          any-snoc (is_step r j) db.jobs (new_step db.next_job run i max_retries payload),
          ==→≡ run r,
          ==→≡ i j,
        ))
  ]

  added-Grown : (db : Db) → Grown run (λ j. j ≡ i) db (added db)
  unfolding insert_with_entry
  added-Grown db = record {
    runs = refl;
    next_run = refl;
    completed = λ r. fun_ext (added-completed db r);
    submitted = added-submitted db;
  }

attempt-Grown :
    (run : ℕ) (R : ℕ → Type 0) (o : Outcome) (f : Db → Db) (db : Db)
    → Grown run R db (f db)
    → Grown run R db (attempt o f db).0
attempt-Grown run R done f db g = g
attempt-Grown run R refused f db g = Grown-refl run R db
attempt-Grown run R lost f db g = g

if-Grown :
    (run : ℕ) (R : ℕ → Type 0) (b : Bool) (db : Db) (x y : Db × Option ℕ)
    → Grown run R db x.0
    → Grown run R db y.0
    → Grown run R db (if b then x else y).0
if-Grown run R true db x y g h = g
if-Grown run R false db x y g h = h

insert-Grown :
    (o : Replies) (run i max_retries : ℕ) (payload : Payload) (db : Db)
    → Grown run (λ j. j ≡ i) db (insert_workflow_step o run i max_retries payload db).0
unfolding insert_workflow_step
insert-Grown o run i max_retries payload db =
    let R : ℕ → Type 0 = λ j. j ≡ i in
    let same = Grown-refl run R db in
    if-Grown run R (answers (o 0) && answers (o 1)) db _ _
      (if-Grown run R (any (is_step run i) db.jobs) db _ _
        (attempt-Grown run R (o 3) (λ x. x) db same)
        (if-Grown run R (answers (o 2)) db _ _
          (attempt-Grown run R (o 3) _ db (added-Grown run i max_retries payload db)) same))
      same

submit_step-Grown :
    (o : Replies) (run i : ℕ) (ss : List Step) (previous : String) (db : Db)
    → Grown run (λ j. j ≡ i) db (submit_step o run i ss previous db).0
unfolding submit_step
submit_step-Grown o run i ss previous db =
    let s = step_at ss i in insert-Grown o run i s.retries (command s.command previous) db

-- The first of a list of steps, and then the others.
cons-Grown :
    (run i : ℕ) (is : List ℕ) (db db' db'' : Db)
    → Grown run (λ j. j ≡ i) db db'
    → Grown run (λ j. In j is) db' db''
    → Grown run (λ j. In j (i ∷ is)) db db''
cons-Grown run i is db db' db'' g h =
    Grown-trans run (λ j. In j (i ∷ is)) db db' db''
      (Grown-widen run (λ j. j ≡ i) (λ j. In j (i ∷ is)) db db' (λ j e. inl (sym e)) g)
      (Grown-widen run (λ j. In j is) (λ j. In j (i ∷ is)) db' db'' (λ j m. inr m) h)

pub submit_first-Grown :
    (o : ℕ → Replies) (run : ℕ) (ss : List Step) (is : List ℕ) (db : Db)
    → Grown run (λ j. In j is) db (submit_first o run ss is db).0
unfolding submit_first
submit_first-Grown o run ss [] db = Grown-refl run (λ j. In j []) db
submit_first-Grown o run ss (i ∷ is) db =
    let x = submit_step (o i) run i ss "" db in
    let g = submit_step-Grown (o i) run i ss "" db in
    if_ok (is_some x.1) x.0
      (cons-Grown run i is db x.0 (submit_first o run ss is x.0).0 g
        (submit_first-Grown o run ss is x.0))
      (cons-Grown run i is db x.0 x.0 g (Grown-refl run (λ j. In j is) x.0))
  where
    if_ok :
        (b : Bool) (db' : Db)
        → Grown run (λ j. In j (i ∷ is)) db (submit_first o run ss is db').0
        → Grown run (λ j. In j (i ∷ is)) db db'
        → Grown run
            (λ j. In j (i ∷ is))
            db
            (if b then submit_first o run ss is db' else (db', false)).0
    if_ok true db' g h = g
    if_ok false db' g h = h

pub submit_next-Grown :
    (c : AdvanceCalls) (run : ℕ) (ss : List Step) (is : List ℕ) (db : Db)
    → Grown run (λ j. In j is) db (submit_next c run ss is db)
unfolding submit_next
submit_next-Grown c run ss [] db = Grown-refl run (λ j. In j []) db
submit_next-Grown c run ss (i ∷ is) db =
    let previous = previous_output_for (c.output i) run i ss db in
    let db' = (submit_step (c.submit i) run i ss previous db).0 in
    cons-Grown run i is db db' (submit_next c run ss is db')
      (submit_step-Grown (c.submit i) run i ss previous db) (submit_next-Grown c run ss is db')
