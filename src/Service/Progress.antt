-- ===== src/Service/Progress.antt =====
-- The progress of a workflow run: `TriggerWorkflow` and `Advance` of internal/service/workflow_service.go.
use orqestra.Base.{
  ℕ, ◌+◌, ◌≤◌, ◌≡◌, refl, Bool, true, false, ◌&&◌, Option, none, some, List, [], ◌∷◌, ◌++◌, String,
  str_eq, eq_iff, arith, ◌==◌, any, leb, length, Outcome, done, Replies, ap,
}
use orqestra.Queue.Keyspace.{Payload, command}
use orqestra.Workflow.{
  Step, Workflow, normalize, normalize_steps, unblocked_steps, unblocked_from, step_at, assign_ids,
  dag_mode, chain, check, detect_cycles,
}
use orqestra.Workflow.Registry.{Registry, lookup}
use orqestra.Workflow.Cycles.{visit_all}
use orqestra.Db.Tables.{RunStatus, JobRow, RunRow, Db, is_running, first_where, update_where, found}
use orqestra.Db.Runs.{
  is_active, advance_workflow_run, count_step, advanced, complete_workflow_run, create_workflow_run,
  insert_run, has_active_workflow_run,
}
use orqestra.Db.Outbox.{insert_workflow_step, insert_with_entry, new_step}
use orqestra.Service.Workflows.{
  TriggerCalls, AdvanceCalls, submit_step, submit_first, trigger_workflow, advance,
}
use orqestra.Service.Keeps.{advance-Keeps}

first_append :
    (p : JobRow → Bool) (rows : List JobRow) (x row : JobRow)
    → first_where p rows ≡ some row
    → first_where p (rows ++ x ∷ []) ≡ some row
first_append p [] x row h = cc
first_append p (y ∷ rows) x row h = ground (arith, first_append p rows x row)

-- A submitted job is added after the others.
HasRow : ℕ → JobRow → List JobRow → Type 0
HasRow id row rows = first_where (λ r. r.id == id) rows ≡ some row

insert_keeps_row :
    (o : Replies) (run step max_retries : ℕ) (payload : Payload) (db : Db) (id : ℕ) (row : JobRow)
    → HasRow id row db.jobs
    → HasRow id row (insert_workflow_step o run step max_retries payload db).0.jobs
unfolding insert_workflow_step insert_with_entry HasRow
insert_keeps_row o run step max_retries payload db id row h = ground (
  arith,
  first_append (λ r. r.id == id) db.jobs (new_step db.next_job run step max_retries payload) row h,
)

submit_keeps_row :
    (id : ℕ) (row : JobRow) (o : Replies) (run i : ℕ) (ss : List Step) (previous : String) (db : Db)
    → HasRow id row db.jobs
    → HasRow id row (submit_step o run i ss previous db).0.jobs
unfolding submit_step
submit_keeps_row id row o run i ss previous db h =
    let s = step_at ss i in
    insert_keeps_row o run i s.retries (command s.command previous) db id row h

-- However its calls end, `Advance` leaves the row of every job as it is.
pub advance-job_row :
    (c : AdvanceCalls) (registry : Registry) (run : ℕ) (db : Db) (id : ℕ) (row : JobRow)
    → first_where (λ r. r.id == id) db.jobs ≡ some row
    → first_where (λ r. r.id == id) (advance c registry run db).jobs ≡ some row
unfolding HasRow
advance-job_row c registry run db id row h =
    advance-Keeps (HasRow id row) (submit_keeps_row id row) c registry run db h

-- The row of a run.
abbrev pub run_row : ℕ → Db → Option RunRow
run_row id db = first_where (λ run. run.id == id) db.runs

abbrev pub one_more : RunRow → RunRow
one_more run = record run { current_step = run.current_step + 1 }

first_active :
    (id : ℕ) (rows : List RunRow) (run : RunRow)
    → first_where (λ r. r.id == id) rows ≡ some run
    → is_running run ≡ true
    → first_where (is_active id) rows ≡ some run
first_active id [] run h r = cc
first_active id (x ∷ rows) run h r = ground (arith, first_active id rows run)

counted :
    (id : ℕ) (rows : List RunRow) (run : RunRow)
    → first_where (λ r. r.id == id) rows ≡ some run
    → is_running run ≡ true
    → first_where (λ r. r.id == id) (update_where (is_active id) one_more rows)
      ≡ some (one_more run)
counted id [] run h r = cc
counted id (x ∷ rows) run h r = ground (arith, counted id rows run)

status_set :
    (id : ℕ) (st : RunStatus) (rows : List RunRow) (run : RunRow)
    → first_where (λ r. r.id == id) rows ≡ some run
    → first_where
        (λ r. r.id == id)
        (update_where (λ r. r.id == id) (λ r. record r { status = st }) rows)
      ≡ some (record run { status = st })
status_set id st [] run h = cc
status_set id st (x ∷ rows) run h = ground (arith, status_set id st rows run)

advance_done :
    (o : Outcome) (id : ℕ) (db : Db) (run : RunRow)
    → o ≡ done
    → run_row id db ≡ some run
    → is_running run ≡ true
    → (run_row id (advance_workflow_run o id db).0 ≡ some (one_more run))
      × ((advance_workflow_run o id db).1
          ≡ found (run.current_step + 1, run.total_steps, run.workflow_name))
unfolding advance_workflow_run count_step advanced
advance_done o id db run d h r = (
  rw d (counted id db.runs run h r),
  rw (d, advance_workflow_run) (rw (first_active id db.runs run h r, advanced) refl),
)

-- If its calls succeed, and the run is running and lacks one step at most, `Advance` marks the run as
-- completed, with the step counted.
pub advance_completes :
    (c : AdvanceCalls) (registry : Registry) (id : ℕ) (db : Db) (run : RunRow)
    → c.advance ≡ done
    → c.complete ≡ done
    → run_row id db ≡ some run
    → is_running run ≡ true
    → run.total_steps ≤ run.current_step + 1
    → run_row id (advance c registry id db)
      ≡ some (record run { status = RunStatus.completed; current_step = run.current_step + 1 })
unfolding advance complete_workflow_run
advance_completes c registry id db run a k h r last =
    let (row, reply) = advance_done c.advance id db run a h r in
    let enough : leb run.total_steps (run.current_step + 1) ≡ true = ground arith in
    rw (reply, enough, k, advance)
      (status_set id RunStatus.completed (advance_workflow_run c.advance id db).0.runs
        (one_more run) row)

normalize_empty : (wf : Workflow) → wf.steps ≡ [] → (normalize wf).steps ≡ []
unfolding normalize normalize_steps assign_ids dag_mode chain
normalize_empty wf e = ap normalize_steps e

none_unblocked : (ss : List Step) → ss ≡ [] → unblocked_steps (λ _. false) (λ _. false) ss ≡ []
unfolding unblocked_steps unblocked_from
none_unblocked ss e = ap (unblocked_steps (λ _. false) (λ _. false)) e

active_append :
    (rows : List RunRow) (run : RunRow) (name : String)
    → str_eq run.workflow_name name ≡ true
    → is_running run ≡ true
    → any (λ r. str_eq r.workflow_name name && is_running r) (rows ++ run ∷ []) ≡ true
active_append [] run name n r = ground arith
active_append (x ∷ rows) run name n r = ground (arith, active_append rows run name n r)

str_eq_refl : (s : String) → str_eq s s ≡ true
str_eq_refl s = (eq_iff s s).1 refl

created_active :
    (name : String) (total : ℕ) (db : Db)
    → has_active_workflow_run done name (create_workflow_run done name total db).0 ≡ found true
unfolding has_active_workflow_run create_workflow_run insert_run
created_active name total db = ap found (active_append db.runs _ name (str_eq_refl name) refl)

check_empty : check [] ≡ none
unfolding check detect_cycles visit_all
check_empty = refl

triggered :
    (c : TriggerCalls) (registry : Registry) (name : String) (wf : Workflow) (db : Db)
    → lookup name registry ≡ some wf
    → wf.steps ≡ []
    → c.create ≡ done
    → trigger_workflow c registry name db
      ≡ ((create_workflow_run done wf.name (length (normalize wf).steps) db).0, some db.next_run)
unfolding trigger_workflow create_workflow_run submit_first
triggered c registry name wf db l e k =
    let none_left = none_unblocked (normalize wf).steps (normalize_empty wf e) in
    rw (l, k, none_left, trigger_workflow, submit_first)
      (ap
        (λ o.
          ((create_workflow_run o wf.name (length (normalize wf).steps) db).0, some db.next_run))
        k)

created-jobs :
    (name : String) (total : ℕ) (db : Db)
    → (create_workflow_run done name total db).0.jobs ≡ db.jobs
unfolding create_workflow_run insert_run
created-jobs name total db = refl

-- If `CreateWorkflowRun` succeeds, `TriggerWorkflow` of a workflow without steps, to which `Validate`
-- has no objection, returns the number of the new run and leaves the jobs as they are, and the
-- workflow has an active run.
pub trigger_idles :
    (c : TriggerCalls) (registry : Registry) (name : String) (wf : Workflow) (db : Db)
    → lookup name registry ≡ some wf
    → wf.steps ≡ []
    → c.create ≡ done
    → let x = trigger_workflow c registry name db in
      (check (normalize wf).steps ≡ none)
      × (x.1 ≡ some db.next_run)
      × (x.0.jobs ≡ db.jobs)
      × (has_active_workflow_run done wf.name x.0 ≡ found true)
trigger_idles c registry name wf db l e k =
    let at = triggered c registry name wf db l e k in
    let total = length (normalize wf).steps in
    (
      rw (normalize_empty wf e) check_empty,
      rw at refl,
      rw at (created-jobs wf.name total db),
      rw at (created_active wf.name total db),
    )
