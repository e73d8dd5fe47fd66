-- ===== src/Service/Keeps.antt =====
-- What `TriggerWorkflow` and `Advance` of internal/service/workflow_service.go do to the jobs: they submit
-- steps, and nothing else, so that they keep what every submission keeps.
use orqestra.Base.{
  ℕ, ◌≡◌, refl, Bool, true, false, List, [], ◌∷◌, String, Outcome, done, refused, lost, Replies,
  if◌then◌else◌, is_some, Option-cases, Bool-cases, inl, inr, leb, length,
}
use orqestra.Workflow.{Step, normalize, unblocked_steps}
use orqestra.Workflow.Registry.{Registry, lookup}
use orqestra.Db.Tables.{Db, JobRow, Query-cases}
use orqestra.Db.Runs.{
  create_workflow_run, advance_workflow_run, complete_workflow_run, fail_workflow_run,
  get_completed_step_indices, get_submitted_step_indices,
}
use orqestra.Service.Workflows.{
  TriggerCalls, AdvanceCalls, submit_step, submit_first, trigger_workflow, submit_next,
  submit_unblocked, previous_output_for, completed_ids, advance,
}

create-jobs :
    (o : Outcome) (name : String) (total : ℕ) (db : Db)
    → (create_workflow_run o name total db).0.jobs ≡ db.jobs
unfolding create_workflow_run
create-jobs done name total db = refl
create-jobs refused name total db = refl
create-jobs lost name total db = refl

advance_run-jobs :
    (o : Outcome) (run : ℕ) (db : Db) → (advance_workflow_run o run db).0.jobs ≡ db.jobs
unfolding advance_workflow_run
advance_run-jobs done run db = refl
advance_run-jobs refused run db = refl
advance_run-jobs lost run db = refl

complete-jobs :
    (o : Outcome) (run : ℕ) (db : Db) → (complete_workflow_run o run db).0.jobs ≡ db.jobs
unfolding complete_workflow_run
complete-jobs done run db = refl
complete-jobs refused run db = refl
complete-jobs lost run db = refl

pub fail-jobs : (o : Outcome) (run : ℕ) (db : Db) → (fail_workflow_run o run db).0.jobs ≡ db.jobs
unfolding fail_workflow_run
fail-jobs done run db = refl
fail-jobs refused run db = refl
fail-jobs lost run db = refl

module _ (P : List JobRow → Type 0)
    (submits : (o : Replies) (run i : ℕ) (ss : List Step) (previous : String) (db : Db)
      → P db.jobs
      → P (submit_step o run i ss previous db).0.jobs) where
  abbrev Keeps : Db → Type 0
  Keeps db = P db.jobs

  same_jobs : (db db' : Db) → db'.jobs ≡ db.jobs → Keeps db → Keeps db'
  same_jobs db db' e k = rw e k

  if_ok :
      (b : Bool) (x : Db × Bool) (db : Db)
      → Keeps x.0
      → Keeps db
      → Keeps (if b then x else (db, false)).0
  if_ok true x db k h = k
  if_ok false x db k h = h

  submit_first-Keeps :
      (o : ℕ → Replies) (run : ℕ) (ss : List Step) (is : List ℕ) (db : Db)
      → Keeps db
      → Keeps (submit_first o run ss is db).0
  unfolding submit_first
  submit_first-Keeps o run ss [] db k = k
  submit_first-Keeps o run ss (i ∷ is) db k =
      let x = submit_step (o i) run i ss "" db in
      let k' = submits (o i) run i ss "" db k in
      if_ok (is_some x.1) (submit_first o run ss is x.0) x.0 (submit_first-Keeps o run ss is x.0 k')
        k'

  submit_next-Keeps :
      (c : AdvanceCalls) (run : ℕ) (ss : List Step) (is : List ℕ) (db : Db)
      → Keeps db
      → Keeps (submit_next c run ss is db)
  unfolding submit_next
  submit_next-Keeps c run ss [] db k = k
  submit_next-Keeps c run ss (i ∷ is) db k =
      let previous = previous_output_for (c.output i) run i ss db in
      submit_next-Keeps c run ss is (submit_step (c.submit i) run i ss previous db).0
        (submits (c.submit i) run i ss previous db k)

  submit_unblocked-Keeps :
      (c : AdvanceCalls) (run : ℕ) (ss : List Step) (db : Db)
      → Keeps db
      → Keeps (submit_unblocked c run ss db)
  unfolding submit_unblocked
  submit_unblocked-Keeps c run ss db k =
      elim (Option-cases (get_completed_step_indices c.completed run db)) [
        | inl e ↦ rw (e, submit_unblocked) k
        | inr (completed, e) ↦ elim (Option-cases (get_submitted_step_indices c.submitted run db)) [
          | inl f ↦ rw (e, f, submit_unblocked) k
          | inr (submitted, f) ↦
              rw (e, f, submit_unblocked)
                (submit_next-Keeps c run ss
                  (unblocked_steps (completed_ids ss completed) submitted ss) db k)
        ]
      ]

  pub advance-Keeps :
      (c : AdvanceCalls) (registry : Registry) (run : ℕ) (db : Db)
      → Keeps db
      → Keeps (advance c registry run db)
  unfolding advance
  advance-Keeps c registry run db k =
      let db' = (advance_workflow_run c.advance run db).0 in
      let k' = same_jobs db db' (advance_run-jobs c.advance run db) k in
      elim (Query-cases (advance_workflow_run c.advance run db).1) [
        | inl e ↦ rw (e, advance) k'
        | inr (inl e) ↦ rw (e, advance) k'
        | inr (inr ((count, total, name), e)) ↦ elim (Bool-cases (leb total count)) [
          | inl all_done ↦
              rw (e, all_done, advance)
                (same_jobs db' (complete_workflow_run c.complete run db').0
                  (complete-jobs c.complete run db') k')
          | inr more ↦ elim (Option-cases (lookup name registry)) [
            | inl gone ↦
                rw (e, more, gone, advance)
                  (same_jobs db' (fail_workflow_run c.fail run db').0 (fail-jobs c.fail run db') k')
            | inr (wf, there) ↦
                rw (e, more, there, advance)
                  (submit_unblocked-Keeps c run (normalize wf).steps db' k')
          ]
        ]
      ]

  pub trigger-Keeps :
      (c : TriggerCalls) (registry : Registry) (name : String) (db : Db)
      → Keeps db
      → Keeps (trigger_workflow c registry name db).0
  unfolding trigger_workflow
  trigger-Keeps c registry name db k = elim (Option-cases (lookup name registry)) [
    | inl e ↦ rw (e, trigger_workflow) k
    | inr (wf, e) ↦
        let ss = (normalize wf).steps in
        let x = create_workflow_run c.create wf.name (length ss) db in
        let k' = same_jobs db x.0 (create-jobs c.create wf.name (length ss) db) k in
        elim (Option-cases x.1) [
          | inl f ↦ rw (e, f, trigger_workflow) k'
          | inr (run, f) ↦
              rw (e, f, trigger_workflow)
                (submit_first-Keeps c.submit run ss (unblocked_steps (λ _. false) (λ _. false) ss)
                  x.0 k')
        ]
  ]
