-- ===== src/Service/Workflows.antt =====
-- internal/service/workflow_service.go.
use orqestra.Base.{
  ℕ, Bool, true, false, ◌&&◌, Option, none, some, List, [], ◌∷◌, String, str_eq, Outcome, Replies,
  if◌then◌else◌, length, any, suc, range, leb, is_some, ◌==◌,
}
use orqestra.Queue.Keyspace.{command}
use orqestra.Workflow.{Step, normalize, unblocked_steps, deps, step_at}
use orqestra.Workflow.Registry.{Registry, lookup}
use orqestra.Db.Tables.{Db, RunRow, Query, found, no_rows, broken}
use orqestra.Db.Jobs.{get_job_output_by_workflow_step}
use orqestra.Db.Runs.{
  create_workflow_run, advance_workflow_run, complete_workflow_run, fail_workflow_run,
  get_completed_step_indices, get_submitted_step_indices, get_workflow_run, has_active_workflow_run,
  list_workflow_runs, Committed, cancel_workflow_run_atomic,
}
use orqestra.Db.Outbox.{insert_workflow_step}

-- The payload is the JSON text of the command and the previous output.
unfoldable pub submit_step : Replies → ℕ → ℕ → List Step → String → Db → Db × Option ℕ
submit_step o run i ss previous db =
    let s = step_at ss i in insert_workflow_step o run i s.retries (command s.command previous) db

pub record TriggerCalls : Type 0 where
  pub create : Outcome
  pub submit : ℕ → Replies

-- The loop over the first steps, which stops at an error.
unfoldable pub submit_first : (ℕ → Replies) → ℕ → List Step → List ℕ → Db → Db × Bool
submit_first o run ss [] db = (db, true)
submit_first o run ss (i ∷ is) db =
    let (db', id) = submit_step (o i) run i ss "" db in
    let rest = submit_first o run ss is db' in if is_some id then rest else (db', false)

-- The number of the run; `none` is an error.
unfoldable pub trigger_workflow : TriggerCalls → Registry → String → Db → Db × Option ℕ
unfolding submit_first
trigger_workflow c registry name db = elim (lookup name registry) [
  | none ↦ (db, none)
  | some wf ↦
      let ss = (normalize wf).steps in
      let (db', id) = create_workflow_run c.create wf.name (length ss) db in
      elim id [
        | none ↦ (db', none)
        | some run ↦
            let (db'', ok) =
              submit_first c.submit run ss (unblocked_steps (λ _. false) (λ _. false) ss) db' in
            (db'', if ok then some run else none)
      ]
]

pub record AdvanceCalls : Type 0 where
  pub advance : Outcome
  pub complete : Outcome
  pub fail : Outcome
  pub completed : Outcome
  pub submitted : Outcome
  pub output : ℕ → Outcome
  pub submit : ℕ → Replies

-- The first step with the id, by its index from `i` on.
index_of : ℕ → List Step → String → Option ℕ
index_of i [] id = none
index_of i (s ∷ ss) id = if str_eq s.id id then some i else index_of (suc i) ss id

output_or_empty : Query String → String
output_or_empty (found output) = output
output_or_empty no_rows = ""
output_or_empty broken = ""

-- The output of the one dependency.
unfoldable pub previous_output_for : Outcome → ℕ → ℕ → List Step → Db → String
unfolding index_of output_or_empty
previous_output_for o run i ss db = elim (deps (step_at ss i)) [
  | [] ↦ ""
  | dep ∷ others ↦
      if length others == 0
      then elim (index_of 0 ss dep) [
        | none ↦ ""
        | some j ↦ output_or_empty (get_job_output_by_workflow_step o run j db)
      ]
      else ""
]

-- `completedIDs` of the indices that lie within the steps.
unfoldable pub completed_ids : List Step → (ℕ → Bool) → String → Bool
completed_ids ss completed id =
    any (λ i. completed i && str_eq (step_at ss i).id id) (range (length ss))

-- The loop over the unblocked steps, which goes on after an error.
unfoldable pub submit_next : AdvanceCalls → ℕ → List Step → List ℕ → Db → Db
submit_next c run ss [] db = db
submit_next c run ss (i ∷ is) db =
    let previous = previous_output_for (c.output i) run i ss db in
    submit_next c run ss is (submit_step (c.submit i) run i ss previous db).0

-- What follows a count below the total.
unfoldable pub submit_unblocked : AdvanceCalls → ℕ → List Step → Db → Db
unfolding submit_next completed_ids
submit_unblocked c run ss db = elim (get_completed_step_indices c.completed run db) [
  | none ↦ db
  | some completed ↦ elim (get_submitted_step_indices c.submitted run db) [
    | none ↦ db
    | some submitted ↦
        submit_next c run ss (unblocked_steps (completed_ids ss completed) submitted ss) db
  ]
]

unfoldable pub advance : AdvanceCalls → Registry → ℕ → Db → Db
unfolding submit_unblocked
advance c registry run db =
    let (db', counted) = advance_workflow_run c.advance run db in
    elim counted [
      | no_rows ↦ db'
      | broken ↦ db'
      | found (count, total, name) ↦
          if leb total count
          then (complete_workflow_run c.complete run db').0
          else elim (lookup name registry) [
            | none ↦ (fail_workflow_run c.fail run db').0
            | some wf ↦ submit_unblocked c run (normalize wf).steps db'
          ]
    ]

-- The methods that pass on to internal/db.
abbrev pub get_workflow_status : Outcome → ℕ → Db → Query RunRow
get_workflow_status o run db = get_workflow_run o run db

abbrev pub has_active_run : Outcome → String → Db → Query Bool
has_active_run o name db = has_active_workflow_run o name db

abbrev pub list_runs : Outcome → Db → Option (List RunRow)
list_runs o db = list_workflow_runs o db

abbrev pub cancel_workflow_run : Replies → ℕ → ℕ → Db → Db × Committed
cancel_workflow_run o now run db = cancel_workflow_run_atomic o now run db
