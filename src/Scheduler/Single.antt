-- ===== src/Scheduler/Single.antt =====
-- No two runs of a workflow at once, as far as cron starts them.
use orqestra.Base.{
  ℕ, suc, ◌≤◌, ◌≡◌, refl, Bool, true, false, ◌&&◌, some, List, [], ◌∷◌, ◌++◌, String, str_eq,
  eq_iff, arith, if◌then◌else◌, Bool-cases, Option-cases, inl, inr, ◌⊎◌, any, length, is_some,
  Outcome, done, refused, lost, Replies, sym, subst, ap, ◌∙◌,
}
use orqestra.Workflow.{Step, Workflow, normalize, unblocked_steps}
use orqestra.Workflow.Registry.{Registry, lookup}
use orqestra.Db.Tables.{RunRow, Db, is_running, found, Query-cases}
use orqestra.Db.Runs.{create_workflow_run, insert_run, has_active_workflow_run}
use orqestra.Db.Outbox.{insert_workflow_step, insert_with_entry}
use orqestra.Service.Workflows.{
  TriggerCalls, submit_step, submit_first, trigger_workflow, has_active_run,
}
use orqestra.Scheduler.{TickCalls, tick, ticks}

abbrev is_active_run : String → RunRow → Bool
is_active_run name run = str_eq run.workflow_name name && is_running run

abbrev pub active_runs : String → List RunRow → ℕ
active_runs name [] = 0
active_runs name (run ∷ runs) =
    if is_active_run name run then suc (active_runs name runs) else active_runs name runs

-- Every workflow has one active run at most.
abbrev pub IsSingle : Db → Type 0
IsSingle db = (name : String) → active_runs name db.runs ≤ 1

active_runs-append :
    (name : String) (runs : List RunRow) (run : RunRow)
    → active_runs name (runs ++ run ∷ [])
      ≡ (if is_active_run name run then suc (active_runs name runs) else active_runs name runs)
active_runs-append name [] run = refl
active_runs-append name (x ∷ runs) run = ground (arith, active_runs-append name runs run)

active_runs-none :
    (name : String) (runs : List RunRow)
    → any (λ run. str_eq run.workflow_name name && is_running run) runs ≡ false
    → active_runs name runs ≡ 0
active_runs-none name [] h = refl
active_runs-none name (run ∷ runs) h = ground (arith, active_runs-none name runs)

submit-runs :
    (o : Replies) (run i : ℕ) (ss : List Step) (previous : String) (db : Db)
    → (submit_step o run i ss previous db).0.runs ≡ db.runs
unfolding submit_step insert_workflow_step insert_with_entry
submit-runs o run i ss previous db = ground arith

submit_first-runs :
    (o : ℕ → Replies) (run : ℕ) (ss : List Step) (is : List ℕ) (db : Db)
    → (submit_first o run ss is db).0.runs ≡ db.runs
unfolding submit_first
submit_first-runs o run ss [] db = refl
submit_first-runs o run ss (i ∷ is) db =
    let x = submit_step (o i) run i ss "" db in
    let first = submit-runs (o i) run i ss "" db in
    elim (Bool-cases (is_some x.1)) [
      | inl e ↦ rw (e, submit_first) (submit_first-runs o run ss is x.0 ∙ first)
      | inr e ↦ rw (e, submit_first) first
    ]

lookup-name : (name : String) (r : Registry) (w : Workflow) → lookup name r ≡ some w → w.name ≡ name
unfolding lookup
lookup-name name [] w h = absurd (cc)
lookup-name name (v ∷ r) w h = elim (Bool-cases (str_eq v.name name)) [
  | inl e ↦
      let same : v ≡ w = ground (arith, e) in
      ap (λ (x : Workflow). x.name) (sym same) ∙ (eq_iff v.name name).0 e
  | inr e ↦ lookup-name name r w (ground (arith, e))
]

-- The runs after a trigger: as they were, or one more of the workflow.
abbrev AddsOne : String → Db → Db → Type 0
AddsOne name db db' =
    (db'.runs ≡ db.runs)
    ⊎ ((run : RunRow) × (db'.runs ≡ db.runs ++ run ∷ []) × (run.workflow_name ≡ name))

create-AddsOne :
    (o : Outcome) (name : String) (total : ℕ) (db : Db)
    → AddsOne name db (create_workflow_run o name total db).0
unfolding create_workflow_run insert_run
create-AddsOne done name total db = inr (_, refl, refl)
create-AddsOne refused name total db = inl refl
create-AddsOne lost name total db = inr (_, refl, refl)

AddsOne-same :
    (name : String) (db db' db'' : Db)
    → AddsOne name db db'
    → db''.runs ≡ db'.runs
    → AddsOne name db db''
AddsOne-same name db db' db'' (inl e) f = inl (f ∙ e)
AddsOne-same name db db' db'' (inr (run, e, n)) f = inr (run, f ∙ e, n)

trigger-AddsOne :
    (c : TriggerCalls) (registry : Registry) (name : String) (db : Db)
    → AddsOne name db (trigger_workflow c registry name db).0
unfolding trigger_workflow
trigger-AddsOne c registry name db = elim (Option-cases (lookup name registry)) [
  | inl e ↦ rw (e, trigger_workflow) (inl refl)
  | inr (wf, e) ↦
      let ss = (normalize wf).steps in
      let x = create_workflow_run c.create wf.name (length ss) db in
      let named = lookup-name name registry wf e in
      let created : AddsOne name db x.0 =
        subst (λ n. AddsOne n db x.0) named (create-AddsOne c.create wf.name (length ss) db) in
      elim (Option-cases x.1) [
        | inl f ↦ rw (e, f, trigger_workflow) created
        | inr (run, f) ↦
            rw (e, f, trigger_workflow)
              (AddsOne-same name db x.0
                (submit_first c.submit run ss (unblocked_steps (λ _. false) (λ _. false) ss) x.0).0
                created
                (submit_first-runs c.submit run ss (unblocked_steps (λ _. false) (λ _. false) ss)
                  x.0))
      ]
]

adds-IsSingle :
    (name : String) (db db' : Db)
    → any (λ run. str_eq run.workflow_name name && is_running run) db.runs ≡ false
    → IsSingle db
    → AddsOne name db db'
    → IsSingle db'
adds-IsSingle name db db' idle single (inl e) other = rw e (single other)
adds-IsSingle name db db' idle single (inr (run, e, n)) other =
    let grown = ap (active_runs other) e ∙ active_runs-append other db.runs run in
    elim (Bool-cases (str_eq run.workflow_name other)) [
      | inr miss ↦ ground (arith, grown, miss, single other)
      | inl hit ↦
          let same : name ≡ other = sym n ∙ (eq_iff run.workflow_name other).0 hit in
          let none_yet =
            subst (λ x. active_runs x db.runs ≡ 0) same (active_runs-none name db.runs idle) in
          ground (arith, grown, none_yet)
    ]

was_idle :
    (o : Outcome) (name : String) (db : Db)
    → has_active_run o name db ≡ found false
    → any (λ run. str_eq run.workflow_name name && is_running run) db.runs ≡ false
unfolding has_active_workflow_run
was_idle o name db e = ground arith

tick-IsSingle :
    (c : TickCalls) (registry : Registry) (name : String) (db : Db)
    → IsSingle db
    → IsSingle (tick c registry name db)
unfolding tick
tick-IsSingle c registry name db single = elim (Query-cases (has_active_run c.active name db)) [
  | inl e ↦ rw (e, tick) single
  | inr (inl e) ↦ rw (e, tick) single
  | inr (inr (true, e)) ↦ rw (e, tick) single
  | inr (inr (false, e)) ↦
      rw (e, tick)
        (adds-IsSingle name db (trigger_workflow c.trigger registry name db).0
          (was_idle c.active name db e) single (trigger-AddsOne c.trigger registry name db))
]

-- However the calls of the ticks end, cron starts no second run of a workflow next to an active one: if
-- every workflow has one active run at most, then so it is after any ticks that come one after the other.
pub ticks-IsSingle :
    (ts : List (TickCalls × String)) (registry : Registry) (db : Db)
    → IsSingle db
    → IsSingle (ticks ts registry db)
unfolding ticks
ticks-IsSingle [] registry db single = single
ticks-IsSingle ((c, name) ∷ ts) registry db single =
    ticks-IsSingle ts registry (tick c registry name db) (tick-IsSingle c registry name db single)
