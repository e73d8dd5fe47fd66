-- ===== src/Service/FirstSteps.antt =====
-- `TriggerWorkflow` of internal/service/workflow_service.go starts a run with the steps that depend on
-- nothing.
use orqestra.Base.{
  ℕ, suc, ◌<◌, ◌≡◌, refl, sym, subst, ap, ◌∙◌, ◌⊎◌, inl, inr, false, some, List, [], ◌∷◌, ◌++◌,
  String, str_eq, eq_iff, arith, In, In-snoc, Bool-cases, Option-cases, Outcome, done, refused,
  lost, length,
}
use orqestra.Workflow.{Workflow, normalize, unblocked_steps, deps, step_at}
use orqestra.Workflow.Unblocked.{unblocked_steps_iff}
use orqestra.Workflow.Registry.{Registry, lookup}
use orqestra.Db.Tables.{Db, RunRow, RunStatus}
use orqestra.Db.Runs.{create_workflow_run, insert_run}
use orqestra.Service.Workflows.{TriggerCalls, submit_first, trigger_workflow}
use orqestra.Service.Grown.{submit_first-Grown}
use orqestra.Service.Ordered.{IsMet, names, IsOrdered, Grown-IsOrdered}
use orqestra.Service.DependencyOrder.{all-In}

snoc-In : {A : Type 0} (xs : List A) (x : A) → In x (xs ++ x ∷ [])
snoc-In [] x = inl refl
snoc-In (y ∷ xs) x = inr (snoc-In xs x)

names-snoc :
    (runs : List RunRow) (run : RunRow)
    → names (runs ++ run ∷ []) ≡ names runs ++ (run.id, run.workflow_name) ∷ []
names-snoc [] run = refl
names-snoc (r ∷ runs) run = ap (λ ns. (r.id, r.workflow_name) ∷ ns) (names-snoc runs run)

lookup-name :
    (name : String) (registry : Registry) (wf : Workflow)
    → lookup name registry ≡ some wf
    → wf.name ≡ name
unfolding lookup
lookup-name name [] wf h = absurd (cc)
lookup-name name (v ∷ r) wf h = elim (Bool-cases (str_eq v.name name)) [
  | inr e ↦ lookup-name name r wf (rw e at h)
  | inl e ↦
      let same : some v ≡ some wf = rw e at h in
      let v_name : v.name ≡ name = (eq_iff v.name name).0 e in cc
]

-- A new run has no jobs.
insert-IsOrdered :
    (registry : Registry) (name : String) (total : ℕ) (db : Db)
    → IsOrdered registry db
    → IsOrdered registry (insert_run name total db)
unfolding insert_run
insert-IsOrdered registry name total db k = record {
  fresh = λ run n m. elim (split run n m) [
    | inl old ↦ below (k.fresh run n old)
    | inr (e, _) ↦ omega arith
  ];
  named = λ run n n' m m'. elim (split run n m) [
    | inl old ↦ elim (split run n' m') [
      | inl old' ↦ k.named run n n' old old'
      | inr (e, _) ↦ absurd (let b = k.fresh run n old in omega arith)
    ]
    | inr (e, f) ↦ elim (split run n' m') [
      | inl old' ↦ absurd (let b = k.fresh run n' old' in omega arith)
      | inr (_, f') ↦ sym f ∙ f'
    ]
  ];
  owned = λ run i h. below (k.owned run i h);
  ordered = λ run n wf m l i h. elim (split run n m) [
    | inl old ↦ k.ordered run n wf old l i h
    | inr (e, _) ↦ absurd (let b = k.owned run i h in omega arith)
  ];
}
  where
    new : RunRow
    new = record {
      id = db.next_run;
      workflow_name = name;
      status = RunStatus.running;
      current_step = 0;
      total_steps = total;
    }

    below : {run : ℕ} → run < db.next_run → run < suc db.next_run
    below b = omega arith

    split :
        (run : ℕ) (n : String)
        → In (run, n) (names (db.runs ++ new ∷ []))
        → In (run, n) (names db.runs) ⊎ ((db.next_run ≡ run) × (name ≡ n))
    split run n m =
        elim (In-snoc (names db.runs) (db.next_run, name) (run, n)
          (subst (In (run, n)) (names-snoc db.runs new) m)) [
            | inl old ↦ inl old
            | inr e ↦ inr (ap (λ x. x.0) e, ap (λ x. x.1) e)
          ]

created-IsOrdered :
    (o : Outcome) (registry : Registry) (name : String) (total : ℕ) (db : Db)
    → IsOrdered registry db
    → IsOrdered registry (create_workflow_run o name total db).0
unfolding create_workflow_run
created-IsOrdered done registry name total db k = insert-IsOrdered registry name total db k
created-IsOrdered refused registry name total db k = k
created-IsOrdered lost registry name total db k = insert-IsOrdered registry name total db k

created-name :
    (o : Outcome) (name : String) (total run : ℕ) (db : Db)
    → (create_workflow_run o name total db).1 ≡ some run
    → In (run, name) (names (create_workflow_run o name total db).0.runs)
unfolding create_workflow_run insert_run
created-name refused name total run db h = absurd (cc)
created-name lost name total run db h = absurd (cc)
created-name done name total run db h =
    let number : db.next_run ≡ run = cc in
    subst (λ r. In (r, name) (names (insert_run name total db).runs)) number
      (rw (names-snoc db.runs _) (snoc-In (names db.runs) (db.next_run, name)))

-- However its calls end, `TriggerWorkflow` keeps the order: a run has jobs only for steps whose
-- dependencies are all completed, if that was so before.
pub trigger-IsOrdered :
    (c : TriggerCalls) (registry : Registry) (name : String) (db : Db)
    → IsOrdered registry db
    → IsOrdered registry (trigger_workflow c registry name db).0
unfolding trigger_workflow
trigger-IsOrdered c registry name db k = elim (Option-cases (lookup name registry)) [
  | inl e ↦ rw (e, trigger_workflow) k
  | inr (wf, e) ↦
      let ss = (normalize wf).steps in
      let x = create_workflow_run c.create wf.name (length ss) db in
      let k' = created-IsOrdered c.create registry wf.name (length ss) db k in
      elim (Option-cases x.1) [
        | inl f ↦ rw (e, f, trigger_workflow) k'
        | inr (run, f) ↦
            let is = unblocked_steps (λ _. false) (λ _. false) ss in
            rw (e, f, trigger_workflow)
              (Grown-IsOrdered registry run wf.name (λ i. In i is) x.0
                (submit_first c.submit run ss is x.0).0
                (created-name c.create wf.name (length ss) run db f)
                (λ wf' l' i m.
                  let same : wf ≡ wf' =
                    (let there = ap (λ n. lookup n registry) (lookup-name name registry wf e) ∙ e in
                      cc) in
                  subst (λ w. IsMet (normalize w).steps run x.0.jobs i) same
                    (λ d dep. absurd (
                      let no =
                        all-In (λ _. false) (deps (step_at ss i)) d
                          ((unblocked_steps_iff (λ _. false) (λ _. false) ss i).0 m).2 dep in
                      cc)))
                (submit_first-Grown c.submit run ss is x.0) k')
      ]
]
