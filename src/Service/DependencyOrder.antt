-- ===== src/Service/DependencyOrder.antt =====
-- `Advance` of internal/service/workflow_service.go submits a step when all the steps that it depends on are
-- completed, and not before.
use orqestra.Base.{
  ℕ, zero, ◌+◌, ◌&&◌, any, range_from, suc, ◌<◌, ◌≡◌, subst, inl, inr, Bool, true, false, some,
  List, [], ◌∷◌, String, str_eq, eq_iff, arith, all, In, Bool-cases, Option-cases, Outcome, done,
  refused, lost, leb, length,
}
use orqestra.Workflow.{Workflow, Step, normalize, unblocked_steps, deps, step_at}
use orqestra.Workflow.Unblocked.{unblocked_steps_iff}
use orqestra.Workflow.Registry.{Registry, lookup}
use orqestra.Db.Tables.{Db, JobRow, Query-cases}
use orqestra.Db.Runs.{advance_workflow_run, get_completed_step_indices, get_submitted_step_indices}
use orqestra.Service.Workflows.{AdvanceCalls, submit_next, completed_ids, submit_unblocked, advance}
use orqestra.Service.Grown.{completed_of, submit_next-Grown}
use orqestra.Service.Ordered.{
  IsMet, names, IsOrdered, Grown-IsOrdered, count-IsOrdered, complete-IsOrdered, fail-IsOrdered,
  counted-name,
}

-- The completed steps are read from the same rows.
completed-eq :
    (o : Outcome) (run : ℕ) (db : Db) (completed : ℕ → Bool)
    → get_completed_step_indices o run db ≡ some completed
    → completed ≡ completed_of run db.jobs
unfolding get_completed_step_indices
completed-eq done run db completed h = cc
completed-eq refused run db completed h = absurd (cc)
completed-eq lost run db completed h = absurd (cc)

pub all-In :
    (p : String → Bool) (ds : List String) (d : String) → all p ds ≡ true → In d ds → p d ≡ true
all-In p (x ∷ ds) d h m = elim (Bool-cases (p x)) [
  | inr e ↦ absurd (let gone : false ≡ true = rw e at h in cc)
  | inl e ↦ elim m [
    | inl same ↦ subst (λ y. p y ≡ true) same e
    | inr n ↦ all-In p ds d (rw e at h) n
  ]
]
all-In p [] d h m = elim m [ ]

any-range_from :
    (p : ℕ → Bool) (i n : ℕ) → any p (range_from i n) ≡ true → (j : ℕ) × (j < i + n) × (p j ≡ true)
any-range_from p i zero h = absurd (cc)
any-range_from p i (suc n) h = elim (Bool-cases (p i)) [
  | inl e ↦ (i, omega arith, e)
  | inr e ↦ let (j, b, x) = any-range_from p (suc i) n (rw e at h) in (j, omega arith, x)
]

-- What `completedIDs` holds is completed.
completed_ids-index :
    (ss : List Step) (completed : ℕ → Bool) (d : String)
    → completed_ids ss completed d ≡ true
    → (j : ℕ) × (j < length ss) × ((step_at ss j).id ≡ d) × (completed j ≡ true)
unfolding completed_ids
completed_ids-index ss completed d h =
    let (j, b, x) =
      any-range_from (λ j. completed j && str_eq (step_at ss j).id d) 0 (length ss) h in
    let done_ : completed j ≡ true = ground arith in
    let named : str_eq (step_at ss j).id d ≡ true = ground arith in
    (j, omega arith, (eq_iff (step_at ss j).id d).0 named, done_)

listed-IsMet :
    (submitted : ℕ → Bool) (ss : List Step) (run : ℕ) (rows : List JobRow) (i : ℕ)
    → In i (unblocked_steps (completed_ids ss (completed_of run rows)) submitted ss)
    → IsMet ss run rows i
listed-IsMet submitted ss run rows i m d dep =
    let C = completed_ids ss (completed_of run rows) in
    completed_ids-index ss (completed_of run rows) d
      (all-In C (deps (step_at ss i)) d ((unblocked_steps_iff C submitted ss i).0 m).2 dep)

submit_unblocked-IsOrdered :
    (c : AdvanceCalls) (registry : Registry) (run : ℕ) (name : String) (wf : Workflow) (db : Db)
    → In (run, name) (names db.runs)
    → lookup name registry ≡ some wf
    → IsOrdered registry db
    → IsOrdered registry (submit_unblocked c run (normalize wf).steps db)
unfolding submit_unblocked
submit_unblocked-IsOrdered c registry run name wf db m l k =
    let ss = (normalize wf).steps in
    elim (Option-cases (get_completed_step_indices c.completed run db)) [
      | inl e ↦ rw (e, submit_unblocked) k
      | inr (completed, e) ↦ elim (Option-cases (get_submitted_step_indices c.submitted run db)) [
        | inl f ↦ rw (e, f, submit_unblocked) k
        | inr (submitted, f) ↦
            let is = unblocked_steps (completed_ids ss completed) submitted ss in
            rw (e, f, submit_unblocked)
              (Grown-IsOrdered registry run name (λ i. In i is) db (submit_next c run ss is db) m
                (λ wf' l' i x.
                  let same : wf ≡ wf' = cc in
                  subst (λ w. IsMet (normalize w).steps run db.jobs i) same
                    (listed-IsMet submitted ss run db.jobs i (
                      subst (λ b. In i (unblocked_steps (completed_ids ss b) submitted ss))
                        (completed-eq c.completed run db completed e) x)))
                (submit_next-Grown c run ss is db) k)
      ]
    ]

-- However its calls end, `Advance` keeps the order: a run has jobs only for steps whose dependencies are
-- all completed, if that was so before.
pub advance-IsOrdered :
    (c : AdvanceCalls) (registry : Registry) (run : ℕ) (db : Db)
    → IsOrdered registry db
    → IsOrdered registry (advance c registry run db)
unfolding advance
advance-IsOrdered c registry run db k =
    let db' = (advance_workflow_run c.advance run db).0 in
    let k' = count-IsOrdered c.advance registry run db k in
    elim (Query-cases (advance_workflow_run c.advance run db).1) [
      | inl e ↦ rw (e, advance) k'
      | inr (inl e) ↦ rw (e, advance) k'
      | inr (inr ((count, total, name), e)) ↦ elim (Bool-cases (leb total count)) [
        | inl last ↦ rw (e, last, advance) (complete-IsOrdered c.complete registry run db' k')
        | inr more ↦ elim (Option-cases (lookup name registry)) [
          | inl gone ↦ rw (e, more, gone, advance) (fail-IsOrdered c.fail registry run db' k')
          | inr (wf, there) ↦
              rw (e, more, there, advance)
                (submit_unblocked-IsOrdered c registry run name wf db'
                  (counted-name c.advance run count total name db e) there k')
        ]
      ]
    ]
