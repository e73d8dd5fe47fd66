-- ===== src/Service/Ordered.antt =====
-- The order of the steps of a run: which jobs a run may have, and what internal/db/workflows.go and the
-- submission of steps in internal/service/workflow_service.go leave of it.
use orqestra.Base.{
  length, ℕ, ◌+◌, ◌<◌, ◌≡◌, refl, sym, subst, ap, ◌∙◌, inl, inr, Bool, true, some, List, [], ◌∷◌,
  map, String, arith, In, Bool-cases, Option-cases, Outcome, done, refused, lost, attempt, ==→≡,
}
use orqestra.Workflow.{Workflow, Step, normalize, deps, step_at}
use orqestra.Workflow.Registry.{Registry, lookup}
use orqestra.Db.Tables.{Db, JobRow, RunRow, update_where, first_where, found}
use orqestra.Db.Runs.{
  on_runs, advance_workflow_run, complete_workflow_run, fail_workflow_run, count_step, advanced,
  is_active,
}
use orqestra.Service.Grown.{completed_of, has_step, Grown}

-- All that the step depends on is completed in the run.
abbrev pub IsMet : List Step → ℕ → List JobRow → ℕ → Type 0
IsMet ss run rows i =
    (d : String)
    → In d (deps (step_at ss i))
    → (j : ℕ) × (j < length ss) × ((step_at ss j).id ≡ d) × (completed_of run rows j ≡ true)

-- More completed steps meet more dependencies.
pub IsMet-mono :
    (ss : List Step) (run : ℕ) (rows rows' : List JobRow) (i : ℕ)
    → ((j : ℕ) → completed_of run rows j ≡ true → completed_of run rows' j ≡ true)
    → IsMet ss run rows i
    → IsMet ss run rows' i
IsMet-mono ss run rows rows' i more met d m = let (j, b, e, c) = met d m in (j, b, e, more j c)

-- The runs, by their number and the name of their workflow.
abbrev pub names : List RunRow → List (ℕ × String)
names runs = map (λ run. (run.id, run.workflow_name)) runs

-- A run whose workflow is registered has jobs only for steps that have all their dependencies completed.
-- The numbers of runs are used once.
pub record IsOrdered (registry : Registry) (db : Db) : Type 0 where
  pub fresh : (run : ℕ) (name : String) → In (run, name) (names db.runs) → run < db.next_run
  pub named :
      (run : ℕ) (name name' : String)
      → In (run, name) (names db.runs)
      → In (run, name') (names db.runs)
      → name ≡ name'
  pub owned : (run i : ℕ) → has_step run i db.jobs ≡ true → run < db.next_run
  pub ordered :
      (run : ℕ) (name : String) (wf : Workflow)
      → In (run, name) (names db.runs)
      → lookup name registry ≡ some wf
      → (i : ℕ) → has_step run i db.jobs ≡ true
      → IsMet (normalize wf).steps run db.jobs i

module _ (registry : Registry) where
  pub same-IsOrdered :
      (db db' : Db)
      → db'.jobs ≡ db.jobs
      → names db'.runs ≡ names db.runs
      → db'.next_run ≡ db.next_run
      → IsOrdered registry db
      → IsOrdered registry db'
  same-IsOrdered db db' j r n k = record {
    fresh = λ run name m. rw n (k.fresh run name (subst (In (run, name)) r m));
    named = λ run name name' m m'.
        k.named run name name' (subst (In (run, name)) r m) (subst (In (run, name')) r m');
    owned = λ run i h. rw n (k.owned run i (rw j at h));
    ordered = λ run name wf m l i h.
        rw j (k.ordered run name wf (subst (In (run, name)) r m) l i (rw j at h));
  }

  pub Grown-IsOrdered :
      (run : ℕ) (name : String) (R : ℕ → Type 0) (db db' : Db)
      → In (run, name) (names db.runs)
      → ((wf : Workflow)
          → lookup name registry ≡ some wf
          → (i : ℕ) → R i
          → IsMet (normalize wf).steps run db.jobs i)
      → Grown run R db db'
      → IsOrdered registry db
      → IsOrdered registry db'
  Grown-IsOrdered run name R db db' m ready g k = record {
    fresh = λ r n i. rw g.next_run (k.fresh r n (back r n i));
    named = λ r n n' i i'. k.named r n n' (back r n i) (back r n' i');
    owned = λ r i h. elim (g.submitted r i h) [
      | inl old ↦ rw g.next_run (k.owned r i old)
      | inr (e, _) ↦ rw (e, g.next_run) (k.fresh run name m)
    ];
    ordered = λ r n wf i l j h.
        IsMet-mono (normalize wf).steps r db.jobs db'.jobs j
          (λ y c. ap (λ f. f y) (g.completed r) ∙ c)
          (elim (g.submitted r j h) [
            | inl old ↦ k.ordered r n wf (back r n i) l j old
            | inr (e, x) ↦
                subst (λ y. IsMet (normalize wf).steps y db.jobs j) (sym e)
                  (ready wf
                    (ap (λ y. lookup y registry)
                        (k.named run name n m
                          (subst (λ y. In (y, n) (names db.runs)) e (back r n i)))
                      ∙ l)
                    j x)
          ]);
  }
    where
      back : (r : ℕ) (n : String) → In (r, n) (names db'.runs) → In (r, n) (names db.runs)
      back r n i = rw g.runs at i

names-update :
    (p : RunRow → Bool) (f : RunRow → RunRow) (runs : List RunRow)
    → ((run : RunRow) → ((f run).id ≡ run.id) × ((f run).workflow_name ≡ run.workflow_name))
    → names (update_where p f runs) ≡ names runs
names-update p f [] h = refl
names-update p f (run ∷ runs) h = elim (Bool-cases (p run)) [
  | inl e ↦ rw (e, (h run).0, (h run).1, names-update p f runs h) refl
  | inr e ↦ rw (e, names-update p f runs h) refl
]

-- Fields of runs other than the number and the name do not matter.
module _ (p : RunRow → Bool) (f : RunRow → RunRow)
    (keeps : (run : RunRow)
      → ((f run).id ≡ run.id) × ((f run).workflow_name ≡ run.workflow_name)) where
  update-IsOrdered :
      (registry : Registry) (db : Db)
      → IsOrdered registry db
      → IsOrdered registry (on_runs (update_where p f) db)
  update-IsOrdered registry db k =
      same-IsOrdered registry db _ refl (names-update p f db.runs keeps) refl k

  attempt-IsOrdered :
      (o : Outcome) (registry : Registry) (db : Db)
      → IsOrdered registry db
      → IsOrdered registry (attempt o (on_runs (update_where p f)) db).0
  attempt-IsOrdered done registry db k = update-IsOrdered registry db k
  attempt-IsOrdered refused registry db k = k
  attempt-IsOrdered lost registry db k = update-IsOrdered registry db k

pub count-IsOrdered :
    (o : Outcome) (registry : Registry) (run : ℕ) (db : Db)
    → IsOrdered registry db
    → IsOrdered registry (advance_workflow_run o run db).0
unfolding advance_workflow_run count_step
count-IsOrdered done registry run db k = update-IsOrdered _ _ (λ r. (refl, refl)) registry db k
count-IsOrdered refused registry run db k = k
count-IsOrdered lost registry run db k = update-IsOrdered _ _ (λ r. (refl, refl)) registry db k

pub complete-IsOrdered :
    (o : Outcome) (registry : Registry) (run : ℕ) (db : Db)
    → IsOrdered registry db
    → IsOrdered registry (complete_workflow_run o run db).0
unfolding complete_workflow_run
complete-IsOrdered o registry run db k = attempt-IsOrdered _ _ (λ r. (refl, refl)) o registry db k

pub fail-IsOrdered :
    (o : Outcome) (registry : Registry) (run : ℕ) (db : Db)
    → IsOrdered registry db
    → IsOrdered registry (fail_workflow_run o run db).0
unfolding fail_workflow_run
fail-IsOrdered o registry run db k = attempt-IsOrdered _ _ (λ r. (refl, refl)) o registry db k

-- The name that the count returns is that of a run.
first_active :
    (run : ℕ) (runs : List RunRow) (row : RunRow)
    → first_where (is_active run) runs ≡ some row
    → In (run, row.workflow_name) (names runs)
first_active run [] row h = absurd (cc)
first_active run (r ∷ runs) row h = elim (Bool-cases (is_active run r)) [
  | inr e ↦ inr (first_active run runs row (rw e at h))
  | inl e ↦
      let same : some r ≡ some row = rw e at h in
      let number : r.id ≡ run = ==→≡ r.id run (ground arith) in inl (cc (number, same))
]

pub counted-name :
    (o : Outcome) (run count total : ℕ) (name : String) (db : Db)
    → (advance_workflow_run o run db).1 ≡ found (count, total, name)
    → In (run, name) (names (advance_workflow_run o run db).0.runs)
unfolding advance_workflow_run advanced count_step
counted-name refused run count total name db h = absurd (cc)
counted-name lost run count total name db h = absurd (cc)
counted-name done run count total name db h =
    elim (Option-cases (first_where (is_active run) db.runs)) [
      | inl e ↦ absurd (ground (arith, e))
      | inr (row, e) ↦
          rw
            (names-update (is_active run) (λ r. record r { current_step = r.current_step + 1 })
              db.runs (λ r. (refl, refl)))
            (subst (λ n. In (run, n) (names db.runs)) (ground (arith, e))
              (first_active run db.runs row e))
    ]
