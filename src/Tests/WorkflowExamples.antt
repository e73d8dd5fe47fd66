-- ===== src/Tests/WorkflowExamples.antt =====
-- The theorems about internal/workflow/workflow.go at concrete workflows.
use orqestra.Base.{
  ℕ, zero, suc, ◌<◌, ◌≡◌, ◌≢◌, ◌⊎◌, refl, true, none, some, List, [], ◌∷◌, String, str_eq, arith,
  ◌==◌,
}
use mathlib.Core.WellFounded.{Acc}
use orqestra.Workflow.{
  Step, Workflow, cycle, step_at, edges, detect_cycles, check, validate, normalize, unblocked_steps,
  find_duplicate, find_unknown, normalize_steps, assign_ids, assign_id, dag_mode,
}
use orqestra.Workflow.Cycles.{visit_all, dfs}
use orqestra.Workflow.Acyclic.{DependsOn, Chain}
use orqestra.Workflow.Detect.{detect_cycles_decides}
use orqestra.Workflow.Valid.{IsValid, validate-IsValid}
use orqestra.Workflow.Unblocked.{unblocked_steps_progress}

abbrev pub step : String → List String → Step
step id needs = record { id = id; command = "true"; depends_on = some needs; retries = 0 }

-- `b` needs `a`.
abbrev pub pair : Workflow
pair = record { name = "pair"; schedule = ""; steps = step "a" [] ∷ step "b" ("a" ∷ []) ∷ [] }

-- Each of the two steps needs the other.
abbrev loop : List Step
loop = step "a" ("b" ∷ []) ∷ step "b" ("a" ∷ []) ∷ []

detect_cycles_decides_example :
    ((detect_cycles loop ≡ none) × ((i : ℕ) → i < 2 → Acc (DependsOn (edges loop)) i))
    ⊎ ((x : ℕ) × (detect_cycles loop ≡ some (cycle (step_at loop x).id)) × Chain (edges loop) x x)
detect_cycles_decides_example = detect_cycles_decides loop

one_submitted : (j : ℕ) → j < 2 → (j == 0) ≡ true → str_eq (step_at pair.steps j).id "a" ≡ true
one_submitted zero b h = refl
one_submitted (suc j) b h = absurd (ground arith)

pair-IsValid : IsValid pair.steps
unfolding normalize normalize_steps assign_ids assign_id dag_mode check find_duplicate find_unknown
    detect_cycles visit_all dfs edges validate
pair-IsValid = validate-IsValid pair refl

unblocked_steps_progress_example :
    unblocked_steps (λ id. str_eq id "a") (λ i. i == 0) pair.steps ≢ []
unblocked_steps_progress_example =
    unblocked_steps_progress (λ id. str_eq id "a") (λ i. i == 0) pair.steps pair-IsValid
      one_submitted 1 (omega arith) refl
