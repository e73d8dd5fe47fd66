-- ===== src/Workflow.antt =====
-- internal/workflow/workflow.go: workflows of steps with dependencies, and the registry. A nil
-- `DependsOn` is `none`; a method with a pointer receiver returns the new workflow.
pub mod Cycles
pub mod Registry
pub mod Colors
pub mod Acyclic
pub mod Detect
pub mod Valid
pub mod Unblocked
pub mod Normal
pub mod Loading
use Prim.Native.Nat.{◌/◌, ◌%◌}
use Prim.Native.String.{◌++◌ as str_append}
use Cycles.{Visit, finished, cycle_at, out_of_fuel, Color, white, visit_all, dfs}
use orqestra.Base.{
  decimal, ℕ, zero, suc, ◌+◌, Bool, true, false, not, Option, none, some, List, [], ◌∷◌, String,
  str_eq, if◌then◌else◌, ◌==◌, any, all, is_some, ltb, length, get_or, replicate, range, map,
}

pub record Step : Type 0 where
  pub id : String
  pub command : String
  pub depends_on : Option (List String)
  pub retries : ℕ

pub record Workflow : Type 0 where
  pub name : String
  pub schedule : String
  pub steps : List Step

pub data Error : Type 0 where
  duplicate_id : String → Error
  unknown_dep : String → String → Error
  cycle : String → Error

unfoldable pub step_name : ℕ → String
unfolding decimal
step_name i = str_append "step-" (decimal i i)

-- Iterating over a nil slice does nothing.
abbrev pub deps : Step → List String
deps s = elim s.depends_on [ none ↦ [] | some ds ↦ ds ]

unfoldable pub assign_id : ℕ → Step → Step
assign_id i s = if str_eq s.id "" then record s { id = step_name i } else s

unfoldable pub assign_ids : ℕ → List Step → List Step
unfolding assign_id
assign_ids i [] = []
assign_ids i (s ∷ ss) = assign_id i s ∷ assign_ids (suc i) ss

unfoldable pub dag_mode : List Step → Bool
dag_mode = any (λ s. is_some s.depends_on)

-- Each step after the first depends on the one before it.
unfoldable pub chain_after : String → List Step → List Step
chain_after prev [] = []
chain_after prev (s ∷ ss) = record s { depends_on = some (prev ∷ []) } ∷ chain_after s.id ss

unfoldable pub chain : List Step → List Step
unfolding chain_after
chain [] = []
chain (s ∷ ss) = s ∷ chain_after s.id ss

unfoldable pub normalize_steps : List Step → List Step
unfolding assign_ids dag_mode chain step_name
normalize_steps ss = let named = assign_ids 0 ss in if dag_mode named then named else chain named

unfoldable pub normalize : Workflow → Workflow
unfolding normalize_steps
normalize w = record w { steps = normalize_steps w.steps }

-- A `map[string]bool` that only grows, as the list of its keys.
abbrev pub contains : List String → String → Bool
contains ids id = any (λ x. str_eq x id) ids

unfoldable pub find_duplicate : List String → List Step → Option Error
find_duplicate seen [] = none
find_duplicate seen (s ∷ ss) =
    if contains seen s.id then some (duplicate_id s.id) else find_duplicate (s.id ∷ seen) ss

unfoldable pub unknown_in : List String → String → List String → Option Error
unknown_in seen id [] = none
unknown_in seen id (d ∷ ds) =
    if contains seen d then unknown_in seen id ds else some (unknown_dep id d)

unfoldable pub find_unknown : List String → List Step → Option Error
unfolding unknown_in
find_unknown seen [] = none
find_unknown seen (s ∷ ss) = elim (unknown_in seen s.id (deps s)) [
  | some e ↦ some e
  | none ↦ find_unknown seen ss
]

-- `indexByID[id]`: a later step of the same id overwrites, and a missing key gives 0.
unfoldable pub index_from : ℕ → List Step → String → ℕ → ℕ
index_from i [] id found = found
index_from i (s ∷ ss) id found = index_from (suc i) ss id (if str_eq s.id id then i else found)

abbrev pub no_step : Step
no_step = record { id = ""; command = ""; depends_on = none; retries = 0 }

-- `w.Steps[i]`; no index out of range is read.
abbrev pub step_at : List Step → ℕ → Step
step_at ss i = get_or ss i no_step

unfoldable pub edges : List Step → ℕ → List ℕ
unfolding index_from
edges ss i = map (λ d. index_from 0 ss d 0) (deps (step_at ss i))

-- The loop over the roots, with fuel for every step to be on the path at once.
unfoldable pub search_cycles : List Step → Visit
search_cycles ss =
    visit_all (dfs (edges ss) (suc (length ss))) (range (length ss)) (replicate (length ss) white)

-- Fuel does not run out, so that its clause is never taken.
unfoldable pub detect_cycles : List Step → Option Error
unfolding search_cycles
detect_cycles ss = elim (search_cycles ss) [
  | finished colors ↦ none
  | cycle_at i ↦ some (cycle (step_at ss i).id)
  | out_of_fuel ↦ none
]

unfoldable pub check : List Step → Option Error
unfolding find_duplicate find_unknown
check ss = elim (find_duplicate [] ss) [
  | some e ↦ some e
  | none ↦ elim (find_unknown (map (λ s. s.id) ss) ss) [ some e ↦ some e | none ↦ detect_cycles ss ]
]

-- The normalized workflow, and the error if there is one.
unfoldable pub validate : Workflow → Workflow × Option Error
validate w = let w' = normalize w in (w', check w'.steps)

-- The indices of the steps not submitted whose dependencies are all completed.
unfoldable pub unblocked_from : ℕ → (String → Bool) → (ℕ → Bool) → List Step → List ℕ
unblocked_from i completed submitted [] = []
unblocked_from i completed submitted (s ∷ ss) =
    let rest = unblocked_from (suc i) completed submitted ss in
    if submitted i then rest else if all completed (deps s) then i ∷ rest else rest

unfoldable pub unblocked_steps : (String → Bool) → (ℕ → Bool) → List Step → List ℕ
unfolding unblocked_from
unblocked_steps completed submitted ss = unblocked_from 0 completed submitted ss
