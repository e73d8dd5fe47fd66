-- ===== src/Workflow/Cycles.antt =====
-- `detectCycles` of internal/workflow/workflow.go: the depth-first search, over the indices of the
-- steps, with the edges as a parameter.
use orqestra.Base.{ℕ, zero, suc, List, [], ◌∷◌, get_or, set}

pub data Color : Type 0 where
  white gray black : Color

-- The colors that a search leaves, or the step at which it finds a cycle.
pub data Visit : Type 0 where
  finished : List Color → Visit
  cycle_at : ℕ → Visit
  out_of_fuel : Visit

abbrev pub color : List Color → ℕ → Color
color colors i = get_or colors i white

-- The loop over the dependencies, and the one over the roots, which stop at an error.
unfoldable pub visit_all : (ℕ → List Color → Visit) → List ℕ → List Color → Visit
visit_all visit [] colors = finished colors
visit_all visit (i ∷ is) colors = elim (visit i colors) [
  | finished colors' ↦ visit_all visit is colors'
  | cycle_at j ↦ cycle_at j
  | out_of_fuel ↦ out_of_fuel
]

-- `colors[i] = black` after the loop.
unfoldable pub blacken : ℕ → Visit → Visit
blacken i (finished colors) = finished (set colors i black)
blacken i (cycle_at j) = cycle_at j
blacken i out_of_fuel = out_of_fuel

unfoldable pub dfs : (ℕ → List ℕ) → ℕ → ℕ → List Color → Visit
unfolding blacken visit_all
dfs edges zero i colors = out_of_fuel
dfs edges (suc fuel) i colors = elim (color colors i) [
  | black ↦ finished colors
  | gray ↦ cycle_at i
  | white ↦ blacken i (visit_all (dfs edges fuel) (edges i) (set colors i gray))
]
