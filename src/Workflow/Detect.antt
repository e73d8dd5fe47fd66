-- ===== src/Workflow/Detect.antt =====
-- `detectCycles` of internal/workflow/workflow.go on the steps of a workflow: it ends, and it reports a
-- cycle exactly when the dependencies have one.
use mathlib.Core.WellFounded.{Acc}
use orqestra.Base.{
  ℕ, zero, suc, ◌+◌, ◌≤◌, ◌<◌, ◌≡◌, ◌≢◌, refl, ◌⊎◌, inl, inr, List, [], ◌∷◌, arith, length, set,
  length-set, In, All, ap, sym, ◌∙◌, Bool-cases, ==→≡, ◌==◌, if◌then◌else◌, range, range_from,
  replicate, String, str_eq, map, none, some, length-replicate, get_or-replicate,
}
use orqestra.Workflow.Cycles.{
  Color, white, gray, black, Visit, finished, cycle_at, out_of_fuel, color, visit_all, blacken, dfs,
}
use orqestra.Workflow.Colors.{
  Blackens, Color-cases, visit_all-Blackens, dfs-Blackens, whites, whites-set, Extends-whites,
}
use orqestra.Workflow.Acyclic.{
  DependsOn, Chain, All-In, visit_all-KeepsSound, dfs-KeepsSound, visit_all-FindsCycle,
  dfs-FindsCycle,
}
use orqestra.Workflow.{Step, cycle, deps, step_at, index_from, edges, search_cycles, detect_cycles}

blacken-out_of_fuel : (i : ℕ) (v : Visit) → blacken i v ≡ out_of_fuel → v ≡ out_of_fuel
unfolding blacken
blacken-out_of_fuel i (finished d) h = cc
blacken-out_of_fuel i (cycle_at j) h = cc
blacken-out_of_fuel i out_of_fuel h = refl

visit_all-out_of_fuel :
    (visit : ℕ → List Color → Visit) (i : ℕ) (is : List ℕ) (c : List Color)
    → visit_all visit (i ∷ is) c ≡ out_of_fuel
    → (visit i c ≡ out_of_fuel)
      ⊎ ((d : List Color) × (visit i c ≡ finished d) × (visit_all visit is d ≡ out_of_fuel))
unfolding visit_all
visit_all-out_of_fuel visit i is c h = go (visit i c) refl
  where
    go :
        (v : Visit)
        → visit i c ≡ v
        → (visit i c ≡ out_of_fuel)
          ⊎ ((d : List Color) × (visit i c ≡ finished d) × (visit_all visit is d ≡ out_of_fuel))
    go (finished d) e = inr (d, e, rw (e, visit_all) at h)
    go (cycle_at y) e = absurd (cc (rw (e, visit_all) at h))
    go out_of_fuel e = inl e

module _ (n : ℕ) (edges : ℕ → List ℕ) (closed : (i : ℕ) → i < n → All (λ j. j < n) (edges i)) where
  -- A visit with fewer than `m` white steps ends.
  abbrev Ends : ℕ → (ℕ → List Color → Visit) → Type 0
  Ends m visit =
      (i : ℕ) (c : List Color) → length c ≡ n → i < n → whites c < m → visit i c ≢ out_of_fuel

  pub visit_all-Ends :
      (m : ℕ) (visit : ℕ → List Color → Visit)
      → Blackens n visit
      → Ends m visit
      → (is : List ℕ) (c : List Color) → length c ≡ n
      → All (λ i. i < n) is
      → whites c < m
      → visit_all visit is c ≢ out_of_fuel
  unfolding visit_all
  visit_all-Ends m visit rule ends [] c l b w h = cc
  visit_all-Ends m visit rule ends (i ∷ is) c l b w h =
      elim (visit_all-out_of_fuel visit i is c h) [
        | inl first ↦ ends i c l b.0 w first
        | inr (d, first, others) ↦
            let (x, _) = rule i c d l b.0 first in
            visit_all-Ends m visit rule ends is d (omega (arith, x.size)) b.1
              (omega (arith, Extends-whites x)) others
      ]

  -- Each call under a white step has one white step less.
  pub dfs-Ends : (fuel : ℕ) → Ends fuel (dfs edges fuel)
  unfolding dfs
  dfs-Ends zero i c l b w h = omega arith
  dfs-Ends (suc fuel) i c l b w h = elim (Color-cases (color c i)) [
    | inr (inl g) ↦ cc (rw (g, dfs) at h)
    | inr (inr k) ↦ cc (rw (k, dfs) at h)
    | inl new ↦
        visit_all-Ends fuel (dfs edges fuel) (dfs-Blackens n edges closed fuel) (dfs-Ends fuel)
          (edges i) (set c i gray) (omega (arith, length-set c i gray)) (closed i b)
          (omega (arith, whites-set c i (omega arith) new))
          (blacken-out_of_fuel i (visit_all (dfs edges fuel) (edges i) (set c i gray))
            (rw (new, dfs) at h))
  ]

-- The edges of a workflow stay within its steps.
index_from-lt :
    (i : ℕ) (ss : List Step) (id : String) (found n : ℕ)
    → found < n
    → i + length ss ≤ n
    → index_from i ss id found < n
unfolding index_from
index_from-lt i [] id found n f l = f
index_from-lt i (s ∷ ss) id found n f l =
    index_from-lt (suc i) ss id (if str_eq s.id id then i else found) n (ground arith) (omega arith)

All-index :
    (ss : List Step) (n : ℕ) (ds : List String)
    → 0 < n
    → length ss ≤ n
    → All (λ j. j < n) (map (λ d. index_from 0 ss d 0) ds)
All-index ss n [] p l = tt
All-index ss n (d ∷ ds) p l = (index_from-lt 0 ss d 0 n p (omega arith), All-index ss n ds p l)

pub edges-closed : (ss : List Step) (i : ℕ) → i < length ss → All (λ j. j < length ss) (edges ss i)
unfolding edges
edges-closed ss i b = All-index ss (length ss) (deps (step_at ss i)) (omega arith) (omega arith)

All-range : (i m n : ℕ) → i + m ≤ n → All (λ j. j < n) (range_from i m)
All-range i zero n h = tt
All-range i (suc m) n h = (omega arith, All-range (suc i) m n (omega arith))

In-range : (i m j : ℕ) → i ≤ j → j < i + m → In j (range_from i m)
In-range i zero j a b = absurd (omega arith)
In-range i (suc m) j a b = elim (Bool-cases (i == j)) [
  | inl e ↦ inl (==→≡ i j e)
  | inr e ↦ inr (In-range (suc i) m j (ground arith) (omega arith))
]

whites-replicate : (n : ℕ) → whites (replicate n white) ≡ n
whites-replicate zero = refl
whites-replicate (suc n) = ap suc (whites-replicate n)

module _ (ss : List Step) where
  abbrev n : ℕ
  n = length ss

  abbrev start : List Color
  start = replicate n white

  no_color : (x : Color) → x ≢ white → (j : ℕ) → color start j ≢ x
  no_color x h j e = h (sym e ∙ get_or-replicate n j white)

  search_ends : search_cycles ss ≢ out_of_fuel
  unfolding search_cycles
  search_ends =
      visit_all-Ends n (edges ss) (edges-closed ss) (suc n) (dfs (edges ss) (suc n))
        (dfs-Blackens n (edges ss) (edges-closed ss) (suc n))
        (dfs-Ends n (edges ss) (edges-closed ss) (suc n)) (range n) start (length-replicate n white)
        (All-range 0 n n (omega arith)) (omega (arith, whites-replicate n))

  search_sound :
      (c : List Color)
      → search_cycles ss ≡ finished c
      → (i : ℕ) → i < n
      → Acc (DependsOn (edges ss)) i
  unfolding search_cycles
  search_sound c h i b =
      let rule = dfs-Blackens n (edges ss) (edges-closed ss) (suc n) in
      let roots : All (λ j. j < n) (range n) = All-range 0 n n (omega arith) in
      let (_, done) =
        visit_all-Blackens n (dfs (edges ss) (suc n)) rule (range n) start c
          (length-replicate n white) roots h in
      visit_all-KeepsSound n (edges ss) (edges-closed ss) (dfs (edges ss) (suc n)) rule
        (dfs-KeepsSound n (edges ss) (edges-closed ss) (suc n)) (range n) start c
        (length-replicate n white) roots h (λ j e. absurd (no_color black (λ q. cc) j e)) i
        (All-In (λ j. color c j ≡ black) (range n) done
          (In-range 0 n i (omega arith) (omega arith)))

  search_cycle : (x : ℕ) → search_cycles ss ≡ cycle_at x → Chain (edges ss) x x
  unfolding search_cycles
  search_cycle x h =
      visit_all-FindsCycle n (edges ss) (edges-closed ss) (dfs (edges ss) (suc n))
        (dfs-Blackens n (edges ss) (edges-closed ss) (suc n))
        (dfs-FindsCycle n (edges ss) (edges-closed ss) (suc n)) (range n) start x
        (length-replicate n white) (All-range 0 n n (omega arith)) h
        (λ i m g e. absurd (no_color gray (λ q. cc) g e))

  -- Either no error is returned, and the edges between the steps are well-founded, or the error names a
  -- step from which a chain of edges leads back to it.
  pub detect_cycles_decides :
      ((detect_cycles ss ≡ none) × ((i : ℕ) → i < length ss → Acc (DependsOn (edges ss)) i))
      ⊎ ((x : ℕ) × (detect_cycles ss ≡ some (cycle (step_at ss x).id)) × Chain (edges ss) x x)
  unfolding detect_cycles
  detect_cycles_decides = go (search_cycles ss) refl
    where
      go :
          (v : Visit)
          → search_cycles ss ≡ v
          → ((detect_cycles ss ≡ none) × ((i : ℕ) → i < length ss → Acc (DependsOn (edges ss)) i))
            ⊎ ((x : ℕ) × (detect_cycles ss ≡ some (cycle (step_at ss x).id)) × Chain (edges ss) x x)
      go (finished c) e = inl (rw (e, detect_cycles), search_sound c e)
      go (cycle_at x) e = inr (x, rw (e, detect_cycles), search_cycle x e)
      go out_of_fuel e = absurd (search_ends e)
