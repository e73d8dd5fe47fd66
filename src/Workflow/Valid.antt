-- ===== src/Workflow/Valid.antt =====
-- `Validate` of internal/workflow/workflow.go: what holds of a workflow that it accepts.
use mathlib.Core.WellFounded.{Acc}
use orqestra.Base.{
  ℕ, suc, ◌+◌, ◌<◌, ◌≡◌, refl, ◌⊎◌, inl, inr, List, [], ◌∷◌, arith, length, In, All, subst,
  Bool-cases, if◌then◌else◌, String, str_eq, eq_iff, map, none, true, false, Option-cases,
}
use orqestra.Workflow.Acyclic.{DependsOn}
use orqestra.Workflow.Detect.{detect_cycles_decides}
use orqestra.Workflow.{
  Step, Workflow, deps, step_at, index_from, edges, detect_cycles, contains, find_duplicate,
  unknown_in, find_unknown, check, validate, normalize,
}

abbrev pub ids : List Step → List String
ids ss = map (λ s. s.id) ss

-- Every dependency is the id of a step.
abbrev pub IsKnown : List String → Step → Type 0
IsKnown known s = (d : String) → In d (deps s) → contains known d ≡ true

unknown_in-none :
    (seen : List String) (id : String) (ds : List String)
    → unknown_in seen id ds ≡ none
    → (d : String) → In d ds
    → contains seen d ≡ true
unfolding unknown_in
unknown_in-none seen id [] h d m = elim m [ ]
unknown_in-none seen id (x ∷ ds) h d m = elim (Bool-cases (contains seen x)) [
  | inr out ↦ absurd (cc (rw (out, unknown_in) at h))
  | inl hit ↦ elim m [
    | inl e ↦ subst (λ y. contains seen y ≡ true) e hit
    | inr n ↦ unknown_in-none seen id ds (rw (hit, unknown_in) at h) d n
  ]
]

find_unknown-none :
    (seen : List String) (ss : List Step) → find_unknown seen ss ≡ none → All (IsKnown seen) ss
unfolding find_unknown
find_unknown-none seen [] h = tt
find_unknown-none seen (s ∷ ss) h = elim (Option-cases (unknown_in seen s.id (deps s))) [
  | inl e ↦
      (unknown_in-none seen s.id (deps s) e, find_unknown-none seen ss (rw (e, find_unknown) at h))
  | inr (x, e) ↦ absurd (cc (rw (e, find_unknown) at h))
]

-- No id stands twice, nor among those seen before.
abbrev pub Distinct : List String → List Step → Type 0
Distinct seen [] = Unit {0}
Distinct seen (s ∷ ss) = (contains seen s.id ≡ false) × Distinct (s.id ∷ seen) ss

find_duplicate-none :
    (seen : List String) (ss : List Step) → find_duplicate seen ss ≡ none → Distinct seen ss
unfolding find_duplicate
find_duplicate-none seen [] h = tt
find_duplicate-none seen (s ∷ ss) h = elim (Bool-cases (contains seen s.id)) [
  | inl e ↦ absurd (cc (rw (e, find_duplicate) at h))
  | inr e ↦ (e, find_duplicate-none (s.id ∷ seen) ss (rw (e, find_duplicate) at h))
]

-- What `Validate` asks of the steps.
pub record IsValid (ss : List Step) : Type 0 where
  pub distinct : Distinct [] ss
  pub known : All (IsKnown (ids ss)) ss
  pub acyclic : (i : ℕ) → i < length ss → Acc (DependsOn (edges ss)) i

detect_cycles-none :
    (ss : List Step)
    → detect_cycles ss ≡ none
    → (i : ℕ) → i < length ss
    → Acc (DependsOn (edges ss)) i
detect_cycles-none ss h = elim (detect_cycles_decides ss) [
  | inl (_, sound) ↦ sound
  | inr (x, e, _) ↦ absurd (cc)
]

pub check-IsValid : (ss : List Step) → check ss ≡ none → IsValid ss
unfolding check
check-IsValid ss h = elim (Option-cases (find_duplicate [] ss)) [
  | inr (x, e) ↦ absurd (cc (rw (e, check) at h))
  | inl e ↦ elim (Option-cases (find_unknown (ids ss) ss)) [
    | inr (x, f) ↦ absurd (cc (rw (e, f, check) at h))
    | inl f ↦ record {
      distinct = find_duplicate-none [] ss e;
      known = find_unknown-none (ids ss) ss f;
      acyclic = detect_cycles-none ss (rw (e, f, check) at h);
    }
  ]
]

-- A workflow that `Validate` accepts has distinct ids, depends on its own steps only, and has no
-- cycle.
pub validate-IsValid : (w : Workflow) → (validate w).1 ≡ none → IsValid (validate w).0.steps
unfolding validate
validate-IsValid w h = check-IsValid (normalize w).steps h

-- The index of an id is that of a step which has it.
index_from_cases :
    (i : ℕ) (ss : List Step) (id : String) (found : ℕ)
    → ((index_from i ss id found ≡ found) × (contains (ids ss) id ≡ false))
      ⊎ ((k : ℕ) × (index_from i ss id found ≡ i + k) × (k < length ss) × ((step_at ss k).id ≡ id))
unfolding index_from
index_from_cases i [] id found = inl (refl, refl)
index_from_cases i (s ∷ ss) id found =
    elim (index_from_cases (suc i) ss id (if str_eq s.id id then i else found)) [
      | inr (k, e, b, same) ↦ inr (suc k, omega arith, omega arith, same)
      | inl (e, out) ↦ elim (Bool-cases (str_eq s.id id)) [
        | inl hit ↦ inr (0, ground arith, omega arith, (eq_iff s.id id).0 hit)
        | inr miss ↦ inl (ground arith, ground arith)
      ]
    ]

pub step_at-index :
    (ss : List Step) (id : String)
    → contains (ids ss) id ≡ true
    → let j = index_from 0 ss id 0 in (j < length ss) × ((step_at ss j).id ≡ id)
step_at-index ss id h = elim (index_from_cases 0 ss id 0) [
  | inl (_, out) ↦ absurd (cc)
  | inr (k, e, b, same) ↦ let at : index_from 0 ss id 0 ≡ k = omega arith in rw at (b, same)
]
