-- ===== src/Workflow/Unblocked.antt =====
-- `UnblockedSteps` of internal/workflow/workflow.go: which steps it lists, and that a valid workflow whose
-- submitted steps are all completed always has one to go on with.
use mathlib.Core.WellFounded.{Acc}
use orqestra.Base.{
  ℕ, zero, suc, ◌+◌, ◌<◌, ◌≡◌, ◌≢◌, refl, ◌↔◌, ◌⊎◌, inl, inr, List, [], ◌∷◌, arith, length, In, All,
  ap, sym, subst, Bool-cases, String, map, Bool, true, false, all,
}
use orqestra.Workflow.Acyclic.{DependsOn}
use orqestra.Workflow.Valid.{ids, IsKnown, IsValid, step_at-index}
use orqestra.Workflow.{Step, deps, step_at, index_from, edges, unblocked_from, unblocked_steps}

all-false :
    (p : String → Bool) (ds : List String)
    → all p ds ≡ false
    → (d : String) × In d ds × (p d ≡ false)
all-false p [] h = absurd (cc)
all-false p (x ∷ ds) h = elim (Bool-cases (p x)) [
  | inr e ↦ (x, inl refl, e)
  | inl e ↦ let (d, m, f) = all-false p ds (ground arith) in (d, inr m, f)
]

In-map : {A B : Type 0} (f : A → B) (xs : List A) (a : A) → In a xs → In (f a) (map f xs)
In-map f (x ∷ xs) a (inl e) = inl (ap f e)
In-map f (x ∷ xs) a (inr m) = inr (In-map f xs a m)
In-map f [] a m = elim m [ ]

All-step_at :
    (P : Step → Type 0) (ss : List Step) (i : ℕ) → All P ss → i < length ss → P (step_at ss i)
All-step_at P [] i h b = absurd (omega arith)
All-step_at P (s ∷ ss) zero h b = h.0
All-step_at P (s ∷ ss) (suc i) h b = All-step_at P ss i h.1 (omega arith)

module _ (completed : String → Bool) (submitted : ℕ → Bool) where
  -- A step is listed if it is not submitted and all it depends on is completed.
  abbrev pub IsReady : List Step → ℕ → Type 0
  IsReady ss i =
      (i < length ss) × (submitted i ≡ false) × (all completed (deps (step_at ss i)) ≡ true)

  ready_from :
      (k i : ℕ) (ss : List Step)
      → i < length ss
      → submitted (k + i) ≡ false
      → all completed (deps (step_at ss i)) ≡ true
      → In (k + i) (unblocked_from k completed submitted ss)
  unfolding unblocked_from
  ready_from k i [] b s c = absurd (omega arith)
  ready_from k zero (x ∷ ss) b s c =
      let e : k + 0 ≡ k = omega arith in rw e (ground (arith, rw e at s))
  ready_from k (suc i) (x ∷ ss) b s c =
      let e : k + suc i ≡ suc k + i = omega arith in
      rw e (ground (arith, ready_from (suc k) i ss (omega arith) (rw e at s) c))

  abbrev Listed : ℕ → List Step → ℕ → Type 0
  Listed k ss j =
      (i : ℕ) × (j ≡ k + i)
      × (i < length ss)
      × (submitted j ≡ false)
      × (all completed (deps (step_at ss i)) ≡ true)

  Listed-cons :
      (k : ℕ) (x : Step) (ss : List Step) (j : ℕ) → Listed (suc k) ss j → Listed k (x ∷ ss) j
  Listed-cons k x ss j (i, e, b, s, c) = (suc i, omega arith, omega arith, s, c)

  of_unblocked_from :
      (k : ℕ) (ss : List Step) (j : ℕ)
      → In j (unblocked_from k completed submitted ss)
      → Listed k ss j
  unfolding unblocked_from
  of_unblocked_from k [] j m = elim m [ ]
  of_unblocked_from k (x ∷ ss) j m = elim (Bool-cases (submitted k)) [
    | inl s ↦ Listed-cons k x ss j (of_unblocked_from (suc k) ss j (rw (s, unblocked_from) at m))
    | inr s ↦ elim (Bool-cases (all completed (deps x))) [
      | inr c ↦
          Listed-cons k x ss j (of_unblocked_from (suc k) ss j (rw (s, c, unblocked_from) at m))
      | inl c ↦ first_or_later s c (rw (s, c, unblocked_from) at m) (of_unblocked_from (suc k) ss j)
    ]
  ]
    where
      first_or_later :
          submitted k ≡ false
          → all completed (deps x) ≡ true
          → (k ≡ j) ⊎ In j (unblocked_from (suc k) completed submitted ss)
          → (In j (unblocked_from (suc k) completed submitted ss) → Listed (suc k) ss j)
          → Listed k (x ∷ ss) j
      first_or_later s c (inl e) ih =
          (0, omega arith, omega arith, subst (λ y. submitted y ≡ false) e s, c)
      first_or_later s c (inr n) ih = Listed-cons k x ss j (ih n)

  -- A step is listed exactly if it is one of the steps, is not submitted, and has all its dependencies
  -- completed.
  pub unblocked_steps_iff :
      (ss : List Step) (i : ℕ) → In i (unblocked_steps completed submitted ss) ↔ IsReady ss i
  unfolding unblocked_steps
  unblocked_steps_iff ss i = (
    λ m.
        let (k, e, b, s, c) = of_unblocked_from 0 ss i m in
        let same : i ≡ k = omega arith in
        (omega arith, s, subst (λ j. all completed (deps (step_at ss j)) ≡ true) (sym same) c),
    λ r.
        subst (λ j. In j (unblocked_from 0 completed submitted ss)) (omega arith)
          (ready_from 0 i ss r.0 (subst (λ j. submitted j ≡ false) (omega arith) r.1) r.2),
  )

  dependency_of :
      (ss : List Step) (i : ℕ) (d : String)
      → In d (deps (step_at ss i))
      → In (index_from 0 ss d 0) (edges ss i)
  unfolding edges
  dependency_of ss i d m = In-map (λ d. index_from 0 ss d 0) (deps (step_at ss i)) d m

  -- The walk down the dependencies from a step that is not submitted.
  descend :
      (ss : List Step)
      → IsValid ss
      → ((j : ℕ) → j < length ss → submitted j ≡ true → completed (step_at ss j).id ≡ true)
      → (i : ℕ) → i < length ss
      → submitted i ≡ false
      → Acc (DependsOn (edges ss)) i
      → (j : ℕ) × IsReady ss j
  descend ss v done i b s (Acc.intro _ below) =
      elim (Bool-cases (all completed (deps (step_at ss i)))) [
        | inl c ↦ (i, (b, s, c))
        | inr c ↦
            let (d, m, open_) = all-false completed (deps (step_at ss i)) c in
            let known = All-step_at (IsKnown (ids ss)) ss i v.known b d m in
            let (b', same) = step_at-index ss d known in
            let j = index_from 0 ss d 0 in
            elim (Bool-cases (submitted j)) [
              | inl t ↦ absurd (cc (done j b' t, ap completed same))
              | inr t ↦ descend ss v done j b' t (below j (dependency_of ss i d m))
            ]
      ]

  -- If a step of a valid workflow is not submitted, and every submitted step is completed, some step is
  -- unblocked.
  pub unblocked_steps_progress :
      (ss : List Step)
      → IsValid ss
      → ((j : ℕ) → j < length ss → submitted j ≡ true → completed (step_at ss j).id ≡ true)
      → (i : ℕ) → i < length ss
      → submitted i ≡ false
      → unblocked_steps completed submitted ss ≢ []
  unblocked_steps_progress ss v done i b s e =
      let (j, ready) = descend ss v done i b s (v.acyclic i b) in
      absurd (subst (In j) e ((unblocked_steps_iff ss j).1 ready))
