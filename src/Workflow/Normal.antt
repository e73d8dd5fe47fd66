-- ===== src/Workflow/Normal.antt =====
-- `Normalize` of internal/workflow/workflow.go.
use text.Mathlib.TextLemmas.{append-eq-nil_iff, cons-ne-nil}
use orqestra.Base.{
  ℕ, suc, ◌≡◌, refl, List, [], ◌∷◌, arith, ap, sym, ◌∙◌, Bool-cases, inl, inr, if◌then◌else◌,
  String, str_eq, eq_iff, true, false, All,
}
use orqestra.Workflow.{
  Step, Workflow, step_name, decimal, assign_id, assign_ids, dag_mode, chain, chain_after,
  normalize_steps, normalize,
}

step_name-ne : (i : ℕ) → str_eq (step_name i) "" ≡ false
unfolding step_name
step_name-ne i = elim (Bool-cases (str_eq (step_name i) "")) [
  | inr e ↦ e
  | inl e ↦ absurd (
      cons-ne-nil _ _
        ((append-eq-nil_iff {p = "step-"} {q = decimal i i}).0 ((eq_iff (step_name i) "").0 e)).0)
]

-- Every step has an id.
abbrev pub IsNamed : Step → Type 0
IsNamed s = str_eq s.id "" ≡ false

assign_id-IsNamed : (i : ℕ) (s : Step) → IsNamed (assign_id i s)
unfolding assign_id
assign_id-IsNamed i s = ground (arith, step_name-ne i)

pub assign_ids-IsNamed : (i : ℕ) (ss : List Step) → All IsNamed (assign_ids i ss)
unfolding assign_ids
assign_ids-IsNamed i [] = tt
assign_ids-IsNamed i (s ∷ ss) = (assign_id-IsNamed i s, assign_ids-IsNamed (suc i) ss)

assign_ids_named : (i : ℕ) (ss : List Step) → All IsNamed ss → assign_ids i ss ≡ ss
unfolding assign_ids assign_id
assign_ids_named i [] h = refl
assign_ids_named i (s ∷ ss) h = ground (arith, assign_ids_named (suc i) ss)

chain_after-IsNamed :
    (prev : String) (ss : List Step) → All IsNamed ss → All IsNamed (chain_after prev ss)
unfolding chain_after
chain_after-IsNamed prev [] h = tt
chain_after-IsNamed prev (s ∷ ss) h = (h.0, chain_after-IsNamed s.id ss h.1)

chain-IsNamed : (ss : List Step) → All IsNamed ss → All IsNamed (chain ss)
unfolding chain
chain-IsNamed [] h = tt
chain-IsNamed (s ∷ ss) h = (h.0, chain_after-IsNamed s.id ss h.1)

-- Steps that are normalized already: named, and in DAG mode or at most one.
normalize_named :
    (ss : List Step) → All IsNamed ss → normalize_steps ss ≡ (if dag_mode ss then ss else chain ss)
unfolding normalize_steps
normalize_named ss h = rw (assign_ids_named 0 ss h)

chain-chain :
    (ss : List Step) → (if dag_mode (chain ss) then chain ss else chain (chain ss)) ≡ chain ss
unfolding dag_mode chain chain_after
chain-chain [] = refl
chain-chain (s ∷ []) = ground arith
chain-chain (s ∷ x ∷ ss) = ground arith

normalize_dag :
    (ss : List Step) → dag_mode (assign_ids 0 ss) ≡ true → normalize_steps ss ≡ assign_ids 0 ss
unfolding normalize_steps
normalize_dag ss e = rw e

normalize_chain :
    (ss : List Step)
    → dag_mode (assign_ids 0 ss) ≡ false
    → normalize_steps ss ≡ chain (assign_ids 0 ss)
unfolding normalize_steps
normalize_chain ss e = rw e

dag_twice : (ss : List Step) → dag_mode ss ≡ true → (if dag_mode ss then ss else chain ss) ≡ ss
dag_twice ss e = rw e

pub normalize_steps_idem :
    (ss : List Step) → normalize_steps (normalize_steps ss) ≡ normalize_steps ss
normalize_steps_idem ss = elim (Bool-cases (dag_mode named)) [
  | inl e ↦
      ap normalize_steps (normalize_dag ss e)
      ∙ (normalize_named named are_named ∙ (dag_twice named e ∙ sym (normalize_dag ss e)))
  | inr e ↦
      ap normalize_steps (normalize_chain ss e)
      ∙ (normalize_named (chain named) (chain-IsNamed named are_named)
          ∙ (chain-chain named ∙ sym (normalize_chain ss e)))
]
  where
    named : List Step
    named = assign_ids 0 ss

    are_named : All IsNamed named
    are_named = assign_ids-IsNamed 0 ss

-- Normalizing a normalized workflow changes nothing.
pub normalize_idem : (w : Workflow) → normalize (normalize w) ≡ normalize w
unfolding normalize
normalize_idem w = λ i. record w { steps = normalize_steps_idem w.steps i }
