-- ===== src/Workflow/Loading.antt =====
-- `Register` and `LoadFromDir` of internal/workflow/workflow.go: what the registry of the server holds.
use orqestra.Base.{
  ◌≡◌, some, List, [], ◌∷◌, String, str_eq, arith, All, Option-cases, Bool-cases, inl, inr, subst,
}
use orqestra.Workflow.{Workflow, validate}
use orqestra.Workflow.Registry.{
  Registry, register, lookup, Entry, skipped, unreadable, unparsable, parsed, load_entries,
  Directory, missing, unlistable, listed, load_from_dir,
}
use orqestra.Workflow.Valid.{IsValid, validate-IsValid}

-- Every workflow of the registry is valid.
abbrev pub IsSound : Registry → Type 0
IsSound r = All (λ (w : Workflow). IsValid w.steps) r

register-IsSound :
    (w : Workflow) (r : Registry) → IsValid w.steps → IsSound r → IsSound (register w r)
unfolding register
register-IsSound w [] h s = (h, tt)
register-IsSound w (v ∷ r) h s = elim (Bool-cases (str_eq v.name w.name)) [
  | inl e ↦ rw (e, register) (h, s.1)
  | inr e ↦ rw (e, register) (s.0, register-IsSound w r h s.1)
]

load_entries-IsSound : (r : Registry) (es : List Entry) → IsSound r → IsSound (load_entries r es).0
unfolding load_entries
load_entries-IsSound r [] s = s
load_entries-IsSound r (skipped ∷ es) s = load_entries-IsSound r es s
load_entries-IsSound r (unreadable ∷ es) s = s
load_entries-IsSound r (unparsable ∷ es) s = s
load_entries-IsSound r (parsed w ∷ es) s = elim (Option-cases (validate w).1) [
  | inr (x, e) ↦ rw (e, load_entries) s
  | inl e ↦
      rw (e, load_entries)
        (load_entries-IsSound (register (validate w).0 r) es
          (register-IsSound (validate w).0 r (validate-IsValid w e) s))
]

lookup-IsSound :
    (name : String) (r : Registry) (w : Workflow)
    → IsSound r
    → lookup name r ≡ some w
    → IsValid w.steps
unfolding lookup
lookup-IsSound name [] w s h = absurd (cc)
lookup-IsSound name (v ∷ r) w s h = elim (Bool-cases (str_eq v.name name)) [
  | inl e ↦
      let same : v ≡ w = ground (arith, e) in subst (λ (x : Workflow). IsValid x.steps) same s.0
  | inr e ↦ lookup-IsSound name r w s.1 (ground (arith, e))
]

load_from_dir-IsSound : (d : Directory) → IsSound (load_from_dir [] d).0
unfolding load_from_dir
load_from_dir-IsSound missing = tt
load_from_dir-IsSound unlistable = tt
load_from_dir-IsSound (listed es) = load_entries-IsSound [] es tt

-- A workflow that `Get` finds in a new registry that `LoadFromDir` has filled is valid, even if loading
-- returned an error.
pub loaded-IsValid :
    (d : Directory) (name : String) (w : Workflow)
    → lookup name (load_from_dir [] d).0 ≡ some w
    → IsValid w.steps
loaded-IsValid d name w h = lookup-IsSound name (load_from_dir [] d).0 w (load_from_dir-IsSound d) h
