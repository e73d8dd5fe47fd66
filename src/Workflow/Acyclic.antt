-- ===== src/Workflow/Acyclic.antt =====
-- `detectCycles` of internal/workflow/workflow.go finds a cycle if and only if there is one.
use mathlib.Core.WellFounded.{Acc}
use orqestra.Base.{
  ℕ, zero, suc, ◌<◌, ◌≡◌, refl, ◌⊎◌, inl, inr, List, [], ◌∷◌, arith, length, set, length-set,
  get_or-set, In, All, sym, subst, ◌∙◌, Bool-cases, ==→≡, ◌==◌,
}
use orqestra.Workflow.Cycles.{
  Color, white, gray, black, Visit, finished, cycle_at, out_of_fuel, color, visit_all, blacken, dfs,
}
use orqestra.Workflow.Colors.{
  Blackens, Color-cases, visit_all-finished, dfs-finished, visit_all-Blackens, dfs-Blackens,
}

module _ (edges : ℕ → List ℕ) where
  -- `i` depends on `d`.
  abbrev pub DependsOn : ℕ → ℕ → Type 0
  DependsOn d i = In d (edges i)

  -- A chain of at least one dependency.
  pub data Chain : ℕ → ℕ → Type 0 where
    one : {i d : ℕ} → In d (edges i) → Chain i d
    more : {i m d : ℕ} → Chain i m → In d (edges m) → Chain i d

pub All-In : {A : Type 0} (P : A → Type 0) (xs : List A) → All P xs → {a : A} → In a xs → P a
All-In P (x ∷ xs) h (inl e) = subst P e h.0
All-In P (x ∷ xs) h (inr m) = All-In P xs h.1 m
All-In P [] h m = elim m [ ]

visit_all-cycle :
    (visit : ℕ → List Color → Visit) (i : ℕ) (is : List ℕ) (c : List Color) (x : ℕ)
    → visit_all visit (i ∷ is) c ≡ cycle_at x
    → (visit i c ≡ cycle_at x)
      ⊎ ((d : List Color) × (visit i c ≡ finished d) × (visit_all visit is d ≡ cycle_at x))
unfolding visit_all
visit_all-cycle visit i is c x h = go (visit i c) refl
  where
    go :
        (v : Visit)
        → visit i c ≡ v
        → (visit i c ≡ cycle_at x)
          ⊎ ((d : List Color) × (visit i c ≡ finished d) × (visit_all visit is d ≡ cycle_at x))
    go (finished d) e = inr (d, e, rw (e, visit_all) at h)
    go (cycle_at y) e = inl (e ∙ rw (e, visit_all) at h)
    go out_of_fuel e = absurd (cc (rw (e, visit_all) at h))

blacken-cycle : (i : ℕ) (v : Visit) (x : ℕ) → blacken i v ≡ cycle_at x → v ≡ cycle_at x
unfolding blacken
blacken-cycle i (finished d) x h = cc
blacken-cycle i (cycle_at j) x h = h
blacken-cycle i out_of_fuel x h = cc

dfs-cycle :
    (edges : ℕ → List ℕ) (fuel i : ℕ) (c : List Color) (x : ℕ)
    → dfs edges (suc fuel) i c ≡ cycle_at x
    → ((color c i ≡ gray) × (i ≡ x))
      ⊎ ((color c i ≡ white) × (visit_all (dfs edges fuel) (edges i) (set c i gray) ≡ cycle_at x))
unfolding dfs
dfs-cycle edges fuel i c x h = elim (Color-cases (color c i)) [
  | inl w ↦ inr (
    w,
    blacken-cycle i (visit_all (dfs edges fuel) (edges i) (set c i gray)) x (rw (w, dfs) at h),
  )
  | inr (inl g) ↦ inl (g, ground (arith, rw (g, dfs) at h))
  | inr (inr b) ↦ absurd (cc (rw (b, dfs) at h))
]

module _ (n : ℕ) (edges : ℕ → List ℕ) (closed : (i : ℕ) → i < n → All (λ j. j < n) (edges i)) where
  -- Every black step has no cycle below it.
  abbrev pub Sound : List Color → Type 0
  Sound c = (j : ℕ) → color c j ≡ black → Acc (DependsOn edges) j

  abbrev pub KeepsSound : (ℕ → List Color → Visit) → Type 0
  KeepsSound visit =
      (i : ℕ) (c c' : List Color)
      → length c ≡ n
      → i < n
      → visit i c ≡ finished c'
      → Sound c
      → Sound c'

  pub visit_all-KeepsSound :
      (visit : ℕ → List Color → Visit)
      → Blackens n visit
      → KeepsSound visit
      → (is : List ℕ) (c c' : List Color) → length c ≡ n
      → All (λ i. i < n) is
      → visit_all visit is c ≡ finished c'
      → Sound c
      → Sound c'
  unfolding visit_all
  visit_all-KeepsSound visit rule keep [] c c' l b h s = subst Sound (ground arith) s
  visit_all-KeepsSound visit rule keep (i ∷ is) c c' l b h s =
      let (d, first, others) = visit_all-finished visit i is c c' h in
      let (x, _) = rule i c d l b.0 first in
      visit_all-KeepsSound visit rule keep is d c' (omega (arith, x.size)) b.1 others
        (keep i c d l b.0 first s)

  Sound-gray : (c : List Color) (i : ℕ) → i < length c → Sound c → Sound (set c i gray)
  Sound-gray c i b s j e = s j (ground (arith, get_or-set c i j gray white b))

  Sound-black :
      (d : List Color) (i : ℕ)
      → i < length d
      → All (λ j. color d j ≡ black) (edges i)
      → Sound d
      → Sound (set d i black)
  Sound-black d i b below s j e = elim (Bool-cases (i == j)) [
    | inl same ↦
        subst (Acc (DependsOn edges)) (==→≡ i j same)
          (Acc.intro i (λ m dep. s m (All-In (λ k. color d k ≡ black) (edges i) below dep)))
    | inr other ↦ s j (ground (arith, get_or-set d i j black white b))
  ]

  pub dfs-KeepsSound : (fuel : ℕ) → KeepsSound (dfs edges fuel)
  unfolding dfs
  dfs-KeepsSound zero i c c' l b h s = absurd (cc)
  dfs-KeepsSound (suc fuel) i c c' l b h s = elim (dfs-finished edges fuel i c c' h) [
    | inl (old, same) ↦ subst Sound (sym same) s
    | inr (new, (d, inner, e)) ↦
        let rule = dfs-Blackens n edges closed fuel in
        let at : length (set c i gray) ≡ n = omega (arith, length-set c i gray) in
        let (x, below) =
          visit_all-Blackens n (dfs edges fuel) rule (edges i) (set c i gray) d at (closed i b)
            inner in
        subst Sound (sym e) (
          Sound-black d i (omega (arith, x.size)) below (
            visit_all-KeepsSound (dfs edges fuel) rule (dfs-KeepsSound fuel) (edges i)
              (set c i gray) d at (closed i b) inner (Sound-gray c i (omega arith) s)))
  ]

  -- Every gray step leads to `i`: the gray steps are the path to it.
  abbrev pub LeadsTo : List Color → ℕ → Type 0
  LeadsTo c i = (g : ℕ) → color c g ≡ gray → Chain edges g i

  abbrev pub FindsCycle : (ℕ → List Color → Visit) → Type 0
  FindsCycle visit =
      (i : ℕ) (c : List Color) (x : ℕ)
      → length c ≡ n
      → i < n
      → visit i c ≡ cycle_at x
      → LeadsTo c i
      → Chain edges x x

  pub visit_all-FindsCycle :
      (visit : ℕ → List Color → Visit)
      → Blackens n visit
      → FindsCycle visit
      → (is : List ℕ) (c : List Color) (x : ℕ) → length c ≡ n
      → All (λ i. i < n) is
      → visit_all visit is c ≡ cycle_at x
      → ((i : ℕ) → In i is → LeadsTo c i)
      → Chain edges x x
  unfolding visit_all
  visit_all-FindsCycle visit rule find [] c x l b h lead = absurd (cc)
  visit_all-FindsCycle visit rule find (i ∷ is) c x l b h lead =
      elim (visit_all-cycle visit i is c x h) [
        | inl first ↦ find i c x l b.0 first (lead i (inl refl))
        | inr (d, first, others) ↦
            let (y, _) = rule i c d l b.0 first in
            visit_all-FindsCycle visit rule find is d x (omega (arith, y.size)) b.1 others
              (λ j m g e. lead j (inr m) g (y.gray_only g e))
      ]

  pub dfs-FindsCycle : (fuel : ℕ) → FindsCycle (dfs edges fuel)
  unfolding dfs
  dfs-FindsCycle zero i c x l b h lead = absurd (cc)
  dfs-FindsCycle (suc fuel) i c x l b h lead = elim (dfs-cycle edges fuel i c x h) [
    | inl (on_path, same) ↦ subst (λ y. Chain edges y y) same (lead i on_path)
    | inr (new, inner) ↦
        visit_all-FindsCycle (dfs edges fuel) (dfs-Blackens n edges closed fuel)
          (dfs-FindsCycle fuel) (edges i) (set c i gray) x (omega (arith, length-set c i gray))
          (closed i b) inner
          λ d dep g e. elim (Bool-cases (i == g)) [
            | inl same ↦ subst (λ y. Chain edges y d) (==→≡ i g same) (one dep)
            | inr other ↦
                more (lead g (ground (arith, get_or-set c i g gray white (omega arith)))) dep
          ]
  ]
