-- ===== src/Workflow/Colors.antt =====
-- What the depth-first search of internal/workflow/workflow.go does to the colors: it ends within its
-- fuel, blackens what it visits, and leaves the gray steps, those of the current path, as they were.
use orqestra.Base.{
  ℕ, zero, suc, ◌≤◌, ◌<◌, ◌≡◌, refl, ◌⊎◌, inl, inr, List, [], ◌∷◌, arith, length, set, length-set,
  get_or-set, All, sym, subst, ==→≡, ◌==◌, if◌then◌else◌,
}
use orqestra.Workflow.Cycles.{
  Color, white, gray, black, Visit, finished, cycle_at, out_of_fuel, color, visit_all, blacken, dfs,
}

-- What a visit that finishes does to the colors.
pub record Extends (c c' : List Color) : Type 0 where
  pub size : length c' ≡ length c
  pub black_kept : (j : ℕ) → color c j ≡ black → color c' j ≡ black
  pub gray_kept : (j : ℕ) → color c j ≡ gray → color c' j ≡ gray
  pub gray_only : (j : ℕ) → color c' j ≡ gray → color c j ≡ gray

Extends-refl : (c : List Color) → Extends c c
Extends-refl c = record {
  size = refl;
  black_kept = λ j h. h;
  gray_kept = λ j h. h;
  gray_only = λ j h. h;
}

Extends-trans : {c d e : List Color} → Extends c d → Extends d e → Extends c e
Extends-trans x y = record {
  size = omega arith;
  black_kept = λ j h. y.black_kept j (x.black_kept j h);
  gray_kept = λ j h. y.gray_kept j (x.gray_kept j h);
  gray_only = λ j h. x.gray_only j (y.gray_only j h);
}

-- The body of a visit of a white step.
Extends-blacken :
    (c d : List Color) (i : ℕ)
    → i < length c
    → color c i ≡ white
    → Extends (set c i gray) d
    → Extends c (set d i black)
Extends-blacken c d i h w x = record {
  size = omega (arith, length-set d i black, length-set c i gray);
  black_kept = λ j e. ground (arith, set_d j, set_c j, x.black_kept j, ==→≡ i j);
  gray_kept = λ j e. ground (arith, set_d j, set_c j, x.gray_kept j, ==→≡ i j);
  gray_only = λ j e. ground (arith, set_d j, set_c j, x.gray_only j, ==→≡ i j);
}
  where
    set_c : (j : ℕ) → color (set c i gray) j ≡ (if i == j then gray else color c j)
    set_c j = get_or-set c i j gray white h

    set_d : (j : ℕ) → color (set d i black) j ≡ (if i == j then black else color d j)
    set_d j = get_or-set d i j black white (omega (arith, x.size, length-set c i gray))

-- What is asked of the visit of a step below `n`.
abbrev pub Blackens : ℕ → (ℕ → List Color → Visit) → Type 0
Blackens n visit =
    (i : ℕ) (c c' : List Color)
    → length c ≡ n
    → i < n
    → visit i c ≡ finished c'
    → Extends c c' × (color c' i ≡ black)

-- Inversions of a search that finishes.
pub visit_all-finished :
    (visit : ℕ → List Color → Visit) (i : ℕ) (is : List ℕ) (c c' : List Color)
    → visit_all visit (i ∷ is) c ≡ finished c'
    → (d : List Color) × (visit i c ≡ finished d) × (visit_all visit is d ≡ finished c')
unfolding visit_all
visit_all-finished visit i is c c' h = ground arith

pub Color-cases : (x : Color) → (x ≡ white) ⊎ (x ≡ gray) ⊎ (x ≡ black)
Color-cases white = inl refl
Color-cases gray = inr (inl refl)
Color-cases black = inr (inr refl)

blacken-finished :
    (i : ℕ) (v : Visit) (c' : List Color)
    → blacken i v ≡ finished c'
    → (d : List Color) × (v ≡ finished d) × (c' ≡ set d i black)
unfolding blacken
blacken-finished i (finished d) c' h = (d, refl, ground arith)
blacken-finished i (cycle_at j) c' h = cc
blacken-finished i out_of_fuel c' h = cc

pub dfs-finished :
    (edges : ℕ → List ℕ) (fuel i : ℕ) (c c' : List Color)
    → dfs edges (suc fuel) i c ≡ finished c'
    → ((color c i ≡ black) × (c' ≡ c))
      ⊎ ((color c i ≡ white)
          × ((d : List Color) × (visit_all (dfs edges fuel) (edges i) (set c i gray) ≡ finished d)
              × (c' ≡ set d i black)))
unfolding dfs
dfs-finished edges fuel i c c' h = elim (Color-cases (color c i)) [
  | inl w ↦ inr (
    w,
    blacken-finished i (visit_all (dfs edges fuel) (edges i) (set c i gray)) c' (rw (w, dfs) at h),
  )
  | inr (inl g) ↦ absurd (cc (rw (g, dfs) at h))
  | inr (inr b) ↦ inl (b, ground arith)
]

pub visit_all-Blackens :
    (n : ℕ) (visit : ℕ → List Color → Visit)
    → Blackens n visit
    → (is : List ℕ) (c c' : List Color) → length c ≡ n
    → All (λ i. i < n) is
    → visit_all visit is c ≡ finished c'
    → Extends c c' × All (λ i. color c' i ≡ black) is
unfolding visit_all
visit_all-Blackens n visit rule [] c c' l b h =
    (subst (Extends c) (ground arith) (Extends-refl c), tt)
visit_all-Blackens n visit rule (i ∷ is) c c' l b h =
    let (d, first, others) = visit_all-finished visit i is c c' h in
    let (x, done) = rule i c d l b.0 first in
    let (y, all_done) =
      visit_all-Blackens n visit rule is d c' (omega (arith, x.size)) b.1 others in
    (Extends-trans x y, (y.black_kept i done, all_done))

module _ (n : ℕ) (edges : ℕ → List ℕ) (closed : (i : ℕ) → i < n → All (λ j. j < n) (edges i)) where
  pub dfs-Blackens : (fuel : ℕ) → Blackens n (dfs edges fuel)
  unfolding dfs
  dfs-Blackens zero i c c' l b h = absurd (cc)
  dfs-Blackens (suc fuel) i c c' l b h = elim (dfs-finished edges fuel i c c' h) [
    | inl (old, same) ↦ (subst (Extends c) (sym same) (Extends-refl c), rw same old)
    | inr (new, (d, inner, e)) ↦
        let (x, _) =
          visit_all-Blackens n (dfs edges fuel) (dfs-Blackens fuel) (edges i) (set c i gray) d
            (omega (arith, length-set c i gray)) (closed i b) inner in
        (
          subst (Extends c) (sym e) (Extends-blacken c d i (omega arith) new x),
          ground (arith, get_or-set d i i black white, x.size, length-set c i gray),
        )
  ]

-- How many steps are still white.
abbrev pub whites : List Color → ℕ
whites [] = 0
whites (white ∷ c) = suc (whites c)
whites (gray ∷ c) = whites c
whites (black ∷ c) = whites c

pub whites-le :
    (c c' : List Color)
    → length c' ≡ length c
    → ((j : ℕ) → color c' j ≡ white → color c j ≡ white)
    → whites c' ≤ whites c
whites-le [] [] l h = omega arith
whites-le [] (y ∷ c') l h = absurd (omega arith)
whites-le (x ∷ c) [] l h = absurd (omega arith)
whites-le (x ∷ c) (y ∷ c') l h =
    ground (arith, h 0, whites-le c c' (omega arith) (λ j e. h (suc j) e))

pub whites-set :
    (c : List Color) (i : ℕ)
    → i < length c
    → color c i ≡ white
    → suc (whites (set c i gray)) ≡ whites c
whites-set [] i b e = absurd (omega arith)
whites-set (x ∷ c) zero b e = ground arith
whites-set (x ∷ c) (suc i) b e = ground (arith, whites-set c i)

pub Extends-whites : {c c' : List Color} → Extends c c' → whites c' ≤ whites c
Extends-whites {c} {c'} x =
    whites-le c c' x.size λ j e. ground (arith, x.black_kept j, x.gray_kept j)
