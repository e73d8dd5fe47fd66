-- ===== src/Cli/Requests.antt =====
-- The requests of cmd/cli/main.go arrive: `NewRouter` of internal/api/handler.go takes what a command sends
-- for what the command means.
use orqestra.Base.{
  ℕ, ◌^◌, ◌<◌, ◌≡◌, refl, sym, ap, ◌∙◌, ℤ, pos, true, none, some, List, [], ◌∷◌, String, str_eq,
  all, show, atoi, atoi-show, join, split-join, no_slash, no_slash-show, Bool-cases, inl, inr,
  eq_iff, subst,
}
use orqestra.Api.Requests.{Request, reads_job, cancels_job, reads_run, cancels_run}
use orqestra.Api.Routes.{Method, Carried, route, route_segments, clean}
use orqestra.Cli.{Plan, stops, calls, with_number}
use orqestra.Cli.Commands.{Parsing, main, job_status, cancel, workflow, run_status, cancel_run}

-- The request that the run sends is one that the router takes for `r`.
abbrev pub Asks : Carried → Request → Plan → Type 0
Asks x r (stops o) = ⊥
Asks x r (calls call next) = route call.method call.path x ≡ some r

routed :
    (m : Method) (segments : List String) (x : Carried)
    → all no_slash segments ≡ true
    → route m (join segments) x ≡ route_segments m ("" ∷ segments) x
unfolding route
routed m segments x h = ap (λ ss. route_segments m ss x) (split-join segments h)

clean-number : (s : String) (n : ℤ) → atoi s ≡ some n → clean s ≡ true
unfolding clean atoi
clean-number s n h = elim (Bool-cases (str_eq s "")) [
  | inl e ↦ absurd (not_read "" refl e)
  | inr e ↦ elim (Bool-cases (str_eq s ".")) [
    | inl f ↦ absurd (not_read "." refl f)
    | inr f ↦ elim (Bool-cases (str_eq s "..")) [
      | inl g ↦ absurd (not_read ".." refl g)
      | inr g ↦ rw (e, f, g, clean) refl
    ]
  ]
]
  where
    not_read : (t : String) → atoi t ≡ none → str_eq s t ≡ true → ⊥
    not_read t gone e =
        let same = (eq_iff s t).0 e in
        let read : atoi t ≡ some n = subst (λ u. atoi u ≡ some n) same h in
        absurd (let both : none ≡ some n = sym gone ∙ read in cc)

module _ (x : Carried) (s : String) (n : ℤ) (read : atoi s ≡ some n)
    (flat : no_slash s ≡ true) where
  -- The four paths with a number.
  job_path : route Method.get (join ("api" ∷ "v1" ∷ "jobs" ∷ s ∷ [])) x ≡ some (reads_job (some n))
  unfolding route_segments no_slash clean
  job_path = routed Method.get _ x (rw flat refl) ∙ rw (clean-number s n read, read) refl

  cancel_path :
      route Method.post (join ("api" ∷ "v1" ∷ "jobs" ∷ s ∷ "cancel" ∷ [])) x
      ≡ some (cancels_job (some n))
  unfolding route_segments no_slash clean
  cancel_path = routed Method.post _ x (rw flat refl) ∙ rw (clean-number s n read, read) refl

  run_path :
      route Method.get (join ("api" ∷ "v1" ∷ "workflows" ∷ "runs" ∷ s ∷ [])) x
      ≡ some (reads_run (some n))
  unfolding route_segments no_slash clean
  run_path = routed Method.get _ x (rw flat refl) ∙ rw (clean-number s n read, read) refl

  cancel_run_path :
      route Method.post (join ("api" ∷ "v1" ∷ "workflows" ∷ "runs" ∷ s ∷ "cancel" ∷ [])) x
      ≡ some (cancels_run (some n))
  unfolding route_segments no_slash clean
  cancel_run_path = routed Method.post _ x (rw flat refl) ∙ rw (clean-number s n read, read) refl

pub number-read :
    (complaint : String) (next : ℤ → Plan) (s : String) (n : ℤ)
    → atoi s ≡ some n
    → with_number complaint next s ≡ next n
unfolding with_number
number-read complaint next s n read = rw (read, with_number) refl

number-Asks :
    (x : Carried) (r : Request) (complaint : String) (next : ℤ → Plan) (s : String) (n : ℤ)
    → atoi s ≡ some n
    → Asks x r (next n)
    → Asks x r (with_number complaint next s)
number-Asks x r complaint next s n read asks =
    subst (Asks x r) (sym (number-read complaint next s n read)) asks

-- The number of a job or a run on the command line, below 2^63, is the number that the handler of the command
-- is called with: printed into the path by the command, and read from it by the router.
pub main-Asks :
    (p : Parsing) (x : Carried) (n : ℕ)
    → n < 2 ^ 63
    → Asks x (reads_job (some (pos n))) (main p ("status" ∷ show (pos n) ∷ []))
      × Asks x (cancels_job (some (pos n))) (main p ("cancel" ∷ show (pos n) ∷ []))
      × Asks x (reads_run (some (pos n))) (main p ("workflow" ∷ "status" ∷ show (pos n) ∷ []))
      × Asks x (cancels_run (some (pos n))) (main p ("workflow" ∷ "cancel" ∷ show (pos n) ∷ []))
unfolding main job_status cancel workflow run_status cancel_run
main-Asks p x n small =
    let read = atoi-show n small in
    let s = show (pos n) in
    let flat = no_slash-show n in
    (
      number-Asks x _ _ _ s (pos n) read (job_path x s (pos n) read flat),
      number-Asks x _ _ _ s (pos n) read (cancel_path x s (pos n) read flat),
      number-Asks x _ _ _ s (pos n) read (run_path x s (pos n) read flat),
      number-Asks x _ _ _ s (pos n) read (cancel_run_path x s (pos n) read flat),
    )
