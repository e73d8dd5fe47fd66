-- ===== src/Api/Access.antt =====
-- Who gets through to the handlers of internal/api, and which requests change nothing.
use orqestra.Base.{
  ℕ, pos, negsuc, ◌≡◌, refl, Bool, true, false, none, some, List, String, str_eq, arith,
  if◌then◌else◌, Bool-cases, inl, inr, ◌⊎◌, Outcome,
}
use orqestra.Queue.Interface.{JobQueue}
use orqestra.Workflow.Registry.{Registry}
use orqestra.Db.Tables.{Db}
use orqestra.Db.ApiKeys.{ApiKey, has_key, validate_api_key}
use orqestra.Api.Requests.{
  Request, submits, reads_job, lists_jobs, cancels_job, lists_workflows, triggers, lists_runs,
  reads_run, cancels_run, error, respond, Header, bearer, no_bearer, ApiCalls,
}
use orqestra.Api.{handle, is_valid, serve}

-- The methods with GET.
abbrev pub is_get : Request → Bool
is_get (reads_job id) = true
is_get (lists_jobs f) = true
is_get lists_workflows = true
is_get lists_runs = true
is_get (reads_run id) = true
is_get _ = false

-- A header that carries a key of the table.
abbrev pub carries_key : (String → String) → List ApiKey → Header → Bool
carries_key hash keys no_bearer = false
carries_key hash keys (bearer key) = if str_eq key "" then false else has_key (hash key) keys

module _ (q : JobQueue) where
  open q use {State}

  handle_get :
      (c : ApiCalls) (registry : Registry) (now : ℕ) (r : Request) (db : Db) (s : State)
      → is_get r ≡ true
      → ((handle q c registry now r db s).0 ≡ db) × ((handle q c registry now r db s).1 ≡ s)
  unfolding handle
  handle_get c registry now (submits b) db s g = absurd (cc)
  handle_get c registry now (reads_job none) db s g = (refl, refl)
  handle_get c registry now (reads_job (some (pos id))) db s g = (refl, refl)
  handle_get c registry now (reads_job (some (negsuc n))) db s g = (refl, refl)
  handle_get c registry now (lists_jobs f) db s g = (refl, refl)
  handle_get c registry now (cancels_job id) db s g = absurd (cc)
  handle_get c registry now lists_workflows db s g = (refl, refl)
  handle_get c registry now (triggers name) db s g = absurd (cc)
  handle_get c registry now lists_runs db s g = (refl, refl)
  handle_get c registry now (reads_run none) db s g = (refl, refl)
  handle_get c registry now (reads_run (some (pos id))) db s g = (refl, refl)
  handle_get c registry now (reads_run (some (negsuc n))) db s g = (refl, refl)
  handle_get c registry now (cancels_run id) db s g = absurd (cc)

  valid_key :
      (o : Outcome) (h : String) (keys : List ApiKey)
      → is_valid (validate_api_key o h keys) ≡ true
      → has_key h keys ≡ true
  unfolding validate_api_key
  valid_key o h keys v = ground arith

  -- Every request is refused with status 401 and changes neither the database nor the queue, or it carries
  -- a key whose hash is in the table, and the handlers see it.
  pub serve_refuses :
      (hash : String → String) (keys : List ApiKey) (c : ApiCalls) (registry : Registry) (now : ℕ)
      (header : Header) (r : Request) (db : Db) (s : State)
      → (serve q hash keys c registry now header r db s ≡ (db, s, respond 401 error))
        ⊎ ((carries_key hash keys header ≡ true)
            × (serve q hash keys c registry now header r db s ≡ handle q c registry now r db s))
  unfolding serve
  serve_refuses hash keys c registry now no_bearer r db s = inl refl
  serve_refuses hash keys c registry now (bearer key) r db s = elim (Bool-cases (str_eq key "")) [
    | inl e ↦ inl (rw (e, serve) refl)
    | inr e ↦ elim (Bool-cases (is_valid (validate_api_key c.auth (hash key) keys))) [
      | inr f ↦ inl (rw (e, f, serve) refl)
      | inl f ↦ inr (rw e (valid_key c.auth (hash key) keys f), rw (e, f, serve) refl)
    ]
  ]

  -- A GET request changes neither the database nor the queue, however its calls end.
  pub serve_get :
      (hash : String → String) (keys : List ApiKey) (c : ApiCalls) (registry : Registry) (now : ℕ)
      (header : Header) (r : Request) (db : Db) (s : State)
      → is_get r ≡ true
      → ((serve q hash keys c registry now header r db s).0 ≡ db)
        × ((serve q hash keys c registry now header r db s).1 ≡ s)
  serve_get hash keys c registry now header r db s g =
      elim (serve_refuses hash keys c registry now header r db s) [
        | inl e ↦ rw e (refl, refl)
        | inr (_, e) ↦ rw e (handle_get c registry now r db s g)
      ]
