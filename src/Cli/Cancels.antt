-- ===== src/Cli/Cancels.antt =====
-- `orq cancel` of cmd/cli/main.go, from the command line to the row of the job and back.
use orqestra.Base.{
  ℕ, ◌^◌, ◌<◌, ◌≡◌, refl, sym, ap, subst, pos, false, some, [], ◌∷◌, show, atoi-show, inl, inr, ◌⊎◌,
}
use orqestra.Queue.Interface.{JobQueue}
use orqestra.Db.Tables.{Db, JobStatus, JobRow}
use orqestra.Db.Integrity.{job_row}
use orqestra.Service.Jobs.{
  is_final, Cancelled, ok, not_found, get_failed, already, update_failed, cancel,
}
use orqestra.Service.Cancellation.{
  CancelEnds, cancel-CancelEnds, unknown, unread, settled, not_updated, cancels,
}
use orqestra.Api.Requests.{Response, cancels_job}
use orqestra.Api.{handle, serve, cancelled_job}
use orqestra.Api.Access.{serve_refuses}
use orqestra.Api.Routes.{Method, Carried, route}
use orqestra.Api.Encoding.{encode}
use orqestra.Cli.Json.{field}
use orqestra.Cli.Client.{Env, Call, Reply, do_json, checked, api_error, concat}
use orqestra.Cli.{calls, Output, shows, fails_aside, plain}
use orqestra.Cli.Commands.{Parsing, main, cancel as cancel_command}
use orqestra.Cli.Requests.{Asks, main-Asks, number-read}
use orqestra.Cli.Against.{Served, header_of, run_against, answered}

-- What the command makes of the response.
abbrev says : ℕ → Reply → Output
says n = shows (λ _. concat ("job " ∷ show (pos n) ∷ " cancelled" ∷ []) ∷ []) fails_aside

abbrev asked : ℕ → Call
asked n = plain Method.post ("jobs" ∷ show (pos n) ∷ "cancel" ∷ [])

main_cancel :
    (p : Parsing) (n : ℕ)
    → n < 2 ^ 63
    → main p ("cancel" ∷ show (pos n) ∷ []) ≡ calls (asked n) (says n)
unfolding main cancel_command
main_cancel p n small = number-read _ _ (show (pos n)) (pos n) (atoi-show n small)

module _ (q : JobQueue) (v : Served) (env : Env) (x : Carried) (n : ℕ) where
  open q use {State}

  -- The row of the job is cancelled, and was not settled before.
  abbrev pub Cancels : Db → Db → Type 0
  Cancels db db' =
      (row : JobRow) × (job_row n db ≡ some row)
      × (is_final row.status ≡ false)
      × (job_row n db' ≡ some (record row { status = JobStatus.cancelled }))

  -- The exit code is 0 only after a cancellation.
  abbrev pub Tells : Db → Db × State × Output → Type 0
  Tells db y = (y.2.code ≡ 1) ⊎ ((y.2.code ≡ 0) × Cancels db y.0)

  abbrev replied : Db × State × Response → Db × State × Output
  replied y = answered q v env x (cancels_job (some (pos n))) (says n) y

  told :
      (db : Db) (s : State) (y : Db × State × Cancelled)
      → CancelEnds q v.api.cancel n db s y
      → Tells db (replied (y.0, y.1, cancelled_job n y.2))
  unfolding encode do_json checked api_error field
  told db s (db', s', not_found) h = inl refl
  told db s (db', s', get_failed) h = inl refl
  told db s (db', s', already st) h = inl refl
  told db s (db', s', update_failed) h = inl refl
  told db s (db', s', ok) (unknown _ e) = absurd (let f = ap (λ y. y.2) e in cc)
  told db s (db', s', ok) (unread e) = absurd (let f = ap (λ y. y.2) e in cc)
  told db s (db', s', ok) (settled row _ _ e) = absurd (let f = ap (λ y. y.2) e in cc)
  told db s (db', s', ok) (not_updated _ _ e) = absurd (cc)
  told db s (db', s', ok) (cancels row there open_ now_cancelled _) =
      inr (refl, (row, there, open_, now_cancelled))

  handled :
      (db : Db) (s : State)
      → Tells db (replied (handle q v.api v.registry v.now (cancels_job (some (pos n))) db s))
  unfolding handle
  handled db s =
      told db s (cancel q v.api.cancel v.now n db s) (cancel-CancelEnds q v.api.cancel v.now n db s)

  served :
      (db : Db) (s : State)
      → Tells db (
          replied (
            serve q v.hash v.keys v.api v.registry v.now
              (header_of env)
              (cancels_job (some (pos n)))
              db
              s))
  unfolding encode do_json checked api_error field
  served db s =
      elim (serve_refuses q v.hash v.keys v.api v.registry v.now (header_of env)
        (cancels_job (some (pos n))) db s) [
          | inl e ↦ rw e (inl refl)
          | inr (_, e) ↦ rw e (handled db s)
        ]

  -- However the calls of the server end, `orq cancel` with a number below 2^63 exits with 0 only if the job
  -- was not settled and is cancelled now; otherwise it exits with 1.
  pub main-cancels :
      (p : Parsing) (db : Db) (s : State)
      → n < 2 ^ 63
      → Tells db (run_against q v env x (main p ("cancel" ∷ show (pos n) ∷ [])) db s)
  unfolding run_against
  main-cancels p db s small =
      let plan = main_cancel p n small in
      subst (λ pl. Tells db (run_against q v env x pl db s)) (sym plan)
        (let r = cancels_job (some (pos n)) in
          let there : route Method.post (asked n).path x ≡ some r =
            subst (Asks x r) plan (main-Asks p x n small).1 in
          rw (there, run_against) (served db s))
