-- ===== src/Cli/Commands.antt =====
-- `main` of cmd/cli/main.go, command by command.
use orqestra.Base.{ℕ, none, some, List, [], ◌∷◌, String, str_eq, if◌then◌else◌, show}
use orqestra.Api.Routes.{Method}
use orqestra.Cli.Json.{int_field, str_field}
use orqestra.Cli.Client.{concat}
use orqestra.Cli.{
  Plan, stops, calls, exits, fails, fails_aside, usage, plain, job_line, run_line, workflow_line,
  shows, shows_each, with_number, Flags, parsed, leaves, SubmitFlags, submission,
}

-- What the flag package makes of the arguments after the command, and `%q`.
pub record Parsing : Type 0 where
  pub submit_flags : List String → Flags SubmitFlags
  pub list_flags : List String → Flags String
  pub quoted : String → String

abbrev stopped : ℕ → Plan
stopped code = stops (record { out = []; errors = []; code = code })

module _ (p : Parsing) where
  unfoldable pub submit : List String → Plan
  submit args = elim (p.submit_flags args) [
    | leaves code ↦ stopped code
    | parsed f ↦
        let s = submission f in
        calls
          (record {
            method = Method.post;
            path = (plain Method.post ("jobs" ∷ [])).path;
            status = none;
            body = some s;
          })
          (shows
            (λ o.
              concat (
                "job submitted, id: "
                ∷ show (int_field o "job_id")
                ∷ " (type="
                ∷ s.job_type
                ∷ ")"
                ∷ [])
              ∷ [])
            fails)
  ]

  unfoldable pub job_status : List String → Plan
  job_status [] = stops (exits ("error: missing job id" ∷ usage))
  job_status (arg ∷ _) =
      with_number "error: job id must be a number"
        (λ id. calls (plain Method.get ("jobs" ∷ show id ∷ [])) (
          shows
            (λ o.
              let out = str_field o "output" in
              job_line o ∷ (if str_eq out "" then [] else "output:" ∷ out ∷ []))
            fails))
        arg

  unfoldable pub list : List String → Plan
  list args = elim (p.list_flags args) [
    | leaves code ↦ stopped code
    | parsed st ↦
        calls
          (record (plain Method.get ("jobs" ∷ [])) {
            status = if str_eq st "" then none else some st;
          })
          (shows_each job_line fails_aside)
  ]

  unfoldable pub cancel : List String → Plan
  cancel [] = stops (exits ("error: missing job id" ∷ usage))
  cancel (arg ∷ _) =
      with_number "error: job id must be a number"
        (λ id.
          calls (plain Method.post ("jobs" ∷ show id ∷ "cancel" ∷ []))
            (shows (λ _. concat ("job " ∷ show id ∷ " cancelled" ∷ []) ∷ []) fails_aside))
        arg

  unfoldable pub trigger : List String → Plan
  trigger [] = stops (exits ("error: missing workflow name" ∷ []))
  trigger (name ∷ _) = calls (plain Method.post ("workflows" ∷ name ∷ "trigger" ∷ [])) (
      shows (λ o. concat ("workflow triggered, run id: " ∷ show (int_field o "run_id") ∷ []) ∷ [])
        fails)

  unfoldable pub run_status : List String → Plan
  run_status [] = stops (exits ("error: missing run id" ∷ []))
  run_status (arg ∷ _) =
      with_number "error: run id must be a number"
        (λ id.
          calls (plain Method.get ("workflows" ∷ "runs" ∷ show id ∷ []))
            (shows (λ o. run_line o ∷ []) fails))
        arg

  unfoldable pub cancel_run : List String → Plan
  cancel_run [] = stops (exits ("error: missing run id" ∷ []))
  cancel_run (arg ∷ _) =
      with_number "error: run id must be a number"
        (λ id.
          calls (plain Method.post ("workflows" ∷ "runs" ∷ show id ∷ "cancel" ∷ []))
            (shows (λ _. concat ("workflow run " ∷ show id ∷ " cancelled" ∷ []) ∷ []) fails_aside))
        arg

  unfoldable pub workflow : List String → Plan
  unfolding trigger run_status cancel_run
  workflow [] = stops (exits ("error: missing workflow subcommand (list, trigger, status)" ∷ usage))
  workflow (sub ∷ args) =
      if str_eq sub "list"
      then calls (plain Method.get ("workflows" ∷ [])) (shows_each workflow_line fails)
      else if str_eq sub "trigger"
      then trigger args
      else if str_eq sub "runs"
      then calls (plain Method.get ("workflows" ∷ "runs" ∷ [])) (shows_each run_line fails_aside)
      else if str_eq sub "status"
      then run_status args
      else if str_eq sub "cancel"
      then cancel_run args
      else stops
          (exits (concat ("error: unknown workflow subcommand " ∷ p.quoted sub ∷ []) ∷ usage))

  -- `main`, on the arguments after the program's name.
  unfoldable pub main : List String → Plan
  unfolding submit job_status list cancel workflow
  main [] = stops (exits usage)
  main (name ∷ args) =
      if str_eq name "submit"
      then submit args
      else if str_eq name "status"
      then job_status args
      else if str_eq name "list"
      then list args
      else if str_eq name "cancel"
      then cancel args
      else if str_eq name "workflow"
      then workflow args
      else stops (exits (concat ("error: unknown command " ∷ p.quoted name ∷ []) ∷ usage))
