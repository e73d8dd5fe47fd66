-- ===== src/Tests/CliExamples.antt =====
-- The theorems about cmd/cli/main.go at concrete command lines.
use orqestra.Base.{◌≡◌, refl, pos, none, some, [], ◌∷◌, arith, show, decimal, digit}
use orqestra.Api.Requests.{reads_job, cancels_job, reads_run, cancels_run, any_status}
use orqestra.Api.Routes.{Carried}
use orqestra.Api.Encoding.{encode_job, job_status_text}
use orqestra.Cli.{leaves, job_line}
use orqestra.Cli.Client.{Env, concat}
use orqestra.Cli.Commands.{Parsing, main}
use orqestra.Cli.Requests.{Asks, main-Asks}
use orqestra.Cli.Against.{Served, run_against}
use orqestra.Cli.Cancels.{Tells, main-cancels}
use orqestra.Cli.Fields.{job_line-encode_job}
use orqestra.Tests.Memory.{empty}
use orqestra.Tests.DbExamples.{row_4, one_job}
use orqestra.Tests.ServerExamples.{q, registry}
use orqestra.Tests.ApiExamples.{api_calls, keys, same}

abbrev parsing : Parsing
parsing = record { submit_flags = λ _. leaves 2; list_flags = λ _. leaves 2; quoted = λ s. s }

abbrev carried : Carried
carried = record { filter = any_status; body = none }

main-Asks_example :
    Asks carried (reads_job (some (pos 42))) (main parsing ("status" ∷ show (pos 42) ∷ []))
    × Asks carried (cancels_job (some (pos 42))) (main parsing ("cancel" ∷ show (pos 42) ∷ []))
    × Asks carried
        (reads_run (some (pos 42)))
        (main parsing ("workflow" ∷ "status" ∷ show (pos 42) ∷ []))
    × Asks carried
        (cancels_run (some (pos 42)))
        (main parsing ("workflow" ∷ "cancel" ∷ show (pos 42) ∷ []))
main-Asks_example = main-Asks parsing carried 42 (omega arith)

show_run : show (pos 42) ≡ "42"
unfolding show decimal digit
show_run = refl

abbrev served : Served
served = record {
  hash = same;
  keys = keys;
  api = api_calls;
  registry = registry;
  now = 0;
  message = "job not found";
  payload_text = λ _. "{}";
}

abbrev env : Env
env key = "k"

main-cancels_example :
    Tells q served env carried 4 one_job
      (run_against q served env carried (main parsing ("cancel" ∷ show (pos 4) ∷ [])) one_job empty)
main-cancels_example = main-cancels q served env carried 4 parsing one_job empty (omega arith)

job_line-encode_job_example :
    job_line (encode_job "" (λ _. "{}") row_4)
    ≡ concat (
        "job "
        ∷ show (pos 4)
        ∷ " ("
        ∷ "shell"
        ∷ "): status="
        ∷ "running"
        ∷ " retries="
        ∷ show (pos 1)
        ∷ "/"
        ∷ show (pos 3)
        ∷ [])
unfolding job_status_text
job_line-encode_job_example =
    job_line-encode_job "" (λ _. "{}") row_4 (omega arith) (omega arith) (omega arith)
