-- ===== src/Cli/Fields.antt =====
-- The fields that cmd/cli/main.go reads of a job or a run are those that internal/api writes.
use orqestra.Base.{ℕ, ◌^◌, ◌<◌, ◌≡◌, refl, pos, true, String, arith, ltb, [], ◌∷◌, show}
use orqestra.Queue.Keyspace.{Payload}
use orqestra.Db.Tables.{JobRow, RunRow}
use orqestra.Api.Encoding.{encode_job, encode_run, job_status_text, run_status_text}
use orqestra.Cli.Json.{field, int_field, str_field, int_of, str_of, float64, converted}
use orqestra.Cli.Client.{concat}
use orqestra.Cli.{job_line, run_line}

-- Numbers of 53 bits are exact.
int_of_exact : (n : ℕ) → n < 2 ^ 53 → converted (pos (float64 n)) ≡ pos n
unfolding float64 converted
int_of_exact n h =
    let small : ltb n (2 ^ 53) ≡ true = ground arith in
    let fits : ltb n (2 ^ 63) ≡ true = ground arith in rw (small, float64) (rw fits refl)

-- The line that `orq status` and `orq list` print about a job is that of its row, if its numbers have 53 bits.
pub job_line-encode_job :
    (message : String) (payload_text : Payload → String) (row : JobRow)
    → row.id < 2 ^ 53
    → row.retry_count < 2 ^ 53
    → row.max_retries < 2 ^ 53
    → job_line (encode_job message payload_text row)
      ≡ concat (
          "job "
          ∷ show (pos row.id)
          ∷ " ("
          ∷ row.job_type
          ∷ "): status="
          ∷ job_status_text row.status
          ∷ " retries="
          ∷ show (pos row.retry_count)
          ∷ "/"
          ∷ show (pos row.max_retries)
          ∷ [])
unfolding job_line encode_job int_field str_field field int_of str_of
job_line-encode_job message payload_text row i r m =
    rw (int_of_exact row.id i, int_of_exact row.retry_count r, int_of_exact row.max_retries m) refl

-- So is the line about a run.
pub run_line-encode_run :
    (row : RunRow)
    → row.id < 2 ^ 53
    → row.current_step < 2 ^ 53
    → row.total_steps < 2 ^ 53
    → run_line (encode_run row)
      ≡ concat (
          "run "
          ∷ show (pos row.id)
          ∷ " ("
          ∷ row.workflow_name
          ∷ "): status="
          ∷ run_status_text row.status
          ∷ " step="
          ∷ show (pos row.current_step)
          ∷ "/"
          ∷ show (pos row.total_steps)
          ∷ [])
unfolding run_line encode_run int_field str_field field int_of str_of
run_line-encode_run row i c t =
    rw (int_of_exact row.id i, int_of_exact row.current_step c, int_of_exact row.total_steps t) refl
