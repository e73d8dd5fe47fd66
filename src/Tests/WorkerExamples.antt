-- ===== src/Tests/WorkerExamples.antt =====
-- The theorems about cmd/worker/main.go at a concrete worker.
use orqestra.Base.{
  ℕ, eq_iff, ◌≡◌, refl, true, false, none, some, [], ◌∷◌, String, arith, all_done, done, utf8,
  trim_space, trim_left, trim_right, is_space,
}
use orqestra.Queue.Keyspace.{command}
use orqestra.Queue.Redis.{enqueue, consume, Round}
use orqestra.Db.Tables.{JobStatus}
use orqestra.Db.Integrity.{job_row}
use orqestra.Server.State.{World}
use orqestra.Server.Work.{WorkCalls, session, open_}
use orqestra.Worker.{run_worker}
use orqestra.Worker.Command.{
  Decoded, bad, Shell, Executes, execute_job, execute_job-Executes, IsCut, previous_env,
  previous_env-IsCut, max_previous_output_bytes, finish,
}
use orqestra.Worker.Exchange.{hears}
use orqestra.Worker.Completes.{answered, work-completes}
use orqestra.Tests.Memory.{Memory, memory, empty, keys, exec, pop_push}
use orqestra.Tests.DbExamples.{row_4}
use orqestra.Tests.ServerExamples.{q, registry, busy, job_4, work_calls}

abbrev json : String → Decoded
json text = bad "unexpected end of JSON input"

-- Every command writes one line.
abbrev echo : Shell
echo c previous = record { stdout = " out\n"; stderr = ""; error = none }

execute_job-Executes_example :
    Executes json echo (command "ls" "") (execute_job json echo (command "ls" ""))
execute_job-Executes_example = execute_job-Executes json echo (command "ls" "")

execute_job_run : (execute_job json echo (command "ls" "")).output ≡ "out"
unfolding execute_job finish trim_space trim_left trim_right is_space
execute_job_run = refl

previous_env-IsCut_example : IsCut max_previous_output_bytes (utf8 "é") (previous_env "é")
previous_env-IsCut_example = previous_env-IsCut "é"

abbrev round : Round
round = record { cancelled = false; pop = done; get = done; drop = done }

abbrev calls : ℕ → WorkCalls
calls n = record work_calls { rounds = round ∷ [] }

abbrev queue_4 : Memory
queue_4 = (enqueue memory all_done job_4 empty).0

abbrev waits : World Memory
waits = record busy { queue = queue_4 }

work-completes_example :
    job_row 4
      (hears q registry "w2" calls 0
        (run_worker json (answered (true ∷ true ∷ false ∷ []) echo job_4 ∷ []))
        (session q registry waits none open_)).world.db
    ≡ some (record row_4 { status = JobStatus.completed; output = trim_space " out\n" })
unfolding enqueue keys consume exec pop_push execute_job finish
work-completes_example =
    work-completes q registry json "w2" calls (true ∷ true ∷ false ∷ []) echo none waits
      (consume memory (round ∷ []) queue_4).0 job_4 row_4 "ls" "" (omega arith) refl refl refl refl
      refl refl refl (λ e. absurd (let same = (eq_iff "ls" "").1 e in cc)) refl
