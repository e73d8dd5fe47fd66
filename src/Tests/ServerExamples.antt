-- ===== src/Tests/ServerExamples.antt =====
-- The theorems about internal/server at a concrete server.
use orqestra.Base.{
  ◌*◌, ◌^◌, ◌≡◌, ◌≢◌, refl, true, false, none, some, [], ◌∷◌, arith, all_done, done, ◌==◌,
  if◌then◌else◌,
}
use orqestra.Queue.Keyspace.{Job, command, encoded}
use orqestra.Queue.Place.{waiting, parked}
use orqestra.Queue.Interface.{redis_queue, JobQueue}
use orqestra.Workflow.Registry.{Registry}
use orqestra.Db.Tables.{JobStatus, JobRow}
use orqestra.Db.Jobs.{update_job_state, get_job}
use orqestra.Db.Integrity.{job_row}
use orqestra.Service.Jobs.{cancel, cancel_row}
use orqestra.Server.Backoff.{retry_delay, retry_delay_exact}
use orqestra.Server.State.{World, worker_owns_job}
use orqestra.Server.Results.{TaskResult, ResultCalls, handle_result}
use orqestra.Server.Work.{WorkCalls, assign, disconnect}
use orqestra.Server.Reaper.{ReapCalls, reaper_tick}
use orqestra.Server.Reclaim.{TakenBack, reaper_tick-reclaims}
use orqestra.Server.Ownership.{handle_result_once}
use orqestra.Server.Outcomes.{after_failure, handle_result_failure}
use orqestra.Server.Held.{IsAnsweredBy, Placed, handle_result_places}
use orqestra.Server.Success.{handle_result_success}
use orqestra.Server.Settled.{disconnect_revives}
use orqestra.Server.Assignment.{Assigned, assign-Assigned}
use orqestra.Tests.Memory.{Memory, memory, empty, keys, score_of}
use orqestra.Tests.WorkflowExamples.{pair}
use orqestra.Tests.DbExamples.{row_4, one_job, one_job-IsNumbered}
use orqestra.Tests.ServiceExamples.{cancel_calls, advance_calls}

abbrev pub q : JobQueue
q = redis_queue memory

abbrev pub registry : Registry
registry = pair ∷ []

-- Job 4 runs at worker `w1`, which was heard of at time 0.
abbrev pub busy : World Memory
busy = record {
  db = one_job;
  queue = empty;
  last_seen = λ id. if id == 4 then some 0 else none;
  owner = λ id. if id == 4 then some "w1" else none;
}

abbrev pub job_4 : Job
job_4 = record {
  id = 4;
  retry_count = 1;
  max_retries = 3;
  job_type = "shell";
  payload = command "ls" "";
}

abbrev pub result_calls : ResultCalls
result_calls = record {
  get = done;
  ack = all_done;
  complete = done;
  advance = advance_calls;
  update = done;
  retry = all_done;
  fail = all_done;
  fail_run = done;
}

abbrev pub work_calls : WorkCalls
work_calls = record {
  now = 5;
  rounds = [];
  start = done;
  sent = true;
  revert = done;
  requeue = all_done;
  handle = result_calls;
}

abbrev pub reap_calls : ReapCalls
reap_calls = record { list = done; update = λ _. done; retry = λ _. all_done }

abbrev pub success : TaskResult
success = record { job_id = 4; success = true; output = "out" }

abbrev failure : TaskResult
failure = record { job_id = 4; success = false; output = "err" }

handle_result_once_example :
    let w = handle_result q registry result_calls 9 success "w1" busy in
    handle_result q registry result_calls 9 failure "w1" w ≡ w
unfolding worker_owns_job
handle_result_once_example =
    handle_result_once q registry result_calls result_calls 9 9 success failure "w1" "w1" busy refl
      refl

handle_result_failure_example :
    job_row 4 (handle_result q registry result_calls 9 failure "w1" busy).db
    ≡ some (after_failure row_4)
unfolding worker_owns_job
handle_result_failure_example =
    handle_result_failure q registry result_calls 9 failure "w1" busy row_4 refl refl refl refl refl
      refl

handle_result_success_example :
    job_row 4 (handle_result q registry result_calls 9 success "w1" busy).db
    ≡ some (record row_4 { status = JobStatus.completed; output = "out" })
unfolding worker_owns_job
handle_result_success_example =
    handle_result_success q registry result_calls 9 success "w1" busy row_4 refl refl refl refl refl
      refl

answered-IsAnsweredBy : IsAnsweredBy result_calls
answered-IsAnsweredBy = record { acked = λ _. refl; retried = λ _. refl; failed = λ _. refl }

-- The queue while job 4 is at a worker.
abbrev pub processing_4 : Memory
processing_4 = record {
  fixed = record {
    ready = [];
    processing = 4 ∷ [];
    delayed = λ _. none;
    payloads = λ i. if i == 4 then some (encoded job_4) else none;
    queued = λ i. i == 4;
  };
  scores = [];
}

pub processing_4-IsSound : q.IsSound processing_4 4
unfolding keys score_of
processing_4-IsSound = record { once = refl; stored = refl }

pub processing_4_runs : q.place_of processing_4 4 ≢ waiting
unfolding keys score_of
processing_4_runs e = absurd (cc)

abbrev pub held : World Memory
held = record busy { queue = processing_4 }

handle_result_places_example :
    Placed q registry (handle_result q registry result_calls 9 failure "w1" held).queue 4 parked
unfolding worker_owns_job
handle_result_places_example =
    handle_result_places q registry result_calls 9 failure "w1" held row_4 refl
      answered-IsAnsweredBy refl refl refl processing_4-IsSound processing_4_runs

abbrev cancelled_4 : JobRow
cancelled_4 = record row_4 { status = JobStatus.cancelled }

abbrev late : World Memory
late = record busy { db = record one_job { jobs = cancelled_4 ∷ [] } }

disconnect_revives_example :
    let x = cancel q cancel_calls 0 4 busy.db busy.queue in
    let w = record busy { db = x.0; queue = x.1 } in
    (row : JobRow) × (job_row 4 w.db ≡ some (record row { status = JobStatus.cancelled }))
    × (job_row 4 (disconnect q registry work_calls (some job_4) w).db
        ≡ some (record row { status = JobStatus.pending; retry_count = 1 }))
unfolding cancel cancel_row get_job update_job_state
disconnect_revives_example =
    disconnect_revives q registry cancel_calls work_calls 0 job_4 busy refl refl

assign-Assigned_example :
    Assigned q registry "w1" job_4 (assign q registry work_calls "w1" none job_4 busy)
assign-Assigned_example = assign-Assigned q registry work_calls "w1" none job_4 busy

reaper_tick-reclaims_example : TakenBack q 4 held (reaper_tick q reap_calls 30_000 held)
reaper_tick-reclaims_example =
    reaper_tick-reclaims q reap_calls 30_000 held 4 one_job-IsNumbered refl refl (λ _. refl)
      processing_4-IsSound processing_4_runs refl refl

retry_delay_exact_example : retry_delay 3 ≡ 2 ^ 3 * 1000
retry_delay_exact_example = retry_delay_exact 3 (omega arith)
