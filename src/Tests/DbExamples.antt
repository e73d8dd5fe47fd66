-- ===== src/Tests/DbExamples.antt =====
-- The theorems about internal/db and internal/outbox at a concrete database.
use orqestra.Base.{sym, ◌∙◌, inl, inr, ◌≡◌, ◌⊎◌, refl, true, some, [], ◌∷◌, arith, all_done, done}
use orqestra.Queue.Keyspace.{command}
use orqestra.Queue.Interface.{redis_queue}
use orqestra.Db.Tables.{JobStatus, RunStatus, JobRow, RunRow, Db}
use orqestra.Db.Jobs.{new_entry}
use orqestra.Db.Outbox.{is_step, get_unprocessed_outbox, unprocessed, mark_outbox_processed}
use orqestra.Db.Runs.{cancel_workflow_run_atomic}
use orqestra.Db.Keys.{IsKeyed}
use orqestra.Db.Cancelling.{CancelRunEnds, cancel_workflow_run_atomic-Ends}
use orqestra.Relay.{Calls, relay, relay_entries}
use orqestra.Relay.Delivery.{Delivered, relay_drains, relay_all_or_nothing}
use orqestra.Server.InOrder.{IsNumbered}
use orqestra.Tests.Memory.{memory, empty, run}
use orqestra.Queue.Redis.{enqueue}

-- A running step of a run, without an outbox entry.
abbrev pub row_4 : JobRow
row_4 = record {
  id = 4;
  status = JobStatus.running;
  retry_count = 1;
  max_retries = 3;
  job_type = "shell";
  payload = command "ls" "";
  output = "";
  workflow_run_id = some 1;
  step_index = some 0;
}

abbrev pub run_1 : RunRow
run_1 = record {
  id = 1;
  workflow_name = "pair";
  status = RunStatus.running;
  current_step = 0;
  total_steps = 1;
}

abbrev pub one_job : Db
one_job = record {
  jobs = row_4 ∷ [];
  runs = run_1 ∷ [];
  outbox = [];
  next_job = 5;
  next_run = 2;
  next_entry = 1;
}

abbrev pub calls : Calls
calls = record { fetch = all_done; enqueue = λ _. all_done; mark = λ _. done; commit = done }

pub one_job-IsKeyed : IsKeyed one_job
unfolding is_step
one_job-IsKeyed run step = ground arith

cancel_workflow_run_atomic-Ends_example :
    CancelRunEnds 0 1 one_job (cancel_workflow_run_atomic all_done 0 1 one_job)
cancel_workflow_run_atomic-Ends_example = cancel_workflow_run_atomic-Ends all_done 0 1 one_job

-- One entry is old enough, the other is unprocessed.
abbrev two_entries : Db
two_entries = record one_job {
  outbox =
      record { id = 1; job_id = 3; processed = true; processed_at = some 10 } ∷ new_entry 2 4 ∷ [];
}

relay_drains_example :
    Delivered
      (redis_queue memory)
      two_entries
      (relay (redis_queue memory) calls 0 two_entries empty)
unfolding relay relay_entries get_unprocessed_outbox unprocessed mark_outbox_processed enqueue
relay_drains_example = relay_drains (redis_queue memory) calls 0 two_entries empty refl

relay_all_or_nothing_example :
    ((relay (redis_queue memory) calls 0 two_entries empty).0 ≡ two_entries)
    ⊎ Delivered
        (redis_queue memory)
        two_entries
        (relay (redis_queue memory) calls 0 two_entries empty)
relay_all_or_nothing_example = relay_all_or_nothing (redis_queue memory) calls 0 two_entries empty

pub one_job-IsNumbered : IsNumbered one_job.jobs
one_job-IsNumbered row row' (inl e) (inl e') same = sym e ∙ e'
one_job-IsNumbered row row' (inl e) (inr m) same = elim m [ ]
one_job-IsNumbered row row' (inr m) m' same = elim m [ ]
