-- ===== src/Tests/ServiceExamples.antt =====
-- The theorems about internal/service at a concrete database and queue.
use orqestra.Base.{false, ◌==◌, if◌then◌else◌, ◌≡◌, refl, true, none, some, [], ◌∷◌, all_done, done}
use orqestra.Queue.Keyspace.{encoded}
use orqestra.Queue.Place.{absent}
use orqestra.Queue.Interface.{redis_queue}
use orqestra.Server.Results.{job_of_row}
use orqestra.Workflow.{Workflow, check, normalize}
use orqestra.Workflow.Registry.{lookup}
use orqestra.Db.Tables.{found}
use orqestra.Db.Runs.{has_active_workflow_run}
use orqestra.Service.Jobs.{CancelCalls, cancel}
use orqestra.Service.Cancellation.{CancelEnds, cancel-CancelEnds}
use orqestra.Service.Workflows.{TriggerCalls, AdvanceCalls, trigger_workflow, advance}
use orqestra.Service.Stopped.{cancel_stops}
use orqestra.Service.Jobs.{cancel_row}
use orqestra.Db.Jobs.{has_open_entry, get_job, update_job_state}
use orqestra.Service.Progress.{trigger_idles}
use orqestra.Db.Tables.{Db}
use orqestra.Service.Ordered.{IsOrdered}
use orqestra.Service.DependencyOrder.{advance-IsOrdered}
use orqestra.Service.FirstSteps.{trigger-IsOrdered}
use orqestra.Tests.Memory.{Memory, memory, empty, keys, score_of}
use orqestra.Tests.WorkflowExamples.{pair}
use orqestra.Tests.DbExamples.{row_4, one_job}

abbrev pub cancel_calls : CancelCalls
cancel_calls = record { get = done; update = done; outbox = done; queue = all_done }

abbrev pub advance_calls : AdvanceCalls
advance_calls = record {
  advance = done;
  complete = done;
  fail = done;
  completed = done;
  submitted = done;
  output = λ _. done;
  submit = λ _. all_done;
}

abbrev pub trigger_calls : TriggerCalls
trigger_calls = record { create = done; submit = λ _. all_done }

cancel-CancelEnds_example :
    CancelEnds
      (redis_queue memory)
      cancel_calls
      4
      one_job
      empty
      (cancel (redis_queue memory) cancel_calls 0 4 one_job empty)
cancel-CancelEnds_example = cancel-CancelEnds (redis_queue memory) cancel_calls 0 4 one_job empty

-- Job 4 waits in the queue.
abbrev waiting_4 : Memory
waiting_4 = record empty {
  fixed = record empty.fixed {
    ready = 4 ∷ [];
    payloads = λ i. if i == 4 then some (encoded (job_of_row row_4)) else none;
    queued = λ i. i == 4;
  };
}

cancel_stops_example :
    let x = cancel (redis_queue memory) cancel_calls 0 4 one_job waiting_4 in
    (has_open_entry x.0.outbox 4 ≡ false)
    × (redis_queue memory).IsSound x.1 4
    × ((redis_queue memory).place_of x.1 4 ≡ absent)
unfolding cancel cancel_row get_job update_job_state keys score_of
cancel_stops_example =
    cancel_stops (redis_queue memory) cancel_calls 0 4 one_job waiting_4
      (record { once = refl; stored = refl }) refl (λ _. refl) refl

abbrev idle : Workflow
idle = record { name = "idle"; schedule = ""; steps = [] }

trigger_idles_example :
    let x = trigger_workflow trigger_calls (idle ∷ []) "idle" one_job in
    (check (normalize idle).steps ≡ none)
    × (x.1 ≡ some 2)
    × (x.0.jobs ≡ row_4 ∷ [])
    × (has_active_workflow_run done "idle" x.0 ≡ found true)
unfolding lookup
trigger_idles_example = trigger_idles trigger_calls (idle ∷ []) "idle" idle one_job refl refl refl

abbrev nothing : Db
nothing = record { jobs = []; runs = []; outbox = []; next_job = 1; next_run = 1; next_entry = 1 }

nothing-IsOrdered : IsOrdered (pair ∷ []) nothing
nothing-IsOrdered = record {
  fresh = λ run name m. absurd m;
  named = λ run name name' m m'. absurd m;
  owned = λ run i h. absurd (cc);
  ordered = λ run name wf m l i h. absurd m;
}

abbrev triggered : Db
triggered = (trigger_workflow trigger_calls (pair ∷ []) "pair" nothing).0

trigger-IsOrdered_example : IsOrdered (pair ∷ []) triggered
trigger-IsOrdered_example =
    trigger-IsOrdered trigger_calls (pair ∷ []) "pair" nothing nothing-IsOrdered

advance-IsOrdered_example : IsOrdered (pair ∷ []) (advance advance_calls (pair ∷ []) 1 triggered)
advance-IsOrdered_example =
    advance-IsOrdered advance_calls (pair ∷ []) 1 triggered
      (trigger-IsOrdered trigger_calls (pair ∷ []) "pair" nothing nothing-IsOrdered)
