-- ===== src/Service/Keys.antt =====
-- A step of a run has one job at most, whatever `TriggerWorkflow` and `Advance` of
-- internal/service/workflow_service.go do.
use orqestra.Base.{ℕ, ◌≤◌, List, String, Replies}
use orqestra.Workflow.{Step, step_at}
use orqestra.Workflow.Registry.{Registry}
use orqestra.Queue.Keyspace.{command}
use orqestra.Db.Tables.{JobRow, Db}
use orqestra.Db.Outbox.{is_step}
use orqestra.Db.Keys.{count_where, IsKeyed, insert_workflow_step-IsKeyed}
use orqestra.Service.Workflows.{TriggerCalls, AdvanceCalls, submit_step, trigger_workflow, advance}
use orqestra.Service.Keeps.{advance-Keeps, trigger-Keeps}

abbrev pub KeyedRows : List JobRow → Type 0
KeyedRows rows = (run step : ℕ) → count_where (is_step run step) rows ≤ 1

pub submit_step-IsKeyed :
    (o : Replies) (run i : ℕ) (ss : List Step) (previous : String) (db : Db)
    → KeyedRows db.jobs
    → KeyedRows (submit_step o run i ss previous db).0.jobs
unfolding submit_step
submit_step-IsKeyed o run i ss previous db k =
    let s = step_at ss i in
    insert_workflow_step-IsKeyed o run i s.retries (command s.command previous) db k

-- However its calls end, `Advance` leaves at most one job for each step of each run, if there was at most
-- one before.
pub advance-IsKeyed :
    (c : AdvanceCalls) (registry : Registry) (run : ℕ) (db : Db)
    → IsKeyed db
    → IsKeyed (advance c registry run db)
advance-IsKeyed c registry run db k =
    advance-Keeps KeyedRows submit_step-IsKeyed c registry run db k

-- However its calls end, `TriggerWorkflow` leaves at most one job for each step of each run, if there was
-- at most one before.
pub trigger-IsKeyed :
    (c : TriggerCalls) (registry : Registry) (name : String) (db : Db)
    → IsKeyed db
    → IsKeyed (trigger_workflow c registry name db).0
trigger-IsKeyed c registry name db k =
    trigger-Keeps KeyedRows submit_step-IsKeyed c registry name db k
