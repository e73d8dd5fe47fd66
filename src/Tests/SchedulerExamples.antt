-- ===== src/Tests/SchedulerExamples.antt =====
-- The theorem about internal/scheduler at a concrete database: two ticks, of which the second is skipped.
use orqestra.Base.{[], ◌∷◌, arith, done}
use orqestra.Db.Tables.{Db}
use orqestra.Scheduler.{TickCalls, ticks}
use orqestra.Scheduler.Single.{IsSingle, ticks-IsSingle}
use orqestra.Tests.WorkflowExamples.{pair}
use orqestra.Tests.DbExamples.{one_job}
use orqestra.Tests.ServiceExamples.{trigger_calls}

abbrev pub tick_calls : TickCalls
tick_calls = record { active = done; trigger = trigger_calls }

abbrev no_runs : Db
no_runs = record one_job { runs = [] }

ticks-IsSingle_example :
    IsSingle (ticks ((tick_calls, "pair") ∷ (tick_calls, "pair") ∷ []) (pair ∷ []) no_runs)
ticks-IsSingle_example =
    ticks-IsSingle ((tick_calls, "pair") ∷ (tick_calls, "pair") ∷ []) (pair ∷ []) no_runs
      (λ name. omega arith)
