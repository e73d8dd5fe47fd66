-- ===== src/Scheduler.antt =====
-- internal/scheduler/scheduler.go: which workflows cron runs, and what it does at a tick. The cron library
-- is a parameter: whether it takes an expression, and when it calls back.
pub mod Single
use orqestra.Base.{Bool, true, false, List, [], ◌∷◌, String, str_eq, Outcome, if◌then◌else◌}
use orqestra.Workflow.Registry.{Registry}
use orqestra.Db.Tables.{Db, found, no_rows, broken}
use orqestra.Service.Workflows.{TriggerCalls, trigger_workflow, has_active_run}

pub record TickCalls : Type 0 where
  pub active : Outcome
  pub trigger : TriggerCalls

-- The function that is given to `AddFunc`; errors are logged.
unfoldable pub tick : TickCalls → Registry → String → Db → Db
tick c registry name db = elim (has_active_run c.active name db) [
  | no_rows ↦ db
  | broken ↦ db
  | found active ↦ if active then db else (trigger_workflow c.trigger registry name db).0
]

-- The workflows that are registered with cron, by name: those that have a schedule which it takes.
unfoldable pub scheduled : (String → Bool) → Registry → List String
scheduled takes [] = []
scheduled takes (w ∷ r) =
    let rest = scheduled takes r in
    if str_eq w.schedule "" then rest else if takes w.schedule then w.name ∷ rest else rest

-- The ticks that come, one after the other.
unfoldable pub ticks : List (TickCalls × String) → Registry → Db → Db
unfolding tick
ticks [] registry db = db
ticks ((c, name) ∷ ts) registry db = ticks ts registry (tick c registry name db)
