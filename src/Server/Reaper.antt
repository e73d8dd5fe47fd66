-- ===== src/Server/Reaper.antt =====
-- `reaperTick` of internal/server/server.go. Times are in milliseconds.
use orqestra.Base.{
  ℕ, ◌+◌, Bool, true, false, Option, none, some, List, [], ◌∷◌, Outcome, Replies, ltb,
  if◌then◌else◌,
}
use orqestra.Queue.Interface.{JobQueue}
use orqestra.Db.Tables.{JobStatus, JobRow}
use orqestra.Db.Jobs.{list_jobs, update_job_state}
use orqestra.Server.State.{World, clear_ownership}
use orqestra.Server.Results.{job_of_row}

abbrev pub heartbeat_timeout : ℕ
heartbeat_timeout = 30_000

pub record ReapCalls : Type 0 where
  pub list : Outcome
  pub update : ℕ → Outcome
  pub retry : ℕ → Replies

-- A job of this server instance that has an owner and was not heard of for the timeout.
abbrev pub is_stale : ℕ → Option ℕ → Bool → Bool
is_stale now none owned = false
is_stale now (some seen) owned = if ltb now (seen + heartbeat_timeout) then false else owned

abbrev pub is_owned {ℓ} : {A : Type ℓ} → Option A → Bool
is_owned none = false
is_owned (some a) = true

module _ (q : JobQueue) where
  open q use {State, retry_job}

  unfoldable pub reclaim : ReapCalls → ℕ → JobRow → World State → World State
  reclaim c now row w =
      let w' = clear_ownership row.id w in
      record w' {
        db = (update_job_state (c.update row.id) row.id JobStatus.pending row.retry_count w'.db).0;
        queue = (retry_job (c.retry row.id) now (job_of_row row) 0 w'.queue).0;
      }

  unfoldable pub reap_one : ReapCalls → ℕ → JobRow → World State → World State
  unfolding reclaim
  reap_one c now row w =
      if is_stale now (w.last_seen row.id) (is_owned (w.owner row.id))
      then reclaim c now row w
      else w

  unfoldable pub reap_all : ReapCalls → ℕ → List JobRow → World State → World State
  unfolding reap_one
  reap_all c now [] w = w
  reap_all c now (row ∷ rows) w = reap_all c now rows (reap_one c now row w)

  unfoldable pub reaper_tick : ReapCalls → ℕ → World State → World State
  unfolding reap_all
  reaper_tick c now w = elim (list_jobs c.list (some JobStatus.running) w.db) [
    | none ↦ w
    | some rows ↦ reap_all c now rows w
  ]
