-- ===== src/Server/State.antt =====
-- The state of `Server` in internal/server/server.go, with the database and the queue that it holds on
-- to. The two `sync.Map`s are functions of the job id.
use orqestra.Base.{ℕ, Bool, true, false, Option, none, some, String, str_eq, if◌then◌else◌}
use orqestra.Queue.Keyspace.{update}
use orqestra.Db.Tables.{Db}

pub record World (S : Type 0) : Type 0 where
  pub db : Db
  pub queue : S
  pub last_seen : ℕ → Option ℕ
  pub owner : ℕ → Option String

module _ {S : Type 0} where
  unfoldable pub clear_ownership : ℕ → World S → World S
  clear_ownership id w = record w {
    last_seen = update w.last_seen id none;
    owner = update w.owner id none;
  }

  -- The two stores before a task is sent.
  unfoldable pub take_ownership : ℕ → String → ℕ → World S → World S
  take_ownership id worker now w = record w {
    owner = update w.owner id (some worker);
    last_seen = update w.last_seen id (some now);
  }

  unfoldable pub worker_owns_job : ℕ → String → World S → Bool
  worker_owns_job id worker w = elim (w.owner id) [
    | none ↦ false
    | some owner ↦ str_eq owner worker
  ]

  -- The new state, and whether the heartbeat counts.
  unfoldable pub record_heartbeat : ℕ → String → ℕ → World S → World S × Bool
  unfolding worker_owns_job
  record_heartbeat id worker now w =
      if worker_owns_job id worker w
      then (record w { last_seen = update w.last_seen id (some now) }, true)
      else (w, false)
