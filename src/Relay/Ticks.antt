-- ===== src/Relay/Ticks.antt =====
-- `Start` of internal/outbox/relay.go: two tickers, of which one has the relay run and the other the
-- cleanup.
use orqestra.Base.{ℕ, ◌*◌, Outcome}
use orqestra.Queue.Interface.{JobQueue}
use orqestra.Db.Tables.{Db}
use orqestra.Db.Outbox.{cleanup_processed_outbox}
use orqestra.Relay.{Calls, relay}

-- Every 2 seconds, and every hour.
pub data Tick : Type 0 where
  polls : Calls → Tick
  cleans : Outcome → Tick

-- 24 hours, in milliseconds.
abbrev pub cleanup_max_age : ℕ
cleanup_max_age = 24 * 3_600_000

module _ (q : JobQueue) where
  open q use {State}

  -- An error is logged.
  unfoldable pub on_tick : Tick → ℕ → Db → State → Db × State
  on_tick (polls c) now db s = let (db', s', _) = relay q c now db s in (db', s')
  on_tick (cleans o) now db s = ((cleanup_processed_outbox o now cleanup_max_age db).0, s)
