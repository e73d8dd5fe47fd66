-- ===== src/Relay.antt =====
-- internal/outbox/relay.go: one pass of the relay, which moves the unprocessed outbox entries from
-- Postgres to the queue. The marks stand in a transaction, so that they show at its commit only.
pub mod Marks
pub mod Delivery
pub mod Restart
pub mod Places
pub mod Ticks
use orqestra.Base.{
  ℕ, ◌+◌, suc, Bool, true, false, Option, none, some, List, [], ◌∷◌, Outcome, done, refused, lost,
  Replies, if◌then◌else◌,
}
use orqestra.Queue.Keyspace.{Job}
use orqestra.Queue.Interface.{JobQueue}
use orqestra.Db.Tables.{Db}
use orqestra.Db.Outbox.{OutboxEntry, get_unprocessed_outbox, mark_outbox_processed}

-- How the calls end: those of the fetch, those for the entry at an index, and the commit.
pub record Calls : Type 0 where
  pub fetch : Replies
  pub enqueue : ℕ → Replies
  pub mark : ℕ → Outcome
  pub commit : Outcome

-- The retry count is left at its zero value.
abbrev pub job_of : OutboxEntry → Job
job_of e = record {
  id = e.job_id;
  retry_count = 0;
  max_retries = e.max_retries;
  job_type = e.job_type;
  payload = e.payload;
}

-- `tx.Commit`: the database that stays, and whether the error is nil.
abbrev pub commit : Outcome → Db → Db → Db × Bool
commit done tx db = (tx, true)
commit refused tx db = (db, false)
commit lost tx db = (tx, false)

module _ (q : JobQueue) where
  open q use {State, enqueue_job}

  -- The loop over the entries, on the database as the transaction sees it.
  unfoldable pub relay_entries : Calls → ℕ → ℕ → List OutboxEntry → Db → State → Db × State × Bool
  relay_entries c now i [] tx s = (tx, s, true)
  relay_entries c now i (e ∷ es) tx s =
      let (s', enqueued) = enqueue_job (c.enqueue i) (job_of e) s in
      let (tx', marked) = mark_outbox_processed (c.mark i) now e.id tx in
      let rest = relay_entries c now (suc i) es tx' s' in
      if enqueued then if marked then rest else (tx, s', false) else (tx, s', false)

  -- Commit after the loop, or roll back.
  abbrev pub finish : Calls → Db → Db × State × Bool → Db × State × Bool
  finish c db (tx, s, ok) =
      let (db', committed) = commit c.commit tx db in
      if ok then (db', s, committed) else (db, s, false)

  unfoldable pub relay : Calls → ℕ → Db → State → Db × State × Bool
  unfolding relay_entries
  relay c now db s = elim (get_unprocessed_outbox c.fetch db) [
    | none ↦ (db, s, false)
    | some entries ↦ finish c db (relay_entries c now 0 entries db s)
  ]
