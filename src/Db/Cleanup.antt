-- ===== src/Db/Cleanup.antt =====
-- `CleanupProcessedOutbox` of internal/db/outbox.go.
use orqestra.Base.{
  ℕ, ◌+◌, ◌≡◌, refl, Bool, not, none, some, List, [], ◌∷◌, arith, ◌⊎◌, inl, inr, filter, length,
  Outcome, done, refused, lost,
}
use orqestra.Db.Tables.{OutboxRow, Db}
use orqestra.Db.Jobs.{has_open_entry}
use orqestra.Db.Outbox.{is_stale, cleanup_processed_outbox}

open_kept :
    (now older_than id : ℕ) (rows : List OutboxRow)
    → has_open_entry (filter (λ e. not (is_stale now older_than e)) rows) id
      ≡ has_open_entry rows id
unfolding has_open_entry is_stale
open_kept now older_than id [] = refl
open_kept now older_than id (e ∷ rows) = ground (arith, open_kept now older_than id rows)

counts_up :
    (p : OutboxRow → Bool) (rows : List OutboxRow)
    → length (filter (λ e. not (p e)) rows) + length (filter p rows) ≡ length rows
counts_up p [] = refl
counts_up p (e ∷ rows) = ground (arith, counts_up p rows)

-- `CleanupProcessedOutbox` takes no job's unprocessed entry away, and a number that it returns is that of
-- the rows that it deleted.
pub cleanup_processed_outbox-keeps :
    (o : Outcome) (now older_than : ℕ) (db : Db) (id : ℕ)
    → let x = cleanup_processed_outbox o now older_than db in
      (has_open_entry x.0.outbox id ≡ has_open_entry db.outbox id)
      × ((x.1 ≡ none) ⊎ ((n : ℕ) × (x.1 ≡ some n) × (length x.0.outbox + n ≡ length db.outbox)))
unfolding cleanup_processed_outbox
cleanup_processed_outbox-keeps refused now older_than db id = (refl, inl refl)
cleanup_processed_outbox-keeps lost now older_than db id =
    (open_kept now older_than id db.outbox, inl refl)
cleanup_processed_outbox-keeps done now older_than db id = (
  open_kept now older_than id db.outbox,
  inr (
    length (filter (is_stale now older_than) db.outbox),
    refl,
    counts_up (is_stale now older_than) db.outbox,
  ),
)
