-- ===== src/System/Passes.antt =====
-- The relay and the cleanup of internal/outbox/relay.go leave the table of jobs alone.
use orqestra.Base.{
  ℕ, ◌≡◌, refl, ◌∙◌, Bool, true, false, List, [], ◌∷◌, Outcome, done, refused, lost, if◌then◌else◌,
  Option-cases, inl, inr, suc,
}
use orqestra.Queue.Interface.{JobQueue}
use orqestra.Db.Tables.{JobRow, Db}
use orqestra.Db.Outbox.{
  OutboxEntry, mark_outbox_processed, cleanup_processed_outbox, get_unprocessed_outbox,
}
use orqestra.Relay.Ticks.{Tick, polls, cleans, cleanup_max_age, on_tick}
use orqestra.Relay.{Calls, relay, relay_entries, finish, commit}

mark-jobs :
    (o : Outcome) (now id : ℕ) (db : Db) → (mark_outbox_processed o now id db).0.jobs ≡ db.jobs
unfolding mark_outbox_processed
mark-jobs done now id db = refl
mark-jobs refused now id db = refl
mark-jobs lost now id db = refl

cleanup-jobs :
    (o : Outcome) (now age : ℕ) (db : Db) → (cleanup_processed_outbox o now age db).0.jobs ≡ db.jobs
unfolding cleanup_processed_outbox
cleanup-jobs done now age db = refl
cleanup-jobs refused now age db = refl
cleanup-jobs lost now age db = refl

module _ (q : JobQueue) where
  open q use {State, enqueue_job}

  if-jobs :
      (b : Bool) (rows : List JobRow) (x y : Db × State × Bool)
      → x.0.jobs ≡ rows
      → y.0.jobs ≡ rows
      → (if b then x else y).0.jobs ≡ rows
  if-jobs true rows x y e f = e
  if-jobs false rows x y e f = f

  relay_entries-jobs :
      (c : Calls) (now i : ℕ) (es : List OutboxEntry) (tx : Db) (s : State)
      → (relay_entries q c now i es tx s).0.jobs ≡ tx.jobs
  unfolding relay_entries
  relay_entries-jobs c now i [] tx s = refl
  relay_entries-jobs c now i (e ∷ es) tx s =
      let x = mark_outbox_processed (c.mark i) now e.id tx in
      let marked = mark-jobs (c.mark i) now e.id tx in
      if-jobs _ tx.jobs _ _
        (if-jobs x.1 tx.jobs _ _ (relay_entries-jobs c now (suc i) es x.0 _ ∙ marked) refl) refl

  commit-jobs : (o : Outcome) (tx db : Db) → tx.jobs ≡ db.jobs → (commit o tx db).0.jobs ≡ db.jobs
  commit-jobs done tx db e = e
  commit-jobs refused tx db e = refl
  commit-jobs lost tx db e = e

  finish-jobs :
      (c : Calls) (db : Db) (x : Db × State × Bool)
      → x.0.jobs ≡ db.jobs
      → (finish q c db x).0.jobs ≡ db.jobs
  finish-jobs c db (tx, s, ok) e = if-jobs ok db.jobs _ _ (commit-jobs c.commit tx db e) refl

  relay-jobs : (c : Calls) (now : ℕ) (db : Db) (s : State) → (relay q c now db s).0.jobs ≡ db.jobs
  unfolding relay
  relay-jobs c now db s = elim (Option-cases (get_unprocessed_outbox c.fetch db)) [
    | inl e ↦ rw (e, relay) refl
    | inr (entries, e) ↦
        rw (e, relay)
          (finish-jobs c db (relay_entries q c now 0 entries db s)
            (relay_entries-jobs c now 0 entries db s))
  ]

  pub on_tick-jobs :
      (tick : Tick) (now : ℕ) (db : Db) (s : State) → (on_tick q tick now db s).0.jobs ≡ db.jobs
  unfolding on_tick
  on_tick-jobs (polls c) now db s = relay-jobs c now db s
  on_tick-jobs (cleans o) now db s = cleanup-jobs o now cleanup_max_age db
