-- ===== src/Relay/Delivery.antt =====
-- The relay of internal/outbox/relay.go hands every unprocessed entry to the queue, and an entry is marked
-- only if the queue has its job.
use orqestra.Base.{
  ℕ, suc, ◌≡◌, refl, ◌⊎◌, inl, inr, Bool, true, false, none, some, List, [], ◌∷◌, arith, ◌==◌, All,
  Outcome, done, refused, lost, ap, sym, subst, ◌∙◌,
}
use orqestra.Queue.Interface.{JobQueue}
use orqestra.Db.Tables.{Db, update_where}
use orqestra.Db.Outbox.{
  OutboxEntry, unprocessed, get_unprocessed_outbox, mark_outbox_processed, processed_at, on_outbox,
}
use orqestra.Relay.Marks.{ids, mark_all, unprocessed-Covers, mark_all-drains}
use orqestra.Relay.{Calls, job_of, commit, relay_entries, finish, relay}

module _ (q : JobQueue) where
  open q use {State, enqueue_job, holds, enqueue-holds, enqueue-keeps}

  -- Whatever happens in the loop, the queue lets go of nothing.
  relay_entries-keeps :
      (c : Calls) (now i : ℕ) (es : List OutboxEntry) (tx : Db) (s : State) (j : ℕ)
      → holds s j ≡ true
      → holds (relay_entries q c now i es tx s).1 j ≡ true
  unfolding relay_entries
  relay_entries-keeps c now i [] tx s j h = h
  relay_entries-keeps c now i (e ∷ es) tx s j h = ground (
    arith,
    enqueue-keeps (c.enqueue i) (job_of e) s j h,
    relay_entries-keeps c now (suc i) es (mark_outbox_processed (c.mark i) now e.id tx).0
        (enqueue_job (c.enqueue i) (job_of e) s).0 j,
  )

  -- What a loop that comes to its end has done: every entry is enqueued and marked.
  abbrev Completes : ℕ → List OutboxEntry → Db → Db × State × Bool → Type 0
  Completes now es tx x =
      All (λ e. holds x.1 e.job_id ≡ true) es
      × (x.0.outbox ≡ mark_all now (ids es) tx.outbox)
      × (x.0.jobs ≡ tx.jobs)

  pub relay_entries-cons :
      (c : Calls) (now i : ℕ) (e : OutboxEntry) (es : List OutboxEntry) (tx : Db) (s : State)
      → (relay_entries q c now i (e ∷ es) tx s).2 ≡ true
      → ((enqueue_job (c.enqueue i) (job_of e) s).1 ≡ true)
        × (c.mark i ≡ done)
        × (relay_entries q c now i (e ∷ es) tx s
            ≡ relay_entries q c now
                (suc i)
                es
                (mark_outbox_processed (c.mark i) now e.id tx).0
                (enqueue_job (c.enqueue i) (job_of e) s).0)
  unfolding relay_entries mark_outbox_processed
  relay_entries-cons c now i e es tx s h = ground arith

  mark-done :
      (o : Outcome) (now i : ℕ) (tx : Db)
      → o ≡ done
      → (mark_outbox_processed o now i tx).0
        ≡ on_outbox (update_where (λ e. e.id == i) (processed_at now)) tx
  unfolding mark_outbox_processed
  mark-done o now i tx h = rw h

  relay_entries_done :
      (c : Calls) (now i : ℕ) (es : List OutboxEntry) (tx : Db) (s : State)
      → (relay_entries q c now i es tx s).2 ≡ true
      → Completes now es tx (relay_entries q c now i es tx s)
  unfolding relay_entries
  relay_entries_done c now i [] tx s h = (tt, refl, refl)
  relay_entries_done c now i (e ∷ es) tx s h =
      let (enqueued, marked, same) = relay_entries-cons c now i e es tx s h in
      let s' = (enqueue_job (c.enqueue i) (job_of e) s).0 in
      let tx' = (mark_outbox_processed (c.mark i) now e.id tx).0 in
      let m = mark-done (c.mark i) now e.id tx marked in
      let (held, marks, jobs) =
        relay_entries_done c now (suc i) es tx' s'
          (subst (λ (x : Db × State × Bool). x.2 ≡ true) same h) in
      subst (Completes now (e ∷ es) tx) (sym same) (
        (
          relay_entries-keeps c now (suc i) es tx' s' e.job_id
              (enqueue-holds (c.enqueue i) (job_of e) s enqueued),
          held,
        ),
        marks ∙ ap (λ (d : Db). mark_all now (ids es) d.outbox) m,
        jobs ∙ ap (λ (d : Db). d.jobs) m,
      )

  -- The entries that a pass finds.
  abbrev pub entries : Db → List OutboxEntry
  entries db = unprocessed db.jobs db.outbox

  fetched :
      (c : Calls) (db : Db)
      → (get_unprocessed_outbox c.fetch db ≡ none)
        ⊎ (get_unprocessed_outbox c.fetch db ≡ some (entries db))
  unfolding get_unprocessed_outbox
  fetched c db = ground arith

  pub relay-fetched :
      (c : Calls) (now : ℕ) (db : Db) (s : State)
      → ((relay q c now db s).0 ≡ db) × ((relay q c now db s).2 ≡ false)
        ⊎ (relay q c now db s ≡ finish q c db (relay_entries q c now 0 (entries db) db s))
  unfolding relay
  relay-fetched c now db s = elim (fetched c db) [
    | inl e ↦ inl (rw (e, relay) refl, rw (e, relay) refl)
    | inr e ↦ inr (rw (e, relay) refl)
  ]

  -- A pass hands over all that it found, or leaves the database as it was.
  abbrev pub Delivered : Db → Db × State × Bool → Type 0
  Delivered db x = All (λ e. holds x.1 e.job_id ≡ true) (entries db) × (entries x.0 ≡ [])

  entries_of :
      (now : ℕ) (db tx : Db)
      → tx.outbox ≡ mark_all now (ids (entries db)) db.outbox
      → tx.jobs ≡ db.jobs
      → entries tx ≡ []
  entries_of now db tx marks jobs =
      ap (λ rows. unprocessed rows tx.outbox) jobs
      ∙ (ap (unprocessed db.jobs) marks
          ∙ mark_all-drains now (ids (entries db)) db.jobs db.outbox
              (unprocessed-Covers db.jobs db.outbox))

  finish-Delivered :
      (c : Calls) (now : ℕ) (db : Db) (x : Db × State × Bool)
      → (x.2 ≡ true → Completes now (entries db) db x)
      → ((finish q c db x).2 ≡ true → Delivered db (finish q c db x))
        × (((finish q c db x).0 ≡ db) ⊎ Delivered db (finish q c db x))
  finish-Delivered c now db (tx, s, false) h = (λ e. cc, inl refl)
  finish-Delivered c now db (tx, s, true) h =
      let (held, marks, jobs) = h refl in
      let all_out : Delivered db (tx, s, true) = (held, entries_of now db tx marks jobs) in
      ending c.commit all_out
    where
      ending :
          (o : Outcome)
          → Delivered db (tx, s, true)
          → (((commit o tx db).1 ≡ true) → Delivered db ((commit o tx db).0, s, (commit o tx db).1))
            × (((commit o tx db).0 ≡ db) ⊎ Delivered db ((commit o tx db).0, s, (commit o tx db).1))
      ending done d = (λ _. d, inr d)
      ending refused d = (λ e. cc, inl refl)
      ending lost d = (λ _. d, inr d)

  relay-Delivered :
      (c : Calls) (now : ℕ) (db : Db) (s : State)
      → ((relay q c now db s).2 ≡ true → Delivered db (relay q c now db s))
        × (((relay q c now db s).0 ≡ db) ⊎ Delivered db (relay q c now db s))
  relay-Delivered c now db s = elim (relay-fetched c now db s) [
    | inl (same, err) ↦ (λ ok. absurd (cc), inl same)
    | inr e ↦
        subst (λ x. (x.2 ≡ true → Delivered db x) × ((x.0 ≡ db) ⊎ Delivered db x)) (sym e)
          (finish-Delivered c now db (relay_entries q c now 0 (entries db) db s)
            (relay_entries_done c now 0 (entries db) db s))
  ]

  -- A pass of the relay that returns nil has handed every unprocessed entry to the queue, and leaves none
  -- unprocessed.
  pub relay_drains :
      (c : Calls) (now : ℕ) (db : Db) (s : State)
      → (relay q c now db s).2 ≡ true
      → Delivered db (relay q c now db s)
  relay_drains c now db s ok = (relay-Delivered c now db s).0 ok

  -- However its calls end, a pass of the relay leaves the database as it was, or the queue holds the job
  -- of every entry that was unprocessed and none is unprocessed any more.
  pub relay_all_or_nothing :
      (c : Calls) (now : ℕ) (db : Db) (s : State)
      → ((relay q c now db s).0 ≡ db) ⊎ Delivered db (relay q c now db s)
  relay_all_or_nothing c now db s = (relay-Delivered c now db s).1
