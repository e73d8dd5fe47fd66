-- ===== src/Relay/Places.antt =====
-- Where a pass of the relay of internal/outbox/relay.go leaves a job in the queue.
use orqestra.Base.{
  ℕ, suc, ◌≡◌, ◌≢◌, refl, ◌⊎◌, inl, inr, Bool, true, false, List, [], ◌∷◌, sym, subst, ◌∙◌, ◌==◌,
  if◌then◌else◌,
}
use orqestra.Queue.Place.{Place, absent, waiting, running, parked}
use orqestra.Queue.Contract.{on_absent}
use orqestra.Queue.Interface.{JobQueue}
use orqestra.Db.Tables.{Db}
use orqestra.Db.Outbox.{OutboxEntry, mark_outbox_processed}
use orqestra.Relay.{Calls, job_of, relay_entries, finish, relay}
use orqestra.Relay.Delivery.{relay_entries-cons, relay-fetched, entries}

-- A job that is in the queue and does not run waits, or is parked.
pub waits_or_parked : (p : Place) → p ≢ absent → p ≢ running → (p ≡ waiting) ⊎ (p ≡ parked)
waits_or_parked absent a r = absurd (a refl)
waits_or_parked waiting a r = inl refl
waits_or_parked running a r = absurd (r refl)
waits_or_parked parked a r = inr refl

not_running : (b : Bool) (p : Place) → p ≢ running → (if b then on_absent p else p) ≢ running
not_running true absent r e = absurd (cc)
not_running true waiting r e = absurd (cc)
not_running true running r e = r refl
not_running true parked r e = absurd (cc)
not_running false p r e = r e

module _ (q : JobQueue) where
  open q use {State, IsSound, place_of, enqueue_job, enqueue-moves}

  -- What is stored about a job agrees, and it does not run.
  abbrev pub IsIdle : ℕ → State → Type 0
  IsIdle id s = IsSound s id × (place_of s id ≢ running)

  relay_entries-IsIdle :
      (c : Calls) (now i : ℕ) (es : List OutboxEntry) (tx : Db) (s : State) (id : ℕ)
      → (relay_entries q c now i es tx s).2 ≡ true
      → IsIdle id s
      → IsIdle id (relay_entries q c now i es tx s).1
  unfolding relay_entries
  relay_entries-IsIdle c now i [] tx s id h k = k
  relay_entries-IsIdle c now i (e ∷ es) tx s id h (sound, off) =
      let (enqueued, marked, same) = relay_entries-cons q c now i e es tx s h in
      let s' = (enqueue_job (c.enqueue i) (job_of e) s).0 in
      let tx' = (mark_outbox_processed (c.mark i) now e.id tx).0 in
      let (sound', at) = enqueue-moves (c.enqueue i) (job_of e) s id enqueued sound in
      subst (λ (x : Db × State × Bool). IsIdle id x.1) (sym same)
        (relay_entries-IsIdle c now (suc i) es tx' s' id
          (subst (λ (x : Db × State × Bool). x.2 ≡ true) same h)
          (sound', λ r. not_running (e.job_id == id) (place_of s id) off (sym at ∙ r)))

  finish-IsIdle :
      (c : Calls) (db : Db) (x : Db × State × Bool) (id : ℕ)
      → (x.2 ≡ true → IsIdle id x.1)
      → (finish q c db x).2 ≡ true
      → IsIdle id (finish q c db x).1
  finish-IsIdle c db (tx, s, true) id k h = k refl
  finish-IsIdle c db (tx, s, false) id k h = absurd (cc)

  pub relay-IsIdle :
      (c : Calls) (now : ℕ) (db : Db) (s : State) (id : ℕ)
      → (relay q c now db s).2 ≡ true
      → IsIdle id s
      → IsIdle id (relay q c now db s).1
  relay-IsIdle c now db s id h k = elim (relay-fetched q c now db s) [
    | inl (_, broken) ↦ absurd (cc)
    | inr e ↦
        subst (λ (x : Db × State × Bool). IsIdle id x.1) (sym e)
          (finish-IsIdle c db (relay_entries q c now 0 (entries q db) db s) id
            (λ t. relay_entries-IsIdle c now 0 (entries q db) db s id t k)
            (subst (λ (x : Db × State × Bool). x.2 ≡ true) e h))
  ]
