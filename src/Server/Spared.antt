-- ===== src/Server/Spared.antt =====
-- The reaper of internal/server/server.go: which jobs it leaves alone.
use orqestra.Base.{
  ℕ, ◌≡◌, refl, Bool, false, none, some, List, [], ◌∷◌, ◌==◌, Bool-cases, inl, inr, ap, ◌∙◌, ≢→==,
  Option-cases,
}
use orqestra.Queue.Interface.{JobQueue}
use orqestra.Db.Tables.{JobStatus, JobRow}
use orqestra.Db.Jobs.{list_jobs}
use orqestra.Db.Integrity.{job_row, update_job_state-other}
use orqestra.Server.State.{World, clear_ownership}
use orqestra.Server.Results.{job_of_row}
use orqestra.Server.Reaper.{ReapCalls, is_stale, is_owned, reclaim, reap_one, reap_all, reaper_tick}

module _ (q : JobQueue) where
  open q use {State, IsSound, place_of, stored, retry-spares, retry-spares_stored}

  -- What a pass over the rows does to a job that is not among them: nothing.
  abbrev pub Untouched : ℕ → World State → World State → Type 0
  Untouched id w w' =
      (job_row id w'.db ≡ job_row id w.db)
      × (w'.owner id ≡ w.owner id)
      × (w'.last_seen id ≡ w.last_seen id)
      × (IsSound w.queue id → IsSound w'.queue id × (place_of w'.queue id ≡ place_of w.queue id))
      × (stored w'.queue id ≡ stored w.queue id)

  Untouched-refl : (id : ℕ) (w : World State) → Untouched id w w
  Untouched-refl id w = (refl, refl, refl, (λ k. (k, refl)), refl)

  Untouched-trans :
      (id : ℕ) (u v w : World State) → Untouched id u v → Untouched id v w → Untouched id u w
  Untouched-trans id u v w (a, b, c, p, x) (d, e, f, q', y) = (
    d ∙ a,
    e ∙ b,
    f ∙ c,
    (λ k. let (k1, e1) = p k in let (k2, e2) = q' k1 in (k2, e2 ∙ e1)),
    y ∙ x,
  )

  pub reclaim-other :
      (c : ReapCalls) (now : ℕ) (row : JobRow) (w : World State) (id : ℕ)
      → (row.id == id) ≡ false
      → Untouched id w (reclaim q c now row w)
  unfolding reclaim clear_ownership
  reclaim-other c now row w id e = (
    update_job_state-other (c.update row.id) row.id id JobStatus.pending row.retry_count w.db e,
    rw e,
    rw e,
    retry-spares (c.retry row.id) now (job_of_row row) 0 w.queue id e,
    retry-spares_stored (c.retry row.id) now (job_of_row row) 0 w.queue id e,
  )

  pub reap_one-other :
      (c : ReapCalls) (now : ℕ) (row : JobRow) (w : World State) (id : ℕ)
      → (row.id == id) ≡ false
      → Untouched id w (reap_one q c now row w)
  unfolding reap_one
  reap_one-other c now row w id e =
      elim (Bool-cases (is_stale now (w.last_seen row.id) (is_owned (w.owner row.id)))) [
        | inr fresh ↦ rw (fresh, reap_one) (Untouched-refl id w)
        | inl old ↦ rw (old, reap_one) (reclaim-other c now row w id e)
      ]

  -- Whether the reaper takes a job back, by what the server knows of it.
  abbrev pub stale_in : ℕ → World State → ℕ → Bool
  stale_in now w id = is_stale now (w.last_seen id) (is_owned (w.owner id))

  pub unseen :
      (now : ℕ) (w : World State) (id : ℕ) → w.last_seen id ≡ none → stale_in now w id ≡ false
  unseen now w id e = rw e refl

  pub stale_in-Untouched :
      (now id : ℕ) (w w' : World State) → Untouched id w w' → stale_in now w' id ≡ stale_in now w id
  stale_in-Untouched now id w w' (_, o, l, _, _) = cc (ap is_owned o)

  reap_one-spares :
      (c : ReapCalls) (now : ℕ) (row : JobRow) (w : World State) (id : ℕ)
      → stale_in now w id ≡ false
      → Untouched id w (reap_one q c now row w)
  unfolding reap_one
  reap_one-spares c now row w id s = elim (Bool-cases (stale_in now w row.id)) [
    | inr fresh ↦ rw (fresh, reap_one) (Untouched-refl id w)
    | inl old ↦
        rw (old, reap_one)
          (reclaim-other c now row w id (≢→== row.id id λ e. cc (ap (stale_in now w) e)))
  ]

  pub reap_all-spares :
      (c : ReapCalls) (now : ℕ) (rows : List JobRow) (w : World State) (id : ℕ)
      → stale_in now w id ≡ false
      → Untouched id w (reap_all q c now rows w)
  unfolding reap_all
  reap_all-spares c now [] w id s = Untouched-refl id w
  reap_all-spares c now (row ∷ rows) w id s =
      let w' = reap_one q c now row w in
      let u = reap_one-spares c now row w id s in
      Untouched-trans id w w' (reap_all q c now rows w') u
        (reap_all-spares c now rows w' id (stale_in-Untouched now id w w' u ∙ s))

  -- A tick leaves alone every job that has no owner here, was heard of within the timeout, or predates
  -- this server: its row, its owner and its heartbeat stay.
  pub reaper_tick-spares :
      (c : ReapCalls) (now : ℕ) (w : World State) (id : ℕ)
      → stale_in now w id ≡ false
      → Untouched id w (reaper_tick q c now w)
  unfolding reaper_tick
  reaper_tick-spares c now w id s =
      elim (Option-cases (list_jobs c.list (some JobStatus.running) w.db)) [
        | inl e ↦ rw (e, reaper_tick) (Untouched-refl id w)
        | inr (rows, e) ↦ rw (e, reaper_tick) (reap_all-spares c now rows w id s)
      ]
