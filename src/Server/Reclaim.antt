-- ===== src/Server/Reclaim.antt =====
-- The reaper of internal/server/server.go: which jobs it takes back.
use orqestra.Base.{
  ℕ, ◌≡◌, ◌≢◌, refl, Bool, true, false, none, some, List, [], ◌∷◌, arith, ◌==◌, ==_refl, Bool-cases,
  inl, inr, sym, subst, ap, ◌∙◌, done, filter, any, ==→≡, In, In-snoc, Outcome,
}
use orqestra.Queue.Place.{waiting, parked}
use orqestra.Queue.Interface.{JobQueue}
use orqestra.Db.Tables.{JobStatus, JobRow, Db, has_status, first_where}
use orqestra.Db.Jobs.{list_jobs, newest_first}
use orqestra.Db.Integrity.{job_row, job_row-update_job_state, list_jobs_done}
use orqestra.Server.State.{World, clear_ownership}
use orqestra.Server.InOrder.{IsNumbered}
use orqestra.Server.Results.{job_of_row}
use orqestra.Server.Reaper.{ReapCalls, reclaim, reap_one, reap_all, reaper_tick}
use orqestra.Server.Spared.{
  Untouched, reap_one-other, stale_in, unseen, stale_in-Untouched, reap_all-spares,
}

-- A row that is in the table is the one that its number finds.
numbered-row :
    (rows : List JobRow) (row : JobRow)
    → IsNumbered rows
    → In row rows
    → first_where (λ r. r.id == row.id) rows ≡ some row
numbered-row [] row n m = elim m [ ]
numbered-row (r ∷ rows) row n m = elim (Bool-cases (r.id == row.id)) [
  | inl e ↦ rw e (ap (λ (x : JobRow). some x) (n r row (inl refl) m (==→≡ r.id row.id e)))
  | inr e ↦ elim m [
    | inl same ↦ absurd (
        let h = subst (λ (x : JobRow). (r.id == x.id) ≡ false) (sym same) e in
        let g = ==_refl r.id in cc)
    | inr later ↦ rw e (numbered-row rows row (λ a b i j. n a b (inr i) (inr j)) later)
  ]
]

In-filter :
    (p : JobRow → Bool) (rows : List JobRow) (row : JobRow) → In row (filter p rows) → In row rows
In-filter p [] row m = elim m [ ]
In-filter p (r ∷ rows) row m = elim (Bool-cases (p r)) [
  | inl e ↦ elim (rw e at m) [ inl same ↦ inl same | inr later ↦ inr (In-filter p rows row later) ]
  | inr e ↦ inr (In-filter p rows row (rw e at m))
]

In-newest_first : (rows : List JobRow) (row : JobRow) → In row (newest_first rows) → In row rows
unfolding newest_first
In-newest_first [] row m = m
In-newest_first (r ∷ rows) row m = elim (In-snoc (newest_first rows) r row m) [
  | inl later ↦ inr (In-newest_first rows row later)
  | inr same ↦ inl same
]

module _ (q : JobQueue) where
  open q use {State, IsSound, place_of, stored, retry-moves, retry-stores}

  -- A job taken back has no owner any more, is pending with its count of retries, and stands, as it
  -- is in its row, in the delayed set of the queue.
  abbrev pub TakenBack : ℕ → World State → World State → Type 0
  TakenBack id w w' =
      (w'.owner id ≡ none)
      × (w'.last_seen id ≡ none)
      × IsSound w'.queue id
      × (place_of w'.queue id ≡ parked)
      × ((row : JobRow) × (job_row id w.db ≡ some row)
          × (job_row id w'.db ≡ some (record row { status = JobStatus.pending }))
          × (stored w'.queue id ≡ some (job_of_row row)))

  -- What makes a job ready to be taken back: it is sound and does not wait, and what is listed of it is its
  -- row.
  record Ready (c : ReapCalls) (rows : List JobRow) (id : ℕ) (w : World State) : Type 0 where
    updated : c.update id ≡ done
    retried : (n : ℕ) → c.retry id n ≡ done
    sound : IsSound w.queue id
    off : place_of w.queue id ≢ waiting
    current : (row : JobRow) → In row rows → row.id ≡ id → job_row id w.db ≡ some row

  reclaim-TakenBack :
      (c : ReapCalls) (now : ℕ) (row : JobRow) (rows : List JobRow) (w : World State)
      → Ready c (row ∷ rows) row.id w
      → TakenBack row.id w (reclaim q c now row w)
  unfolding reclaim clear_ownership
  reclaim-TakenBack c now row rows w k =
      let at = k.current row (inl refl) refl in
      let (sound, there) =
        retry-moves (c.retry row.id) now (job_of_row row) 0 w.queue k.retried k.sound k.off in
      (
        ground (arith, ==_refl row.id),
        ground (arith, ==_refl row.id),
        sound,
        there,
        (
          row,
          at,
          rw k.updated (
              ground (
                arith,
                ==_refl row.id,
                at,
                job_row-update_job_state row.id row.id JobStatus.pending row.retry_count w.db,
              )),
          retry-stores (c.retry row.id) now (job_of_row row) 0 w.queue k.retried,
        ),
      )

  TakenBack-Untouched :
      (id : ℕ) (u v w : World State) → TakenBack id u v → Untouched q id v w → TakenBack id u w
  TakenBack-Untouched id u v w (a, b, k, p, (row, at, r, x)) (d, e, f, g, y) =
      let (k', p') = g k in (e ∙ a, f ∙ b, k', p' ∙ p, (row, at, d ∙ r, y ∙ x))

  Untouched-TakenBack :
      (id : ℕ) (u v w : World State) → Untouched q id u v → TakenBack id v w → TakenBack id u w
  Untouched-TakenBack id u v w (d, e, f, g, y) (a, b, k, p, (row, at, r, x)) =
      (a, b, k, p, (row, sym d ∙ at, r, x))

  Ready-Untouched :
      (c : ReapCalls) (row : JobRow) (rows : List JobRow) (id : ℕ) (u v : World State)
      → Untouched q id u v
      → Ready c (row ∷ rows) id u
      → Ready c rows id v
  Ready-Untouched c row rows id u v (d, e, f, g, y) k = record {
    updated = k.updated;
    retried = k.retried;
    sound = (g k.sound).0;
    off = λ w. k.off (sym (g k.sound).1 ∙ w);
    current = λ r m e. d ∙ k.current r (inr m) e;
  }

  -- A job without a heartbeat is not stale, and stays as it is.
  reap_all_first :
      (c : ReapCalls) (now : ℕ) (row : JobRow) (rows : List JobRow) (w : World State)
      → Ready c (row ∷ rows) row.id w
      → stale_in q now w row.id ≡ true
      → TakenBack row.id w (reap_all q c now (row ∷ rows) w)
  unfolding reap_all reap_one
  reap_all_first c now row rows w k s =
      let w' = reclaim q c now row w in
      let t = reclaim-TakenBack c now row rows w k in
      rw (s, reap_all)
        (TakenBack-Untouched row.id w w' (reap_all q c now rows w') t
          (reap_all-spares q c now rows w' row.id (unseen q now w' row.id t.1)))

  reap_all-reclaims :
      (c : ReapCalls) (now : ℕ) (rows : List JobRow) (w : World State) (id : ℕ)
      → Ready c rows id w
      → any (λ row. row.id == id) rows ≡ true
      → stale_in q now w id ≡ true
      → TakenBack id w (reap_all q c now rows w)
  unfolding reap_all
  reap_all-reclaims c now [] w id k m s = absurd (cc)
  reap_all-reclaims c now (row ∷ rows) w id k m s = elim (Bool-cases (row.id == id)) [
    | inl e ↦
        let same = ==→≡ row.id id e in
        subst (λ i. TakenBack i w (reap_all q c now (row ∷ rows) w)) same
          (reap_all_first c now row rows w (subst (λ i. Ready c (row ∷ rows) i w) (sym same) k)
            (subst (λ i. stale_in q now w i ≡ true) (sym same) s))
    | inr e ↦
        let w' = reap_one q c now row w in
        let t = reap_one-other q c now row w id e in
        Untouched-TakenBack id w w' (reap_all q c now rows w') t (
          reap_all-reclaims c now rows w' id (Ready-Untouched c row rows id w w' t k) (ground arith)
            (stale_in-Untouched q now id w w' t ∙ s))
  ]

  listed-row :
      (o : Outcome) (rows : List JobRow) (db : Db) (row : JobRow)
      → o ≡ done
      → list_jobs o (some JobStatus.running) db ≡ some rows
      → In row rows
      → In row db.jobs
  unfolding list_jobs
  listed-row o rows db row l e m =
      let same : some (newest_first (filter (has_status JobStatus.running) db.jobs)) ≡ some rows =
        rw l at e in
      let same' : newest_first (filter (has_status JobStatus.running) db.jobs) ≡ rows = cc in
      In-filter (has_status JobStatus.running) db.jobs row (
        In-newest_first (filter (has_status JobStatus.running) db.jobs) row
          (subst (λ rs. In row rs) (sym same') m))

  -- If a number is that of one row, a tick whose listing succeeds takes back every running job that has an
  -- owner here and was not heard of for the timeout, when its update and its retry succeed, and it does not
  -- wait in the ready list and what is stored about it agrees: it is pending with its count of retries,
  -- neither its owner nor its heartbeat is kept, and it stands in the delayed set of the queue, as it is in
  -- its row.
  pub reaper_tick-reclaims :
      (c : ReapCalls) (now : ℕ) (w : World State) (id : ℕ)
      → IsNumbered w.db.jobs
      → c.list ≡ done
      → c.update id ≡ done
      → ((n : ℕ) → c.retry id n ≡ done)
      → IsSound w.queue id
      → place_of w.queue id ≢ waiting
      → any (λ row. row.id == id) (filter (has_status JobStatus.running) w.db.jobs) ≡ true
      → stale_in q now w id ≡ true
      → TakenBack id w (reaper_tick q c now w)
  unfolding reaper_tick
  reaper_tick-reclaims c now w id n l u r k p m s =
      let (rows, e, found) = list_jobs_done c.list JobStatus.running w.db (λ row. row.id == id) l in
      rw (e, reaper_tick)
        (reap_all-reclaims c now rows w id
          (record {
            updated = u;
            retried = r;
            sound = k;
            off = p;
            current = λ row i same.
                subst (λ j. job_row j w.db ≡ some row) same
                  (numbered-row w.db.jobs row n (listed-row c.list rows w.db row l e i));
          })
          (found ∙ m) s)
