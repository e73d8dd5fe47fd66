-- ===== src/Server/Watched.antt =====
-- The reaper of internal/server/server.go, and the jobs that a stream leaves behind.
use orqestra.Base.{
  ℕ, ◌≡◌, ◌≢◌, true, some, arith, ◌==◌, inl, inr, List, [], ◌∷◌, is_some, ◌+◌, Option-cases, ◌≤◌,
  any, filter, done,
}
use orqestra.Queue.Place.{waiting}
use orqestra.Queue.Interface.{JobQueue}
use orqestra.Server.InOrder.{IsNumbered}
use orqestra.Workflow.Registry.{Registry}
use orqestra.Db.Tables.{has_status, JobStatus, JobRow}
use orqestra.Db.Jobs.{list_jobs}
use orqestra.Server.State.{World}
use orqestra.Server.Work.{Event, WorkCalls, Session, work}
use orqestra.Server.Reclaim.{TakenBack, reaper_tick-reclaims}
use orqestra.Server.Reaper.{
  heartbeat_timeout, ReapCalls, is_stale, is_owned, reclaim, reap_one, reap_all, reaper_tick,
}
use orqestra.Server.Paired.{IsPaired, if-IsPaired, clear-IsPaired, work-IsPaired}

module _ (q : JobQueue) (registry : Registry) where
  open q use {State, IsSound, place_of}

  reap_all-IsPaired :
      (c : ReapCalls) (now : ℕ) (rows : List JobRow) (w : World State)
      → IsPaired w
      → IsPaired (reap_all q c now rows w)
  unfolding reap_all reap_one reclaim
  reap_all-IsPaired c now [] w p = p
  reap_all-IsPaired c now (row ∷ rows) w p = reap_all-IsPaired c now rows _ (
      if-IsPaired (is_stale now (w.last_seen row.id) (is_owned (w.owner row.id))) _ _
        (clear-IsPaired row.id w p) p)

  -- Nor does the reaper part them.
  pub reaper_tick-IsPaired :
      (c : ReapCalls) (now : ℕ) (w : World State) → IsPaired w → IsPaired (reaper_tick q c now w)
  unfolding reaper_tick
  reaper_tick-IsPaired c now w p =
      elim (Option-cases (list_jobs c.list (some JobStatus.running) w.db)) [
        | inl e ↦ rw (e, reaper_tick) p
        | inr (rows, e) ↦ rw (e, reaper_tick) (reap_all-IsPaired c now rows w p)
      ]

  paired-stale :
      (now id : ℕ) (w : World State)
      → IsPaired w
      → is_some (w.owner id) ≡ true
      → ((seen : ℕ) → w.last_seen id ≡ some seen → seen + heartbeat_timeout ≤ now)
      → is_stale now (w.last_seen id) (is_owned (w.owner id)) ≡ true
  paired-stale now id w p owned old = elim (Option-cases (w.owner id)) [
    | inl e ↦ absurd (ground (arith, e))
    | inr (owner, e) ↦ elim (Option-cases (w.last_seen id)) [
      | inl f ↦ absurd (ground (arith, e, f, p id))
      | inr (seen, f) ↦ let late = old seen f in rw (e, f) (ground (arith))
    ]
  ]

  -- After any messages of a stream, if the maps held the same jobs before them, and a number is that of one
  -- row after them: a running job that has an owner then, and whose last sign is as old as the timeout, is
  -- taken back by a tick whose listing succeeds, when its update and its retry succeed, and it does not
  -- wait in the ready list and what is stored about it agrees. It is pending with its count of retries,
  -- neither its owner nor its heartbeat is kept, and it stands in the delayed set, as it is in its row.
  pub work-reclaims :
      (es : List (WorkCalls × Event)) (t : Session State) (c : ReapCalls) (now id : ℕ)
      → IsPaired t.world
      → c.list ≡ done
      → c.update id ≡ done
      → ((n : ℕ) → c.retry id n ≡ done)
      → let w = (work q registry es t).world in
        IsNumbered w.db.jobs
        → IsSound w.queue id
        → place_of w.queue id ≢ waiting
        → any (λ row. row.id == id) (filter (has_status JobStatus.running) w.db.jobs) ≡ true
        → is_some (w.owner id) ≡ true
        → ((seen : ℕ) → w.last_seen id ≡ some seen → seen + heartbeat_timeout ≤ now)
        → TakenBack q id w (reaper_tick q c now w)
  work-reclaims es t c now id p l u r n sound off m owned old =
      let w = (work q registry es t).world in
      reaper_tick-reclaims q c now w id n l u r sound off m
        (paired-stale now id w (work-IsPaired q registry es t p) owned old)
