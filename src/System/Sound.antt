-- ===== src/System/Sound.antt =====
-- What holds of the server of cmd/server/main.go whatever happens: a step of a run has one job at most, and
-- the two ownership maps hold the same jobs.
use orqestra.Base.{
  ℕ, ◌≤◌, ◌≡◌, refl, sym, subst, Bool, true, false, none, List, [], ◌∷◌, ◌++◌, String, arith,
  if◌then◌else◌, Bool-cases, inl, inr, Option-cases,
}
use orqestra.Queue.Interface.{JobQueue}
use orqestra.Workflow.Registry.{Registry, load_from_dir}
use orqestra.Db.Tables.{JobRow, Db, update_where}
use orqestra.Db.Jobs.{reset_running_jobs}
use orqestra.Db.ApiKeys.{ApiKey}
use orqestra.Db.Outbox.{is_step}
use orqestra.Db.Keys.{IsKeyed, count_where, count_where-append}
use orqestra.Service.Keys.{KeyedRows, submit_step-IsKeyed}
use orqestra.Server.Paired.{IsPaired, event-IsPaired}
use orqestra.Server.Watched.{reaper_tick-IsPaired}
use orqestra.System.Rows.{KeepsStep, reset_running_jobs-Kept}
use orqestra.System.Passes.{on_tick-jobs}
use orqestra.System.Handlers.{work_event-Kept, reaper_tick-Kept}
use orqestra.System.Clients.{serve-Kept, tick-Kept}
use orqestra.Process.Start.{StartCalls, Started, exited, serving, load, recover_state, start}
use orqestra.System.{
  System, Action, asks, says, reaps, relays, schedules, Happening, does, restarts, act, restart,
  happen, live,
}

is_step-eq :
    (run step : ℕ) (row row' : JobRow)
    → row.workflow_run_id ≡ row'.workflow_run_id
    → row.step_index ≡ row'.step_index
    → is_step run step row ≡ is_step run step row'
unfolding is_step
is_step-eq run step row row' e f = cc

-- An update that keeps the run and the step of a row keeps how many rows have them.
changed-KeyedRows :
    (p : JobRow → Bool) (f : JobRow → JobRow) (rows : List JobRow)
    → KeepsStep f
    → KeyedRows rows
    → KeyedRows (update_where p f rows)
changed-KeyedRows p f rows keeps k run step = subst (λ n. n ≤ 1) (sym (same rows)) (k run step)
  where
    step_kept : (row : JobRow) → is_step run step (f row) ≡ is_step run step row
    step_kept row = is_step-eq run step (f row) row (keeps row).0 (keeps row).1

    same :
        (rows : List JobRow)
        → count_where (is_step run step) (update_where p f rows)
          ≡ count_where (is_step run step) rows
    same [] = refl
    same (row ∷ rows) = elim (Bool-cases (p row)) [
      | inl e ↦ rw (e, step_kept row, same rows) refl
      | inr e ↦ rw (e, same rows) refl
    ]

added-KeyedRows :
    (row : JobRow) (rows : List JobRow)
    → row.workflow_run_id ≡ none
    → KeyedRows rows
    → KeyedRows (rows ++ row ∷ [])
unfolding is_step
added-KeyedRows row rows e k run step =
    ground (arith, count_where-append (is_step run step) rows row, k run step, e)

module _ (q : JobQueue) (hash : String → String) (keys : List ApiKey) where
  open q use {State, recover_all}

  act-IsKeyed :
      (registry : Registry) (a : Action) (t : System State)
      → IsKeyed t.world.db
      → IsKeyed (act q hash keys registry a t).world.db
  unfolding act
  act-IsKeyed registry (asks c now header r) t k =
      serve-Kept KeyedRows changed-KeyedRows added-KeyedRows submit_step-IsKeyed q registry hash
        keys c now header r t.world.db t.world.queue k
  act-IsKeyed registry (says stream c e) t k =
      work_event-Kept KeyedRows changed-KeyedRows added-KeyedRows submit_step-IsKeyed q registry c e
        (t.streams stream) t.world k
  act-IsKeyed registry (reaps c now) t k =
      reaper_tick-Kept KeyedRows changed-KeyedRows added-KeyedRows submit_step-IsKeyed q registry c
        now t.world k
  act-IsKeyed registry (relays tick now) t k =
      subst KeyedRows (sym (on_tick-jobs q tick now t.world.db t.world.queue)) k
  act-IsKeyed registry (schedules c name) t k =
      tick-Kept KeyedRows changed-KeyedRows added-KeyedRows submit_step-IsKeyed q registry c name
        t.world.db k

  act-IsPaired :
      (registry : Registry) (a : Action) (t : System State)
      → IsPaired t.world
      → IsPaired (act q hash keys registry a t).world
  unfolding act
  act-IsPaired registry (asks c now header r) t p = p
  act-IsPaired registry (says stream c e) t p =
      event-IsPaired q registry c e (t.streams stream) t.world p
  act-IsPaired registry (reaps c now) t p = reaper_tick-IsPaired q registry c now t.world p
  act-IsPaired registry (relays tick now) t p = p
  act-IsPaired registry (schedules c name) t p = p

  if-IsKeyed :
      (b : Bool) (x y : Db × State × Started)
      → IsKeyed x.0
      → IsKeyed y.0
      → IsKeyed (if b then x else y).0
  if-IsKeyed true x y k h = k
  if-IsKeyed false x y k h = h

  load-IsKeyed : (c : StartCalls) (db : Db) (s : State) → IsKeyed db → IsKeyed (load q c db s).0
  unfolding load
  load-IsKeyed c db s k =
      let x = load_from_dir [] c.directory in
      let y : Db × State × Started = (db, s, exited) in
      let z : Db × State × Started = (db, s, serving x.0) in
      if-IsKeyed x.1 (if c.listen then z else y) y (if-IsKeyed c.listen z y k k) k

  recover_state-IsKeyed :
      (c : StartCalls) (db : Db) (s : State) → IsKeyed db → IsKeyed (recover_state q c db s).0
  unfolding recover_state
  recover_state-IsKeyed c db s k =
      let x = reset_running_jobs c.reset db in
      let y = recover_all c.recover s in
      let l = load q c x.0 y.0 in
      let k' = reset_running_jobs-Kept KeyedRows changed-KeyedRows added-KeyedRows c.reset db k in
      if-IsKeyed x.1 (if y.1 then l else (x.0, y.0, exited)) (x.0, s, exited)
        (if-IsKeyed y.1 l (x.0, y.0, exited) (load-IsKeyed c x.0 y.0 k') k') k'

  start-IsKeyed : (c : StartCalls) (db : Db) (s : State) → IsKeyed db → IsKeyed (start q c db s).0
  unfolding start
  start-IsKeyed c db s k = elim (Option-cases c.config) [
    | inl e ↦ rw (e, start) k
    | inr (config, e) ↦
        rw (e, start)
          (if-IsKeyed c.postgres _ _ (if-IsKeyed c.ping _ _ (recover_state-IsKeyed c db s k) k) k)
  ]

  abbrev pub IsSound : System State → Type 0
  IsSound t = IsKeyed t.world.db × IsPaired t.world

  happen-IsSound : (h : Happening) (t : System State) → IsSound t → IsSound (happen q hash keys h t)
  unfolding happen restart
  happen-IsSound (restarts c) t (k, p) = (start-IsKeyed c t.world.db t.world.queue k, λ id. refl)
  happen-IsSound (does a) t (k, p) = elim (Option-cases t.up) [
    | inl e ↦ rw (e, happen) (k, p)
    | inr (registry, e) ↦ rw (e, happen) (act-IsKeyed registry a t k, act-IsPaired registry a t p)
  ]

  -- Whatever the clients ask, the streams bring and the tickers do, in any order, however every call ends
  -- and however often the process ends and starts again, a step of a run has one job at most in the
  -- database, and the two ownership maps hold the same jobs, if both held before.
  pub live-IsSound :
      (hs : List Happening) (t : System State)
      → IsKeyed t.world.db
      → IsPaired t.world
      → IsKeyed (live q hash keys hs t).world.db × IsPaired (live q hash keys hs t).world
  unfolding live
  live-IsSound [] t k p = (k, p)
  live-IsSound (h ∷ hs) t k p =
      let (k', p') = happen-IsSound h t (k, p) in live-IsSound hs (happen q hash keys h t) k' p'
