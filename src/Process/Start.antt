-- ===== src/Process/Start.antt =====
-- `main` of cmd/server/main.go up to the point where the server listens, with the goroutines that it starts
-- left to act after it.
use orqestra.Base.{
  ℕ, ◌≡◌, ◌≢◌, ◌⊎◌, refl, ap, Bool, true, false, ◌&&◌, Option, none, some, [], String, any, ◌==◌,
  if◌then◌else◌, Bool-cases, Option-cases, inl, inr, Outcome, Replies, sym, subst, ◌∙◌,
}
use orqestra.Queue.Place.{Place, absent, waiting, running, parked}
use orqestra.Queue.Contract.{on_running}
use orqestra.Queue.Interface.{JobQueue}
use orqestra.Workflow.{Workflow}
use orqestra.Workflow.Valid.{IsValid}
use orqestra.Workflow.Loading.{loaded-IsValid}
use orqestra.Workflow.Registry.{Registry, Directory, lookup, load_from_dir}
use orqestra.Db.Tables.{Db, JobStatus, has_status}
use orqestra.Db.Jobs.{reset_running_jobs}
use orqestra.Relay.{Calls, relay}
use orqestra.Relay.Restart.{restart_requeues}
use orqestra.Relay.Places.{IsIdle, relay-IsIdle, waits_or_parked}
use orqestra.Process.Config.{Config}

-- How the steps of the start end: the configuration, the connections, and the port.
pub record StartCalls : Type 0 where
  pub config : Option Config
  pub postgres : Bool
  pub ping : Bool
  pub reset : Outcome
  pub recover : Replies
  pub directory : Directory
  pub listen : Bool

-- The registry that the server works with, or an exit with 1.
pub data Started : Type 0 where
  exited : Started
  serving : Registry → Started

module _ (q : JobQueue) where
  open q use {State, recover_all}

  -- From `LoadFromDir` on.
  unfoldable pub load : StartCalls → Db → State → Db × State × Started
  load c db s =
      let (registry, ok) = load_from_dir [] c.directory in
      if ok
      then if c.listen then (db, s, serving registry) else (db, s, exited)
      else (db, s, exited)

  -- `ResetRunningJobs`, then `Recover`.
  unfoldable pub recover_state : StartCalls → Db → State → Db × State × Started
  unfolding load
  recover_state c db s =
      let (db', reset) = reset_running_jobs c.reset db in
      let (s', recovered) = recover_all c.recover s in
      if reset then if recovered then load c db' s' else (db', s', exited) else (db', s, exited)

  unfoldable pub start : StartCalls → Db → State → Db × State × Started
  unfolding recover_state
  start c db s = elim c.config [
    | none ↦ (db, s, exited)
    | some config ↦
        if c.postgres
        then if c.ping then recover_state c db s else (db, s, exited)
        else (db, s, exited)
  ]

  -- What a start that serves has done.
  record Up (c : StartCalls) (registry : Registry) (db : Db) (s : State) (x : Db × State × Started)
      : Type 0 where
    reset : (reset_running_jobs c.reset db).1 ≡ true
    recovered : (recover_all c.recover s).1 ≡ true
    db_left : x.0 ≡ (reset_running_jobs c.reset db).0
    queue_left : x.1 ≡ (recover_all c.recover s).0
    registry_left : (load_from_dir [] c.directory).0 ≡ registry

  not_up : {A : Type 0} (registry : Registry) → exited ≡ serving registry → A
  not_up registry h = absurd (cc)

  load-serving :
      (c : StartCalls) (registry : Registry) (db : Db) (s : State)
      → (load c db s).2 ≡ serving registry
      → ((load c db s).0 ≡ db)
        × ((load c db s).1 ≡ s)
        × ((load_from_dir [] c.directory).0 ≡ registry)
  unfolding load
  load-serving c registry db s h = elim (Bool-cases (load_from_dir [] c.directory).1) [
    | inr e ↦ not_up registry (rw (e, load) at h)
    | inl e ↦ elim (Bool-cases c.listen) [
      | inr f ↦ not_up registry (rw (e, f, load) at h)
      | inl f ↦
          let same : serving (load_from_dir [] c.directory).0 ≡ serving registry =
            rw (e, f, load) at h in
          rw (e, f, load) (refl, refl, cc)
    ]
  ]

  if_serving :
      (registry : Registry) (b : Bool) (x : Db × State × Started) (db : Db) (s : State)
      → (if b then x else (db, s, exited)).2 ≡ serving registry
      → (b ≡ true) × (x.2 ≡ serving registry) × ((if b then x else (db, s, exited)) ≡ x)
  if_serving registry true x db s h = (refl, h, refl)
  if_serving registry false x db s h = not_up registry h

  recover_state-Up :
      (c : StartCalls) (registry : Registry) (db : Db) (s : State)
      → (recover_state c db s).2 ≡ serving registry
      → Up c registry db s (recover_state c db s)
  unfolding recover_state
  recover_state-Up c registry db s h =
      let x = reset_running_jobs c.reset db in
      let y = recover_all c.recover s in
      let l = load c x.0 y.0 in
      let (reset, h1, e1) =
        if_serving registry x.1 (if y.1 then l else (x.0, y.0, exited)) x.0 s h in
      let (recovered, h2, e2) = if_serving registry y.1 l x.0 y.0 h1 in
      let (same_db, same_queue, same_registry) = load-serving c registry x.0 y.0 h2 in
      subst (Up c registry db s) (sym (e1 ∙ e2)) (record {
        reset = reset;
        recovered = recovered;
        db_left = same_db;
        queue_left = same_queue;
        registry_left = same_registry;
      })

  start-Up :
      (c : StartCalls) (registry : Registry) (db : Db) (s : State)
      → (start c db s).2 ≡ serving registry
      → Up c registry db s (start c db s)
  unfolding start
  start-Up c registry db s h = elim (Option-cases c.config) [
    | inl e ↦ not_up registry (rw (e, start) at h)
    | inr (config, e) ↦
        let connected =
          if c.postgres
          then if c.ping then recover_state c db s else (db, s, exited)
          else (db, s, exited) in
        let e0 : start c db s ≡ connected = rw (e, start) refl in
        let h0 : connected.2 ≡ serving registry =
          ap (λ (x : Db × State × Started). x.2) (sym e0) ∙ h in
        let (_, h1, e1) = if_serving registry c.postgres _ db s h0 in
        let (_, h2, e2) = if_serving registry c.ping _ db s h1 in
        subst (Up c registry db s) (sym (e0 ∙ e1 ∙ e2)) (recover_state-Up c registry db s h2)
  ]

  idle_recovered : (p p' : Place) → p' ≡ on_running p → p' ≢ running
  idle_recovered absent p' e r = absurd (cc)
  idle_recovered waiting p' e r = absurd (cc)
  idle_recovered running p' e r = absurd (cc)
  idle_recovered parked p' e r = absurd (cc)

  -- If what the queue stores about a job agrees, and the job was running in the database before the start,
  -- then when the server has come up and a pass of the relay after that returns nil, the job waits in the
  -- ready list or is parked in the delayed set, and what is stored about it agrees.
  pub start-requeues :
      (c : StartCalls) (registry : Registry) (k : Calls) (now id : ℕ) (db : Db) (s : State)
      → let x = start c db s in
        q.IsSound s id
        → x.2 ≡ serving registry
        → (relay q k now x.0 x.1).2 ≡ true
        → any (λ row. row.id == id && has_status JobStatus.running row) db.jobs ≡ true
        → let s' = (relay q k now x.0 x.1).1 in
          q.IsSound s' id × ((q.place_of s' id ≡ waiting) ⊎ (q.place_of s' id ≡ parked))
  start-requeues c registry k now id db s sound h r m =
      let x = start c db s in
      let up = start-Up c registry db s h in
      let s' = (relay q k now x.0 x.1).1 in
      let held : q.holds s' id ≡ true =
        subst
          (λ (d : Db). (relay q k now d x.1).2 ≡ true → q.holds (relay q k now d x.1).1 id ≡ true)
          (sym up.db_left) (λ r'. restart_requeues q c.reset k now db x.1 id up.reset r' m) r in
      let (sound1, at) = q.recover-moves c.recover s id up.recovered sound in
      let idle : IsIdle q id x.1 =
        subst (IsIdle q id) (sym up.queue_left) (sound1, idle_recovered (q.place_of s id) _ at) in
      let (sound2, off) = relay-IsIdle q k now x.0 x.1 id r idle in
      (sound2, waits_or_parked (q.place_of s' id) (q.held-place s' id sound2 held) off)

  -- A server comes up with valid workflows only.
  pub start-IsValid :
      (c : StartCalls) (registry : Registry) (db : Db) (s : State) (name : String) (wf : Workflow)
      → (start c db s).2 ≡ serving registry
      → lookup name registry ≡ some wf
      → IsValid wf.steps
  start-IsValid c registry db s name wf h l =
      let up = start-Up c registry db s h in
      loaded-IsValid c.directory name wf
        (subst (λ r. lookup name r ≡ some wf) (sym up.registry_left) l)
