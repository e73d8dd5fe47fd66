-- ===== src/System.antt =====
-- The server as a whole: what its goroutines, its workers' streams and its clients do to the state that they
-- share, one operation after the other. The hash and the keys do not change; each start reads the
-- registry anew.
pub mod Rows
pub mod Passes
pub mod Handlers
pub mod Clients
pub mod Sound
use orqestra.Base.{ℕ, ◌*◌, ◌==◌, Option, none, some, List, [], ◌∷◌, String, Outcome, if◌then◌else◌}
use orqestra.Queue.Keyspace.{Job, update}
use orqestra.Queue.Interface.{JobQueue}
use orqestra.Workflow.Registry.{Registry}
use orqestra.Db.ApiKeys.{ApiKey}
use orqestra.Relay.Ticks.{Tick, on_tick}
use orqestra.Scheduler.{TickCalls, tick}
use orqestra.Server.State.{World}
use orqestra.Server.Work.{WorkCalls, Event, work_event}
use orqestra.Server.Reaper.{ReapCalls, reaper_tick}
use orqestra.Api.Requests.{ApiCalls, Header, Request}
use orqestra.Api.{serve}
use orqestra.Process.Start.{StartCalls, Started, exited, serving, start}

-- The world, the job that each stream has in flight, and the registry of the process, if one is up.
pub record System (S : Type 0) : Type 0 where
  pub world : World S
  pub streams : ℕ → Option Job
  pub up : Option Registry

-- A request to the API; a message on a stream; a tick of the reaper, of the relay or its cleanup, or of
-- cron.
pub data Action : Type 0 where
  asks : ApiCalls → ℕ → Header → Request → Action
  says : ℕ → WorkCalls → Event → Action
  reaps : ReapCalls → ℕ → Action
  relays : Tick → ℕ → Action
  schedules : TickCalls → String → Action

-- A process acts, or it ends, at any moment, and another starts.
pub data Happening : Type 0 where
  does : Action → Happening
  restarts : StartCalls → Happening

module _ (q : JobQueue) (hash : String → String) (keys : List ApiKey) where
  open q use {State}

  unfoldable pub act : Registry → Action → System State → System State
  act registry (asks c now header r) t =
      let (db, s, _) = serve q hash keys c registry now header r t.world.db t.world.queue in
      record t { world = record t.world { db = db; queue = s } }
  act registry (says stream c e) t =
      let x = work_event q registry c e (t.streams stream) t.world in
      record t { world = x.world; streams = update t.streams stream x.in_flight }
  act registry (reaps c now) t = record t { world = reaper_tick q c now t.world }
  act registry (relays tick now) t =
      let (db, s) = on_tick q tick now t.world.db t.world.queue in
      record t { world = record t.world { db = db; queue = s } }
  act registry (schedules c name) t = record t {
    world = record t.world { db = tick c registry name t.world.db };
  }

  unfoldable pub restart : StartCalls → System State → System State
  restart c t =
      let (db, s, started) = start q c t.world.db t.world.queue in
      record {
        world = record { db = db; queue = s; last_seen = λ _. none; owner = λ _. none };
        streams = λ _. none;
        up = elim started [ exited ↦ none | serving registry ↦ some registry ];
      }

  unfoldable pub happen : Happening → System State → System State
  unfolding act restart
  happen (does a) t = elim t.up [ none ↦ t | some registry ↦ act registry a t ]
  happen (restarts c) t = restart c t

  unfoldable pub live : List Happening → System State → System State
  unfolding happen
  live [] t = t
  live (h ∷ hs) t = live hs (happen h t)
