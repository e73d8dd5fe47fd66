-- ===== src/Worker.antt =====
-- cmd/worker/main.go: a worker that asks the server for jobs over a stream and runs them in a shell. Its
-- number for itself is a parameter.
pub mod Command
pub mod Exchange
pub mod Completes
use Command.{Decoded, Executed, Shell, execute_job}
use orqestra.Base.{
  ℕ, suc, Bool, true, false, Option, none, some, List, [], ◌∷◌, ◌++◌, String, if◌then◌else◌,
  replicate,
}
use orqestra.Server.Work.{Task}

-- `pb.WorkerMessage` without the worker's number.
pub data Message : Type 0 where
  ready : Message
  heartbeat : ℕ → Message
  result : ℕ → Executed → Message

-- What `stream.Recv` returns: an error, a task, or another message.
pub data Received : Type 0 where
  broken : Received
  task : Task → Received
  no_task : Received

-- How the calls of one turn of the loop end: whether the sends succeed, at each tick of the heartbeat until
-- the command has ended too.
pub record Turn : Type 0 where
  pub ready_sent : Bool
  pub received : Received
  pub ticks : List Bool
  pub shell : Shell
  pub result_sent : Bool

-- The heartbeats that are sent: the goroutine ends at the first that fails.
unfoldable pub beats : List Bool → ℕ
beats [] = 0
beats (sent ∷ ticks) = let rest = beats ticks in if sent then suc rest else 0

module _ (json : String → Decoded) where
  -- The messages of the loop, turn by turn, until it returns.
  unfoldable pub run_worker : List Turn → List Message
  unfolding beats
  run_worker [] = []
  run_worker (t ∷ ts) =
      let rest = run_worker ts in
      if t.ready_sent
      then ready ∷ elim t.received [
        | broken ↦ []
        | no_task ↦ rest
        | task k ↦
            replicate (beats t.ticks) (heartbeat k.job_id)
            ++ (if t.result_sent
                then result k.job_id (execute_job json t.shell k.payload) ∷ rest
                else [])
      ]
      else []
