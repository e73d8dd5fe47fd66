-- ===== src/Lib.antt =====
-- Orqestra: a job orchestrator. A job, or a step of a workflow, is stored in Postgres with an outbox
-- entry; a relay hands it to a queue in Redis; a server gives it to a worker over a gRPC stream and acts
-- on the result; a step that completes unblocks the steps that depend on it.
--
-- Parts and files
--   Base        Boolean tests, lists and options, and `Outcome`: how a call to Redis or Postgres ends (done,
--               refused, or carried out with the reply lost). Every operation takes the outcomes of its
--               calls. `Bytes` has strings as bytes and the trims of package strings, `Numerals` decimal
--               numerals and strconv.Atoi, `Printed` a lemma on both, `Paths` the segments of a path.
--   Queue       internal/queue. `Keyspace` holds the five keys and the commands, `Redis` the methods of
--               `RedisQueue` (Enqueue, Consume, Ack, Retry, Fail, Cancel, Recover, promoteDueJobs),
--               `Interface` the Go interface `Queue` as the other parts use it. `Place` has the contract: each
--               job is absent, waiting, running or parked. `Coherent`, `Counts`, `Contract`, `Rounds` and
--               `Consume` are about it, `Moves` about one job at a time, `Order` about the order of the ready list, `Faults` about errors.
--   Workflow    internal/workflow/workflow.go. `Workflow` has Normalize, Validate, detectCycles and
--               UnblockedSteps, `Cycles` the depth-first search, `Registry` the registry and LoadFromDir.
--   Db          internal/db and migrations. `Tables` has the rows, `Jobs`, `Runs`, `Outbox` and
--               `ApiKeys` the statements of jobs.go, workflows.go, outbox.go and
--               api_keys.go; the other files are about them.
--   Relay       internal/outbox/relay.go: one pass of the relay, with its transaction; `Ticks` has Start, and
--               `Places` is about the queue after a pass.
--   Service     internal/service. `Jobs` has SubmitJob and CancelJob, `Workflows` TriggerWorkflow, Advance,
--               previousOutputFor and submitStep. `Grown`, `Ordered`, `DependencyOrder`, `FirstSteps` and
--               `Statuses` are about the jobs of a run and their order.
--   Scheduler   internal/scheduler/scheduler.go: what cron runs, and what it does at a tick.
--   Server      internal/server. `State` has the ownership maps, `Work` the loop over the messages of a
--               stream, `Results` handleResult, `Reaper` reaperTick, `Backoff` retryDelay. `Spared` and
--               `Reclaim` are about the reaper, `InOrder` about the order of steps, `Paired` and `Watched`
--               about the two ownership maps, `Held` about the queue.
--   Api         internal/api: `Requests` has requests and answers, `Api` the handlers of handler.go and the
--               check of the key in middleware.go, `Routes` the routes of NewRouter, `Encoding` the JSON
--               that the handlers write; `Access` is about them.
--   Process     `Config` has internal/config/config.go, `Keygen` cmd/keygen/main.go, `Start` what main of
--               cmd/server/main.go does until the server listens, `Cleanup` cmd/cleanup/main.go.
--   System      cmd/server/main.go as a whole: requests, messages, ticks and restarts act on one state.
--               `Rows`, `Passes`, `Handlers` and `Clients` follow the table of jobs through them, `Sound`
--               both that table and the ownership maps.
--   Worker      cmd/worker/main.go: `Command` has executeJob, `Worker` the turns of runWorker, `Exchange` puts
--               them beside the server.
--   Cli         cmd/cli/main.go: `Json` has what encoding/json makes of an answer, `Client` doJSON and
--               doJSONArray, `Commands` the commands, `Requests` and the rest are about them.
--   Tests       a Redis server in memory, and the theorems at concrete inputs.
--
-- How it is modelled
--   State is passed on: a database is a record of tables, which are lists of rows; the queue's state is that
--   of a `RedisServer`, a parameter with the documented effect of each command. The relay, the services and
--   the server take any `JobQueue`, which `redis_queue` implements. Errors are values; what the code logs
--   or drops is dropped. A transaction's changes show if Commit is carried out. Times are milliseconds,
--   given to each operation. Numbers are naturals; the product in retryDelay wraps at 64 bits, and the
--   int32 fields of a task at 32.
--   The depth-first search of detectCycles runs on fuel, one more than there are steps; its calls nest at
--   most as deep as there are unvisited steps, so that the fuel does not run out (`dfs-Ends` in
--   Workflow/Detect). Consume loops over a list of rounds, and Work over a list of messages, which the
--   environment gives; a list that ends leaves Consume `blocked` and a stream `waiting` or `open_`.
--   A negative maximum of retries, which the CHECK of the column refuses, is left out. An id in a
--   path or on the command line is an int, `ℤ`, and `atoi` refuses what does not fit in 64 bits.
--   A string is a list of characters; where the code counts bytes, `utf8` gives them. `decimal` runs
--   on fuel, the number itself, which is at least the number of its digits, and `excess` on 1024, as no
--   float64 has more bits. A payload and an entry of the payload hash stand for what encoding/json makes
--   of them.
--
-- Not modelled
--   A connection that breaks while ListJobs or GetUnprocessedOutbox read rows: a read answers in full, or it
--   is an error.
--   Two operations that interleave between their calls, except where a theorem is about a state that any
--   other operation may have left. The tickers and streams that repeat an operation are sequences of it in
--   `System`; a shutdown is a restart at any moment. Logging, the generated gRPC code and the pool of
--   connections are left out. Package flag is a parameter of the command line, FLUSHALL one of the
--   cleanup, and the shell one of a worker, whose output is taken to be UTF-8. The command line puts a
--   name into a path as it is.
pub mod Base
pub mod Queue
pub mod Workflow
pub mod Db
pub mod Relay
pub mod Service
pub mod Scheduler
pub mod Server
pub mod Api
pub mod Process
pub mod System
pub mod Worker
pub mod Cli
pub mod Tests
