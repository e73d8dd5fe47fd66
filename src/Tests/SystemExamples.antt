-- ===== src/Tests/SystemExamples.antt =====
-- The theorem about the server of cmd/server/main.go as a whole at a concrete history.
use orqestra.Base.{pos, some, List, [], ◌∷◌, done}
use orqestra.Db.Keys.{IsKeyed}
use orqestra.Server.Paired.{IsPaired}
use orqestra.Server.Work.{Event}
use orqestra.Api.Requests.{bearer, cancels_job}
use orqestra.Relay.Ticks.{polls, cleans}
use orqestra.System.{System, Happening, does, restarts, asks, says, reaps, relays, schedules, live}
use orqestra.System.Sound.{live-IsSound}
use orqestra.Tests.Memory.{Memory}
use orqestra.Tests.DbExamples.{one_job-IsKeyed, calls}
use orqestra.Tests.ServerExamples.{q, registry, busy, job_4, work_calls, reap_calls, success}
use orqestra.Tests.RunExamples.{busy-IsPaired}
use orqestra.Tests.ApiExamples.{api_calls, keys, same}
use orqestra.Tests.SchedulerExamples.{tick_calls}
use orqestra.Tests.ProcessExamples.{start_calls}

abbrev serves : System Memory
serves = record { world = busy; streams = λ _. some job_4; up = some registry }

-- Job 4 succeeds at its worker and starts the second step, the relay runs, cron ticks, a client cancels job 4 too late, and the
-- server starts anew.
abbrev history : List Happening
history =
    does (says 0 work_calls (Event.result "w1" success))
    ∷ does (relays (polls calls) 10)
    ∷ does (schedules tick_calls "pair")
    ∷ does (asks api_calls 11 (bearer "k") (cancels_job (some (pos 4))))
    ∷ does (reaps reap_calls 40_000)
    ∷ restarts start_calls
    ∷ does (relays (cleans done) 50_000)
    ∷ []

live-IsSound_example :
    IsKeyed (live q same keys history serves).world.db
    × IsPaired (live q same keys history serves).world
live-IsSound_example = live-IsSound q same keys history serves one_job-IsKeyed busy-IsPaired
