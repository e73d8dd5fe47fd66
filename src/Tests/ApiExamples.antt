-- ===== src/Tests/ApiExamples.antt =====
-- The theorems about internal/api at concrete requests.
use orqestra.Base.{pos, ◌≡◌, ◌⊎◌, true, some, List, [], ◌∷◌, String, all_done, done}
use orqestra.Queue.Interface.{redis_queue}
use orqestra.Db.ApiKeys.{ApiKey}
use orqestra.Api.Requests.{ApiCalls, bearer, cancels_job, respond, error}
use orqestra.Api.{handle, serve}
use orqestra.Api.Access.{carries_key, serve_refuses}
use orqestra.Tests.Memory.{memory, empty}
use orqestra.Tests.WorkflowExamples.{pair}
use orqestra.Tests.DbExamples.{one_job}
use orqestra.Tests.ServiceExamples.{cancel_calls, trigger_calls}

abbrev pub api_calls : ApiCalls
api_calls = record {
  auth = done;
  read = done;
  insert = all_done;
  cancel = cancel_calls;
  trigger = trigger_calls;
  cancel_run = all_done;
}

abbrev pub keys : List ApiKey
keys = record { name = "cli"; key_hash = "k" } ∷ []

abbrev pub same : String → String
same s = s

serve_refuses_example :
    (serve
        (redis_queue memory)
        same
        keys
        api_calls
        (pair ∷ [])
        0
        (bearer "k")
        (cancels_job (some (pos 4)))
        one_job
        empty
      ≡ (one_job, empty, respond 401 error))
    ⊎ ((carries_key same keys (bearer "k") ≡ true)
        × (serve
              (redis_queue memory)
              same
              keys
              api_calls
              (pair ∷ [])
              0
              (bearer "k")
              (cancels_job (some (pos 4)))
              one_job
              empty
            ≡ handle
                (redis_queue memory)
                api_calls
                (pair ∷ [])
                0
                (cancels_job (some (pos 4)))
                one_job
                empty))
serve_refuses_example =
    serve_refuses (redis_queue memory) same keys api_calls (pair ∷ []) 0 (bearer "k")
      (cancels_job (some (pos 4))) one_job empty
