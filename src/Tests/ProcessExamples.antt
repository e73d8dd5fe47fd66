-- ===== src/Tests/ProcessExamples.antt =====
-- The theorems about cmd/server/main.go and cmd/keygen/main.go at a concrete start and a concrete key.
use orqestra.Base.{
  ◌≡◌, ◌⊎◌, refl, pos, Bool, true, attempt, Outcome, refused, lost, some, [], ◌∷◌, String, all_done,
  done, str_eq, if◌then◌else◌, atoi, unsigned, digits, below, is_digit,
}
use orqestra.Queue.Redis.{recover, enqueue}
use orqestra.Workflow.{
  normalize, normalize_steps, assign_ids, assign_id, dag_mode, check, validate, find_duplicate,
  find_unknown, detect_cycles, edges,
}
use orqestra.Workflow.Cycles.{visit_all, dfs}
use orqestra.Workflow.Valid.{IsValid}
use orqestra.Workflow.Registry.{
  listed, skipped, parsed, load_from_dir, load_entries, lookup, register,
}
use orqestra.Db.Jobs.{
  reset_running_jobs, reset_running, running_ids, insert_missing, has_open_entry,
}
use orqestra.Db.Outbox.{get_unprocessed_outbox, unprocessed, mark_outbox_processed}
use orqestra.Db.ApiKeys.{insert_api_key}
use orqestra.Api.Requests.{bearer, cancels_job}
use orqestra.Api.{handle, serve}
use orqestra.Relay.{relay, relay_entries}
use orqestra.Process.Config.{Config, read, load_config, read_redis_db, get_env}
use orqestra.Process.Keygen.{keygen, keygen-serve, key_of, hex, key_name}
use orqestra.Process.Start.{StartCalls, start, start-requeues, start-IsValid, recover_state, load}
use orqestra.Process.Cleanup.{CleanupCalls, blank, truncated, cleanup, IsCleared, cleanup-IsCleared}
use orqestra.Tests.Memory.{Memory, memory, empty, score_of, keys as redis_keys}
use orqestra.Tests.WorkflowExamples.{pair}
use orqestra.Tests.DbExamples.{one_job, calls}
use orqestra.Tests.ServerExamples.{q, registry, processing_4, processing_4-IsSound}
use orqestra.Queue.Place.{waiting, parked}
use orqestra.Tests.ApiExamples.{api_calls, keys, same}

abbrev printed_key : String
printed_key = "orq_0aff"

keygen-serve_example :
    serve q same
      (keygen same done [] (some (10 ∷ 255 ∷ [])) keys).0
      api_calls
      registry
      0
      (bearer printed_key)
      (cancels_job (some (pos 4)))
      one_job
      empty
    ≡ handle q api_calls registry 0 (cancels_job (some (pos 4))) one_job empty
unfolding keygen key_of hex key_name insert_api_key
keygen-serve_example =
    keygen-serve same q done [] (some (10 ∷ 255 ∷ [])) keys printed_key api_calls registry 0
      (cancels_job (some (pos 4))) one_job empty refl refl

abbrev config : Config
config = record {
  db_url = "";
  worker_count = pos 3;
  redis_addr = "localhost:6379";
  redis_password = "";
  redis_db = pos 0;
  redis_queue_name = "jobs";
  grpc_addr = ":50051";
  http_addr = ":8080";
}

load_config_run :
    load_config read (λ key. if str_eq key "WORKER_COUNT" then "3" else "") ≡ some config
unfolding load_config read_redis_db get_env atoi unsigned digits below is_digit
load_config_run = refl

abbrev pub start_calls : StartCalls
start_calls = record {
  config = some config;
  postgres = true;
  ping = true;
  reset = done;
  recover = all_done;
  directory = listed (skipped ∷ parsed pair ∷ []);
  listen = true;
}

start-requeues_example :
    let x = start q start_calls one_job processing_4 in
    let s = (relay q calls 0 x.0 x.1).1 in
    q.IsSound s 4 × ((q.place_of s 4 ≡ waiting) ⊎ (q.place_of s 4 ≡ parked))
unfolding start recover_state load recover reset_running_jobs reset_running running_ids
    insert_missing has_open_entry relay relay_entries get_unprocessed_outbox unprocessed
    mark_outbox_processed enqueue load_from_dir load_entries lookup register normalize
    normalize_steps assign_ids assign_id dag_mode check find_duplicate find_unknown detect_cycles
    visit_all dfs edges validate redis_keys
start-requeues_example =
    start-requeues q start_calls registry calls 0 4 one_job processing_4 processing_4-IsSound refl
      refl refl

start-IsValid_example : IsValid pair.steps
unfolding start recover_state load recover reset_running_jobs load_from_dir load_entries lookup
    register normalize normalize_steps assign_ids assign_id dag_mode check find_duplicate
    find_unknown detect_cycles visit_all dfs edges validate redis_keys
start-IsValid_example = start-IsValid q start_calls registry one_job empty "pair" pair refl refl

abbrev cleanup_calls : CleanupCalls
cleanup_calls = record { config = some config; flush = done; pool = true; truncate = done }

-- FLUSHALL, on a server in memory.
abbrev flush_all : Outcome → Memory → Memory × Bool
flush_all o s = attempt o (λ _. empty) s

flush_all-blank :
    (o : Outcome) (s : Memory) → (flush_all o s).1 ≡ true → redis_keys (flush_all o s).0 ≡ blank
unfolding redis_keys score_of
flush_all-blank done s h = refl
flush_all-blank refused s h = absurd (cc)
flush_all-blank lost s h = absurd (cc)

cleanup-IsCleared_example :
    let x = cleanup memory flush_all cleanup_calls one_job empty in IsCleared (redis_keys x.1) x.0
unfolding cleanup truncated
cleanup-IsCleared_example =
    cleanup-IsCleared memory flush_all flush_all-blank cleanup_calls one_job empty refl
