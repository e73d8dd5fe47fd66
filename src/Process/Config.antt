-- ===== src/Process/Config.antt =====
-- internal/config/config.go. What the package godotenv makes of the file `.env` is a parameter: whether it
-- is read, and the environment after that.
use orqestra.Base.{ℤ, pos, Option, none, some, String, str_eq, if◌then◌else◌, atoi}

-- How `godotenv.Load` ends.
pub data Dotenv : Type 0 where
  read not_there unreadable : Dotenv

pub record Config : Type 0 where
  pub db_url : String
  pub worker_count : ℤ
  pub redis_addr : String
  pub redis_password : String
  pub redis_db : ℤ
  pub redis_queue_name : String
  pub grpc_addr : String
  pub http_addr : String

unfoldable pub get_env : (String → String) → String → String → String
get_env env key fallback = let value = env key in if str_eq value "" then fallback else value

unfoldable pub read_redis_db : String → Option ℤ
read_redis_db value = if str_eq value "" then some (pos 0) else atoi value

-- `none` is an exit by `log.Fatal`.
unfoldable pub load_config : Dotenv → (String → String) → Option Config
unfolding get_env read_redis_db
load_config unreadable env = none
load_config d env = elim (atoi (env "WORKER_COUNT")) [
  | none ↦ none
  | some workers ↦ elim (read_redis_db (env "REDIS_DB")) [
    | none ↦ none
    | some redis_db ↦ some (record {
      db_url = env "DB_URL";
      worker_count = workers;
      redis_addr = get_env env "REDIS_ADDR" "localhost:6379";
      redis_password = env "REDIS_PASSWORD";
      redis_db = redis_db;
      redis_queue_name = get_env env "REDIS_QUEUE_NAME" "jobs";
      grpc_addr = get_env env "GRPC_ADDR" ":50051";
      http_addr = get_env env "HTTP_ADDR" ":8080";
    })
  ]
]
