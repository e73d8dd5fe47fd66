-- ===== src/Cli/Against.antt =====
-- cmd/cli/main.go against internal/api: a run of the command with the server that answers it.
use orqestra.Base.{ℕ, Bool, false, none, some, List, [], ◌∷◌, String, str_eq, if◌then◌else◌}
use orqestra.Queue.Keyspace.{Payload}
use orqestra.Queue.Interface.{JobQueue}
use orqestra.Workflow.Registry.{Registry}
use orqestra.Db.Tables.{Db}
use orqestra.Db.ApiKeys.{ApiKey, validate_api_key}
use orqestra.Api.Requests.{Request, Header, bearer, no_bearer, ApiCalls, Response}
use orqestra.Api.{serve, is_valid}
use orqestra.Api.Routes.{Carried, route}
use orqestra.Api.Encoding.{encode}
use orqestra.Cli.Json.{map_of, other_document, string}
use orqestra.Cli.Client.{Env, Reply, reply}
use orqestra.Cli.{Plan, stops, calls, Output}

-- The header of the command, as the server reads it.
unfoldable pub header_of : Env → Header
header_of env = let key = env "ORQESTRA_API_KEY" in if str_eq key "" then no_bearer else bearer key

-- What the server depends on besides its state.
pub record Served : Type 0 where
  pub hash : String → String
  pub keys : List ApiKey
  pub api : ApiCalls
  pub registry : Registry
  pub now : ℕ
  pub message : String
  pub payload_text : Payload → String

module _ (q : JobQueue) (v : Served) (env : Env) (x : Carried) where
  open q use {State}

  abbrev pub answered : Request → (Reply → Output) → Db × State × Response → Db × State × Output
  answered r next (db, s, response) =
      (db, s, next (reply response.status (encode v.message v.payload_text r response.body)))

  abbrev passes : Header → Bool
  passes no_bearer = false
  passes (bearer key) =
      if str_eq key "" then false else is_valid (validate_api_key v.api.auth (v.hash key) v.keys)

  -- A path of no handler: the text "404 page not found" begins with a number.
  abbrev unrouted : (Reply → Output) → Output
  unrouted next =
      if passes (header_of env)
      then next (reply 404 (other_document "number"))
      else next (reply 401 (map_of (("error", string v.message) ∷ [])))

  unfoldable pub run_against : Plan → Db → State → Db × State × Output
  run_against (stops o) db s = (db, s, o)
  run_against (calls call next) db s = elim (route call.method call.path x) [
    | none ↦ (db, s, unrouted next)
    | some r ↦ answered r next (serve q v.hash v.keys v.api v.registry v.now (header_of env) r db s)
  ]
