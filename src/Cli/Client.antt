-- ===== src/Cli/Client.antt =====
-- The HTTP client of cmd/cli/main.go: where it sends a request, and what it makes of the response.
use Prim.Native.String.{◌++◌ as str_append}
use text.Mathlib.Text.{starts_with}
use orqestra.Base.{
  ℕ, ℤ, pos, Option, none, some, List, [], ◌∷◌, String, str_eq, leb, show, if◌then◌else◌,
}
use orqestra.Queue.Keyspace.{Payload}
use orqestra.Api.Routes.{Method}
use orqestra.Cli.Json.{
  string, number, below_zero, above_zero, other, Object, Element, Document, map_of, array_of, null,
  other_document, malformed, field,
}

-- `os.Getenv`, which is empty for what is not set.
abbrev pub Env : Type 0
Env = String → String

unfoldable pub concat : List String → String
concat [] = ""
concat (s ∷ ss) = str_append s (concat ss)

unfoldable pub base_url : Env → String
base_url env =
    let set = env "HTTP_ADDR" in
    let addr = if str_eq set "" then "localhost:8080" else set in
    str_append "http://" (if starts_with addr ":" then str_append "localhost" addr else addr)

-- The header `Authorization`, if it is set.
unfoldable pub authorization : Env → Option String
authorization env =
    let key = env "ORQESTRA_API_KEY" in
    if str_eq key "" then none else some (str_append "Bearer " key)

-- The body of `POST /api/v1/jobs`.
pub record Submission : Type 0 where
  pub job_type : String
  pub payload : Payload
  pub max_retries : ℤ

-- The path stands after the base, and `?status=` with the status after the path.
pub record Call : Type 0 where
  pub method : Method
  pub path : String
  pub status : Option String
  pub body : Option Submission

unfoldable pub url : Env → Call → String
unfolding base_url concat
url env call =
    concat
      (base_url env ∷ call.path ∷ elim call.status [ none ↦ [] | some st ↦ "?status=" ∷ st ∷ [] ])

-- How a request ends: with an error of `http.NewRequest` or of the client, or with a response.
pub data Reply : Type 0 where
  no_reply : String → Reply
  reply : ℕ → Document → Reply

pub data Result (A : Type 0) : Type 0 where
  ok : A → Result A
  err : String → Result A

-- `fmt.Errorf("HTTP %d", …)`.
unfoldable pub http_error : ℕ → String
http_error status = str_append "HTTP " (show (pos status))

unfoldable pub api_error : ℕ → Object → Result Object
unfolding http_error
api_error status o = elim (field "error" o) [
  | some (string msg) ↦ err msg
  | some (number n) ↦ err (http_error status)
  | some (below_zero n) ↦ err (http_error status)
  | some (above_zero n) ↦ err (http_error status)
  | some other ↦ err (http_error status)
  | none ↦ err (http_error status)
]

unfoldable pub checked : ℕ → Object → Result Object
unfolding api_error
checked status o = if leb 400 status then api_error status o else ok o

-- The error of encoding/json for a document of another kind.
unfoldable pub cannot_read : String → String → String
unfolding concat
cannot_read kind wanted =
    concat ("json: cannot unmarshal " ∷ kind ∷ " into Go value of type " ∷ wanted ∷ [])

unfoldable pub do_json : Reply → Result Object
unfolding checked cannot_read
do_json (no_reply e) = err e
do_json (reply status (map_of o)) = checked status o
do_json (reply status null) = checked status []
do_json (reply status (array_of es)) = err (cannot_read "array" "map[string]interface {}")
do_json (reply status (other_document kind)) = err (cannot_read kind "map[string]interface {}")
do_json (reply status (malformed e)) = err e

unfoldable pub checked_array : ℕ → List Element → Result (List Element)
unfolding http_error
checked_array status es = if leb 400 status then err (http_error status) else ok es

unfoldable pub do_json_array : Reply → Result (List Element)
unfolding checked_array cannot_read
do_json_array (no_reply e) = err e
do_json_array (reply status (array_of es)) = checked_array status es
do_json_array (reply status null) = checked_array status []
do_json_array (reply status (map_of o)) = err (cannot_read "object" "[]interface {}")
do_json_array (reply status (other_document kind)) = err (cannot_read kind "[]interface {}")
do_json_array (reply status (malformed e)) = err e
