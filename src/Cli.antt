-- ===== src/Cli.antt =====
-- cmd/cli/main.go: the command `orq`, a client of the API. What the flag package makes of the flags is a
-- parameter.
pub mod Json
pub mod Client
pub mod Commands
pub mod Requests
pub mod Against
pub mod Cancels
pub mod Fields
use Prim.Native.String.{count}
use Json.{Object, Element, entry, no_object, int_field, str_field}
use Client.{Call, Submission, Reply, Result, ok, err, concat, do_json, do_json_array}
use orqestra.Base.{
  ℕ, zero, suc, ◌-◌, ℤ, pos, Bool, true, false, Option, none, some, List, [], ◌∷◌, ◌++◌, map,
  String, str_eq, if◌then◌else◌, show, atoi, join, trim_quotes,
}
use orqestra.Queue.Keyspace.{Payload, command}
use orqestra.Api.Routes.{Method}

-- What is printed, on the two outputs, line by line, and the exit code.
pub record Output : Type 0 where
  pub out : List String
  pub errors : List String
  pub code : ℕ

-- A run either ends at once, or sends a request and goes on with the response.
pub data Plan : Type 0 where
  stops : Output → Plan
  calls : Call → (Reply → Output) → Plan

abbrev pub printed : List String → Output
printed lines = record { out = lines; errors = []; code = 0 }

abbrev pub exits : List String → Output
exits lines = record { out = lines; errors = []; code = 1 }

-- `fmt.Println("error:", err)`, and the same on the standard error.
abbrev pub fails : String → Output
fails e = exits (concat ("error: " ∷ e ∷ []) ∷ [])

abbrev pub fails_aside : String → Output
fails_aside e = record { out = []; errors = concat ("error: " ∷ e ∷ []) ∷ []; code = 1 }

abbrev pub usage : List String
usage =
    "usage:" ∷ "  orq submit [--type=<type>] [--command=<shell>] [--payload=<json>] [--retries=<n>]"
    ∷ "  orq status <job-id>" ∷ "  orq list [--status=<status>]" ∷ "  orq cancel <job-id>"
    ∷ "  orq workflow list" ∷ "  orq workflow trigger <name>" ∷ "  orq workflow runs"
    ∷ "  orq workflow status <run-id>" ∷ "  orq workflow cancel <run-id>" ∷ []

-- A request without a body, below "/api/v1".
abbrev pub plain : Method → List String → Call
plain m segments = record {
  method = m;
  path = join ("api" ∷ "v1" ∷ segments);
  status = none;
  body = none;
}

-- The formats of the lines about a job and about a run.
unfoldable pub job_line : Object → String
job_line o = concat (
    "job "
    ∷ show (int_field o "id")
    ∷ " ("
    ∷ str_field o "type"
    ∷ "): status="
    ∷ str_field o "status"
    ∷ " retries="
    ∷ show (int_field o "retry_count")
    ∷ "/"
    ∷ show (int_field o "max_retries")
    ∷ [])

unfoldable pub run_line : Object → String
run_line o = concat (
    "run "
    ∷ show (int_field o "id")
    ∷ " ("
    ∷ str_field o "workflow_name"
    ∷ "): status="
    ∷ str_field o "status"
    ∷ " step="
    ∷ show (int_field o "current_step")
    ∷ "/"
    ∷ show (int_field o "total_steps")
    ∷ [])

spaces : ℕ → String
spaces zero = ""
spaces (suc n) = concat (" " ∷ spaces n ∷ [])

-- `%-20s`.
unfoldable pub padded : String → String
unfolding spaces
padded s = concat (s ∷ spaces (20 - count s) ∷ [])

unfoldable pub workflow_line : Object → String
unfolding padded
workflow_line o =
    let schedule = str_field o "schedule" in
    let line =
      padded (str_field o "name") ∷ " (" ∷ show (int_field o "step_count") ∷ " steps)" ∷ [] in
    concat (if str_eq schedule "" then line else line ++ ", schedule: " ∷ schedule ∷ [])

-- An element that is no object reads as a nil map.
abbrev pub fields_of : Element → Object
fields_of (entry o) = o
fields_of no_object = []

-- The line about one object, and the lines about the objects of an array.
abbrev pub shows : (Object → List String) → (String → Output) → Reply → Output
shows lines failed r = elim (do_json r) [ ok o ↦ printed (lines o) | err e ↦ failed e ]

abbrev pub shows_each : (Object → String) → (String → Output) → Reply → Output
shows_each line failed r = elim (do_json_array r) [
  | ok es ↦ printed (map (λ x. line (fields_of x)) es)
  | err e ↦ failed e
]

-- The number of a job or of a run.
unfoldable pub with_number : String → (ℤ → Plan) → String → Plan
with_number complaint next arg = elim (atoi arg) [
  | none ↦ stops (exits (complaint ∷ []))
  | some n ↦ next n
]

-- The flags, or the exit code of the flag package.
pub data Flags (A : Type 0) : Type 0 where
  parsed : A → Flags A
  leaves : ℕ → Flags A

pub record SubmitFlags : Type 0 where
  pub retries : ℤ
  pub job_type : String
  pub shell_command : String
  pub payload : Payload

-- `--command` replaces the payload, and the type "generic".
unfoldable pub submission : SubmitFlags → Submission
submission f =
    if str_eq f.shell_command ""
    then record { job_type = f.job_type; payload = f.payload; max_retries = f.retries }
    else record {
      job_type = if str_eq f.job_type "generic" then "shell" else f.job_type;
      payload = command (trim_quotes f.shell_command) "";
      max_retries = f.retries;
    }
