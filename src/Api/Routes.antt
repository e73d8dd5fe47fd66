-- ===== src/Api/Routes.antt =====
-- `NewRouter` and `pathInt` of internal/api/handler.go: which handler a path goes to.
use orqestra.Base.{
  ℕ, Bool, true, false, ◌&&◌, Option, none, some, List, [], ◌∷◌, String, str_eq, if◌then◌else◌,
  atoi, split, all,
}
use orqestra.Queue.Keyspace.{Payload}
use orqestra.Api.Requests.{
  Request, submits, reads_job, lists_jobs, cancels_job, lists_workflows, triggers, lists_runs,
  reads_run, cancels_run, Filter,
}

pub data Method : Type 0 where
  get post : Method

-- What is read of a request but its method and path: the filter, and the body as JSON.
pub record Carried : Type 0 where
  pub filter : Filter
  pub body : Option (ℕ × String × Payload)

-- The patterns below "/api/v1". A request that no pattern takes is not for the handlers.
unfoldable pub below_api : Method → List String → Carried → Option Request
below_api Method.get (a ∷ []) x =
    if str_eq a "jobs"
    then some (lists_jobs x.filter)
    else if str_eq a "workflows"
    then some lists_workflows
    else none
below_api Method.post (a ∷ []) x = if str_eq a "jobs" then some (submits x.body) else none
below_api Method.get (a ∷ b ∷ []) x =
    if str_eq a "jobs"
    then some (reads_job (atoi b))
    else if str_eq a "workflows" && str_eq b "runs"
    then some lists_runs
    else none
below_api Method.get (a ∷ b ∷ c ∷ []) x =
    if str_eq a "workflows" && str_eq b "runs" then some (reads_run (atoi c)) else none
below_api Method.post (a ∷ b ∷ c ∷ []) x =
    if str_eq a "jobs" && str_eq c "cancel"
    then some (cancels_job (atoi b))
    else if str_eq a "workflows" && str_eq c "trigger"
    then some (triggers b)
    else none
below_api Method.post (a ∷ b ∷ c ∷ d ∷ []) x =
    if str_eq a "workflows" && (str_eq b "runs" && str_eq d "cancel")
    then some (cancels_run (atoi c))
    else none
below_api _ _ x = none

-- `http.ServeMux` redirects a path with an empty segment, "." or "..".
unfoldable pub clean : String → Bool
clean s =
    if str_eq s ""
    then false
    else if str_eq s "."
    then false
    else if str_eq s ".."
    then false
    else true

unfoldable pub route_segments : Method → List String → Carried → Option Request
unfolding below_api clean
route_segments m (a ∷ b ∷ c ∷ rest) x =
    if str_eq a "" && (str_eq b "api" && str_eq c "v1")
    then if all clean rest then below_api m rest x else none
    else none
route_segments m _ x = none

unfoldable pub route : Method → String → Carried → Option Request
unfolding route_segments
route m path x = route_segments m (split path) x
