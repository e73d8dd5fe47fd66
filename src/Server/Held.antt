-- ===== src/Server/Held.antt =====
-- What `handleResult` of internal/server/server.go leaves in the queue.
use orqestra.Base.{
  ℕ, ◌+◌, ◌≡◌, refl, Bool, true, false, not, ◌&&◌, Option, none, some, String, if◌then◌else◌,
  Bool-cases, inl, inr, subst, sym, ◌≢◌, ltb, done,
}
use orqestra.Queue.Place.{Place, absent, waiting, parked}
use orqestra.Queue.Interface.{JobQueue}
use orqestra.Workflow.Registry.{Registry}
use orqestra.Db.Tables.{JobRow}
use orqestra.Db.Integrity.{job_row, job_row-id}
use orqestra.Service.Jobs.{is_final, bare_job}
use orqestra.Server.Backoff.{retry_delay}
use orqestra.Server.State.{World, clear_ownership, worker_owns_job}
use orqestra.Server.Results.{
  TaskResult, ResultCalls, job_of_row, advance_run, fail_run, handle_retry, handle_final_failure,
  handle_success, handle_failure, handle_result,
}
use orqestra.Server.Outcomes.{reaches}

-- Every call to the queue is answered.
pub record IsAnsweredBy (c : ResultCalls) : Type 0 where
  pub acked : (n : ℕ) → c.ack n ≡ done
  pub retried : (n : ℕ) → c.retry n ≡ done
  pub failed : (n : ℕ) → c.fail n ≡ done

module _ (q : JobQueue) (registry : Registry) where
  open q use {State, IsSound, place_of, ack-moves, retry-moves, fail-moves}

  -- What is stored about a job agrees, and it stands at a place.
  abbrev pub Placed : State → ℕ → Place → Type 0
  Placed s i p = IsSound s i × (place_of s i ≡ p)

  advance_run-queue :
      (c : ResultCalls) (run : Option ℕ) (w : World State)
      → (advance_run q registry c run w).queue ≡ w.queue
  advance_run-queue c none w = refl
  advance_run-queue c (some run) w = refl

  fail_run-queue :
      (c : ResultCalls) (run : Option ℕ) (w : World State)
      → (fail_run q registry c run w).queue ≡ w.queue
  fail_run-queue c none w = refl
  fail_run-queue c (some run) w = refl

  success-drops :
      (c : ResultCalls) (r : TaskResult) (row : JobRow) (w : World State)
      → IsAnsweredBy c
      → IsSound w.queue r.job_id
      → place_of w.queue r.job_id ≢ waiting
      → Placed (handle_success q registry c r row w).queue r.job_id absent
  unfolding handle_success clear_ownership
  success-drops c r row w a sound off =
      subst (λ s. Placed s r.job_id absent) (sym (advance_run-queue c row.workflow_run_id _))
        (ack-moves c.ack (bare_job r.job_id) w.queue a.acked sound off)

  retry-keeps :
      (c : ResultCalls) (now : ℕ) (row : JobRow) (w : World State)
      → IsAnsweredBy c
      → IsSound w.queue row.id
      → place_of w.queue row.id ≢ waiting
      → Placed (handle_retry q registry c now row w).queue row.id parked
  unfolding handle_retry clear_ownership
  retry-keeps c now row w a sound off =
      let count = row.retry_count + 1 in
      retry-moves c.retry now (record (job_of_row row) { retry_count = count }) (retry_delay count)
        w.queue a.retried sound off

  final-drops :
      (c : ResultCalls) (row : JobRow) (w : World State)
      → IsAnsweredBy c
      → IsSound w.queue row.id
      → place_of w.queue row.id ≢ waiting
      → Placed (handle_final_failure q registry c row w).queue row.id absent
  unfolding handle_final_failure clear_ownership
  final-drops c row w a sound off =
      subst (λ s. Placed s row.id absent) (sym (fail_run-queue c row.workflow_run_id _))
        (fail-moves c.fail (job_of_row row) w.queue a.failed sound off)

  failure-Placed :
      (c : ResultCalls) (now : ℕ) (row : JobRow) (w : World State)
      → IsAnsweredBy c
      → IsSound w.queue row.id
      → place_of w.queue row.id ≢ waiting
      → Placed
          (handle_failure q registry c now row w).queue
          row.id
          (if ltb row.retry_count row.max_retries then parked else absent)
  unfolding handle_failure
  failure-Placed c now row w a sound off = elim (Bool-cases (ltb row.retry_count row.max_retries)) [
    | inl more ↦ rw (more, handle_failure) (retry-keeps c now row w a sound off)
    | inr last ↦ rw (last, handle_failure) (final-drops c row w a sound off)
  ]

  -- If reading the job and the calls to the queue succeed, and the job does not wait in the ready list and
  -- what is stored about it agrees, then the owner's result for a job not settled yet leaves the job in
  -- the delayed set if it is a failure and the retries are not used up, and nowhere in the queue otherwise.
  pub handle_result_places :
      (c : ResultCalls) (now : ℕ) (r : TaskResult) (sender : String) (w : World State)
      (row : JobRow)
      → c.get ≡ done
      → IsAnsweredBy c
      → worker_owns_job r.job_id sender w ≡ true
      → job_row r.job_id w.db ≡ some row
      → is_final row.status ≡ false
      → IsSound w.queue r.job_id
      → place_of w.queue r.job_id ≢ waiting
      → Placed
          (handle_result q registry c now r sender w).queue
          r.job_id
          (if not r.success && ltb row.retry_count row.max_retries then parked else absent)
  handle_result_places c now r sender w row g a own e f sound off =
      let at = reaches q registry c now r sender w row g own e f in
      let same = job_row-id r.job_id w.db.jobs row e in
      let more = ltb row.retry_count row.max_retries in
      subst
        (λ (x : World State).
          Placed x.queue r.job_id (if not r.success && more then parked else absent))
        (sym at)
        (by_result r.success (success-drops c r row w a sound off) (
          subst
            (λ i.
              IsSound w.queue i
              → place_of w.queue i ≢ waiting
              → Placed (handle_failure q registry c now row w).queue i
                  (if more then parked else absent))
            same (failure-Placed c now row w a) sound off))
    where
      by_result :
          (b : Bool)
          → Placed (handle_success q registry c r row w).queue r.job_id absent
          → Placed
              (handle_failure q registry c now row w).queue
              r.job_id
              (if ltb row.retry_count row.max_retries then parked else absent)
          → Placed
              (if b
                then handle_success q registry c r row w
                else handle_failure q registry c now row w).queue
              r.job_id
              (if not b && ltb row.retry_count row.max_retries then parked else absent)
      by_result true s t = s
      by_result false s t = t
