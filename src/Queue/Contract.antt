-- ===== src/Queue/Contract.antt =====
-- The contract of internal/queue/queue.go: every operation of `RedisQueue` that succeeds keeps the
-- queue coherent and moves jobs between places as the abstract queue does.
use orqestra.Base.{
  ℕ, ◌+◌, ◌≡◌, Bool, true, List, arith, count, count-append, count-erase, ◌==◌, if◌then◌else◌,
  Replies, ==→≡,
}
use orqestra.Queue.Keyspace.{Job, Keyspace, effects, RedisServer, is_due}
use orqestra.Queue.Redis.{
  enqueue, ack, fail, retry, cancel, promote_due_jobs, recover, settle_commands, retry_commands,
  cancel_commands, promote_commands, recover_commands,
}
use orqestra.Queue.Place.{Place, absent, waiting, running, parked, IsCoherentAt, IsCoherent, place}
use orqestra.Queue.Counts.{effects-promote_commands, effects-recover_commands}
use orqestra.Queue.Coherent.{
  enqueued, enqueued-IsCoherentAt, settled-IsCoherentAt, retried-IsCoherentAt,
  cancelled-IsCoherentAt, promoted-IsCoherentAt, recovered-IsCoherentAt, enqueue-keys, ack-keys,
  fail-keys, retry-keys, cancel-keys, promote_due_jobs-keys, recover-keys,
}

-- A call of a method of the queue, `Consume` apart.
pub data Operation : Type 0 where
  enqueues acks fails cancels : Job → Operation
  retries : ℕ → Job → ℕ → Operation
  promotes : ℕ → Operation
  recovers : Operation

abbrev pub perform : (r : RedisServer) → Replies → Operation → r.State → r.State × Bool
perform r o (enqueues job) = enqueue r o job
perform r o (acks job) = ack r o job
perform r o (fails job) = fail r o job
perform r o (cancels job) = cancel r o job
perform r o (retries now job delay) = retry r o now job delay
perform r o (promotes now) = promote_due_jobs r o now
perform r o recovers = recover r o

-- `Ack`, `Fail` and `Retry` are called for jobs that have been consumed: they look for the job in
-- the processing list, and not in the ready list.
abbrev pub IsAllowed : Keyspace → Operation → Type 0
IsAllowed k (acks job) = count job.id k.ready ≡ 0
IsAllowed k (fails job) = count job.id k.ready ≡ 0
IsAllowed k (retries now job delay) = count job.id k.ready ≡ 0
IsAllowed k _ = Unit {0}

abbrev pub on_absent : Place → Place
on_absent absent = waiting
on_absent p = p

abbrev pub on_running : Place → Place
on_running running = waiting
on_running p = p

-- What the abstract queue does: a new job waits, one that is held already stays where it is; a
-- settled or cancelled job is gone; a retried one is parked; the due ones, and on recovery the
-- unacknowledged ones, wait again.
abbrev pub moves : Keyspace → Operation → ℕ → Place
moves k (enqueues job) i = if job.id == i then on_absent (place k i) else place k i
moves k (acks job) i = if job.id == i then absent else place k i
moves k (fails job) i = if job.id == i then absent else place k i
moves k (cancels job) i = if job.id == i then absent else place k i
moves k (retries now job delay) i = if job.id == i then parked else place k i
moves k (promotes now) i = if is_due now (k.delayed i) then waiting else place k i
moves k recovers i = on_running (place k i)

module _ (r : RedisServer) where
  open r use {State, keys, range_by_score, count-range_by_score}

  -- A call that returns nil keeps a coherent queue coherent; `Ack`, `Fail` and `Retry` are for a job that
  -- is not in the ready list.
  pub perform-IsCoherent :
      (o : Replies) (op : Operation) (s : State)
      → IsCoherent (keys s)
      → IsAllowed (keys s) op
      → (perform r o op s).1 ≡ true
      → IsCoherent (keys (perform r o op s).0)
  perform-IsCoherent o (enqueues job) s c a h i =
      rw (enqueue-keys r o job s h) (enqueued-IsCoherentAt job (keys s) i (c i))
  perform-IsCoherent o (acks job) s c a h i =
      rw (ack-keys r o job s h) (settled-IsCoherentAt job.id (keys s) i a (c i))
  perform-IsCoherent o (fails job) s c a h i =
      rw (fail-keys r o job s h) (settled-IsCoherentAt job.id (keys s) i a (c i))
  perform-IsCoherent o (cancels job) s c a h i =
      rw (cancel-keys r o job s h) (cancelled-IsCoherentAt job.id (keys s) i (c i))
  perform-IsCoherent o (retries now job delay) s c a h i =
      rw (retry-keys r o now job delay s h)
        (retried-IsCoherentAt job (now + delay) (keys s) i a (c i))
  perform-IsCoherent o (promotes now) s c a h i = rw (promote_due_jobs-keys r o now s h) (
      promoted-IsCoherentAt now (range_by_score s now) (keys s) i (count-range_by_score s now i)
        (c i))
  perform-IsCoherent o recovers s c a h i =
      rw (recover-keys r o s h) (recovered-IsCoherentAt (keys s) i (c i))

pub enqueued-place :
    (job : Job) (k : Keyspace) (i : ℕ)
    → IsCoherentAt k i
    → place (enqueued job k) i ≡ moves k (enqueues job) i
enqueued-place job k i h = ground (arith, ==→≡ job.id i)

pub settled-place :
    (j : ℕ) (k : Keyspace) (i : ℕ)
    → count j k.ready ≡ 0
    → IsCoherentAt k i
    → place (effects (settle_commands j) k) i ≡ (if j == i then absent else place k i)
settled-place j k i off h = ground (arith, ==→≡ j i, count-erase j i k.processing)

pub cancelled-place :
    (j : ℕ) (k : Keyspace) (i : ℕ)
    → IsCoherentAt k i
    → place (effects (cancel_commands j) k) i ≡ (if j == i then absent else place k i)
cancelled-place j k i h =
    ground (arith, ==→≡ j i, count-erase j i k.processing, count-erase j i k.ready)

pub retried-place :
    (job : Job) (score : ℕ) (k : Keyspace) (i : ℕ)
    → place (effects (retry_commands job score) k) i ≡ (if job.id == i then parked else place k i)
retried-place job score k i = ground (arith, ==→≡ job.id i, count-erase job.id i k.processing)

promoted-place :
    (now : ℕ) (ids : List ℕ) (k : Keyspace) (i : ℕ)
    → count i ids ≡ (if is_due now (k.delayed i) then 1 else 0)
    → IsCoherentAt k i
    → place (effects (promote_commands ids) k) i ≡ moves k (promotes now) i
promoted-place now ids k i due h = ground (arith, effects-promote_commands ids k i)

pub recovered-place :
    (k : Keyspace) (i : ℕ)
    → IsCoherentAt k i
    → place (effects (recover_commands k.processing) k) i ≡ moves k recovers i
recovered-place k i h =
    rw (effects-recover_commands k.processing k)
      (ground (arith, count-append i k.ready k.processing))

module _ (r : RedisServer) where
  open r use {State, keys, range_by_score, count-range_by_score}

  -- On a coherent queue, a call that returns nil moves each job as the abstract queue does; `Ack`, `Fail`
  -- and `Retry` are for a job that is not in the ready list.
  pub perform-place :
      (o : Replies) (op : Operation) (s : State)
      → IsCoherent (keys s)
      → IsAllowed (keys s) op
      → (perform r o op s).1 ≡ true
      → (i : ℕ) → place (keys (perform r o op s).0) i ≡ moves (keys s) op i
  perform-place o (enqueues job) s c a h i =
      rw (enqueue-keys r o job s h) (enqueued-place job (keys s) i (c i))
  perform-place o (acks job) s c a h i =
      rw (ack-keys r o job s h) (settled-place job.id (keys s) i a (c i))
  perform-place o (fails job) s c a h i =
      rw (fail-keys r o job s h) (settled-place job.id (keys s) i a (c i))
  perform-place o (cancels job) s c a h i =
      rw (cancel-keys r o job s h) (cancelled-place job.id (keys s) i (c i))
  perform-place o (retries now job delay) s c a h i =
      rw (retry-keys r o now job delay s h) (retried-place job (now + delay) (keys s) i)
  perform-place o (promotes now) s c a h i =
      rw (promote_due_jobs-keys r o now s h)
        (promoted-place now (range_by_score s now) (keys s) i (count-range_by_score s now i) (c i))
  perform-place o recovers s c a h i = rw (recover-keys r o s h) (recovered-place (keys s) i (c i))
