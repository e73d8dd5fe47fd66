-- ===== src/Queue/Interface.antt =====
-- The Go interface `Queue` of internal/queue/queue.go, as the relay, the job service and the server
-- use it, with what they rely on; and `RedisQueue`, which implements it.
use orqestra.Base.{
  done, ℕ, ◌≡◌, ◌≢◌, ◌==◌, Bool, Option, some, true, false, List, [], ◌∷◌, Replies, arith,
  if◌then◌else◌,
}
use orqestra.Queue.Keyspace.{Job, RedisServer, sadd}
use orqestra.Queue.Place.{Place, absent, waiting, parked, IsCoherentAt, place}
use orqestra.Queue.Contract.{on_absent, on_running}
use orqestra.Queue.Moves.{
  queued-place, recover-Stands, enqueue-Stands, retry-Stands, retry-other, payload_at,
  retry-payload, retry-payload_other, ack-Stands, fail-Stands, cancel-Stands,
}
use orqestra.Queue.Redis.{
  Round, Consumed, enqueue, ack, fail, retry, cancel, recover, consume, enqueue_commands,
}

-- `holds` tells which jobs the queue has taken on and not yet let go (in Redis, the queued set), `place_of` where a job stands, `stored` the job
-- that a delivery hands over, and `IsSound` whether what is stored about it agrees. `Ack`, `Fail` and `Retry` are for a job that does not
-- wait, as they do not look for it there.
pub record JobQueue : Type 1 where
  pub State : Type 0
  pub recover_all : Replies → State → State × Bool
  pub enqueue_job : Replies → Job → State → State × Bool
  pub consume_job : List Round → State → State × Consumed
  pub ack_job : Replies → Job → State → State × Bool
  pub retry_job : Replies → ℕ → Job → ℕ → State → State × Bool
  pub fail_job : Replies → Job → State → State × Bool
  pub cancel_job : Replies → Job → State → State × Bool
  pub holds : State → ℕ → Bool
  pub enqueue-holds :
      (o : Replies) (job : Job) (s : State)
      → (enqueue_job o job s).1 ≡ true
      → holds (enqueue_job o job s).0 job.id ≡ true
  pub enqueue-keeps :
      (o : Replies) (job : Job) (s : State) (i : ℕ)
      → holds s i ≡ true
      → holds (enqueue_job o job s).0 i ≡ true
  pub place_of : State → ℕ → Place
  pub IsSound : State → ℕ → Type 0
  pub stored : State → ℕ → Option Job
  pub held-place : (s : State) (i : ℕ) → IsSound s i → holds s i ≡ true → place_of s i ≢ absent
  pub recover-moves :
      (o : Replies) (s : State) (i : ℕ)
      → (recover_all o s).1 ≡ true
      → IsSound s i
      → let s' = (recover_all o s).0 in IsSound s' i × (place_of s' i ≡ on_running (place_of s i))
  pub enqueue-moves :
      (o : Replies) (job : Job) (s : State) (i : ℕ)
      → (enqueue_job o job s).1 ≡ true
      → IsSound s i
      → let s' = (enqueue_job o job s).0 in
        IsSound s' i
        × (place_of s' i ≡ (if job.id == i then on_absent (place_of s i) else place_of s i))
  pub retry-moves :
      (o : Replies) (now : ℕ) (job : Job) (delay : ℕ) (s : State)
      → ((n : ℕ) → o n ≡ done)
      → IsSound s job.id
      → place_of s job.id ≢ waiting
      → let s' = (retry_job o now job delay s).0 in
        IsSound s' job.id × (place_of s' job.id ≡ parked)
  pub retry-spares :
      (o : Replies) (now : ℕ) (job : Job) (delay : ℕ) (s : State) (i : ℕ)
      → (job.id == i) ≡ false
      → IsSound s i
      → let s' = (retry_job o now job delay s).0 in IsSound s' i × (place_of s' i ≡ place_of s i)
  pub retry-stores :
      (o : Replies) (now : ℕ) (job : Job) (delay : ℕ) (s : State)
      → ((n : ℕ) → o n ≡ done)
      → stored (retry_job o now job delay s).0 job.id ≡ some job
  pub retry-spares_stored :
      (o : Replies) (now : ℕ) (job : Job) (delay : ℕ) (s : State) (i : ℕ)
      → (job.id == i) ≡ false
      → stored (retry_job o now job delay s).0 i ≡ stored s i
  pub ack-moves :
      (o : Replies) (job : Job) (s : State)
      → ((n : ℕ) → o n ≡ done)
      → IsSound s job.id
      → place_of s job.id ≢ waiting
      → let s' = (ack_job o job s).0 in IsSound s' job.id × (place_of s' job.id ≡ absent)
  pub fail-moves :
      (o : Replies) (job : Job) (s : State)
      → ((n : ℕ) → o n ≡ done)
      → IsSound s job.id
      → place_of s job.id ≢ waiting
      → let s' = (fail_job o job s).0 in IsSound s' job.id × (place_of s' job.id ≡ absent)
  pub cancel-moves :
      (o : Replies) (job : Job) (s : State)
      → ((n : ℕ) → o n ≡ done)
      → IsSound s job.id
      → let s' = (cancel_job o job s).0 in IsSound s' job.id × (place_of s' job.id ≡ absent)

module _ (r : RedisServer) where
  open r use {State, keys, exec, keys-exec}

  abbrev pub queued_in : State → ℕ → Bool
  queued_in s i = (keys s).queued i

  pub redis-holds :
      (o : Replies) (job : Job) (s : State)
      → (enqueue r o job s).1 ≡ true
      → queued_in (enqueue r o job s).0 job.id ≡ true
  unfolding enqueue
  redis-holds o job s h = ground (
    arith,
    keys-exec (sadd job.id ∷ []) s,
    keys-exec (enqueue_commands (if (keys s).queued job.id then false else true) job)
        (exec (sadd job.id ∷ []) s),
  )

  pub redis-keeps :
      (o : Replies) (job : Job) (s : State) (i : ℕ)
      → queued_in s i ≡ true
      → queued_in (enqueue r o job s).0 i ≡ true
  unfolding enqueue
  redis-keeps o job s i h = ground (
    arith,
    keys-exec (sadd job.id ∷ []) s,
    keys-exec (enqueue_commands (if (keys s).queued job.id then false else true) job)
        (exec (sadd job.id ∷ []) s),
  )

abbrev pub redis_queue : RedisServer → JobQueue
redis_queue r = record {
  State = r.State;
  recover_all = recover r;
  enqueue_job = enqueue r;
  consume_job = consume r;
  ack_job = ack r;
  retry_job = retry r;
  fail_job = fail r;
  cancel_job = cancel r;
  holds = λ s i. (r.keys s).queued i;
  enqueue-holds = redis-holds r;
  enqueue-keeps = redis-keeps r;
  place_of = λ s i. place (r.keys s) i;
  IsSound = λ s i. IsCoherentAt (r.keys s) i;
  stored = λ s i. payload_at (r.keys s) i;
  held-place = λ s i. queued-place (r.keys s) i;
  recover-moves = recover-Stands r;
  enqueue-moves = enqueue-Stands r;
  retry-moves = retry-Stands r;
  retry-spares = retry-other r;
  retry-stores = retry-payload r;
  retry-spares_stored = retry-payload_other r;
  ack-moves = ack-Stands r;
  fail-moves = fail-Stands r;
  cancel-moves = cancel-Stands r;
}
