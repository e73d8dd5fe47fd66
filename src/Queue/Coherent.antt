-- ===== src/Queue/Coherent.antt =====
-- The operations of internal/queue/redis.go that succeed: what the keys hold afterwards, and that
-- they keep the queue coherent.
use orqestra.Base.{
  ℕ, ◌+◌, ◌≡◌, refl, true, false, List, [], ◌∷◌, arith, count, count-append, count-erase,
  if◌then◌else◌, Replies, Outcome, ==→≡,
}
use orqestra.Queue.Keyspace.{Job, Keyspace, effect, effects, sadd, RedisServer, is_due}
use orqestra.Queue.Redis.{
  enqueue_commands, settle_commands, retry_commands, cancel_commands, promote_commands,
  recover_commands, enqueue, ack, fail, retry, cancel, promote_due_jobs, recover, promote_listed,
  recover_listed,
}
use orqestra.Queue.Place.{IsCoherentAt}
use orqestra.Queue.Counts.{effects-promote_commands, effects-recover_commands}

-- The pipelines, on the keys.
abbrev pub enqueued : Job → Keyspace → Keyspace
enqueued job k =
    effects (enqueue_commands (if k.queued job.id then false else true) job)
      (effect (sadd job.id) k)

pub enqueued-IsCoherentAt :
    (job : Job) (k : Keyspace) (i : ℕ) → IsCoherentAt k i → IsCoherentAt (enqueued job k) i
enqueued-IsCoherentAt job k i h = ground (arith, ==→≡ job.id i)

pub settled-IsCoherentAt :
    (j : ℕ) (k : Keyspace) (i : ℕ)
    → count j k.ready ≡ 0
    → IsCoherentAt k i
    → IsCoherentAt (effects (settle_commands j) k) i
settled-IsCoherentAt j k i off h = ground (arith, ==→≡ j i, count-erase j i k.processing)

pub retried-IsCoherentAt :
    (job : Job) (score : ℕ) (k : Keyspace) (i : ℕ)
    → count job.id k.ready ≡ 0
    → IsCoherentAt k i
    → IsCoherentAt (effects (retry_commands job score) k) i
retried-IsCoherentAt job score k i off h =
    ground (arith, ==→≡ job.id i, count-erase job.id i k.processing)

pub cancelled-IsCoherentAt :
    (j : ℕ) (k : Keyspace) (i : ℕ)
    → IsCoherentAt k i
    → IsCoherentAt (effects (cancel_commands j) k) i
cancelled-IsCoherentAt j k i h =
    ground (arith, ==→≡ j i, count-erase j i k.processing, count-erase j i k.ready)

pub promoted-IsCoherentAt :
    (now : ℕ) (ids : List ℕ) (k : Keyspace) (i : ℕ)
    → count i ids ≡ (if is_due now (k.delayed i) then 1 else 0)
    → IsCoherentAt k i
    → IsCoherentAt (effects (promote_commands ids) k) i
promoted-IsCoherentAt now ids k i due h = ground (arith, effects-promote_commands ids k i)

pub recovered-IsCoherentAt :
    (k : Keyspace) (i : ℕ)
    → IsCoherentAt k i
    → IsCoherentAt (effects (recover_commands k.processing) k) i
recovered-IsCoherentAt k i h =
    rw (effects-recover_commands k.processing k)
      (ground (arith, count-append i k.ready k.processing))

module _ (r : RedisServer) where
  open r use {State, keys, exec, keys-exec, range_by_score, count-range_by_score}

  pub enqueue-keys :
      (o : Replies) (job : Job) (s : State)
      → (enqueue r o job s).1 ≡ true
      → keys (enqueue r o job s).0 ≡ enqueued job (keys s)
  unfolding enqueue
  enqueue-keys o job s h = ground (
    arith,
    keys-exec (sadd job.id ∷ []) s,
    keys-exec (enqueue_commands (if (keys s).queued job.id then false else true) job)
        (exec (sadd job.id ∷ []) s),
  )

  pub ack-keys :
      (o : Replies) (job : Job) (s : State)
      → (ack r o job s).1 ≡ true
      → keys (ack r o job s).0 ≡ effects (settle_commands job.id) (keys s)
  unfolding ack
  ack-keys o job s h = ground (arith, keys-exec (settle_commands job.id) s)

  pub fail-keys :
      (o : Replies) (job : Job) (s : State)
      → (fail r o job s).1 ≡ true
      → keys (fail r o job s).0 ≡ effects (settle_commands job.id) (keys s)
  unfolding fail
  fail-keys o job s h = ground (arith, keys-exec (settle_commands job.id) s)

  pub retry-keys :
      (o : Replies) (now : ℕ) (job : Job) (delay : ℕ) (s : State)
      → (retry r o now job delay s).1 ≡ true
      → keys (retry r o now job delay s).0 ≡ effects (retry_commands job (now + delay)) (keys s)
  unfolding retry
  retry-keys o now job delay s h = ground (arith, keys-exec (retry_commands job (now + delay)) s)

  pub cancel-keys :
      (o : Replies) (job : Job) (s : State)
      → (cancel r o job s).1 ≡ true
      → keys (cancel r o job s).0 ≡ effects (cancel_commands job.id) (keys s)
  unfolding cancel
  cancel-keys o job s h = ground (arith, keys-exec (cancel_commands job.id) s)

  promote_listed-keys :
      (o : Outcome) (ids : List ℕ) (s : State)
      → (promote_listed r o ids s).1 ≡ true
      → keys (promote_listed r o ids s).0 ≡ effects (promote_commands ids) (keys s)
  unfolding promote_listed
  promote_listed-keys o [] s h = refl
  promote_listed-keys o (i ∷ ids) s h = ground (arith, keys-exec (promote_commands (i ∷ ids)) s)

  pub promote_due_jobs-keys :
      (o : Replies) (now : ℕ) (s : State)
      → (promote_due_jobs r o now s).1 ≡ true
      → keys (promote_due_jobs r o now s).0
        ≡ effects (promote_commands (range_by_score s now)) (keys s)
  unfolding promote_due_jobs
  promote_due_jobs-keys o now s h =
      ground (arith, promote_listed-keys (o 1) (range_by_score s now) s)

  recover_listed-keys :
      (o : Outcome) (ids : List ℕ) (s : State)
      → (keys s).processing ≡ ids
      → (recover_listed r o ids s).1 ≡ true
      → keys (recover_listed r o ids s).0 ≡ effects (recover_commands ids) (keys s)
  unfolding recover_listed
  recover_listed-keys o [] s e h = λ i. record (keys s) { processing = e i }
  recover_listed-keys o (i ∷ ids) s e h = ground (arith, keys-exec (recover_commands (i ∷ ids)) s)

  pub recover-keys :
      (o : Replies) (s : State)
      → (recover r o s).1 ≡ true
      → keys (recover r o s).0 ≡ effects (recover_commands (keys s).processing) (keys s)
  unfolding recover
  recover-keys o s h = ground (arith, recover_listed-keys (o 1) (keys s).processing s)
