-- ===== src/Queue/Redis.antt =====
-- internal/queue/redis.go: the operations of `RedisQueue`. Each takes the outcomes of the calls that it
-- makes, in order; a MULTI/EXEC pipeline is one call. `true` is a nil error.
use orqestra.Base.{
  ℕ, ◌+◌, Bool, true, false, Option, none, some, List, [], ◌∷◌, map, Outcome, done, refused, lost,
  attempt, answers, Replies, if◌then◌else◌,
}
use orqestra.Queue.Keyspace.{
  Job, encoded, undecodable, Keyspace, Command, ready_key, processing_key, lpush, rpush, lrem, del,
  sadd, srem, hdel, zrem, hset, zadd, rpoplpush, RedisServer,
}

-- What a call of `Consume` has come to. `blocked` is the loop at the end of the given rounds.
pub data Consumed : Type 0 where
  delivered : Job → Consumed
  failed : Consumed
  blocked : Consumed

-- One round of the loop in `Consume`: whether the context is cancelled by the time the pop returns,
-- and how its calls end. `lost` at the pop is an entry moved with its reply lost.
pub record Round : Type 0 where
  pub cancelled : Bool
  pub pop : Outcome
  pub get : Outcome
  pub drop : Outcome

-- The pipelines.
abbrev pub enqueue_commands : Bool → Job → List Command
enqueue_commands added job =
    hset job.id (encoded job) ∷ (if added then lpush ready_key job.id ∷ [] else [])

-- `Ack` and `Fail` send the same pipeline.
abbrev pub settle_commands : ℕ → List Command
settle_commands i = lrem processing_key i ∷ srem i ∷ hdel i ∷ zrem i ∷ []

abbrev pub retry_commands : Job → ℕ → List Command
retry_commands job score =
    hset job.id (encoded job) ∷ lrem processing_key job.id ∷ sadd job.id ∷ zadd job.id score ∷ []

abbrev pub cancel_commands : ℕ → List Command
cancel_commands i = lrem ready_key i ∷ lrem processing_key i ∷ srem i ∷ hdel i ∷ zrem i ∷ []

abbrev pub promote_commands : List ℕ → List Command
promote_commands [] = []
promote_commands (i ∷ ids) = zrem i ∷ lpush ready_key i ∷ promote_commands ids

abbrev pub recover_commands : List ℕ → List Command
recover_commands ids = del processing_key ∷ map (rpush ready_key) ids

-- The entry that BRPOPLPUSH answers with; `none` is a timeout.
abbrev pub popped : Option (Keyspace × ℕ) → Option ℕ
popped none = none
popped (some (k, i)) = some i

module _ (r : RedisServer) where
  open r use {State, keys, exec, pop_push, range_by_score}

  -- `SAdd` answers 1 if the member is new.
  unfoldable pub enqueue : Replies → Job → State → State × Bool
  enqueue o job s =
      let added = if (keys s).queued job.id then false else true in
      let (s', replied) = attempt (o 0) (exec (sadd job.id ∷ [])) s in
      if replied then attempt (o 1) (exec (enqueue_commands added job)) s' else (s', false)

  unfoldable pub ack : Replies → Job → State → State × Bool
  ack o job s = attempt (o 0) (exec (settle_commands job.id)) s

  unfoldable pub fail : Replies → Job → State → State × Bool
  fail o job s = attempt (o 0) (exec (settle_commands job.id)) s

  -- `now` and `delay` are in milliseconds.
  unfoldable pub retry : Replies → ℕ → Job → ℕ → State → State × Bool
  retry o now job delay s = attempt (o 0) (exec (retry_commands job (now + delay))) s

  unfoldable pub cancel : Replies → Job → State → State × Bool
  cancel o job s = attempt (o 0) (exec (cancel_commands job.id)) s

  unfoldable pub promote_listed : Outcome → List ℕ → State → State × Bool
  promote_listed o [] s = (s, true)
  promote_listed o (i ∷ ids) s = attempt o (exec (promote_commands (i ∷ ids))) s

  unfoldable pub promote_due_jobs : Replies → ℕ → State → State × Bool
  unfolding promote_listed
  promote_due_jobs o now s =
      if answers (o 0) then promote_listed (o 1) (range_by_score s now) s else (s, false)

  unfoldable pub recover_listed : Outcome → List ℕ → State → State × Bool
  recover_listed o [] s = (s, true)
  recover_listed o (i ∷ ids) s = attempt o (exec (recover_commands (i ∷ ids))) s

  unfoldable pub recover : Replies → State → State × Bool
  unfolding recover_listed
  recover o s = if answers (o 0) then recover_listed (o 1) (keys s).processing s else (s, false)

  -- What the payload read of a popped entry leads to: a result, or another round.
  abbrev pub read_payload : Outcome → Outcome → ℕ → State → State × Option Consumed
  read_payload refused o i s = (s, some failed)
  read_payload lost o i s = (s, some failed)
  read_payload done o i s = elim ((keys s).payloads i) [
    | none ↦ ((attempt o (exec (lrem processing_key i ∷ [])) s).0, none)
    | some (encoded job) ↦ (s, some (delivered job))
    | some (undecodable _) ↦ (s, some failed)
  ]

  abbrev pub after_pop : Round → Option ℕ → State → State × Option Consumed
  after_pop t none s = (s, if t.cancelled then some failed else none)
  after_pop t (some i) s = read_payload t.get t.drop i s

  -- One round of the loop; `none` goes round again.
  unfoldable pub consume_round : Round → State → State × Option Consumed
  consume_round t s = elim t.pop [
    | done ↦ after_pop t (popped (rpoplpush (keys s))) (pop_push s)
    | refused ↦ (s, some failed)
    | lost ↦ (pop_push s, some failed)
  ]

  unfoldable pub consume : List Round → State → State × Consumed
  unfolding consume_round
  consume [] s = (s, blocked)
  consume (t ∷ ts) s =
      let (s', c) = consume_round t s in
      elim c [ some result ↦ (s', result) | none ↦ consume ts s' ]
