-- ===== src/Queue/Keyspace.antt =====
-- internal/queue/job.go, and the Redis server as internal/queue/redis.go uses it through go-redis.
-- The server is a parameter: a state with what its five keys hold, and the documented effect of the
-- commands that the queue sends. A job's key is its number, which `strconv.Itoa` writes injectively.
use orqestra.Base.{
  ℕ, ◌≡◌, Bool, true, false, Option, none, some, List, [], ◌∷◌, ◌++◌, String, ◌==◌, leb,
  if◌then◌else◌, erase, unsnoc, count,
}

-- A payload text, by what encoding/json makes of it as `{command, previous_output}`.
pub data Payload : Type 0 where
  command : String → String → Payload
  other : String → Payload

pub record Job : Type 0 where
  pub id : ℕ
  pub retry_count : ℕ
  pub max_retries : ℕ
  pub job_type : String
  pub payload : Payload

-- An entry of the payload hash, by what encoding/json makes of it as a `Job`.
pub data Document : Type 0 where
  encoded : Job → Document
  undecodable : String → Document

-- The two lists.
pub data ListKey : Type 0 where
  ready_key processing_key : ListKey

-- What the queue's five keys hold. The head of a list is its left end; the sorted set gives each
-- member's score.
pub record Keyspace : Type 0 where
  pub ready : List ℕ
  pub processing : List ℕ
  pub delayed : ℕ → Option ℕ
  pub payloads : ℕ → Option Document
  pub queued : ℕ → Bool

pub data Command : Type 0 where
  lpush rpush lrem : ListKey → ℕ → Command
  del : ListKey → Command
  sadd srem hdel zrem : ℕ → Command
  hset : ℕ → Document → Command
  zadd : ℕ → ℕ → Command

abbrev pub update {ℓ} : {A : Type ℓ} → (ℕ → A) → ℕ → A → ℕ → A
update f i a j = if i == j then a else f j

abbrev pub on_list : ListKey → (List ℕ → List ℕ) → Keyspace → Keyspace
on_list ready_key f k = record k { ready = f k.ready }
on_list processing_key f k = record k { processing = f k.processing }

-- The documented effect of a command; LREM is called with count 1.
abbrev pub effect : Command → Keyspace → Keyspace
effect (lpush key i) k = on_list key (λ xs. i ∷ xs) k
effect (rpush key i) k = on_list key (λ xs. xs ++ i ∷ []) k
effect (lrem key i) k = on_list key (erase i) k
effect (del key) k = on_list key (λ _. []) k
effect (sadd i) k = record k { queued = update k.queued i true }
effect (srem i) k = record k { queued = update k.queued i false }
effect (hdel i) k = record k { payloads = update k.payloads i none }
effect (zrem i) k = record k { delayed = update k.delayed i none }
effect (hset i d) k = record k { payloads = update k.payloads i (some d) }
effect (zadd i score) k = record k { delayed = update k.delayed i (some score) }

abbrev pub effects : List Command → Keyspace → Keyspace
effects [] k = k
effects (c ∷ cs) k = effects cs (effect c k)

-- BRPOPLPUSH on the two lists: the right end of one moves to the left end of the other.
abbrev pub rpoplpush : Keyspace → Option (Keyspace × ℕ)
rpoplpush k = elim (unsnoc k.ready) [
  | none ↦ none
  | some (rest, i) ↦ some (record k { ready = rest; processing = i ∷ k.processing }, i)
]

-- The keys after it; on an empty ready list it times out and changes nothing.
abbrev pub moved : Keyspace → Keyspace
moved k = elim (rpoplpush k) [ none ↦ k | some (k', i) ↦ k' ]

abbrev pub is_due : ℕ → Option ℕ → Bool
is_due now none = false
is_due now (some score) = leb score now

-- A server whose commands do what their documentation says: a MULTI/EXEC block runs its commands in
-- order, and ZRANGEBYSCORE lists each member with a low enough score once.
pub record RedisServer : Type 1 where
  pub State : Type 0
  pub keys : State → Keyspace
  pub exec : List Command → State → State
  pub keys-exec : (cs : List Command) (s : State) → keys (exec cs s) ≡ effects cs (keys s)
  pub pop_push : State → State
  pub keys-pop_push : (s : State) → keys (pop_push s) ≡ moved (keys s)
  pub range_by_score : State → ℕ → List ℕ
  pub count-range_by_score :
      (s : State) (now i : ℕ)
      → count i (range_by_score s now) ≡ (if is_due now ((keys s).delayed i) then 1 else 0)
