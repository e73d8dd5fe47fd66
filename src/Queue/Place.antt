-- ===== src/Queue/Place.antt =====
-- The contract of internal/queue/queue.go: where the queue holds a job. `IsCoherent` says that the
-- five keys agree on it, and each operation of `RedisQueue` that succeeds moves one job, or all due
-- or unacknowledged ones, from place to place.
use orqestra.Base.{
  ℕ, ◌+◌, ◌≡◌, Bool, true, false, Option, none, some, count, is_some, ◌==◌, if◌then◌else◌,
}
use orqestra.Queue.Keyspace.{Keyspace, Document, encoded, undecodable}

pub data Place : Type 0 where
  absent waiting running parked : Place

abbrev pub bit : Bool → ℕ
bit true = 1
bit false = 0

-- How many entries the two lists and the sorted set have for a job.
abbrev pub copies : Keyspace → ℕ → ℕ
copies k i = count i k.ready + count i k.processing + bit (is_some (k.delayed i))

-- Whether an entry of the payload hash is the job that its key names.
abbrev pub is_own : ℕ → Option Document → Bool
is_own i (some (encoded job)) = job.id == i
is_own i (some (undecodable _)) = false
is_own i none = false

-- A job is queued if it stands in one place, once, and then its payload is stored under its number.
pub record IsCoherentAt (k : Keyspace) (i : ℕ) : Type 0 where
  pub once : copies k i ≡ bit (k.queued i)
  pub stored : is_own i (k.payloads i) ≡ k.queued i

abbrev pub IsCoherent : Keyspace → Type 0
IsCoherent k = (i : ℕ) → IsCoherentAt k i

-- Where a job stands.
abbrev pub place : Keyspace → ℕ → Place
place k i =
    if is_some (k.delayed i)
    then parked
    else if count i k.processing == 0
    then if count i k.ready == 0 then absent else waiting
    else running
