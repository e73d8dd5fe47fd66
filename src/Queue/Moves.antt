-- ===== src/Queue/Moves.antt =====
-- The methods of internal/queue/redis.go, job by job: where each stands after a call, if the keys agreed on it
-- before.
use orqestra.Base.{
  ℕ, ◌+◌, Option, none, some, ◌≡◌, ◌≢◌, refl, true, false, arith, ◌==◌, ==_refl, ==→≡, count,
  count-erase, Bool-cases, inl, inr, if◌then◌else◌, Replies, attempt, done, refused, lost, ◌∙◌,
  Bool,
}
use orqestra.Queue.Keyspace.{Job, Document, encoded, undecodable, Keyspace, effects, RedisServer}
use orqestra.Queue.Redis.{
  enqueue, ack, fail, retry, cancel, recover, settle_commands, retry_commands,
}
use orqestra.Queue.Place.{Place, absent, waiting, parked, IsCoherentAt, place}
use orqestra.Queue.Coherent.{
  enqueued-IsCoherentAt, settled-IsCoherentAt, retried-IsCoherentAt, cancelled-IsCoherentAt,
  recovered-IsCoherentAt, enqueue-keys, ack-keys, fail-keys, retry-keys, cancel-keys, recover-keys,
}
use orqestra.Queue.Contract.{
  on_absent, on_running, enqueued-place, settled-place, cancelled-place, retried-place,
  recovered-place,
}

-- A job that does not wait is not in the ready list.
not_listed : (k : Keyspace) (i : ℕ) → IsCoherentAt k i → place k i ≢ waiting → count i k.ready ≡ 0
not_listed k i c w = elim (Bool-cases (count i k.ready == 0)) [
  | inl none_ ↦ ==→≡ (count i k.ready) 0 none_
  | inr some_ ↦ absurd (w (ground (arith, c.once)))
]

pub queued-place :
    (k : Keyspace) (i : ℕ) → IsCoherentAt k i → k.queued i ≡ true → place k i ≢ absent
queued-place k i c h a = absurd (ground (arith, c.once))

-- A retry does nothing to other jobs.
retried-other :
    (job : Job) (score : ℕ) (k : Keyspace) (i : ℕ)
    → (job.id == i) ≡ false
    → IsCoherentAt k i
    → IsCoherentAt (effects (retry_commands job score) k) i
retried-other job score k i e c = ground (arith, ==→≡ job.id i, count-erase job.id i k.processing)

taken : (b : Bool) (p p' : Place) → b ≡ true → (if b then p else p') ≡ p
taken b p p' e = rw e refl

passed : (b : Bool) (p p' : Place) → b ≡ false → (if b then p else p') ≡ p'
passed b p p' e = rw e refl

-- A job that is soundly held by the keys, at a place.
abbrev pub Stands : Keyspace → ℕ → Place → Type 0
Stands k i p = IsCoherentAt k i × (place k i ≡ p)

abbrev decoded : Option Document → Option Job
decoded (some (encoded job)) = some job
decoded (some (undecodable _)) = none
decoded none = none

-- The job that a delivery would hand over.
abbrev pub payload_at : Keyspace → ℕ → Option Job
payload_at k i = decoded (k.payloads i)

module _ (r : RedisServer) where
  open r use {State, keys, exec, keys-exec}

  pub recover-Stands :
      (o : Replies) (s : State) (i : ℕ)
      → (recover r o s).1 ≡ true
      → IsCoherentAt (keys s) i
      → Stands (keys (recover r o s).0) i (on_running (place (keys s) i))
  recover-Stands o s i h c =
      rw (recover-keys r o s h) (recovered-IsCoherentAt (keys s) i c, recovered-place (keys s) i c)

  pub enqueue-Stands :
      (o : Replies) (job : Job) (s : State) (i : ℕ)
      → (enqueue r o job s).1 ≡ true
      → IsCoherentAt (keys s) i
      → Stands
          (keys (enqueue r o job s).0)
          i
          (if job.id == i then on_absent (place (keys s) i) else place (keys s) i)
  enqueue-Stands o job s i h c =
      rw (enqueue-keys r o job s h)
        (enqueued-IsCoherentAt job (keys s) i c, enqueued-place job (keys s) i c)

  settled-Stands :
      (k : Keyspace) (i : ℕ)
      → IsCoherentAt k i
      → place k i ≢ waiting
      → Stands (effects (settle_commands i) k) i absent
  settled-Stands k i c w =
      let off = not_listed k i c w in
      (settled-IsCoherentAt i k i off c, settled-place i k i off c ∙ taken _ _ _ (==_refl i))

  pub ack-Stands :
      (o : Replies) (job : Job) (s : State)
      → ((n : ℕ) → o n ≡ done)
      → IsCoherentAt (keys s) job.id
      → place (keys s) job.id ≢ waiting
      → Stands (keys (ack r o job s).0) job.id absent
  unfolding ack
  ack-Stands o job s d c w =
      rw (ack-keys r o job s (rw (d 0) refl)) (settled-Stands (keys s) job.id c w)

  pub fail-Stands :
      (o : Replies) (job : Job) (s : State)
      → ((n : ℕ) → o n ≡ done)
      → IsCoherentAt (keys s) job.id
      → place (keys s) job.id ≢ waiting
      → Stands (keys (fail r o job s).0) job.id absent
  unfolding fail
  fail-Stands o job s d c w =
      rw (fail-keys r o job s (rw (d 0) refl)) (settled-Stands (keys s) job.id c w)

  pub cancel-Stands :
      (o : Replies) (job : Job) (s : State)
      → ((n : ℕ) → o n ≡ done)
      → IsCoherentAt (keys s) job.id
      → Stands (keys (cancel r o job s).0) job.id absent
  unfolding cancel
  cancel-Stands o job s d c = rw (cancel-keys r o job s (rw (d 0) refl)) (
    cancelled-IsCoherentAt job.id (keys s) job.id c,
    cancelled-place job.id (keys s) job.id c ∙ taken _ _ _ (==_refl job.id),
  )

  pub retry-Stands :
      (o : Replies) (now : ℕ) (job : Job) (delay : ℕ) (s : State)
      → ((n : ℕ) → o n ≡ done)
      → IsCoherentAt (keys s) job.id
      → place (keys s) job.id ≢ waiting
      → Stands (keys (retry r o now job delay s).0) job.id parked
  unfolding retry
  retry-Stands o now job delay s d c w = rw (retry-keys r o now job delay s (rw (d 0) refl)) (
    retried-IsCoherentAt job (now + delay) (keys s) job.id (not_listed (keys s) job.id c w) c,
    retried-place job (now + delay) (keys s) job.id ∙ taken _ _ _ (==_refl job.id),
  )

  pub retry-other :
      (o : Replies) (now : ℕ) (job : Job) (delay : ℕ) (s : State) (i : ℕ)
      → (job.id == i) ≡ false
      → IsCoherentAt (keys s) i
      → Stands (keys (retry r o now job delay s).0) i (place (keys s) i)
  unfolding retry
  retry-other o now job delay s i e c =
      elim (o 0)
        as (λ x.
          Stands (keys (attempt x (exec (retry_commands job (now + delay))) s).0) i
            (place (keys s) i)) [ done ↦ sent | refused ↦ (c, refl) | lost ↦ sent ]
    where
      sent : Stands (keys (exec (retry_commands job (now + delay)) s)) i (place (keys s) i)
      sent = rw (keys-exec (retry_commands job (now + delay)) s) (
        retried-other job (now + delay) (keys s) i e c,
        retried-place job (now + delay) (keys s) i ∙ passed _ _ _ e,
      )

  pub retry-payload :
      (o : Replies) (now : ℕ) (job : Job) (delay : ℕ) (s : State)
      → ((n : ℕ) → o n ≡ done)
      → payload_at (keys (retry r o now job delay s).0) job.id ≡ some job
  unfolding retry
  retry-payload o now job delay s d =
      rw (d 0) (ground (arith, keys-exec (retry_commands job (now + delay)) s, ==_refl job.id))

  pub retry-payload_other :
      (o : Replies) (now : ℕ) (job : Job) (delay : ℕ) (s : State) (i : ℕ)
      → (job.id == i) ≡ false
      → payload_at (keys (retry r o now job delay s).0) i ≡ payload_at (keys s) i
  unfolding retry
  retry-payload_other o now job delay s i e =
      elim (o 0)
        as (λ x.
          payload_at (keys (attempt x (exec (retry_commands job (now + delay))) s).0) i
          ≡ payload_at (keys s) i) [ done ↦ sent | refused ↦ refl | lost ↦ sent ]
    where
      sent : payload_at (keys (exec (retry_commands job (now + delay)) s)) i ≡ payload_at (keys s) i
      sent = rw (keys-exec (retry_commands job (now + delay)) s) (rw e refl)
