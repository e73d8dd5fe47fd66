-- ===== src/Queue/Faults.antt =====
-- What the calls of internal/queue/redis.go leave behind when they return an error.
use orqestra.Base.{
  ℕ, ◌≡◌, refl, Bool, true, false, List, [], ◌∷◌, arith, if◌then◌else◌, inl, inr, ◌⊎◌, all_done,
  Replies, Outcome, done, refused, lost, attempt, answers,
}
use orqestra.Queue.Keyspace.{Job, sadd, RedisServer}
use orqestra.Queue.Redis.{
  enqueue, ack, fail, retry, cancel, promote_due_jobs, recover, promote_listed, recover_listed,
  enqueue_commands,
}
use orqestra.Queue.Contract.{
  Operation, enqueues, acks, fails, cancels, retries, promotes, recovers, perform,
}
use orqestra.Queue.Place.{copies}

abbrev pub is_enqueue : Operation → Bool
is_enqueue (enqueues job) = true
is_enqueue _ = false

module _ (r : RedisServer) where
  open r use {State, keys, exec, keys-exec, range_by_score}

  abbrev AllOrNothing : State × Bool → State × Bool → State → Type 0
  AllOrNothing x full s = x.1 ≡ false → (x.0 ≡ s) ⊎ (x.0 ≡ full.0)

  attempt_atomic :
      (o : Outcome) (f : State → State) (s : State)
      → AllOrNothing (attempt o f s) (attempt done f s) s
  attempt_atomic done f s h = cc
  attempt_atomic refused f s h = inl refl
  attempt_atomic lost f s h = inr refl

  -- A read that fails before the pipeline changes nothing.
  read_first_atomic :
      (o : Outcome) (x full : State × Bool) (s : State)
      → AllOrNothing x full s
      → AllOrNothing (if answers o then x else (s, false)) full s
  read_first_atomic done x full s a h = a h
  read_first_atomic refused x full s a h = inl refl
  read_first_atomic lost x full s a h = inl refl

  promote_listed_atomic :
      (o : Outcome) (ids : List ℕ) (s : State)
      → AllOrNothing (promote_listed r o ids s) (promote_listed r done ids s) s
  unfolding promote_listed
  promote_listed_atomic o [] s h = cc
  promote_listed_atomic o (i ∷ ids) s h = attempt_atomic o _ s h

  recover_listed_atomic :
      (o : Outcome) (ids : List ℕ) (s : State)
      → AllOrNothing (recover_listed r o ids s) (recover_listed r done ids s) s
  unfolding recover_listed
  recover_listed_atomic o [] s h = cc
  recover_listed_atomic o (i ∷ ids) s h = attempt_atomic o _ s h

  -- Every operation but `Enqueue` and `Consume` is atomic: one that returns an error has done nothing,
  -- or all that it does when it succeeds.
  pub perform_atomic :
      (o : Replies) (op : Operation) (s : State)
      → is_enqueue op ≡ false
      → (perform r o op s).1 ≡ false
      → ((perform r o op s).0 ≡ s) ⊎ ((perform r o op s).0 ≡ (perform r all_done op s).0)
  unfolding ack fail cancel retry promote_due_jobs recover
  perform_atomic o (enqueues job) s n h = cc
  perform_atomic o (acks job) s n h = attempt_atomic (o 0) _ s h
  perform_atomic o (fails job) s n h = attempt_atomic (o 0) _ s h
  perform_atomic o (cancels job) s n h = attempt_atomic (o 0) _ s h
  perform_atomic o (retries now job delay) s n h = attempt_atomic (o 0) _ s h
  perform_atomic o (promotes now) s n h =
      read_first_atomic (o 0) (promote_listed r (o 1) (range_by_score s now) s)
        (promote_listed r done (range_by_score s now) s) s
        (promote_listed_atomic (o 1) (range_by_score s now) s) h
  perform_atomic o recovers s n h =
      read_first_atomic (o 0) (recover_listed r (o 1) (keys s).processing s)
        (recover_listed r done (keys s).processing s) s
        (recover_listed_atomic (o 1) (keys s).processing s) h

  -- A job that the queued set holds and no list does stays out of the lists, however often it is
  -- enqueued.
  enqueue_stuck :
      (o : Replies) (job : Job) (s : State)
      → (keys s).queued job.id ≡ true
      → copies (keys s) job.id ≡ 0
      → let k = keys (enqueue r o job s).0 in (k.queued job.id ≡ true) × (copies k job.id ≡ 0)
  unfolding enqueue
  enqueue_stuck o job s q n = ground (
    arith,
    keys-exec (sadd job.id ∷ []) s,
    keys-exec (enqueue_commands false job) s,
    keys-exec (enqueue_commands false job) (exec (sadd job.id ∷ []) s),
  )

  -- `Enqueue` of a new job whose pipeline is refused leaves it so.
  enqueue_half_done :
      (o : Replies) (job : Job) (s : State)
      → o 0 ≡ done
      → o 1 ≡ refused
      → copies (keys s) job.id ≡ 0
      → let k = keys (enqueue r o job s).0 in
        (k.queued job.id ≡ true) × (copies k job.id ≡ 0) × ((enqueue r o job s).1 ≡ false)
  unfolding enqueue
  enqueue_half_done o job s a b n = ground (arith, keys-exec (sadd job.id ∷ []) s)

  -- A job in no list, whose `Enqueue` has its `SAdd` carried out and its pipeline refused, returns the
  -- error, and a later `Enqueue` of the job, however its calls end, leaves it in no list, in the set of
  -- queued jobs.
  pub enqueue_strands :
      (o o' : Replies) (job : Job) (s : State)
      → o 0 ≡ done
      → o 1 ≡ refused
      → copies (keys s) job.id ≡ 0
      → let s' = (enqueue r o job s).0 in
        let k = keys (enqueue r o' job s').0 in
        ((enqueue r o job s).1 ≡ false) × (k.queued job.id ≡ true) × (copies k job.id ≡ 0)
  enqueue_strands o o' job s a b n =
      let (q, none_left, err) = enqueue_half_done o job s a b n in
      let (q', none_left') = enqueue_stuck o' job (enqueue r o job s).0 q none_left in
      (err, q', none_left')
