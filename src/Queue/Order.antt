-- ===== src/Queue/Order.antt =====
-- The order in which internal/queue/redis.go hands jobs out, and that `Consume` gets past entries
-- whose payload is gone.
use orqestra.Base.{
  ℕ, ◌≡◌, ◌≢◌, ◌<◌, Option, none, some, List, [], ◌∷◌, ◌++◌, sym, arith, Option-cases, inl, inr,
  ◌⊎◌, subst, length, All, unsnoc, unsnoc-append, unsnoc-eq-some, unsnoc-eq-none, done,
  length-append, ap,
}
use orqestra.Queue.Keyspace.{
  Job, Keyspace, Document, encoded, undecodable, RedisServer, rpoplpush, lrem, processing_key,
}
use orqestra.Queue.Redis.{
  Round, Consumed, delivered, failed, blocked, consume, consume_round, read_payload,
}

-- A round in which no call fails.
pub record IsAnswered (t : Round) : Type 0 where
  pub popped_ok : t.pop ≡ done
  pub read_ok : t.get ≡ done
  pub dropped_ok : t.drop ≡ done

rpoplpush_right :
    (k : Keyspace) (rest : List ℕ) (i : ℕ)
    → k.ready ≡ rest ++ i ∷ []
    → rpoplpush k ≡ some (record k { ready = rest; processing = i ∷ k.processing }, i)
rpoplpush_right k rest i e = ground (arith, unsnoc-append rest i, ap unsnoc e)

module _ (r : RedisServer) where
  open r use {State, keys, keys-pop_push, pop_push, exec, keys-exec}

  round_right :
      (t : Round) (s : State) (rest : List ℕ) (i : ℕ)
      → IsAnswered t
      → (keys s).ready ≡ rest ++ i ∷ []
      → consume_round r t s ≡ read_payload r done done i (pop_push s)
  unfolding consume_round
  round_right t s rest i a e = ground (arith, rpoplpush_right (keys s) rest i e)

  -- If no call of the round fails and the entry at the right end has its payload, `Consume` hands out
  -- that job and moves the entry to the left end of the processing list.
  pub consume_oldest :
      (t : Round) (ts : List Round) (s : State) (rest : List ℕ) (job : Job)
      → IsAnswered t
      → (keys s).ready ≡ rest ++ job.id ∷ []
      → (keys s).payloads job.id ≡ some (encoded job)
      → ((consume r (t ∷ ts) s).1 ≡ delivered job)
        × ((keys (consume r (t ∷ ts) s).0).ready ≡ rest)
        × ((keys (consume r (t ∷ ts) s).0).processing ≡ job.id ∷ (keys s).processing)
  unfolding consume
  consume_oldest t ts s rest job a e p = ground (
    arith,
    round_right t s rest job.id a e,
    rpoplpush_right (keys s) rest job.id e,
    keys-pop_push s,
  )

  stale_round :
      (t : Round) (s : State) (rest : List ℕ) (i : ℕ)
      → IsAnswered t
      → (keys s).ready ≡ rest ++ i ∷ []
      → (keys s).payloads i ≡ none
      → consume_round r t s ≡ (exec (lrem processing_key i ∷ []) (pop_push s), none)
  stale_round t s rest i a e p =
      ground (arith, round_right t s rest i a e, rpoplpush_right (keys s) rest i e, keys-pop_push s)

  stale_keys :
      (s : State) (rest : List ℕ) (i : ℕ)
      → (keys s).ready ≡ rest ++ i ∷ []
      → let k = keys (exec (lrem processing_key i ∷ []) (pop_push s)) in
        (k.ready ≡ rest) × (k.payloads ≡ (keys s).payloads)
  stale_keys s rest i e = ground (
    arith,
    rpoplpush_right (keys s) rest i e,
    keys-pop_push s,
    keys-exec (lrem processing_key i ∷ []) (pop_push s),
  )

  payload_round :
      (t : Round) (s : State) (rest : List ℕ) (i : ℕ) (d : Document)
      → IsAnswered t
      → (keys s).ready ≡ rest ++ i ∷ []
      → (keys s).payloads i ≡ some d
      → (c : Consumed) × (consume_round r t s ≡ (pop_push s, some c)) × (c ≢ blocked)
  payload_round t s rest i (encoded job) a e p = (
    delivered job,
    ground (arith, round_right t s rest i a e, rpoplpush_right (keys s) rest i e, keys-pop_push s),
    λ h. cc,
  )
  payload_round t s rest i (undecodable x) a e p = (
    failed,
    ground (arith, round_right t s rest i a e, rpoplpush_right (keys s) rest i e, keys-pop_push s),
    λ h. cc,
  )

-- Some entry of the list has a payload.
abbrev pub HasWork : (ℕ → Option Document) → List ℕ → Type 0
HasWork payloads [] = ⊥
HasWork payloads (i ∷ ids) = (payloads i ≢ none) ⊎ HasWork payloads ids

HasWork-append :
    (payloads : ℕ → Option Document) (ids : List ℕ) (i : ℕ)
    → payloads i ≡ none
    → HasWork payloads (ids ++ i ∷ [])
    → HasWork payloads ids
HasWork-append payloads [] i e (inl h) = absurd (h e)
HasWork-append payloads [] i e (inr h) = elim h [ ]
HasWork-append payloads (j ∷ ids) i e (inl h) = inl h
HasWork-append payloads (j ∷ ids) i e (inr h) = inr (HasWork-append payloads ids i e h)

module _ (r : RedisServer) where
  open r use {State, keys, keys-pop_push, pop_push, exec, keys-exec}

  stale_returns :
      (t : Round) (ts : List Round) (s : State) (rest : List ℕ) (i : ℕ)
      → IsAnswered t
      → (keys s).ready ≡ rest ++ i ∷ []
      → (keys s).payloads i ≡ none
      → consume r (t ∷ ts) s ≡ consume r ts (exec (lrem processing_key i ∷ []) (pop_push s))
  unfolding consume
  stale_returns t ts s rest i a e p = ground (arith, stale_round r t s rest i a e p)

  payload_returns :
      (t : Round) (ts : List Round) (s : State) (rest : List ℕ) (i : ℕ) (d : Document)
      → IsAnswered t
      → (keys s).ready ≡ rest ++ i ∷ []
      → (keys s).payloads i ≡ some d
      → (consume r (t ∷ ts) s).1 ≢ blocked
  unfolding consume
  payload_returns t ts s rest i d a e p =
      let (c, q, n) = payload_round r t s rest i d a e p in ground arith

  -- With more rounds than entries, none of whose calls fails, the loop of `Consume` comes to an end if one
  -- of the entries has a payload.
  pub consume_returns :
      (ts : List Round) (s : State)
      → All IsAnswered ts
      → length (keys s).ready < length ts
      → HasWork (keys s).payloads (keys s).ready
      → (consume r ts s).1 ≢ blocked
  consume_returns [] s a h w = absurd (omega arith)
  consume_returns (t ∷ ts) s a h w = elim (Option-cases (unsnoc (keys s).ready)) [
    | inl e ↦ absurd (subst (HasWork (keys s).payloads) (unsnoc-eq-none (keys s).ready e) w)
    | inr ((rest, i), u) ↦
        let e = unsnoc-eq-some (keys s).ready rest i u in
        elim (Option-cases ((keys s).payloads i)) [
          | inr (d, p) ↦ payload_returns t ts s rest i d a.0 e p
          | inl p ↦
              let (same, kept) = stale_keys r s rest i e in
              let shorter : length rest < length ts =
                omega (arith, ap length e, length-append rest (i ∷ [])) in
              subst (λ (x : State × Consumed). x.1 ≢ blocked)
                (sym (stale_returns t ts s rest i a.0 e p))
                (consume_returns ts (exec (lrem processing_key i ∷ []) (pop_push s)) a.1
                  (rw same shorter)
                  (rw (same, kept)
                    (HasWork-append (keys s).payloads rest i p
                      (subst (HasWork (keys s).payloads) e w))))
        ]
  ]
