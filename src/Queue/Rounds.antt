-- ===== src/Queue/Rounds.antt =====
-- One round of the loop in `Consume` of internal/queue/redis.go.
use orqestra.Base.{
  ℕ, ◌≡◌, refl, true, Option, none, some, arith, Option-cases, ◌==◌, if◌then◌else◌, inl, inr, ◌⊎◌,
  ◌∙◌, ==→≡, Bool-cases, Outcome, done, refused, lost,
}
use orqestra.Queue.Keyspace.{
  Job, Keyspace, Document, encoded, undecodable, RedisServer, rpoplpush, moved,
}
use orqestra.Queue.Redis.{
  Round, Consumed, delivered, failed, consume_round, after_pop, read_payload, popped,
}
use orqestra.Queue.Place.{waiting, running, IsCoherentAt, IsCoherent, place, is_own}
use orqestra.Queue.Counts.{count-rpoplpush}

pub moved-IsCoherentAt : (k : Keyspace) (i : ℕ) → IsCoherentAt k i → IsCoherentAt (moved k) i
moved-IsCoherentAt k i h = elim (Option-cases (rpoplpush k)) [
  | inl e ↦ ground arith
  | inr ((k', j), e) ↦ ground (arith, count-rpoplpush k k' j i)
]

-- In a coherent queue the entry that is popped has its payload, under its own number.
popped-own :
    (k : Keyspace) (i : ℕ)
    → IsCoherent k
    → popped (rpoplpush k) ≡ some i
    → is_own i (k.payloads i) ≡ true
popped-own k i c h = elim (Option-cases (rpoplpush k)) [
  | inl e ↦ ground arith
  | inr ((k', j), e) ↦ ground (arith, count-rpoplpush k k' j i, c i)
]

-- A pop moves the job that it answers with from waiting to running, and no other.
pub popped-place :
    (k : Keyspace) (j : ℕ)
    → IsCoherent k
    → popped (rpoplpush k) ≡ some j
    → (place k j ≡ waiting)
      × ((i : ℕ) → place (moved k) i ≡ (if j == i then running else place k i))
popped-place k j c h = elim (Option-cases (rpoplpush k)) [
  | inl e ↦ ground arith
  | inr ((k', m), e) ↦ (
    ground (arith, count-rpoplpush k k' m j, c j),
    λ i. ground (arith, count-rpoplpush k k' m i, c i, ==→≡ j i),
  )
]

module _ (r : RedisServer) where
  open r use {State, keys, keys-pop_push, pop_push}

  read_payload-own :
      (get drop : Outcome) (i : ℕ) (s : State)
      → is_own i ((keys s).payloads i) ≡ true
      → (read_payload r get drop i s ≡ (s, some failed))
        ⊎ ((job : Job) × (read_payload r get drop i s ≡ (s, some (delivered job))) × (job.id ≡ i))
  read_payload-own refused drop i s h = inl refl
  read_payload-own lost drop i s h = inl refl
  read_payload-own done drop i s h = go ((keys s).payloads i) refl
    where
      go :
          (d : Option Document)
          → (keys s).payloads i ≡ d
          → (read_payload r done drop i s ≡ (s, some failed))
            ⊎ ((job : Job) × (read_payload r done drop i s ≡ (s, some (delivered job)))
                × (job.id ≡ i))
      go none e = ground arith
      go (some (undecodable x)) e = ground arith
      go (some (encoded job)) e = inr (job, ground arith, ground (arith, ==→≡ job.id i))

  -- How a round of the loop ends: it goes round again on a timeout, it fails with the keys as they were
  -- or with an entry moved, or it delivers the payload of the entry that it moved.
  pub data RoundEnds (s s' : State) (c : Option Consumed) : Type 0 where
    timed_out : keys s' ≡ keys s → c ≡ none → RoundEnds s s' c
    gave_up : keys s' ≡ keys s → c ≡ some failed → RoundEnds s s' c
    stranded : keys s' ≡ moved (keys s) → c ≡ some failed → RoundEnds s s' c
    served :
        (i : ℕ) (job : Job)
        → keys s' ≡ moved (keys s)
        → c ≡ some (delivered job)
        → popped (rpoplpush (keys s)) ≡ some i
        → job.id ≡ i
        → RoundEnds s s' c

  popped-moved-payloads : (k : Keyspace) → (moved k).payloads ≡ k.payloads
  popped-moved-payloads k = ground arith

  moved_eq : (k : Keyspace) → popped (rpoplpush k) ≡ none → moved k ≡ k
  moved_eq k e = ground arith

  consume_round-done :
      (t : Round) (s : State) (p : Option ℕ)
      → t.pop ≡ done
      → popped (rpoplpush (keys s)) ≡ p
      → consume_round r t s ≡ after_pop r t p (pop_push s)
  unfolding consume_round
  consume_round-done t s p e q = rw (e, q, consume_round)

  timed_out_or_cancelled :
      (t : Round) (s : State)
      → t.pop ≡ done
      → popped (rpoplpush (keys s)) ≡ none
      → RoundEnds s (consume_round r t s).0 (consume_round r t s).1
  timed_out_or_cancelled t s e q =
      rw (consume_round-done t s none e q) (elim (Bool-cases t.cancelled) [
        | inl x ↦ gave_up (keys-pop_push s ∙ moved_eq (keys s) q) (ground arith)
        | inr x ↦ timed_out (keys-pop_push s ∙ moved_eq (keys s) q) (ground arith)
      ])

  served_or_stranded :
      (t : Round) (s : State) (i : ℕ)
      → IsCoherent (keys s)
      → t.pop ≡ done
      → popped (rpoplpush (keys s)) ≡ some i
      → RoundEnds s (consume_round r t s).0 (consume_round r t s).1
  served_or_stranded t s i c e q =
      rw (consume_round-done t s (some i) e q)
        (elim (read_payload-own t.get t.drop i (pop_push s) own) [
          | inl x ↦ rw x (stranded (keys-pop_push s) refl)
          | inr (job, x, y) ↦ rw x (served i job (keys-pop_push s) refl q y)
        ])
    where
      own : is_own i ((keys (pop_push s)).payloads i) ≡ true
      own = rw (keys-pop_push s) (rw (popped-moved-payloads (keys s)) (popped-own (keys s) i c q))

  pub consume_round-RoundEnds :
      (t : Round) (s : State)
      → IsCoherent (keys s)
      → RoundEnds s (consume_round r t s).0 (consume_round r t s).1
  unfolding consume_round
  consume_round-RoundEnds t s c = go t.pop refl (popped (rpoplpush (keys s))) refl
    where
      go :
          (o : Outcome)
          → t.pop ≡ o
          → (p : Option ℕ) → popped (rpoplpush (keys s)) ≡ p
          → RoundEnds s (consume_round r t s).0 (consume_round r t s).1
      go refused e p q = gave_up (rw (e, consume_round) refl) (rw (e, consume_round) refl)
      go lost e p q =
          stranded (rw (e, consume_round) (keys-pop_push s)) (rw (e, consume_round) refl)
      go done e none q = timed_out_or_cancelled t s e q
      go done e (some i) q = served_or_stranded t s i c e q
