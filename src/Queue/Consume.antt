-- ===== src/Queue/Consume.antt =====
-- `Consume` of internal/queue/redis.go: what the loop keeps.
use orqestra.Base.{
  ℕ, ◌≡◌, Option, none, some, List, [], ◌∷◌, arith, ◌==◌, if◌then◌else◌, subst, sym,
}
use orqestra.Queue.Keyspace.{Job, Keyspace, RedisServer}
use orqestra.Queue.Redis.{Round, Consumed, delivered, consume, consume_round}
use orqestra.Queue.Place.{waiting, running, IsCoherent, place}
use orqestra.Queue.Rounds.{
  RoundEnds, timed_out, gave_up, stranded, served, consume_round-RoundEnds, moved-IsCoherentAt,
  popped-place,
}

module _ (r : RedisServer) where
  open r use {State, keys, keys-pop_push, pop_push}

  RoundEnds-IsCoherent :
      {s s' : State} {c : Option Consumed}
      → RoundEnds r s s' c
      → IsCoherent (keys s)
      → IsCoherent (keys s')
  RoundEnds-IsCoherent (timed_out e _) c i = rw e (c i)
  RoundEnds-IsCoherent (gave_up e _) c i = rw e (c i)
  RoundEnds-IsCoherent (stranded e _) c i = rw e (moved-IsCoherentAt _ i (c i))
  RoundEnds-IsCoherent (served j job e _ _ _) c i = rw e (moved-IsCoherentAt _ i (c i))

  -- The result of the loop over the rounds left, from the end of the first.
  abbrev continue_with : List Round → State × Option Consumed → State × Consumed
  continue_with ts (s', some c) = (s', c)
  continue_with ts (s', none) = consume r ts s'

  consume-cons :
      (t : Round) (ts : List Round) (s : State)
      → consume r (t ∷ ts) s ≡ continue_with ts (consume_round r t s)
  unfolding consume
  consume-cons t ts s = ground arith

  continue_with-IsCoherent :
      (ts : List Round)
      → ((s : State) → IsCoherent (keys s) → IsCoherent (keys (consume r ts s).0))
      → (x : State × Option Consumed) → IsCoherent (keys x.0)
      → IsCoherent (keys (continue_with ts x).0)
  continue_with-IsCoherent ts rest (s', some d) c = c
  continue_with-IsCoherent ts rest (s', none) c = rest s' c

  -- Whatever its calls come to, `Consume` keeps a coherent queue coherent.
  pub consume-IsCoherent :
      (ts : List Round) (s : State) → IsCoherent (keys s) → IsCoherent (keys (consume r ts s).0)
  unfolding consume
  consume-IsCoherent [] s c = c
  consume-IsCoherent (t ∷ ts) s c = rw (consume-cons t ts s) (
      continue_with-IsCoherent ts (consume-IsCoherent ts) (consume_round r t s)
        (RoundEnds-IsCoherent (consume_round-RoundEnds r t s c) c))

  -- From keys `k`, the job that a result delivers was waiting and is running, and no other moved.
  abbrev pub Delivers : Keyspace → State × Consumed → Type 0
  Delivers k x =
      (job : Job)
      → x.1 ≡ delivered job
      → (place k job.id ≡ waiting)
        × ((i : ℕ) → place (keys x.0) i ≡ (if job.id == i then running else place k i))

  continue_with-Delivers :
      (ts : List Round) (s : State)
      → IsCoherent (keys s)
      → ((s' : State) → IsCoherent (keys s') → Delivers (keys s') (consume r ts s'))
      → (x : State × Option Consumed) → RoundEnds r s x.0 x.1
      → Delivers (keys s) (continue_with ts x)
  continue_with-Delivers ts s c rest (s', none) (timed_out e _) job h =
      subst (λ k. Delivers k (consume r ts s')) e (rest s' (λ i. rw e (c i))) job h
  continue_with-Delivers ts s c rest (s', none) (gave_up e f) job h = absurd (cc)
  continue_with-Delivers ts s c rest (s', none) (stranded e f) job h = absurd (cc)
  continue_with-Delivers ts s c rest (s', none) (served i j e f p q) job h = absurd (cc)
  continue_with-Delivers ts s c rest (s', some d) (timed_out e f) job h = cc
  continue_with-Delivers ts s c rest (s', some d) (gave_up e f) job h = cc
  continue_with-Delivers ts s c rest (s', some d) (stranded e f) job h = cc
  continue_with-Delivers ts s c rest (s', some d) (served j own e f p q) job h =
      let same : job.id ≡ j = ground arith in rw (e, same) (popped-place (keys s) j c p)

  consume-Delivers :
      (ts : List Round) (s : State) → IsCoherent (keys s) → Delivers (keys s) (consume r ts s)
  unfolding consume
  consume-Delivers [] s c job h = cc
  consume-Delivers (t ∷ ts) s c job h =
      subst (Delivers (keys s)) (sym (consume-cons t ts s))
        (continue_with-Delivers ts s c (consume-Delivers ts) (consume_round r t s)
          (consume_round-RoundEnds r t s c))
        job h

  -- On a coherent queue, a job that `Consume` hands out was waiting and is running now, and no other job
  -- moved.
  pub consume_moves :
      (ts : List Round) (s : State) (job : Job)
      → IsCoherent (keys s)
      → (consume r ts s).1 ≡ delivered job
      → (place (keys s) job.id ≡ waiting)
        × ((i : ℕ)
            → place (keys (consume r ts s).0) i
              ≡ (if job.id == i then running else place (keys s) i))
  consume_moves ts s job c h = consume-Delivers ts s c job h
