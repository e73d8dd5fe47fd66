-- ===== src/Process/Cleanup.antt =====
-- cmd/cleanup/main.go: empties Redis and the tables. FLUSHALL is a parameter, as the server of `RedisServer`
-- is.
use orqestra.Base.{
  ℕ, ◌≡◌, refl, sym, subst, Bool, true, false, Option, none, some, List, [], ◌∷◌, Outcome, done,
  refused, lost, attempt, if◌then◌else◌, Bool-cases, Option-cases, inl, inr,
}
use orqestra.Queue.Keyspace.{Keyspace, RedisServer}
use orqestra.Queue.Place.{IsCoherent, place, absent}
use orqestra.Db.Tables.{Db}
use orqestra.Process.Config.{Config}

pub record CleanupCalls : Type 0 where
  pub config : Option Config
  pub flush : Outcome
  pub pool : Bool
  pub truncate : Outcome

-- What the command prints.
pub data Line : Type 0 where
  redis_error : Line
  redis_cleared : Line
  postgres_error : Line
  truncate_error : Line
  postgres_cleared : Line

-- TRUNCATE … CASCADE; the sequences go on, and the keys of the API stay.
unfoldable truncate : Db → Db
truncate db = record db { jobs = []; runs = []; outbox = [] }

-- No key exists.
abbrev pub blank : Keyspace
blank = record {
  ready = [];
  processing = [];
  queued = λ _. false;
  payloads = λ _. none;
  delayed = λ _. none;
}

module _ (r : RedisServer) (flush_all : Outcome → r.State → r.State × Bool) where
  open r use {State, keys}

  unfoldable pub truncated : CleanupCalls → Line → Db → State → Db × State × List Line
  unfolding truncate
  truncated c line db s =
      let (db', cleared) = attempt c.truncate truncate db in
      let printed = if cleared then postgres_cleared else truncate_error in
      if c.pool then (db', s, line ∷ printed ∷ []) else (db, s, line ∷ postgres_error ∷ [])

  -- An error of Redis does not stop the command.
  unfoldable pub cleanup : CleanupCalls → Db → State → Db × State × List Line
  unfolding truncated
  cleanup c db s = elim c.config [
    | none ↦ (db, s, [])
    | some config ↦
        let (s', flushed) = flush_all c.flush s in
        truncated c (if flushed then redis_cleared else redis_error) db s'
  ]

-- No job in the queue, and no row.
abbrev pub IsCleared : Keyspace → Db → Type 0
IsCleared k db =
    IsCoherent k
    × ((i : ℕ) → place k i ≡ absent)
    × (db.jobs ≡ [])
    × (db.runs ≡ [])
    × (db.outbox ≡ [])

blank-IsCleared : (db : Db) → IsCleared blank (truncate db)
unfolding truncate
blank-IsCleared db = (λ i. record { once = refl; stored = refl }, λ i. refl, refl, refl, refl)

attempt-truncate :
    (o : Outcome) (db : Db)
    → (attempt o truncate db).1 ≡ true
    → (attempt o truncate db).0 ≡ truncate db
attempt-truncate done db h = refl
attempt-truncate refused db h = absurd (cc)
attempt-truncate lost db h = absurd (cc)

module _ (r : RedisServer) (flush_all : Outcome → r.State → r.State × Bool)
    (flushes : (o : Outcome) (s : r.State)
      → (flush_all o s).1 ≡ true
      → r.keys (flush_all o s).0 ≡ blank) where
  open r use {State, keys}

  truncated-IsCleared :
      (c : CleanupCalls) (line : Line) (db : Db) (s : State)
      → keys s ≡ blank
      → (truncated r flush_all c line db s).2 ≡ redis_cleared ∷ postgres_cleared ∷ []
      → let x = truncated r flush_all c line db s in IsCleared (keys x.1) x.0
  unfolding truncated
  truncated-IsCleared c line db s e h = elim (Bool-cases c.pool) [
    | inr p ↦ absurd (
        let lines : line ∷ postgres_error ∷ [] ≡ redis_cleared ∷ postgres_cleared ∷ [] =
          rw (p, truncated) at h in
        cc)
    | inl p ↦ elim (Bool-cases (attempt c.truncate truncate db).1) [
      | inr t ↦ absurd (
          let lines : line ∷ truncate_error ∷ [] ≡ redis_cleared ∷ postgres_cleared ∷ [] =
            rw (p, t, truncated) at h in
          cc)
      | inl t ↦
          rw (p, truncated)
            (subst (λ k. IsCleared k (attempt c.truncate truncate db).0) (sym e)
              (subst (IsCleared blank) (sym (attempt-truncate c.truncate db t))
                (blank-IsCleared db)))
    ]
  ]

  truncated_line :
      (c : CleanupCalls) (line : Line) (lines : List Line) (db : Db) (s : State)
      → (truncated r flush_all c line db s).2 ≡ redis_cleared ∷ lines
      → line ≡ redis_cleared
  unfolding truncated
  truncated_line c line lines db s h = elim (Bool-cases c.pool) [
    | inr p ↦
        (let same : line ∷ postgres_error ∷ [] ≡ redis_cleared ∷ lines = rw (p, truncated) at h in
          cc)
    | inl p ↦
        let printed =
          if (attempt c.truncate truncate db).1 then postgres_cleared else truncate_error in
        (let same : line ∷ printed ∷ [] ≡ redis_cleared ∷ lines = rw (p, truncated) at h in cc)
  ]

  -- If FLUSHALL leaves no key when it answers, then once the command has printed that it has cleared both,
  -- the queue is coherent, no job is in it, and there are no jobs, runs or outbox entries.
  pub cleanup-IsCleared :
      (c : CleanupCalls) (db : Db) (s : State)
      → (cleanup r flush_all c db s).2 ≡ redis_cleared ∷ postgres_cleared ∷ []
      → let x = cleanup r flush_all c db s in IsCleared (keys x.1) x.0
  unfolding cleanup
  cleanup-IsCleared c db s h = elim (Option-cases c.config) [
    | inl e ↦
        absurd (let lines : [] ≡ redis_cleared ∷ postgres_cleared ∷ [] = rw (e, cleanup) at h in cc)
    | inr (config, e) ↦ elim (Bool-cases (flush_all c.flush s).1) [
      | inr f ↦ absurd (
          let same : redis_error ≡ redis_cleared =
            truncated_line c redis_error (postgres_cleared ∷ []) db (flush_all c.flush s).0
              (rw (e, f, cleanup) at h) in
          cc)
      | inl f ↦
          rw (e, f, cleanup)
            (truncated-IsCleared c redis_cleared db (flush_all c.flush s).0 (flushes c.flush s f)
              (rw (e, f, cleanup) at h))
    ]
  ]
