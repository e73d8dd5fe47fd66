-- ===== src/Tests/Memory.antt =====
-- A Redis server in memory, which does what `RedisServer` asks of one.
use orqestra.Base.{
  ℕ, ◌≡◌, refl, false, Option, none, some, List, [], ◌∷◌, arith, fun_ext, if◌then◌else◌, ◌==◌,
  count, leb, ==→≡, ◌∙◌,
}
use orqestra.Queue.Keyspace.{
  ready_key, processing_key, Keyspace, Command, lpush, rpush, lrem, del, sadd, srem, hdel, zrem,
  hset, zadd, effect, effects, moved, is_due, RedisServer,
}

-- The sorted set is an association list; the first entry of a member counts.
pub record Memory : Type 0 where
  pub fixed : Keyspace
  pub scores : List (ℕ × ℕ)

unfoldable pub score_of : List (ℕ × ℕ) → ℕ → Option ℕ
score_of [] i = none
score_of ((j, score) ∷ m) i = if j == i then some score else score_of m i

unfoldable pub remove : ℕ → List (ℕ × ℕ) → List (ℕ × ℕ)
remove i [] = []
remove i ((j, score) ∷ m) = if j == i then remove i m else (j, score) ∷ remove i m

unfoldable pub without : ℕ → List ℕ → List ℕ
without i [] = []
without i (j ∷ js) = if j == i then without i js else j ∷ without i js

unfoldable pub due : ℕ → List (ℕ × ℕ) → List ℕ
unfolding without
due now [] = []
due now ((j, score) ∷ m) =
    if leb score now then j ∷ without j (due now m) else without j (due now m)

score_of-remove :
    (i j : ℕ) (m : List (ℕ × ℕ)) → score_of (remove i m) j ≡ (if i == j then none else score_of m j)
unfolding score_of remove
score_of-remove i j [] = ground arith
score_of-remove i j ((k, score) ∷ m) = ground (arith, score_of-remove i j m, ==→≡ k i)

count-without :
    (i j : ℕ) (js : List ℕ) → count j (without i js) ≡ (if i == j then 0 else count j js)
unfolding without
count-without i j [] = ground arith
count-without i j (k ∷ js) = ground (arith, count-without i j js)

count-due :
    (now : ℕ) (m : List (ℕ × ℕ)) (i : ℕ)
    → count i (due now m) ≡ (if is_due now (score_of m i) then 1 else 0)
unfolding due score_of
count-due now [] i = refl
count-due now ((j, score) ∷ m) i = ground (arith, count-due now m i, count-without j i (due now m))

unfoldable pub keys : Memory → Keyspace
keys s = record (s.fixed) { delayed = score_of s.scores }

unfoldable pub run : Command → Memory → Memory
run (zadd i score) s = record s { scores = (i, score) ∷ s.scores }
run (zrem i) s = record s { scores = remove i s.scores }
run c s = record s { fixed = effect c s.fixed }

keys-run : (c : Command) (s : Memory) → keys (run c s) ≡ effect c (keys s)
unfolding keys run score_of
keys-run (zadd i score) s = refl
keys-run (zrem i) s =
    λ x. record (s.fixed) { delayed = fun_ext (λ j. score_of-remove i j s.scores) x }
keys-run (lpush ready_key i) s = refl
keys-run (lpush processing_key i) s = refl
keys-run (rpush ready_key i) s = refl
keys-run (rpush processing_key i) s = refl
keys-run (lrem ready_key i) s = refl
keys-run (lrem processing_key i) s = refl
keys-run (del ready_key) s = refl
keys-run (del processing_key) s = refl
keys-run (sadd i) s = refl
keys-run (srem i) s = refl
keys-run (hdel i) s = refl
keys-run (hset i d) s = refl

unfoldable pub exec : List Command → Memory → Memory
unfolding run
exec [] s = s
exec (c ∷ cs) s = exec cs (run c s)

pub keys-exec : (cs : List Command) (s : Memory) → keys (exec cs s) ≡ effects cs (keys s)
unfolding exec
keys-exec [] s = refl
keys-exec (c ∷ cs) s = keys-exec cs (run c s) ∙ (λ x. effects cs (keys-run c s x))

unfoldable pub pop_push : Memory → Memory
pop_push s = record s { fixed = moved s.fixed }

pub keys-pop_push : (s : Memory) → keys (pop_push s) ≡ moved (keys s)
unfolding keys pop_push
keys-pop_push s = ground arith

pub count_in_range :
    (s : Memory) (now i : ℕ)
    → count i (due now s.scores) ≡ (if is_due now ((keys s).delayed i) then 1 else 0)
unfolding keys
count_in_range s now i = count-due now s.scores i

abbrev pub memory : RedisServer
memory = record {
  State = Memory;
  keys = keys;
  exec = exec;
  keys-exec = keys-exec;
  pop_push = pop_push;
  keys-pop_push = keys-pop_push;
  range_by_score = λ s now. due now s.scores;
  count-range_by_score = count_in_range;
}

-- Every definition above, for tests that run it.
abbrev pub empty : Memory
empty = record {
  fixed = record {
    ready = [];
    processing = [];
    delayed = λ _. none;
    payloads = λ _. none;
    queued = λ _. false;
  };
  scores = [];
}
