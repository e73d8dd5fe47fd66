-- ===== src/Tests/QueueExamples.antt =====
-- The theorems about internal/queue/redis.go at concrete queues.
use orqestra.Base.{
  ℕ, ◌≡◌, ◌≢◌, ◌⊎◌, inl, refl, true, false, [], ◌∷◌, arith, all_done, done, refused, lost, Replies,
  if◌then◌else◌, ◌==◌,
}
use orqestra.Queue.Keyspace.{Job, command}
use orqestra.Queue.Redis.{Round, blocked, enqueue, consume, ack}
use orqestra.Queue.Place.{waiting, running, IsCoherent, place, copies}
use orqestra.Queue.Contract.{enqueues, acks, perform, perform-IsCoherent, perform-place}
use orqestra.Queue.Consume.{consume-IsCoherent, consume_moves}
use orqestra.Queue.Order.{IsAnswered, consume_returns}
use orqestra.Queue.Faults.{perform_atomic, enqueue_strands}
use orqestra.Tests.Memory.{memory, Memory, empty, keys, score_of, exec, pop_push}

abbrev pub job_7 : Job
job_7 = record {
  id = 7;
  retry_count = 0;
  max_retries = 3;
  job_type = "shell";
  payload = command "ls" "";
}

pub empty-IsCoherent : IsCoherent (keys empty)
unfolding keys score_of
empty-IsCoherent i = record { once = refl; stored = refl }

perform-IsCoherent_example : IsCoherent (keys (perform memory all_done (enqueues job_7) empty).0)
unfolding enqueue keys
perform-IsCoherent_example =
    perform-IsCoherent memory all_done (enqueues job_7) empty empty-IsCoherent tt refl

perform-place_example : place (keys (perform memory all_done (enqueues job_7) empty).0) 7 ≡ waiting
unfolding enqueue keys score_of
perform-place_example =
    perform-place memory all_done (enqueues job_7) empty empty-IsCoherent tt refl 7

abbrev queue_7 : Memory
queue_7 = (enqueue memory all_done job_7 empty).0

abbrev answered : Round
answered = record { cancelled = false; pop = done; get = done; drop = done }

answered-IsAnswered : IsAnswered answered
answered-IsAnswered = record { popped_ok = refl; read_ok = refl; dropped_ok = refl }

consume-IsCoherent_example : IsCoherent (keys (consume memory (answered ∷ []) queue_7).0)
unfolding enqueue keys
consume-IsCoherent_example =
    consume-IsCoherent memory (answered ∷ []) queue_7
      (perform-IsCoherent memory all_done (enqueues job_7) empty empty-IsCoherent tt refl)

consume_moves_example :
    (place (keys queue_7) 7 ≡ waiting)
    × ((i : ℕ)
        → place (keys (consume memory (answered ∷ []) queue_7).0) i
          ≡ (if 7 == i then running else place (keys queue_7) i))
unfolding enqueue keys consume exec pop_push
consume_moves_example =
    consume_moves memory (answered ∷ []) queue_7 job_7
      (perform-IsCoherent memory all_done (enqueues job_7) empty empty-IsCoherent tt refl) refl

consume_returns_example : (consume memory (answered ∷ answered ∷ []) queue_7).1 ≢ blocked
unfolding enqueue keys exec
consume_returns_example =
    consume_returns memory (answered ∷ answered ∷ []) queue_7
      (answered-IsAnswered, (answered-IsAnswered, tt)) (omega arith) (inl (λ e. cc))

perform_atomic_example :
    ((perform memory (λ _. lost) (acks job_7) queue_7).0 ≡ queue_7)
    ⊎ ((perform memory (λ _. lost) (acks job_7) queue_7).0
        ≡ (perform memory all_done (acks job_7) queue_7).0)
unfolding ack
perform_atomic_example = perform_atomic memory (λ _. lost) (acks job_7) queue_7 refl refl

-- The first call is answered, the second one refused.
abbrev cut_short : Replies
cut_short i = if i == 0 then done else refused

enqueue_strands_example :
    let s = (enqueue memory cut_short job_7 empty).0 in
    let k = keys (enqueue memory all_done job_7 s).0 in
    ((enqueue memory cut_short job_7 empty).1 ≡ false) × (k.queued 7 ≡ true) × (copies k 7 ≡ 0)
unfolding keys score_of
enqueue_strands_example = enqueue_strands memory cut_short all_done job_7 empty refl refl refl
