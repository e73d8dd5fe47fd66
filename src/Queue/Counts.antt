-- ===== src/Queue/Counts.antt =====
-- The multiplicities that the pipelines of internal/queue/redis.go leave behind.
use mathlib.Core.List.{append-nil, append_assoc}
use orqestra.Base.{
  ℕ, ◌+◌, ◌≡◌, refl, none, some, List, [], ◌∷◌, ◌++◌, map, arith, count, count-append, unsnoc,
  unsnoc-eq-some, Option-cases, ◌==◌, if◌then◌else◌, inl, inr, ap, ◌∙◌,
}
use orqestra.Queue.Keyspace.{Keyspace, effects, ready_key, rpush, rpoplpush, update}
use orqestra.Queue.Redis.{promote_commands, recover_commands}

-- Promotion moves each listed member to the ready list.
pub effects-promote_commands :
    (ids : List ℕ) (k : Keyspace) (i : ℕ)
    → let k' = effects (promote_commands ids) k in
      (count i k'.ready ≡ count i k.ready + count i ids)
      × (k'.delayed i ≡ (if count i ids == 0 then k.delayed i else none))
      × (k'.processing ≡ k.processing)
      × (k'.queued ≡ k.queued)
      × (k'.payloads ≡ k.payloads)
effects-promote_commands [] k i = (omega arith, refl, refl, refl, refl)
effects-promote_commands (j ∷ ids) k i = ground (
  arith,
  effects-promote_commands ids (record k { delayed = update k.delayed j none; ready = j ∷ k.ready })
      i,
)

-- Recovery appends the listed entries on the right of the ready list, and touches nothing else.
pub effects-rpush :
    (ids : List ℕ) (k : Keyspace)
    → effects (map (rpush ready_key) ids) k ≡ record k { ready = k.ready ++ ids }
effects-rpush [] k = rw append-nil
effects-rpush (j ∷ ids) k =
    effects-rpush ids (record k { ready = k.ready ++ j ∷ [] }) ∙ rw append_assoc

pub effects-recover_commands :
    (ids : List ℕ) (k : Keyspace)
    → effects (recover_commands ids) k ≡ record k { ready = k.ready ++ ids; processing = [] }
effects-recover_commands ids k = effects-rpush ids (record k { processing = [] })

-- The pop moves one occurrence of the rightmost ready entry to the processing list.
pub count-rpoplpush :
    (k k' : Keyspace) (j i : ℕ)
    → rpoplpush k ≡ some (k', j)
    → (count i k.ready ≡ count i k'.ready + (if j == i then 1 else 0))
      × (count i k'.processing ≡ count i k.processing + (if j == i then 1 else 0))
      × (k'.delayed ≡ k.delayed)
      × (k'.queued ≡ k.queued)
      × (k'.payloads ≡ k.payloads)
count-rpoplpush k k' j i h = elim (Option-cases (unsnoc k.ready)) [
  | inl e ↦ ground arith
  | inr ((rest, b), e) ↦ ground (
    arith,
    unsnoc-eq-some k.ready rest b e,
    ap (count i) (unsnoc-eq-some k.ready rest b e),
    count-append i rest (b ∷ []),
  )
]
