-- ===== src/Relay/Marks.antt =====
-- The marks of a pass of the relay of internal/outbox/relay.go on the outbox table of internal/db/outbox.go.
use orqestra.Base.{
  ℕ, ◌≡◌, refl, ◌⊎◌, inl, inr, Bool, true, false, none, some, List, [], ◌∷◌, map, arith, ◌==◌,
  if◌then◌else◌, any, Bool-cases, ap, sym, subst,
}
use orqestra.Db.Tables.{JobRow, OutboxRow, first_where, update_where}
use orqestra.Db.Outbox.{OutboxEntry, unprocessed, processed_at}

abbrev pub ids : List OutboxEntry → List ℕ
ids es = map (λ e. e.id) es

-- The rows with these ids are processed.
abbrev pub mark_all : ℕ → List ℕ → List OutboxRow → List OutboxRow
mark_all now [] rows = rows
mark_all now (i ∷ is) rows = mark_all now is (update_where (λ o. o.id == i) (processed_at now) rows)

-- A row is open if it is unprocessed and its job is in the table.
abbrev pub is_open : List JobRow → OutboxRow → Bool
is_open jobs o =
    if o.processed
    then false
    else elim (first_where (λ row. row.id == o.job_id) jobs) [ none ↦ false | some row ↦ true ]

-- Every open row has one of the ids.
abbrev pub Covers : List ℕ → List JobRow → List OutboxRow → Type 0
Covers is jobs [] = Unit {0}
Covers is jobs (o ∷ os) =
    ((is_open jobs o ≡ false) ⊎ (any (λ i. o.id == i) is ≡ true)) × Covers is jobs os

Covers-cons :
    (i : ℕ) (is : List ℕ) (jobs : List JobRow) (os : List OutboxRow)
    → Covers is jobs os
    → Covers (i ∷ is) jobs os
Covers-cons i is jobs [] h = tt
Covers-cons i is jobs (o ∷ os) h = (ground arith, Covers-cons i is jobs os h.1)

unprocessed-closed :
    (jobs : List JobRow) (o : OutboxRow) (os : List OutboxRow)
    → is_open jobs o ≡ false
    → unprocessed jobs (o ∷ os) ≡ unprocessed jobs os
unfolding unprocessed
unprocessed-closed jobs o os h = ground arith

unprocessed-open :
    (jobs : List JobRow) (o : OutboxRow) (os : List OutboxRow)
    → is_open jobs o ≡ true
    → ids (unprocessed jobs (o ∷ os)) ≡ o.id ∷ ids (unprocessed jobs os)
unfolding unprocessed
unprocessed-open jobs o os h = ground arith

pub unprocessed-Covers :
    (jobs : List JobRow) (os : List OutboxRow) → Covers (ids (unprocessed jobs os)) jobs os
unprocessed-Covers jobs [] = tt
unprocessed-Covers jobs (o ∷ os) = elim (Bool-cases (is_open jobs o)) [
  | inr shut ↦ (
    inl shut,
    subst (λ is. Covers is jobs os) (sym (ap ids (unprocessed-closed jobs o os shut)))
        (unprocessed-Covers jobs os),
  )
  | inl open_ ↦ (
    inr (
        subst (λ is. any (λ i. o.id == i) is ≡ true) (sym (unprocessed-open jobs o os open_))
          (ground arith)),
    subst (λ is. Covers is jobs os) (sym (unprocessed-open jobs o os open_))
        (Covers-cons o.id (ids (unprocessed jobs os)) jobs os (unprocessed-Covers jobs os)),
  )
]

Covers-mark :
    (now i : ℕ) (is : List ℕ) (jobs : List JobRow) (os : List OutboxRow)
    → Covers (i ∷ is) jobs os
    → Covers is jobs (update_where (λ o. o.id == i) (processed_at now) os)
Covers-mark now i is jobs [] h = tt
Covers-mark now i is jobs (o ∷ os) h = (
  elim (Bool-cases (o.id == i)) [ inl e ↦ rw e (inl refl) | inr e ↦ rw e (ground arith) ],
  Covers-mark now i is jobs os h.1,
)

Covers-none :
    (jobs : List JobRow) (os : List OutboxRow) → Covers [] jobs os → unprocessed jobs os ≡ []
unfolding unprocessed
Covers-none jobs [] h = refl
Covers-none jobs (o ∷ os) h = ground (arith, Covers-none jobs os)

pub mark_all-drains :
    (now : ℕ) (is : List ℕ) (jobs : List JobRow) (os : List OutboxRow)
    → Covers is jobs os
    → unprocessed jobs (mark_all now is os) ≡ []
mark_all-drains now [] jobs os h = Covers-none jobs os h
mark_all-drains now (i ∷ is) jobs os h =
    mark_all-drains now is jobs (update_where (λ o. o.id == i) (processed_at now) os)
      (Covers-mark now i is jobs os h)
