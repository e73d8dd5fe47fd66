-- ===== src/Db/Restart.antt =====
-- What `ResetRunningJobs` of internal/db/jobs.go leaves: the jobs that a server was running when it went
-- down are pending again, each with an outbox entry for the relay.
use orqestra.Base.{
  ℕ, suc, ◌≡◌, refl, true, false, ◌&&◌, List, [], ◌∷◌, ◌++◌, arith, ◌==◌, ==_refl, any, Bool-cases,
  inl, inr, ◌⊎◌, Outcome, done, refused, lost, ==→≡, sym, subst, ap, ◌∙◌,
}
use orqestra.Db.Tables.{JobStatus, JobRow, OutboxRow, Db, has_status, update_where}
use orqestra.Db.Jobs.{
  on_jobs, running_ids, has_open_entry, new_entry, insert_missing, reset_running,
  reset_running_jobs,
}

no_running_left :
    (rows : List JobRow)
    → any (has_status JobStatus.running) (
        update_where
          (has_status JobStatus.running)
          (λ row. record row { status = JobStatus.pending })
          rows)
      ≡ false
no_running_left [] = refl
no_running_left (row ∷ rows) = ground (arith, no_running_left rows)

pub insert_missing-jobs :
    (before : List OutboxRow) (ids : List ℕ) (db : Db)
    → (insert_missing before ids db).jobs ≡ db.jobs
unfolding insert_missing
insert_missing-jobs before [] db = refl
insert_missing-jobs before (id ∷ ids) db = elim (Bool-cases (has_open_entry before id)) [
  | inl e ↦ rw (e, insert_missing) (insert_missing-jobs before ids db)
  | inr e ↦ rw (e, insert_missing) (insert_missing-jobs before ids _)
]

open-append :
    (id : ℕ) (rows : List OutboxRow) (o : OutboxRow)
    → has_open_entry rows id ≡ true
    → has_open_entry (rows ++ o ∷ []) id ≡ true
unfolding has_open_entry
open-append id [] o h = cc
open-append id (x ∷ rows) o h = ground (arith, open-append id rows o)

open-new :
    (id entry : ℕ) (rows : List OutboxRow)
    → has_open_entry (rows ++ new_entry entry id ∷ []) id ≡ true
unfolding has_open_entry
open-new id entry [] = ground (arith, ==_refl id)
open-new id entry (x ∷ rows) = ground (arith, open-new id entry rows)

add_entry : ℕ → Db → Db
add_entry id db = record db {
  outbox = db.outbox ++ new_entry db.next_entry id ∷ [];
  next_entry = suc db.next_entry;
}

insert_missing-cons :
    (before : List OutboxRow) (id : ℕ) (ids : List ℕ) (db : Db)
    → ((has_open_entry before id ≡ true)
        × (insert_missing before (id ∷ ids) db ≡ insert_missing before ids db))
      ⊎ (insert_missing before (id ∷ ids) db ≡ insert_missing before ids (add_entry id db))
unfolding insert_missing add_entry
insert_missing-cons before id ids db = elim (Bool-cases (has_open_entry before id)) [
  | inl e ↦ inl (e, rw (e, insert_missing) refl)
  | inr e ↦ inr (rw (e, insert_missing) refl)
]

add_entry-keeps :
    (id i : ℕ) (db : Db)
    → has_open_entry db.outbox i ≡ true
    → has_open_entry (add_entry id db).outbox i ≡ true
unfolding add_entry
add_entry-keeps id i db h = open-append i db.outbox (new_entry db.next_entry id) h

insert_missing-keeps :
    (before : List OutboxRow) (ids : List ℕ) (db : Db) (i : ℕ)
    → has_open_entry db.outbox i ≡ true
    → has_open_entry (insert_missing before ids db).outbox i ≡ true
unfolding insert_missing
insert_missing-keeps before [] db i h = h
insert_missing-keeps before (id ∷ ids) db i h = elim (insert_missing-cons before id ids db) [
  | inl (_, e) ↦
      subst (λ (d : Db). has_open_entry d.outbox i ≡ true) (sym e)
        (insert_missing-keeps before ids db i h)
  | inr e ↦
      subst (λ (d : Db). has_open_entry d.outbox i ≡ true) (sym e)
        (insert_missing-keeps before ids (add_entry id db) i (add_entry-keeps id i db h))
]

add_entry-opens : (id : ℕ) (db : Db) → has_open_entry (add_entry id db).outbox id ≡ true
unfolding add_entry
add_entry-opens id db = open-new id db.next_entry db.outbox

-- `before` is what the statement sees; the table grows from it.
insert_missing-opens :
    (before : List OutboxRow) (ids : List ℕ) (db : Db) (i : ℕ)
    → (has_open_entry before i ≡ true → has_open_entry db.outbox i ≡ true)
    → any (λ j. j == i) ids ≡ true
    → has_open_entry (insert_missing before ids db).outbox i ≡ true
insert_missing-opens before [] db i old m = cc
insert_missing-opens before (id ∷ ids) db i old m =
    let goal = λ (d : Db). has_open_entry d.outbox i ≡ true in
    elim (insert_missing-cons before id ids db) [
      | inl (seen, e) ↦ elim (Bool-cases (id == i)) [
        | inl same ↦ subst goal (sym e) (
            insert_missing-keeps before ids db i
              (old (subst (λ j. has_open_entry before j ≡ true) (==→≡ id i same) seen)))
        | inr other ↦ subst goal (sym e) (insert_missing-opens before ids db i old (ground arith))
      ]
      | inr e ↦ elim (Bool-cases (id == i)) [
        | inl same ↦ subst goal (sym e) (
            insert_missing-keeps before ids (add_entry id db) i (
              subst (λ j. has_open_entry (add_entry id db).outbox j ≡ true) (==→≡ id i same)
                (add_entry-opens id db)))
        | inr other ↦ subst goal (sym e) (
            insert_missing-opens before ids (add_entry id db) i
              (λ h. add_entry-keeps id i db (old h)) (ground arith))
      ]
    ]

running_ids-any :
    (id : ℕ) (rows : List JobRow)
    → any (λ row. row.id == id && has_status JobStatus.running row) rows ≡ true
    → any (λ j. j == id) (running_ids rows) ≡ true
unfolding running_ids
running_ids-any id [] h = cc
running_ids-any id (row ∷ rows) h = ground (arith, running_ids-any id rows)

-- `ResetRunningJobs` that returns nil leaves no job running, and every job that was running has an
-- unprocessed outbox entry.
pub reset_running_jobs-opens :
    (o : Outcome) (db : Db) (id : ℕ)
    → (reset_running_jobs o db).1 ≡ true
    → any (λ row. row.id == id && has_status JobStatus.running row) db.jobs ≡ true
    → (any (has_status JobStatus.running) (reset_running_jobs o db).0.jobs ≡ false)
      × (has_open_entry (reset_running_jobs o db).0.outbox id ≡ true)
unfolding reset_running_jobs reset_running
reset_running_jobs-opens refused db id h m = cc
reset_running_jobs-opens lost db id h m = cc
reset_running_jobs-opens done db id h m =
    let db' =
      on_jobs
        (update_where (has_status JobStatus.running)
          (λ row. record row { status = JobStatus.pending }))
        db in
    (
      ap (any (has_status JobStatus.running))
            (insert_missing-jobs db.outbox (running_ids db.jobs) db')
          ∙ no_running_left db.jobs,
      insert_missing-opens db.outbox (running_ids db.jobs) db' id (λ x. x)
          (running_ids-any id db.jobs m),
    )
