-- ===== src/Db/Keys.antt =====
-- The unique key of migrations/000003: a step of a run has one job at most, whoever submits it.
use orqestra.Base.{
  ℕ, suc, ◌≤◌, ◌≡◌, refl, inl, inr, Bool, true, false, ◌&&◌, Option, List, [], ◌∷◌, ◌++◌, arith,
  ◌==◌, if◌then◌else◌, any, Bool-cases, Outcome, done, refused, lost, Replies, attempt, answers,
  subst,
}
use orqestra.Queue.Keyspace.{Payload}
use orqestra.Db.Tables.{JobRow, Db}
use orqestra.Db.Outbox.{insert_workflow_step, is_step, new_step, insert_with_entry}

abbrev pub count_where : (JobRow → Bool) → List JobRow → ℕ
count_where p [] = 0
count_where p (row ∷ rows) = if p row then suc (count_where p rows) else count_where p rows

-- No two rows have one key (workflow_run_id, step_index).
abbrev pub IsKeyed : Db → Type 0
IsKeyed db = (run step : ℕ) → count_where (is_step run step) db.jobs ≤ 1

pub count_where-append :
    (p : JobRow → Bool) (rows : List JobRow) (row : JobRow)
    → count_where p (rows ++ row ∷ [])
      ≡ (if p row then suc (count_where p rows) else count_where p rows)
count_where-append p [] row = refl
count_where-append p (x ∷ rows) row = ground (arith, count_where-append p rows row)

count_where-none :
    (p : JobRow → Bool) (rows : List JobRow) → any p rows ≡ false → count_where p rows ≡ 0
count_where-none p [] h = refl
count_where-none p (x ∷ rows) h = ground (arith, count_where-none p rows)

any-append :
    (p : JobRow → Bool) (rows : List JobRow) (row : JobRow)
    → p row ≡ true
    → any p (rows ++ row ∷ []) ≡ true
any-append p [] row h = ground arith
any-append p (x ∷ rows) row h = ground (arith, any-append p rows row h)

is_step_new :
    (run step run' step' id max_retries : ℕ) (payload : Payload)
    → is_step run' step' (new_step id run step max_retries payload)
      ≡ (run == run') && (step == step')
unfolding is_step new_step
is_step_new run step run' step' id max_retries payload = refl

add-IsKeyed :
    (run step max_retries : ℕ) (payload : Payload) (db : Db)
    → IsKeyed db
    → any (is_step run step) db.jobs ≡ false
    → IsKeyed (insert_with_entry (new_step db.next_job run step max_retries payload) db)
unfolding insert_with_entry
add-IsKeyed run step max_retries payload db keyed out run' step' = ground (
  arith,
  count_where-append (is_step run' step') db.jobs row,
  is_step_new run step run' step' db.next_job max_retries payload,
  keyed run' step',
  none_yet,
)
  where
    row : JobRow
    row = new_step db.next_job run step max_retries payload

    none_yet :
        (run == run') && (step == step') ≡ true → count_where (is_step run' step') db.jobs ≡ 0
    none_yet same =
        let r : run ≡ run' = ground arith in
        let s : step ≡ step' = ground arith in
        subst (λ x. count_where (is_step x step') db.jobs ≡ 0) r
          (subst (λ y. count_where (is_step run y) db.jobs ≡ 0) s
            (count_where-none (is_step run step) db.jobs out))

attempt-IsKeyed :
    (o : Outcome) (f : Db → Db) (db : Db) → IsKeyed db → IsKeyed (f db) → IsKeyed (attempt o f db).0
attempt-IsKeyed done f db k k' = k'
attempt-IsKeyed refused f db k k' = k
attempt-IsKeyed lost f db k k' = k'

if-IsKeyed :
    (b : Bool) (x y : Db × Option ℕ) → IsKeyed x.0 → IsKeyed y.0 → IsKeyed (if b then x else y).0
if-IsKeyed true x y h k = h
if-IsKeyed false x y h k = k

-- However its calls end, `InsertWorkflowStep` leaves at most one job for each step of each run, if
-- there was at most one before.
pub insert_workflow_step-IsKeyed :
    (o : Replies) (run step max_retries : ℕ) (payload : Payload) (db : Db)
    → IsKeyed db
    → IsKeyed (insert_workflow_step o run step max_retries payload db).0
unfolding insert_workflow_step
insert_workflow_step-IsKeyed o run step max_retries payload db keyed =
    if-IsKeyed (answers (o 0) && answers (o 1)) _ _
      (elim (Bool-cases (any (is_step run step) db.jobs)) [
        | inl old ↦ rw old (attempt-IsKeyed (o 3) (λ x. x) db keyed keyed)
        | inr new ↦ rw new (
            if-IsKeyed (answers (o 2)) _ _
              (attempt-IsKeyed (o 3) _ db keyed
                (add-IsKeyed run step max_retries payload db keyed new))
              keyed)
      ])
      keyed
