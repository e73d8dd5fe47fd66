-- ===== src/Db/Integrity.antt =====
-- What the statements of internal/db keep: the row that a job has, the keys of the tables, and that a
-- job and its outbox entry come together.
use orqestra.Base.{
  ℕ, ◌<◌, ◌≡◌, refl, ◌⊎◌, inl, inr, Bool, true, false, not, ◌&&◌, Option, none, some, List, [], ◌∷◌,
  ◌++◌, arith, String, ◌==◌, if◌then◌else◌, All, any, Outcome, done, refused, lost, Replies, ◌∙◌,
  attempt, answers, filter,
}
use orqestra.Queue.Keyspace.{Payload}
use orqestra.Db.Tables.{JobStatus, JobRow, OutboxRow, Db, has_status, update_where, first_where}
use orqestra.Db.Jobs.{
  update_job_state, complete_job, has_open_entry, new_entry, newest_first, list_jobs,
}
use orqestra.Db.Outbox.{insert_job, new_job, numbered, insert_with_entry}

-- The row of a job.
abbrev pub job_row : ℕ → Db → Option JobRow
job_row id db = first_where (λ row. row.id == id) db.jobs

abbrev pub map_row : (JobRow → JobRow) → Option JobRow → Option JobRow
map_row f none = none
map_row f (some row) = some (f row)

lookup-update :
    (i j : ℕ) (f : JobRow → JobRow) (rows : List JobRow)
    → ((row : JobRow) → (f row).id ≡ row.id)
    → first_where (λ row. row.id == j) (update_where (λ row. row.id == i) f rows) ≡ (
        if i == j
        then map_row f (first_where (λ row. row.id == j) rows)
        else first_where (λ row. row.id == j) rows)
lookup-update i j f [] h = ground arith
lookup-update i j f (row ∷ rows) h = ground (arith, h row, lookup-update i j f rows h)

-- `UpdateJobState` that succeeds changes the status and the retry count of its job, and no other row.
pub job_row-update_job_state :
    (i j : ℕ) (st : JobStatus) (n : ℕ) (db : Db)
    → job_row j (update_job_state done i st n db).0 ≡ (
        if i == j
        then map_row (λ row. record row { status = st; retry_count = n }) (job_row j db)
        else job_row j db)
unfolding update_job_state
job_row-update_job_state i j st n db =
    lookup-update i j (λ row. record row { status = st; retry_count = n }) db.jobs (λ row. refl)

pub job_row-complete_job :
    (i j : ℕ) (output : String) (db : Db)
    → job_row j (complete_job done i output db).0 ≡ (
        if i == j
        then map_row
            (λ row. record row { status = JobStatus.completed; output = output })
            (job_row j db)
        else job_row j db)
unfolding complete_job
job_row-complete_job i j output db =
    lookup-update i j (λ row. record row { status = JobStatus.completed; output = output }) db.jobs
      (λ row. refl)

pub job_row-id :
    (id : ℕ) (rows : List JobRow) (row : JobRow)
    → first_where (λ r. r.id == id) rows ≡ some row
    → row.id ≡ id
job_row-id id [] row h = cc
job_row-id id (x ∷ rows) row h = ground (arith, job_row-id id rows row)

-- Numbers are given out once: every row is below the next one.
abbrev pub IsFresh : Db → Type 0
IsFresh db = All (λ row. row.id < db.next_job) db.jobs

-- A row is in the table, as often as the test finds it.
lookup-append :
    (id : ℕ) (rows : List JobRow) (row : JobRow) (n : ℕ)
    → All (λ r. r.id < n) rows
    → row.id ≡ n
    → first_where (λ r. r.id == n) (rows ++ row ∷ []) ≡ some row
lookup-append id [] row n h e = ground arith
lookup-append id (x ∷ rows) row n h e = ground (arith, lookup-append id rows row n)

any-append :
    (p : OutboxRow → Bool) (rows : List OutboxRow) (o : OutboxRow)
    → p o ≡ true
    → any p (rows ++ o ∷ []) ≡ true
any-append p [] o h = ground arith
any-append p (x ∷ rows) o h = ground (arith, any-append p rows o h)

-- What a transaction that inserts a job can come to: nothing, with an error; or the job's row and an
-- unprocessed entry for it, with the job's number or, if the reply is lost, with an error.
abbrev pub StoresBoth : JobRow → Db → Db × Option ℕ → Type 0
StoresBoth row db x =
    ((x.1 ≡ none) × (x.0 ≡ db))
    ⊎ (((x.1 ≡ none) ⊎ (x.1 ≡ some db.next_job))
        × (job_row db.next_job x.0 ≡ some row)
        × (has_open_entry x.0.outbox db.next_job ≡ true))

insert_with_entry_stores :
    (row : JobRow) (db : Db)
    → IsFresh db
    → row.id ≡ db.next_job
    → (job_row db.next_job (insert_with_entry row db) ≡ some row)
      × (has_open_entry (insert_with_entry row db).outbox db.next_job ≡ true)
unfolding insert_with_entry has_open_entry
insert_with_entry_stores row db fresh e = (
  lookup-append db.next_job db.jobs row db.next_job fresh e,
  any-append (λ o. o.job_id == db.next_job && not o.processed) db.outbox
      (new_entry db.next_entry row.id) (ground arith),
)

numbered-StoresBoth :
    (o : Outcome) (row : JobRow) (db : Db)
    → IsFresh db
    → row.id ≡ db.next_job
    → StoresBoth row db (numbered db.next_job (attempt o (insert_with_entry row) db))
numbered-StoresBoth done row db fresh e =
    let (r, m) = insert_with_entry_stores row db fresh e in inr (inr refl, r, m)
numbered-StoresBoth refused row db fresh e = inl (refl, refl)
numbered-StoresBoth lost row db fresh e =
    let (r, m) = insert_with_entry_stores row db fresh e in inr (inl refl, r, m)

if-StoresBoth :
    (b : Bool) (row : JobRow) (db : Db) (x : Db × Option ℕ)
    → StoresBoth row db x
    → StoresBoth row db (if b then x else (db, none))
if-StoresBoth true row db x h = h
if-StoresBoth false row db x h = inl (refl, refl)

-- If the numbers of the jobs are below the next one, `InsertJob` stores a pending job and an
-- unprocessed outbox entry for it, or neither, and returns the number of the job only if it stored
-- both.
pub insert_job-StoresBoth :
    (o : Replies) (max_retries : ℕ) (job_type : String) (payload : Payload) (db : Db)
    → IsFresh db
    → StoresBoth
        (new_job db.next_job max_retries job_type payload)
        db
        (insert_job o max_retries job_type payload db)
unfolding insert_job new_job
insert_job-StoresBoth o max_retries job_type payload db fresh =
    let row = new_job db.next_job max_retries job_type payload in
    if-StoresBoth (answers (o 0) && (answers (o 1) && answers (o 2))) row db
      (numbered db.next_job (attempt (o 3) (insert_with_entry row) db))
      (numbered-StoresBoth (o 3) row db fresh refl)

-- However it ends, it touches no other row.
pub update_job_state-other :
    (o : Outcome) (i j : ℕ) (st : JobStatus) (n : ℕ) (db : Db)
    → (i == j) ≡ false
    → job_row j (update_job_state o i st n db).0 ≡ job_row j db
unfolding update_job_state
update_job_state-other refused i j st n db e = refl
update_job_state-other done i j st n db e = job_row-update_job_state i j st n db ∙ rw e
update_job_state-other lost i j st n db e = job_row-update_job_state i j st n db ∙ rw e

any-newest_first : (p : JobRow → Bool) (rows : List JobRow) → any p (newest_first rows) ≡ any p rows
unfolding newest_first
any-newest_first p [] = refl
any-newest_first p (row ∷ rows) =
    ground (arith, any_snoc p (newest_first rows) row, any-newest_first p rows)
  where
    any_snoc :
        (p : JobRow → Bool) (rows : List JobRow) (row : JobRow)
        → any p (rows ++ row ∷ []) ≡ (if any p rows then true else p row)
    any_snoc p [] row = ground arith
    any_snoc p (x ∷ rows) row = ground (arith, any_snoc p rows row)

-- A listing that succeeds finds the rows of the status, whatever the test on them.
pub list_jobs_done :
    (o : Outcome) (st : JobStatus) (db : Db) (p : JobRow → Bool)
    → o ≡ done
    → (rows : List JobRow) × (list_jobs o (some st) db ≡ some rows)
      × (any p rows ≡ any p (filter (has_status st) db.jobs))
unfolding list_jobs
list_jobs_done o st db p e = (
  newest_first (filter (has_status st) db.jobs),
  rw e refl,
  any-newest_first p (filter (has_status st) db.jobs),
)
