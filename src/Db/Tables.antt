-- ===== src/Db/Tables.antt =====
-- The tables of migrations/*.up.sql, with the columns that internal/db reads. A table is the list of its
-- rows in the order of their insertion, which is that of `created_at`; a BIGSERIAL column takes the
-- next number (the numbers that a conflict or a rollback uses up are not modelled). NULL is `none`;
-- `output` is read through COALESCE, so that NULL and '' are one.
use orqestra.Base.{
  ℕ, Bool, true, false, Option, none, some, List, [], ◌∷◌, map, String, ◌==◌, if◌then◌else◌, ◌≡◌,
  refl, ◌⊎◌, inl, inr,
}
use orqestra.Queue.Keyspace.{Payload}

pub data JobStatus : Type 0 where
  pending running retrying completed failed cancelled : JobStatus

pub data RunStatus : Type 0 where
  running completed failed cancelled : RunStatus

pub record JobRow : Type 0 where
  pub id : ℕ
  pub status : JobStatus
  pub retry_count : ℕ
  pub max_retries : ℕ
  pub job_type : String
  pub payload : Payload
  pub output : String
  pub workflow_run_id : Option ℕ
  pub step_index : Option ℕ

pub record RunRow : Type 0 where
  pub id : ℕ
  pub workflow_name : String
  pub status : RunStatus
  pub current_step : ℕ
  pub total_steps : ℕ

pub record OutboxRow : Type 0 where
  pub id : ℕ
  pub job_id : ℕ
  pub processed : Bool
  pub processed_at : Option ℕ

pub record Db : Type 0 where
  pub jobs : List JobRow
  pub runs : List RunRow
  pub outbox : List OutboxRow
  pub next_job : ℕ
  pub next_run : ℕ
  pub next_entry : ℕ

abbrev pub job_code : JobStatus → ℕ
job_code JobStatus.pending = 0
job_code JobStatus.running = 1
job_code JobStatus.retrying = 2
job_code JobStatus.completed = 3
job_code JobStatus.failed = 4
job_code JobStatus.cancelled = 5

-- `status = …` on jobs.
abbrev pub has_status : JobStatus → JobRow → Bool
has_status st row = job_code row.status == job_code st

abbrev pub is_running : RunRow → Bool
is_running row = elim row.status [ RunStatus.running ↦ true | _ ↦ false ]

-- `= $1` on a column that may be NULL.
abbrev pub is_value : Option ℕ → ℕ → Bool
is_value none i = false
is_value (some j) i = j == i

-- UPDATE … SET f WHERE p.
abbrev pub update_where {ℓ} : {A : Type ℓ} → (A → Bool) → (A → A) → List A → List A
update_where p f rows = map (λ row. if p row then f row else row) rows

-- The first row of a SELECT, if it has one.
abbrev pub first_where {ℓ} : {A : Type ℓ} → (A → Bool) → List A → Option A
first_where p [] = none
first_where p (row ∷ rows) = if p row then some row else first_where p rows

-- How a query for one row ends: `no_rows` is pgx.ErrNoRows.
pub data Query {ℓ} (A : Type ℓ) : Type ℓ where
  found : A → Query A
  no_rows : Query A
  broken : Query A

abbrev pub of_row {ℓ} : {A : Type ℓ} → Option A → Query A
of_row none = no_rows
of_row (some a) = found a

pub Query-cases {ℓ} :
    {A : Type ℓ} (x : Query A) → (x ≡ no_rows) ⊎ (x ≡ broken) ⊎ ((a : A) × (x ≡ found a))
Query-cases (found a) = inr (inr (a, refl))
Query-cases no_rows = inl refl
Query-cases broken = inr (inl refl)
