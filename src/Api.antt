-- ===== src/Api.antt =====
-- The uploads of departments and jobs: the routes of hiring-service/src/app/api/routes/ingestion.py
-- with the dependencies of hiring-service/src/app/api/deps/ingestion.py that feed them.
pub mod Rows
pub mod Posted
pub mod Employees
use globant.Base.{ℕ, List, ◌++◌, Text}
use globant.Errors.{Uuid, Result, ok}
use globant.Action.{Action, pure, ◌>>=◌}
use globant.Models.{DepartmentRecord, JobRecord}
use globant.UnitOfWork.{UnitOfWork}
use globant.Csv.{and_then, parse_departments, parse_jobs}
use globant.Guard.{validate_batch}
use globant.IngestRows.{IngestionResponse, ingest_departments, ingest_jobs}

-- The parsed records, once they have passed the guard.
abbrev pub guarded : {R : Type 0} → Result (List R × List Text) → Result (List R × List Text)
guarded parsed =
    and_then parsed (λ (records, parse_errors).
      and_then (validate_batch records) (λ _. ok (records, parse_errors)))

unfoldable pub get_department_records : List ℕ → Result (List DepartmentRecord × List Text)
get_department_records raw = guarded (parse_departments raw)

unfoldable pub get_job_records : List ℕ → Result (List JobRecord × List Text)
get_job_records raw = guarded (parse_jobs raw)

-- `response.errors.extend(parse_errors)`
abbrev pub extended : IngestionResponse → List Text → IngestionResponse
extended response parse_errors = record response { errors = response.errors ++ parse_errors }

module _ (U : UnitOfWork) where
  -- The body of a route: `parsed` is its dependency, `run` is `uc.execute`.
  abbrev pub respond_with :
      {R : Type 0}
      → Result (List R × List Text)
      → (List R → Action U.State IngestionResponse)
      → Action U.State IngestionResponse
  respond_with parsed run = (λ s. (parsed, s)) >>= λ (records, parse_errors).
      run records >>= λ response. pure (extended response parse_errors)

  -- `POST /ingest/departments`
  unfoldable pub post_departments : Uuid → List ℕ → Action U.State IngestionResponse
  unfolding get_department_records
  post_departments b raw = respond_with (get_department_records raw) (ingest_departments U b)

  -- `POST /ingest/jobs`
  unfoldable pub post_jobs : Uuid → List ℕ → Action U.State IngestionResponse
  unfolding get_job_records
  post_jobs b raw = respond_with (get_job_records raw) (ingest_jobs U b)
