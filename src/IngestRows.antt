-- ===== src/IngestRows.antt =====
-- `execute` of hiring-service/src/app/services/ingestion/use_cases/ingest_departments.py and
-- ingest_jobs.py, which differ in their table and in the label of a row only: a bulk insert, and on
-- a failure that is no outage one insert for each row. Logging is left out.
pub mod Greedy
pub mod Selected
pub mod Outcome
pub mod Execute
pub mod Stored
pub mod Properties
pub mod Order
use globant.Base.{
  ℕ, zero, suc, ◌+◌, Option, none, some, List, [], ◌∷◌, ◌++◌, Text, codes, length, show_int, ◌==◌,
  if◌then◌else◌,
}
use globant.Errors.{Uuid, Exc, Result, ok, err, is_operational}
use globant.Errors.Translator.{translate_db_error}
use globant.Action.{Action, pure, raise, try_except, ◌>>=◌, ◌>>◌}
use globant.Models.{DepartmentRecord, JobRecord, pending, completed}
use globant.UnitOfWork.{UnitOfWork, RowRepository}

pub record IngestionResponse : Type 0 where
  pub created_count : ℕ
  pub errors : List Text

module _ (U : UnitOfWork) {R : Type 0} (rows : RowRepository U.State R) (label : R → Text) where
  -- The body of the first `try`.
  unfoldable pub insert_in_bulk : Uuid → List R → Action U.State (Option IngestionResponse)
  insert_in_bulk batch_id records = do
    U.batch.add batch_id pending
    rows.bulk_insert records batch_id
    U.batch.update_status batch_id completed none
    U.commit
    pure (some (record { created_count = length records; errors = [] }))

  -- Its handlers: an outage leaves `execute`; after any other failure it goes on below.
  unfoldable pub on_bulk_failure : Exc → Action U.State (Option IngestionResponse)
  on_bulk_failure exc =
      if is_operational exc
      then U.rollback >> raise (translate_db_error exc)
      else U.rollback >> pure none

  -- The `try` of one turn of the loop, on `ok_count` and `errors`.
  unfoldable pub add_one : Uuid → R → ℕ → List Text → Action U.State (ℕ × List Text)
  add_one batch_id r ok_count errors = do
    U.begin_nested
    rows.add r batch_id
    pure (ok_count + 1, errors)

  -- Its handlers.
  unfoldable pub on_row_failure : R → ℕ → List Text → Exc → Action U.State (ℕ × List Text)
  on_row_failure r ok_count errors exc =
      if is_operational exc
      then raise (translate_db_error exc)
      else U.rollback_to_savepoint >> pure (ok_count, errors ++ label r ∷ [])

  -- One turn of the loop.
  unfoldable pub insert_one : Uuid → R → ℕ → List Text → Action U.State (ℕ × List Text)
  unfolding add_one on_row_failure
  insert_one batch_id r ok_count errors =
      try_except (add_one batch_id r ok_count errors) (on_row_failure r ok_count errors)

  unfoldable pub insert_each : Uuid → List R → ℕ → List Text → Action U.State (ℕ × List Text)
  unfolding insert_one
  insert_each batch_id [] ok_count errors = pure (ok_count, errors)
  insert_each batch_id (r ∷ records) ok_count errors = do
    (n, failed) ← insert_one batch_id r ok_count errors
    insert_each batch_id records n failed

  -- `if ok_count:`
  unfoldable pub complete_batch : Uuid → ℕ → Action U.State (Unit {0})
  complete_batch batch_id ok_count =
      if ok_count == 0 then pure tt else U.batch.update_status batch_id completed none >> U.commit

  unfoldable pub insert_row_by_row : Uuid → List R → Action U.State IngestionResponse
  unfolding insert_each complete_batch
  insert_row_by_row batch_id records = do
    U.batch.add batch_id pending
    (ok_count, errors) ← insert_each batch_id records 0 []
    complete_batch batch_id ok_count
    pure (record { created_count = ok_count; errors = errors })

  -- What follows the first `try`, unless it has returned.
  unfoldable pub unless_returned :
      Uuid → List R → Option IngestionResponse → Action U.State IngestionResponse
  unfolding insert_row_by_row
  unless_returned batch_id records (some response) = pure response
  unless_returned batch_id records none = insert_row_by_row batch_id records

  -- `execute`; the batch id is the fresh `uuid.uuid4()`.
  unfoldable pub execute : Uuid → List R → Action U.State IngestionResponse
  unfolding insert_in_bulk on_bulk_failure unless_returned
  execute batch_id records = do
    returned ← try_except (insert_in_bulk batch_id records) on_bulk_failure
    unless_returned batch_id records returned

-- `f"{record.id}:{record.department}"`
unfoldable pub department_label : DepartmentRecord → Text
department_label r = show_int r.id ++ (codes ":" ++ r.department)

-- `f"{record.id}:{record.job}"`
unfoldable pub job_label : JobRecord → Text
job_label r = show_int r.id ++ (codes ":" ++ r.job)

module _ (U : UnitOfWork) where
  -- `IngestDepartmentsUseCase.execute`
  unfoldable pub ingest_departments :
      Uuid → List DepartmentRecord → Action U.State IngestionResponse
  unfolding execute department_label
  ingest_departments = execute U U.departments department_label

  -- `IngestJobsUseCase.execute`
  unfoldable pub ingest_jobs : Uuid → List JobRecord → Action U.State IngestionResponse
  unfolding execute job_label
  ingest_jobs = execute U U.jobs job_label
