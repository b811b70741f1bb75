-- ===== src/Workers/EmployeeWriter.antt =====
-- hiring-service/src/app/workers/helpers/employee_writer.py: one chunk of employees, in bulk, and on
-- a failure that is no outage row by row with a commit for each. Logging is left out.
pub mod Employees
pub mod Outcome
use globant.Base.{List, [], ◌∷◌, ◌++◌, Text, codes, show_int, Option, none, some, if◌then◌else◌}
use globant.Errors.{Uuid, Exc, Result, ok, err, is_operational}
use globant.Errors.Translator.{translate_db_error}
use globant.Action.{Action, pure, raise, try_except, ◌>>=◌, ◌>>◌}
use globant.Models.{EmployeeRecord}
use globant.UnitOfWork.{UnitOfWork}

-- `f"{record.id}:{record.name}"`
unfoldable pub employee_label : EmployeeRecord → Text
employee_label r = show_int r.id ++ (codes ":" ++ r.name)

module _ (U : UnitOfWork) where
  -- The `try` of one turn of the loop.
  unfoldable pub write_one : Uuid → EmployeeRecord → List Text → Action U.State (List Text)
  write_one batch_id r errors = do U.begin_nested; U.employees.add r batch_id; U.commit; pure errors

  -- Its handlers.
  unfoldable pub on_write_failure : EmployeeRecord → List Text → Exc → Action U.State (List Text)
  on_write_failure r errors exc =
      if is_operational exc
      then U.rollback >> raise (translate_db_error exc)
      else U.rollback_to_savepoint >> pure (errors ++ employee_label r ∷ [])

  -- `_write_row_by_row`, from the errors so far
  unfoldable pub write_each : Uuid → List EmployeeRecord → List Text → Action U.State (List Text)
  unfolding write_one on_write_failure
  write_each batch_id [] errors = pure errors
  write_each batch_id (r ∷ records) errors = do
    errors' ← try_except (write_one batch_id r errors) (on_write_failure r errors)
    write_each batch_id records errors'

  unfoldable pub write_row_by_row : Uuid → List EmployeeRecord → Action U.State (List Text)
  unfolding write_each
  write_row_by_row batch_id records = write_each batch_id records []

  -- The first `try` of `write_employees`: its list of errors, if it returns.
  unfoldable pub write_in_bulk : Uuid → List EmployeeRecord → Action U.State (Option (List Text))
  write_in_bulk batch_id records = do
    U.employees.bulk_insert records batch_id
    U.commit
    pure (some [])

  unfoldable pub on_bulk_write_failure : Exc → Action U.State (Option (List Text))
  on_bulk_write_failure exc =
      if is_operational exc
      then U.rollback >> raise (translate_db_error exc)
      else U.rollback >> pure none

  unfoldable pub unless_written :
      Uuid → List EmployeeRecord → Option (List Text) → Action U.State (List Text)
  unfolding write_row_by_row
  unless_written batch_id records (some errors) = pure errors
  unless_written batch_id records none = write_row_by_row batch_id records

  unfoldable pub write_employees : Uuid → List EmployeeRecord → Action U.State (List Text)
  unfolding write_in_bulk on_bulk_write_failure unless_written
  write_employees batch_id records = do
    returned ← try_except (write_in_bulk batch_id records) on_bulk_write_failure
    unless_written batch_id records returned
