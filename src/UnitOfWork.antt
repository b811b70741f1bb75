-- ===== src/UnitOfWork.antt =====
-- The ports of hiring-service/src/app/services/ingestion/ports/: what the use cases and the worker
-- call. `UnitOfWork.Contract` says what an implementation promises.
pub mod Contract
pub mod Steps
use globant.Base.{List, Option, Text}
use globant.Errors.{Uuid}
use globant.Action.{Action}
use globant.Models.{
  IngestionBatchStatus, IngestionBatch, Row, DepartmentRecord, JobRecord, EmployeeRecord,
}

pub record BatchRepository (S : Type 0) : Type 0 where
  pub add : Uuid → IngestionBatchStatus → Action S (Unit {0})
  -- The last argument is `errors`, None by default.
  pub update_status : Uuid → IngestionBatchStatus → Option (List Text) → Action S (Unit {0})
  pub get : Uuid → Action S (Option IngestionBatch)

-- The ports of the three tables differ in the type of their records only.
pub record RowRepository (S R : Type 0) : Type 0 where
  pub bulk_insert : List R → Uuid → Action S (Unit {0})
  pub add : R → Uuid → Action S (Unit {0})

pub record UnitOfWork : Type 1 where
  pub State : Type 0
  pub batch : BatchRepository State
  pub departments : RowRepository State DepartmentRecord
  pub jobs : RowRepository State JobRecord
  pub employees : RowRepository State EmployeeRecord
  pub commit : Action State (Unit {0})
  pub rollback : Action State (Unit {0})
  -- The instance with the values of its row.
  pub refresh : Row → Action State Row
  pub begin_nested : Action State (Unit {0})
  pub rollback_to_savepoint : Action State (Unit {0})
