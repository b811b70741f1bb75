-- ===== src/Migrations.antt =====
-- The migrations: the scripts below hiring-service/src/app/migrations/versions/, as lists of the
-- operations of Alembic. Alembic and the database are a parameter.
pub mod Metadata
pub mod Upgraded
pub mod Environment
use globant.Base.{true, false, List, [], ◌∷◌, Text, codes}
use globant.Action.{Action, pure, ◌>>◌}
use globant.Catalog.{
  uuid, jsonb, timestamp_with_time_zone, integer, string, enum, Table, column, Operation,
  create_table, create_index, drop_index, drop_table, add_value,
}

-- A database that Alembic works on, which may refuse an operation.
pub record Database : Type 1 where
  pub State : Type 0
  pub execute : Operation → Action State (Unit {0})

-- One operation after another, up to one that is refused.
unfoldable pub perform : (D : Database) → List Operation → Action D.State (Unit {0})
perform D [] = pure tt
perform D (op ∷ ops) = D.execute op >> perform D ops

-- The table `ingestion_batches`, without its index.
abbrev pub ingestion_batches_table : Table
ingestion_batches_table = record {
  name = codes "ingestion_batches";
  columns =
      column (codes "id") uuid false false (codes "Unique batch identifier")
      ∷ column (codes "status") (enum (codes "ingestion_batch_status")) false false
          (codes "Ingestion status")
      ∷ column (codes "errors") jsonb true false
          (codes "Row-level errors collected during ingestion")
      ∷ column (codes "created_at") timestamp_with_time_zone false true
          (codes "Timestamp when the batch was created")
      ∷ [];
  primary_key = codes "id";
  foreign_keys = [];
  indexes = [];
  comment = codes "Tracks each CSV ingestion request for audit and traceability";
}

-- The table `departments`, without its index.
abbrev pub departments_table : Table
departments_table = record {
  name = codes "departments";
  columns =
      column (codes "created_at") timestamp_with_time_zone false true
        (codes "Row creation timestamp")
      ∷ column (codes "batch_id") uuid false false (codes "Ingestion batch this row belongs to")
      ∷ column (codes "id") integer false false (codes "Id of the department")
      ∷ column (codes "department") string false false (codes "Name of the department")
      ∷ [];
  primary_key = codes "id";
  foreign_keys = (codes "batch_id", codes "ingestion_batches") ∷ [];
  indexes = [];
  comment = codes "Company departments";
}

-- The table `jobs`, without its index.
abbrev pub jobs_table : Table
jobs_table = record {
  name = codes "jobs";
  columns =
      column (codes "created_at") timestamp_with_time_zone false true
        (codes "Row creation timestamp")
      ∷ column (codes "batch_id") uuid false false (codes "Ingestion batch this row belongs to")
      ∷ column (codes "id") integer false false (codes "Id of the job")
      ∷ column (codes "job") string false false (codes "Name of the job position")
      ∷ [];
  primary_key = codes "id";
  foreign_keys = (codes "batch_id", codes "ingestion_batches") ∷ [];
  indexes = [];
  comment = codes "Available job positions";
}

-- The table `employees`, without its index.
abbrev pub employees_table : Table
employees_table = record {
  name = codes "employees";
  columns =
      column (codes "created_at") timestamp_with_time_zone false true
        (codes "Row creation timestamp")
      ∷ column (codes "batch_id") uuid false false (codes "Ingestion batch this row belongs to")
      ∷ column (codes "id") integer false false (codes "Id of the employee")
      ∷ column (codes "name") string false false (codes "Name and surname of the employee")
      ∷ column (codes "hiring_datetime") timestamp_with_time_zone false false
          (codes "Hire datetime in ISO format")
      ∷ column (codes "department_id") integer false false
          (codes "Id of the department which the employee was hired for")
      ∷ column (codes "job_id") integer false false
          (codes "Id of the job which the employee was hired for")
      ∷ [];
  primary_key = codes "id";
  foreign_keys =
      (codes "batch_id", codes "ingestion_batches")
      ∷ (codes "department_id", codes "departments")
      ∷ (codes "job_id", codes "jobs")
      ∷ [];
  indexes = [];
  comment = codes "Historical hired employees";
}

-- `upgrade` of baf15e3018b0
abbrev pub create_tables : List Operation
create_tables =
    create_table ((codes "ingestion_batch_status", codes "pending" ∷ codes "completed" ∷ []) ∷ [])
      ingestion_batches_table
    ∷ create_index (codes "ix_ingestion_batches_id") (codes "ingestion_batches") (codes "id")
    ∷ create_table [] departments_table
    ∷ create_index (codes "ix_departments_id") (codes "departments") (codes "id")
    ∷ create_table [] jobs_table
    ∷ create_index (codes "ix_jobs_id") (codes "jobs") (codes "id")
    ∷ create_table [] employees_table
    ∷ create_index (codes "ix_employees_id") (codes "employees") (codes "id")
    ∷ []

-- Its `downgrade`.
abbrev pub drop_tables : List Operation
drop_tables =
    drop_index (codes "ix_employees_id") (codes "employees")
    ∷ drop_table (codes "employees")
    ∷ drop_index (codes "ix_jobs_id") (codes "jobs")
    ∷ drop_table (codes "jobs")
    ∷ drop_index (codes "ix_departments_id") (codes "departments")
    ∷ drop_table (codes "departments")
    ∷ drop_index (codes "ix_ingestion_batches_id") (codes "ingestion_batches")
    ∷ drop_table (codes "ingestion_batches")
    ∷ []

-- `upgrade` of 1099b8b292cc, whose `downgrade` does nothing.
abbrev pub add_failed : List Operation
add_failed = add_value (codes "ingestion_batch_status") (codes "failed") ∷ []
