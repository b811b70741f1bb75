-- ===== src/Migrations/Metadata.antt =====
-- The tables that hiring-service/src/app/models/models.py declares. The key of a table is its `id`.
use globant.Base.{true, false, List, [], ◌∷◌, Text, codes}
use globant.Catalog.{
  Column, uuid, jsonb, timestamp_with_time_zone, integer, string, enum, Table, column,
}

-- `IngestionBatchStatus`, as a type of the database
abbrev pub ingestion_batch_status : Text × List Text
ingestion_batch_status =
    (codes "ingestion_batch_status", codes "pending" ∷ codes "completed" ∷ codes "failed" ∷ [])

-- `IngestionBatch`
abbrev pub ingestion_batches : Table
ingestion_batches = record {
  name = codes "ingestion_batches";
  columns =
      column (codes "id") uuid false false (codes "Unique batch identifier")
      ∷ column (codes "status") (enum (codes "ingestion_batch_status")) false false
          (codes "Ingestion status")
      ∷ column (codes "errors") jsonb true false
          (codes "Row-level errors collected during ingestion")
      ∷ column (codes "created_at") timestamp_with_time_zone false true
          (codes "Timestamp when the batch was created")
      ∷ [];
  primary_key = codes "id";
  foreign_keys = [];
  indexes = (codes "ix_ingestion_batches_id", codes "id") ∷ [];
  comment = codes "Tracks each CSV ingestion request for audit and traceability";
}

-- `AuditMixin`, in front of the columns and the foreign keys of a table.
abbrev pub audited : List Column → List Column
audited columns =
    column (codes "created_at") timestamp_with_time_zone false true (codes "Row creation timestamp")
    ∷ column (codes "batch_id") uuid false false (codes "Ingestion batch this row belongs to")
    ∷ columns

abbrev pub audited_keys : List (Text × Text) → List (Text × Text)
audited_keys keys = (codes "batch_id", codes "ingestion_batches") ∷ keys

-- `Departments`
abbrev pub departments : Table
departments = record {
  name = codes "departments";
  columns = audited (
      column (codes "id") integer false false (codes "Id of the department")
      ∷ column (codes "department") string false false (codes "Name of the department")
      ∷ []);
  primary_key = codes "id";
  foreign_keys = audited_keys ([]);
  indexes = (codes "ix_departments_id", codes "id") ∷ [];
  comment = codes "Company departments";
}

-- `Jobs`
abbrev pub jobs : Table
jobs = record {
  name = codes "jobs";
  columns = audited (
      column (codes "id") integer false false (codes "Id of the job")
      ∷ column (codes "job") string false false (codes "Name of the job position")
      ∷ []);
  primary_key = codes "id";
  foreign_keys = audited_keys ([]);
  indexes = (codes "ix_jobs_id", codes "id") ∷ [];
  comment = codes "Available job positions";
}

-- `Employees`
abbrev pub employees : Table
employees = record {
  name = codes "employees";
  columns = audited (
      column (codes "id") integer false false (codes "Id of the employee")
      ∷ column (codes "name") string false false (codes "Name and surname of the employee")
      ∷ column (codes "hiring_datetime") timestamp_with_time_zone false false
          (codes "Hire datetime in ISO format")
      ∷ column (codes "department_id") integer false false
          (codes "Id of the department which the employee was hired for")
      ∷ column (codes "job_id") integer false false
          (codes "Id of the job which the employee was hired for")
      ∷ []);
  primary_key = codes "id";
  foreign_keys =
      audited_keys
        ((codes "department_id", codes "departments") ∷ (codes "job_id", codes "jobs") ∷ []);
  indexes = (codes "ix_employees_id", codes "id") ∷ [];
  comment = codes "Historical hired employees";
}

-- `SQLModel.metadata`, the tables that refer to others first
abbrev pub metadata : List Table
metadata = employees ∷ jobs ∷ departments ∷ ingestion_batches ∷ []
