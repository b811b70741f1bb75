-- ===== src/Models.antt =====
-- The tables: hiring-service/src/app/models/models.py and the constraints that it declares
-- (primary keys, foreign keys, column types), with the records of
-- hiring-service/src/app/services/ingestion/schemas/. The rows of a table have no order: an insert
-- puts its row in front. The audit column `created_at` of departments, jobs and employees is filled
-- by the server and read by nothing here, and is left out.
pub mod Integrity
pub mod Evolution
use globant.Base.{
  ℕ, ◌+◌, ◌^◌, Bool, true, false, ◌&&◌, ◌||◌, not, Option, none, some, List, [], ◌∷◌, Text, ℤ,
  pos_part, neg_part, int_eq, ltb, leb, ◌==◌, if◌then◌else◌,
}
use mathlib.Core.Option.{map as map_option}
use globant.Errors.{Uuid}

pub data IngestionBatchStatus : Type 0 where
  pending completed failed : IngestionBatchStatus

-- `created_at` is in microseconds.
pub record IngestionBatch : Type 0 where
  pub id : Uuid
  pub status : IngestionBatchStatus
  pub errors : Option (List Text)
  pub created_at : ℕ

pub record Departments : Type 0 where
  pub id : ℤ
  pub department : Text
  pub batch_id : Uuid

pub record Jobs : Type 0 where
  pub id : ℤ
  pub job : Text
  pub batch_id : Uuid

-- Python's `datetime`; the offset from UTC, of an aware one, is in microseconds.
pub record Datetime : Type 0 where
  pub year : ℕ
  pub month : ℕ
  pub day : ℕ
  pub hour : ℕ
  pub minute : ℕ
  pub second : ℕ
  pub microsecond : ℕ
  pub utc_offset : Option ℤ

pub record Employees : Type 0 where
  pub id : ℤ
  pub name : Text
  pub hiring_datetime : Datetime
  pub department_id : ℤ
  pub job_id : ℤ
  pub batch_id : Uuid

-- The records that the parser makes and the repositories take.
pub record DepartmentRecord : Type 0 where
  pub id : ℤ
  pub department : Text

pub record JobRecord : Type 0 where
  pub id : ℤ
  pub job : Text

pub record EmployeeRecord : Type 0 where
  pub id : ℤ
  pub name : Text
  pub hiring_datetime : Datetime
  pub department_id : ℤ
  pub job_id : ℤ

-- The contents of the database.
pub record Db : Type 0 where
  pub batches : List IngestionBatch
  pub departments : List Departments
  pub jobs : List Jobs
  pub employees : List Employees

-- The row of a primary key.
abbrev pub find_batch : Uuid → List IngestionBatch → Option IngestionBatch
find_batch i [] = none
find_batch i (b ∷ bs) = if b.id == i then some b else find_batch i bs

abbrev pub has_batch : Uuid → List IngestionBatch → Bool
has_batch i [] = false
has_batch i (b ∷ bs) = (b.id == i) || has_batch i bs

abbrev pub has_department : ℤ → List Departments → Bool
has_department i [] = false
has_department i (d ∷ ds) = int_eq d.id i || has_department i ds

abbrev pub has_job : ℤ → List Jobs → Bool
has_job i [] = false
has_job i (j ∷ js) = int_eq j.id i || has_job i js

abbrev pub has_employee : ℤ → List Employees → Bool
has_employee i [] = false
has_employee i (e ∷ es) = int_eq e.id i || has_employee i es

abbrev pub find_department : ℤ → List Departments → Option Departments
find_department i [] = none
find_department i (d ∷ ds) = if int_eq d.id i then some d else find_department i ds

abbrev pub find_job : ℤ → List Jobs → Option Jobs
find_job i [] = none
find_job i (j ∷ js) = if int_eq j.id i then some j else find_job i js

abbrev pub find_employee : ℤ → List Employees → Option Employees
find_employee i [] = none
find_employee i (e ∷ es) = if int_eq e.id i then some e else find_employee i es

-- What an instance of a model holds: a row of one of the tables.
pub data Row : Type 0 where
  batch_values : IngestionBatch → Row
  department_values : Departments → Row
  job_values : Jobs → Row
  employee_values : Employees → Row

-- The row under the same primary key, as it is stored now.
unfoldable pub stored_row : Row → Db → Option Row
stored_row (batch_values b) db = map_option batch_values (find_batch b.id db.batches)
stored_row (department_values d) db =
    map_option department_values (find_department d.id db.departments)
stored_row (job_values j) db = map_option job_values (find_job j.id db.jobs)
stored_row (employee_values e) db = map_option employee_values (find_employee e.id db.employees)

-- A column of type `Integer` holds -2^31 to 2^31 - 1.
unfoldable pub fits_integer : ℤ → Bool
fits_integer i = ltb (pos_part i) (2 ^ 31) && leb (neg_part i) (2 ^ 31)

-- A column of type `String` holds any text without the code point 0.
unfoldable pub fits_string : Text → Bool
fits_string [] = true
fits_string (c ∷ t) = not (c == 0) && fits_string t

-- An INSERT of one row, under the constraints of its table; `none` when one is violated.
unfoldable pub insert_batch : IngestionBatch → Db → Option Db
insert_batch b db =
    if has_batch b.id db.batches then none else some (record db { batches = b ∷ db.batches })

unfoldable pub insert_department : Departments → Db → Option Db
insert_department d db =
    if fits_integer d.id
      && fits_string d.department
      && not (has_department d.id db.departments)
      && has_batch d.batch_id db.batches
    then some (record db { departments = d ∷ db.departments })
    else none

unfoldable pub insert_job : Jobs → Db → Option Db
insert_job j db =
    if fits_integer j.id
      && fits_string j.job
      && not (has_job j.id db.jobs)
      && has_batch j.batch_id db.batches
    then some (record db { jobs = j ∷ db.jobs })
    else none

unfoldable pub insert_employee : Employees → Db → Option Db
insert_employee e db =
    if fits_integer e.id
      && fits_string e.name
      && fits_integer e.department_id
      && fits_integer e.job_id
      && not (has_employee e.id db.employees)
      && has_department e.department_id db.departments
      && has_job e.job_id db.jobs
      && has_batch e.batch_id db.batches
    then some (record db { employees = e ∷ db.employees })
    else none

-- `UPDATE ingestion_batches SET status = …, errors = … WHERE id = …`
abbrev pub update_batches :
    Uuid → IngestionBatchStatus → List Text → List IngestionBatch → List IngestionBatch
update_batches i status errors [] = []
update_batches i status errors (b ∷ bs) =
    (if b.id == i then record b { status = status; errors = some errors } else b)
    ∷ update_batches i status errors bs

abbrev pub update_batch : Uuid → IngestionBatchStatus → List Text → Db → Db
update_batch i status errors db = record db { batches = update_batches i status errors db.batches }

-- A column of type `JSONB` refuses a string with the code point 0. Texts come from UTF-8, and have
-- no surrogates.
abbrev pub fits_json : List Text → Bool
fits_json [] = true
fits_json (t ∷ ts) = fits_string t && fits_json ts

-- The same UPDATE under the types of the columns; `none` when a value is refused.
abbrev pub write_status : Uuid → IngestionBatchStatus → List Text → Db → Option Db
write_status i status errors db =
    if fits_json errors then some (update_batch i status errors db) else none
