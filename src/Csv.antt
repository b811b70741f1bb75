-- ===== src/Csv.antt =====
-- hiring-service/src/app/services/ingestion/helpers/csv_parser.py, with what it uses of Python:
-- `bytes.decode`, `csv.reader` and `int` in the modules below. `datetime.fromisoformat` is a
-- parameter.
pub mod Decode
pub mod Reader
pub mod Integer
pub mod Rows
pub mod Printable
pub mod RoundTrip
use globant.Base.{ℕ, suc, ◌+◌, Option, none, some, List, [], ◌∷◌, ◌++◌, Text, codes, show_nat, ℤ}
use globant.Errors.{Exc, Result, ok, err, other}
use globant.Models.{DepartmentRecord, JobRecord, EmployeeRecord, Datetime}
use Decode.{decode}
use Reader.{csv_rows}
use Integer.{parse_int}

-- `Result` as a monad.
abbrev pub and_then : {A B : Type 0} → Result A → (A → Result B) → Result B
and_then (ok a) f = f a
and_then (err e) f = err e

-- `f"row {i}: invalid"`
unfoldable pub invalid_row : ℕ → Text
invalid_row i = codes "row " ++ (show_nat i ++ codes ": invalid")

-- The loop over the rows, from number `i`: `record` builds a record or raises.
unfoldable pub parse_rows :
    {R : Type 0}
    → (List Text → Option R)
    → ℕ
    → List (List Text)
    → List R
    → List Text
    → List R × List Text
unfolding invalid_row
parse_rows record_of i [] records errors = (records, errors)
parse_rows record_of i (row ∷ rows) records errors = elim (record_of row) [
  | none ↦ parse_rows record_of (suc i) rows records (errors ++ invalid_row i ∷ [])
  | some r ↦ parse_rows record_of (suc i) rows (records ++ r ∷ []) errors
]

-- The rows of the file: `csv.reader(io.StringIO(raw.decode()))`. What these raise is not caught.
unfoldable pub read_rows : List ℕ → Result (List (List Text))
unfolding decode csv_rows
read_rows raw = elim (decode raw) [
  | none ↦ err (other (codes "UnicodeDecodeError"))
  | some text ↦ csv_rows text
]

unfoldable pub parse_with :
    {R : Type 0} → (List Text → Option R) → List ℕ → Result (List R × List Text)
unfolding parse_rows read_rows
parse_with record_of raw = and_then (read_rows raw) (λ rows. ok (parse_rows record_of 1 rows [] []))

-- The body of each `try`, which takes every exception as an invalid row.
unfoldable pub department_of : List Text → Option DepartmentRecord
unfolding parse_int
department_of (a ∷ name ∷ _) = elim (parse_int a) [
  | none ↦ none
  | some i ↦ some (record { id = i; department = name })
]
department_of _ = none

unfoldable pub job_of : List Text → Option JobRecord
unfolding parse_int
job_of (a ∷ name ∷ _) = elim (parse_int a) [
  | none ↦ none
  | some i ↦ some (record { id = i; job = name })
]
job_of _ = none

unfoldable pub employee_fields :
    Option ℤ → Text → Option Datetime → Option ℤ → Option ℤ → Option EmployeeRecord
employee_fields (some i) name (some hired) (some department) (some job) = some (record {
  id = i;
  name = name;
  hiring_datetime = hired;
  department_id = department;
  job_id = job;
})
employee_fields _ name _ _ _ = none

unfoldable pub parse_departments : List ℕ → Result (List DepartmentRecord × List Text)
unfolding parse_with department_of
parse_departments = parse_with department_of

unfoldable pub parse_jobs : List ℕ → Result (List JobRecord × List Text)
unfolding parse_with job_of
parse_jobs = parse_with job_of

module _ (fromisoformat : Text → Option Datetime) where
  unfoldable pub employee_of : List Text → Option EmployeeRecord
  unfolding employee_fields parse_int
  employee_of (a ∷ name ∷ hired ∷ department ∷ job ∷ _) =
      employee_fields (parse_int a) name (fromisoformat hired) (parse_int department)
        (parse_int job)
  employee_of _ = none

  unfoldable pub parse_employees : List ℕ → Result (List EmployeeRecord × List Text)
  unfolding parse_with employee_of
  parse_employees = parse_with employee_of
