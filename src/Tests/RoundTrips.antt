-- ===== src/Tests/RoundTrips.antt =====
-- Files and messages that are printed and read back, at concrete inputs.
use globant.Base.{◌≡◌, refl, inl, List, [], ◌∷◌, Text, codes, map, pos, negsuc, show_nat, arith}
use globant.Errors.{ok, integrity_error, record_conflict_error, record_foreign_key_error}
use globant.Errors.Translator.{translate_db_error}
use globant.Errors.Messages.{
  jobs_pkey, duplicate_key, translate_db_error-duplicate_key, department_id_fkey, missing_reference,
  translate_db_error-missing_reference,
}
use globant.Models.{Datetime, DepartmentRecord, EmployeeRecord, fits_integer}
use globant.Csv.{parse_departments, parse_employees}
use globant.Csv.Decode.Encoded.{encode}
use globant.Csv.Reader.{csv_rows}
use globant.Csv.Reader.Printed.{print_rows, csv_rows-print_rows}
use globant.Csv.RoundTrip.{
  department_fields, parse_departments-print, employee_fields_of, parse_employees-print,
}
use globant.Tests.Worker.{noon, some_date}

-- A comma, a quote and a newline inside a field; a row with no field.
abbrev rows : List (List Text)
rows = (codes "1" ∷ codes "Sales, \"EMEA\"\nand more" ∷ []) ∷ [] ∷ ([] ∷ codes "é" ∷ []) ∷ []

csv_rows-print_rows_example : csv_rows (print_rows rows) ≡ ok rows
csv_rows-print_rows_example =
    csv_rows-print_rows rows
      ((omega arith, (omega arith, tt)), (tt, ((omega arith, (omega arith, tt)), tt)))

abbrev two_departments : List DepartmentRecord
two_departments =
    record { id = pos 12; department = codes "R\"D" }
    ∷ record { id = negsuc 4; department = [] }
    ∷ []

parse_departments-print_example :
    parse_departments (encode (print_rows (map department_fields two_departments)))
    ≡ ok (two_departments, [])
unfolding fits_integer
parse_departments-print_example = parse_departments-print two_departments (
  refl,
  (omega arith, (inl (omega arith), (inl (omega arith), (inl (omega arith), tt)))),
  (refl, (omega arith, tt), tt),
)

-- The name of the only date that `some_date` gives.
abbrev date_name : Datetime → Text
date_name d = codes "2021"

abbrev ana : EmployeeRecord
ana = record {
  id = pos 4;
  name = codes "Ana";
  hiring_datetime = noon;
  department_id = pos 1;
  job_id = pos 4;
}

parse_employees-print_example :
    parse_employees some_date (encode (print_rows (map (employee_fields_of date_name) (ana ∷ []))))
    ≡ ok (ana ∷ [], [])
unfolding fits_integer
parse_employees-print_example = parse_employees-print date_name some_date (ana ∷ []) (
  refl,
  (omega arith, (inl (omega arith), (inl (omega arith), (inl (omega arith), tt)))),
  (
    omega arith,
    (inl (omega arith), (inl (omega arith), (inl (omega arith), (inl (omega arith), tt)))),
  ),
  refl,
  refl,
  refl,
  tt,
)

translate_db_error-duplicate_key_example :
    translate_db_error
      (integrity_error (duplicate_key (codes "jobs_pkey") (show_nat 42) (codes "[SQL: INSERT]")))
    ≡ record_conflict_error (codes "jobs") (pos 42)
translate_db_error-duplicate_key_example =
    translate_db_error-duplicate_key jobs_pkey 42 (codes "[SQL: INSERT]")

translate_db_error-missing_reference_example :
    translate_db_error (
      integrity_error
        (missing_reference department_id_fkey (codes "99") (codes "\"departments\".")))
    ≡ record_foreign_key_error (codes "department_id") (codes "99")
translate_db_error-missing_reference_example =
    translate_db_error-missing_reference department_id_fkey b'9' (codes "9")
      (codes "\"departments\".") ((refl, refl, (refl, refl, tt)))
