-- ===== src/Csv/RoundTrip.antt =====
-- csv_parser.py on files that list records: the fields of each in quotes, one record to a line, in
-- UTF-8.
use globant.Base.{
  ℕ, suc, ◌≤◌, ◌≡◌, refl, true, Option, some, List, [], ◌∷◌, Text, map, length, show_int,
}
use globant.Errors.{ok}
use globant.Models.{DepartmentRecord, EmployeeRecord, Datetime, fits_integer}
use globant.Csv.Decode.Encoded.{encode, Encodable, decode-encode}
use globant.Csv.Reader.Printed.{print_rows, FieldsFit, RowsFit, csv_rows-print_rows}
use globant.Csv.Rows.{valid_records, invalid_rows, parse_rows_lem}
use globant.Csv.{
  read_rows, parse_with, department_of, employee_of, employee_fields, parse_departments,
  parse_employees,
}
use globant.Csv.Printable.{AllEncodable, Encodable-print_row, show_int_lem}

module _ {R : Type 0} (record_of : List Text → Option R) (fields : R → List Text) where
  -- A record whose fields can be printed and read.
  abbrev Readable : R → Type 0
  Readable r = FieldsFit (fields r) × AllEncodable (fields r) × (record_of (fields r) ≡ some r)

  abbrev AllReadable : List R → Type 0
  AllReadable [] = Unit
  AllReadable (r ∷ rs) = Readable r × AllReadable rs

  readable_file :
      (rs : List R)
      → AllReadable rs
      → RowsFit (map fields rs)
        × Encodable (print_rows (map fields rs))
        × (valid_records record_of (map fields rs) ≡ rs)
        × ((i : ℕ) → invalid_rows record_of i (map fields rs) ≡ [])
  readable_file [] h = (tt, tt, refl, λ i. refl)
  readable_file (r ∷ rs) h =
      let (fit, encodable, valid, complete) = readable_file rs h.1 in
      (
        (h.0.0, fit),
        Encodable-print_row (fields r) (print_rows (map fields rs)) h.0.1 encodable,
        rw (valid_records, h.0.2, valid) refl,
        λ i. rw (invalid_rows, h.0.2) (complete (suc i)),
      )

  read_rows-encode :
      (rows : List (List Text))
      → RowsFit rows
      → Encodable (print_rows rows)
      → read_rows (encode (print_rows rows)) ≡ ok rows
  unfolding read_rows
  read_rows-encode rows fit encodable =
      rw (read_rows, decode-encode (print_rows rows) encodable) (csv_rows-print_rows rows fit)

  parse_with-print :
      (rs : List R)
      → AllReadable rs
      → parse_with record_of (encode (print_rows (map fields rs))) ≡ ok (rs, [])
  unfolding parse_with
  parse_with-print rs h =
      let rows = map fields rs in
      let (fit, encodable, valid, complete) = readable_file rs h in
      let parsed = parse_rows_lem record_of rows 1 [] [] in
      rw (read_rows-encode rows fit encodable, parsed, valid, complete 1) refl

-- A text that a field of a file can hold.
abbrev pub IsField : Text → Type 0
IsField t = (length t ≤ 131072) × Encodable t

abbrev pub department_fields : DepartmentRecord → List Text
department_fields r = show_int r.id ∷ r.department ∷ []

abbrev pub PrintableDepartments : List DepartmentRecord → Type 0
PrintableDepartments [] = Unit
PrintableDepartments (r ∷ rs) =
    (fits_integer r.id ≡ true) × IsField r.department × PrintableDepartments rs

AllReadable-departments :
    (rs : List DepartmentRecord)
    → PrintableDepartments rs
    → AllReadable department_of department_fields rs
unfolding department_of
AllReadable-departments [] h = tt
AllReadable-departments (r ∷ rs) h =
    let (short, encodable, read) = show_int_lem r.id h.0 in
    (
      ((short, (h.1.0, tt)), (encodable, (h.1.1, tt)), rw (department_of, read) refl),
      AllReadable-departments rs h.2,
    )

-- A file that lists departments, each with its key and its name in quotes, is parsed to these
-- departments with no error, where the keys fit the column and the names hold no surrogate and are
-- no longer than the limit of a field.
pub parse_departments-print :
    (rs : List DepartmentRecord)
    → PrintableDepartments rs
    → parse_departments (encode (print_rows (map department_fields rs))) ≡ ok (rs, [])
unfolding parse_departments
parse_departments-print rs h =
    parse_with-print department_of department_fields rs (AllReadable-departments rs h)

module _ (isoformat : Datetime → Text) where
  abbrev pub employee_fields_of : EmployeeRecord → List Text
  employee_fields_of r =
      show_int r.id
      ∷ r.name
      ∷ isoformat r.hiring_datetime
      ∷ show_int r.department_id
      ∷ show_int r.job_id
      ∷ []

  module _ (fromisoformat : Text → Option Datetime) where
    -- `fromisoformat` reads the date of a record as `isoformat` prints it.
    abbrev pub PrintableEmployees : List EmployeeRecord → Type 0
    PrintableEmployees [] = Unit
    PrintableEmployees (r ∷ rs) =
        (fits_integer r.id ≡ true)
        × IsField r.name
        × IsField (isoformat r.hiring_datetime)
        × (fromisoformat (isoformat r.hiring_datetime) ≡ some r.hiring_datetime)
        × (fits_integer r.department_id ≡ true)
        × (fits_integer r.job_id ≡ true)
        × PrintableEmployees rs

    AllReadable-employees :
        (rs : List EmployeeRecord)
        → PrintableEmployees rs
        → AllReadable (employee_of fromisoformat) employee_fields_of rs
    unfolding employee_of employee_fields
    AllReadable-employees [] h = tt
    AllReadable-employees (r ∷ rs) h =
        let (short1, encodable1, read1) = show_int_lem r.id h.0 in
        let (short2, encodable2, read2) = show_int_lem r.department_id h.4 in
        let (short3, encodable3, read3) = show_int_lem r.job_id h.5 in
        (
          (
            (short1, (h.1.0, (h.2.0, (short2, (short3, tt))))),
            (encodable1, (h.1.1, (h.2.1, (encodable2, (encodable3, tt))))),
            rw (read1, h.3, read2, read3) refl,
          ),
          AllReadable-employees rs h.6,
        )

    -- A file that lists employees, with every field in quotes, is parsed to these employees with no
    -- error, where `fromisoformat` reads their dates as `isoformat` prints them, the keys fit their
    -- columns, and the names and printed dates hold no surrogate and are no longer than the limit of
    -- a field.
    pub parse_employees-print :
        (rs : List EmployeeRecord)
        → PrintableEmployees rs
        → parse_employees fromisoformat (encode (print_rows (map employee_fields_of rs)))
          ≡ ok (rs, [])
    unfolding parse_employees
    parse_employees-print rs h =
        parse_with-print (employee_of fromisoformat) employee_fields_of rs
          (AllReadable-employees rs h)
