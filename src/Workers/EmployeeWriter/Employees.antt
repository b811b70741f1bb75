-- ===== src/Workers/EmployeeWriter/Employees.antt =====
-- What storing employees means, and what a first part of them leaves.
use globant.Base.{◌≡◌, refl, sym, ap, ◌∙◌, List, [], ◌++◌, Text, append-nil, append_assoc}
use globant.Errors.{Uuid}
use globant.Models.{Db, EmployeeRecord}
use globant.UnitOfWork.Contract.{insert_employee_record}
use globant.IngestRows.Greedy.{greedy_db, greedy_errors, greedy_db-append, greedy_errors-append}
use globant.Workers.EmployeeWriter.{employee_label}

module _ (b : Uuid) where
  -- The database and the errors that a list of records leaves.
  abbrev pub employees_db : List EmployeeRecord → Db → Db
  employees_db = greedy_db (λ r. insert_employee_record r b) employee_label

  abbrev pub employees_errors : List EmployeeRecord → Db → List Text
  employees_errors = greedy_errors (λ r. insert_employee_record r b) employee_label

  -- A first part of the records has been stored in `d`, with the result `c`.
  abbrev pub FirstPart : List EmployeeRecord → Db → Db → Type 0
  FirstPart records d c =
      (done : List EmployeeRecord) × (left : List EmployeeRecord) × (records ≡ done ++ left)
      × (c ≡ employees_db done d)

  pub employees_db-append :
      (xs ys : List EmployeeRecord) (d : Db)
      → employees_db (xs ++ ys) d ≡ employees_db ys (employees_db xs d)
  employees_db-append = greedy_db-append (λ r. insert_employee_record r b) employee_label

  pub employees_errors-append :
      (xs ys : List EmployeeRecord) (d : Db)
      → employees_errors (xs ++ ys) d
        ≡ employees_errors xs d ++ employees_errors ys (employees_db xs d)
  employees_errors-append = greedy_errors-append (λ r. insert_employee_record r b) employee_label

  -- All of them.
  pub whole-FirstPart :
      (records : List EmployeeRecord) (d : Db) → FirstPart records d (employees_db records d)
  whole-FirstPart records d = (records, [], sym (append-nil records), refl)

  pub FirstPart-append :
      (xs ys : List EmployeeRecord) (d c : Db) → FirstPart xs d c → FirstPart (xs ++ ys) d c
  FirstPart-append xs ys d c (done, left, e, same) =
      (done, left ++ ys, ap (λ t. t ++ ys) e ∙ append_assoc done left ys, same)

  pub FirstPart-after :
      (xs ys : List EmployeeRecord) (d c : Db)
      → FirstPart ys (employees_db xs d) c
      → FirstPart (xs ++ ys) d c
  FirstPart-after xs ys d c (done, left, e, same) = (
    xs ++ done,
    left,
    ap (λ t. xs ++ t) e ∙ sym (append_assoc xs done left),
    same ∙ sym (employees_db-append xs done d),
  )
