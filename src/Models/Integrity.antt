-- ===== src/Models/Integrity.antt =====
-- The integrity of the database: keys are unique, and every reference has its row. What an INSERT
-- that the constraints allow and an update of a batch do to it.
use globant.Base.{◌≡◌, refl, ◌∙◌, true, false, some, List, [], ◌∷◌, ℤ, arith, Text}
use globant.Errors.{Uuid}
use globant.Models.{
  IngestionBatch, IngestionBatchStatus, Departments, Jobs, Employees, Db, has_batch, has_department,
  has_job, has_employee, insert_batch, insert_department, insert_job, insert_employee,
  update_batches, update_batch,
}

abbrev BatchesOk : List IngestionBatch → Type 0
BatchesOk [] = Unit
BatchesOk (b ∷ bs) = (has_batch b.id bs ≡ false) × BatchesOk bs

abbrev DepartmentsOk : List IngestionBatch → List Departments → Type 0
DepartmentsOk bs [] = Unit
DepartmentsOk bs (d ∷ ds) =
    (has_department d.id ds ≡ false) × (has_batch d.batch_id bs ≡ true) × DepartmentsOk bs ds

abbrev JobsOk : List IngestionBatch → List Jobs → Type 0
JobsOk bs [] = Unit
JobsOk bs (j ∷ js) = (has_job j.id js ≡ false) × (has_batch j.batch_id bs ≡ true) × JobsOk bs js

abbrev EmployeesOk : List IngestionBatch → List Departments → List Jobs → List Employees → Type 0
EmployeesOk bs ds js [] = Unit
EmployeesOk bs ds js (e ∷ es) =
    (has_employee e.id es ≡ false)
    × (has_batch e.batch_id bs ≡ true)
    × (has_department e.department_id ds ≡ true)
    × (has_job e.job_id js ≡ true)
    × EmployeesOk bs ds js es

pub record IsValid (db : Db) : Type 0 where
  pub batches_ok : BatchesOk db.batches
  pub departments_ok : DepartmentsOk db.batches db.departments
  pub jobs_ok : JobsOk db.batches db.jobs
  pub employees_ok : EmployeesOk db.batches db.departments db.jobs db.employees

-- The batches that are there stay there.
abbrev Grows : List IngestionBatch → List IngestionBatch → Type 0
Grows bs bs' = (i : Uuid) → has_batch i bs ≡ true → has_batch i bs' ≡ true

module _ (bs bs' : List IngestionBatch) (grows : Grows bs bs') where
  DepartmentsOk-Grows : (ds : List Departments) → DepartmentsOk bs ds → DepartmentsOk bs' ds
  DepartmentsOk-Grows [] h = h
  DepartmentsOk-Grows (d ∷ ds) h = (h.0, grows d.batch_id h.1, DepartmentsOk-Grows ds h.2)

  JobsOk-Grows : (js : List Jobs) → JobsOk bs js → JobsOk bs' js
  JobsOk-Grows [] h = h
  JobsOk-Grows (j ∷ js) h = (h.0, grows j.batch_id h.1, JobsOk-Grows js h.2)

  EmployeesOk-Grows :
      (ds ds' : List Departments) (js js' : List Jobs)
      → ((i : ℤ) → has_department i ds ≡ true → has_department i ds' ≡ true)
      → ((i : ℤ) → has_job i js ≡ true → has_job i js' ≡ true)
      → (es : List Employees) → EmployeesOk bs ds js es
      → EmployeesOk bs' ds' js' es
  EmployeesOk-Grows ds ds' js js' hd hj [] h = h
  EmployeesOk-Grows ds ds' js js' hd hj (e ∷ es) h = (
    h.0,
    grows e.batch_id h.1,
    hd e.department_id h.2,
    hj e.job_id h.3,
    EmployeesOk-Grows ds ds' js js' hd hj es h.4,
  )

has_department-cons :
    (d : Departments) (ds : List Departments) (i : ℤ)
    → has_department i ds ≡ true
    → has_department i (d ∷ ds) ≡ true
has_department-cons d ds i h = ground arith

has_job-cons : (j : Jobs) (js : List Jobs) (i : ℤ) → has_job i js ≡ true → has_job i (j ∷ js) ≡ true
has_job-cons j js i h = ground arith

Grows-cons : (b : IngestionBatch) (bs : List IngestionBatch) → Grows bs (b ∷ bs)
Grows-cons b bs i h = ground arith

has_batch-update_batches :
    (b : Uuid) (status : IngestionBatchStatus) (errors : List Text) (bs : List IngestionBatch)
    (i : Uuid)
    → has_batch i (update_batches b status errors bs) ≡ has_batch i bs
has_batch-update_batches b status errors [] i = refl
has_batch-update_batches b status errors (c ∷ bs) i =
    ground (arith, has_batch-update_batches b status errors bs i)

BatchesOk-update_batches :
    (b : Uuid) (status : IngestionBatchStatus) (errors : List Text) (bs : List IngestionBatch)
    → BatchesOk bs
    → BatchesOk (update_batches b status errors bs)
BatchesOk-update_batches b status errors [] h = h
BatchesOk-update_batches b status errors (c ∷ bs) h = ground (
  arith,
  BatchesOk-update_batches b status errors bs,
  has_batch-update_batches b status errors bs c.id,
)

pub insert_batch-IsValid :
    (b : IngestionBatch) (db db' : Db) → insert_batch b db ≡ some db' → IsValid db → IsValid db'
unfolding insert_batch
insert_batch-IsValid b db db' e v =
    let grows = Grows-cons b db.batches in
    let ds =
      DepartmentsOk-Grows db.batches (b ∷ db.batches) grows db.departments v.departments_ok in
    let js = JobsOk-Grows db.batches (b ∷ db.batches) grows db.jobs v.jobs_ok in
    let es =
      EmployeesOk-Grows db.batches (b ∷ db.batches) grows db.departments db.departments db.jobs
        db.jobs (λ _ h. h) (λ _ h. h) db.employees v.employees_ok in
    ground arith

pub update_batch-IsValid :
    (b : Uuid) (status : IngestionBatchStatus) (errors : List Text) (db : Db)
    → IsValid db
    → IsValid (update_batch b status errors db)
update_batch-IsValid b status errors db v =
    let bs = update_batches b status errors db.batches in
    let grows : Grows db.batches bs =
      λ i h. has_batch-update_batches b status errors db.batches i ∙ h in
    record {
      batches_ok = BatchesOk-update_batches b status errors db.batches v.batches_ok;
      departments_ok = DepartmentsOk-Grows db.batches bs grows db.departments v.departments_ok;
      jobs_ok = JobsOk-Grows db.batches bs grows db.jobs v.jobs_ok;
      employees_ok =
          EmployeesOk-Grows db.batches bs grows db.departments db.departments db.jobs db.jobs
            (λ _ h. h) (λ _ h. h) db.employees v.employees_ok;
    }

pub insert_department-IsValid :
    (d : Departments) (db db' : Db) → insert_department d db ≡ some db' → IsValid db → IsValid db'
unfolding insert_department
insert_department-IsValid d db db' e v =
    let es =
      EmployeesOk-Grows db.batches db.batches (λ _ h. h) db.departments (d ∷ db.departments) db.jobs
        db.jobs (has_department-cons d db.departments) (λ _ h. h) db.employees v.employees_ok in
    ground arith

pub insert_job-IsValid :
    (j : Jobs) (db db' : Db) → insert_job j db ≡ some db' → IsValid db → IsValid db'
unfolding insert_job
insert_job-IsValid j db db' e v =
    let es =
      EmployeesOk-Grows db.batches db.batches (λ _ h. h) db.departments db.departments db.jobs
        (j ∷ db.jobs) (λ _ h. h) (has_job-cons j db.jobs) db.employees v.employees_ok in
    ground arith

pub insert_employee-IsValid :
    (x : Employees) (db db' : Db) → insert_employee x db ≡ some db' → IsValid db → IsValid db'
unfolding insert_employee
insert_employee-IsValid x db db' e v = ground arith
