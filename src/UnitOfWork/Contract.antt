-- ===== src/UnitOfWork/Contract.antt =====
-- What a unit of work promises, in terms of a view: the committed database, the database as the
-- transaction sees it, whether the transaction is aborted, and what `rollback_to_savepoint` would
-- restore. `Outage` is the exceptions that may come at any call, such as a lost connection.
use globant.Base.{
  ℕ, ◌≡◌, ◌⊎◌, Bool, true, false, Option, none, some, List, [], ◌∷◌, Text, if◌then◌else◌,
}
use globant.Errors.{Uuid, Exc, Result, ok, err, is_operational}
use globant.Models.{
  Db, IngestionBatch, IngestionBatchStatus, DepartmentRecord, JobRecord, EmployeeRecord, find_batch,
  Row, stored_row, insert_batch, insert_department, insert_job, insert_employee, write_status,
}
use globant.UnitOfWork.{UnitOfWork, RowRepository}

pub record View : Type 0 where
  pub committed : Db
  pub current : Db
  pub aborted : Bool
  pub saved : Option Db

-- The transaction is open and sound.
abbrev pub sound : Db → Db → Option Db → View
sound committed current saved = record {
  committed = committed;
  current = current;
  aborted = false;
  saved = saved;
}

-- One record stored as a row of its table.
abbrev pub insert_department_record : DepartmentRecord → Uuid → Db → Option Db
insert_department_record r b =
    insert_department (record { id = r.id; department = r.department; batch_id = b })

abbrev pub insert_job_record : JobRecord → Uuid → Db → Option Db
insert_job_record r b = insert_job (record { id = r.id; job = r.job; batch_id = b })

abbrev pub insert_employee_record : EmployeeRecord → Uuid → Db → Option Db
insert_employee_record r b = insert_employee (record {
  id = r.id;
  name = r.name;
  hiring_datetime = r.hiring_datetime;
  department_id = r.department_id;
  job_id = r.job_id;
  batch_id = b;
})

abbrev pub new_batch : Uuid → IngestionBatchStatus → ℕ → IngestionBatch
new_batch b status created_at = record {
  id = b;
  status = status;
  errors = none;
  created_at = created_at;
}

-- `errors or []`
abbrev pub or_empty : Option (List Text) → List Text
or_empty none = []
or_empty (some errors) = errors

-- The rows of one INSERT statement, in order; all of them or none.
abbrev pub insert_rows : {R : Type 0} → (R → Db → Option Db) → List R → Db → Option Db
insert_rows ins [] db = some db
insert_rows ins (r ∷ rs) db = elim (ins r db) [ none ↦ none | some db' ↦ insert_rows ins rs db' ]

-- An INSERT needs a row.
abbrev pub insert_bulk : {R : Type 0} → (R → Db → Option Db) → List R → Db → Option Db
insert_bulk ins [] db = none
insert_bulk ins (r ∷ rs) db = insert_rows ins (r ∷ rs) db

module _ (Outage : Exc → Type 0) where
  -- Why a call may have raised, other than by an outage.
  abbrev Failed : Exc → View → Type 0
  Failed e v = Outage e ⊎ (v.aborted ≡ true)

  -- A call that changes the transaction by `step`, or raises if `step` violates a constraint. Such
  -- a violation is no `OperationalError`, and leaves the savepoint to go back to.
  abbrev pub Writes : (Db → Option Db) → View → Result (Unit {0}) → View → Type 0
  Writes step v (ok _) v' =
      (v.aborted ≡ false)
      × (step v.current ≡ some v'.current)
      × (v'.committed ≡ v.committed)
      × (v'.aborted ≡ false)
      × (v'.saved ≡ v.saved)
  Writes step v (err e) v' =
      (v'.committed ≡ v.committed)
      × (Outage e
          ⊎ (v.aborted ≡ true)
          ⊎ ((v'.saved ≡ v.saved) × (step v.current ≡ none) × (is_operational e ≡ false)))

  -- A call that raises no exception but `refusal` and those of an outage or an aborted transaction.
  abbrev pub Refuses : Exc → View → Result (Unit {0}) → Type 0
  Refuses refusal v (ok _) = Unit
  Refuses refusal v (err e) = Failed e v ⊎ (e ≡ refusal)

  -- The server sets the time at which a batch was created.
  abbrev pub AddsBatch : Uuid → IngestionBatchStatus → View → Result (Unit {0}) → View → Type 0
  AddsBatch b status v (ok _) v' =
      (v.aborted ≡ false)
      × ((t : ℕ) × (insert_batch (new_batch b status t) v.current ≡ some v'.current))
      × (v'.committed ≡ v.committed)
      × (v'.aborted ≡ false)
      × (v'.saved ≡ v.saved)
  AddsBatch b status v (err e) v' =
      (v'.committed ≡ v.committed)
      × (Failed e v
          ⊎ ((insert_batch (new_batch b status 0) v.current ≡ none) × (is_operational e ≡ false)))

  abbrev pub Commits : View → Result (Unit {0}) → View → Type 0
  Commits v (ok _) v' =
      (v'.committed ≡ (if v.aborted then v.committed else v.current))
      × (v'.current ≡ v'.committed)
      × (v'.aborted ≡ false)
  Commits v (err e) v' = (v'.committed ≡ v.committed) × Failed e v

  abbrev pub RollsBack : View → Result (Unit {0}) → View → Type 0
  RollsBack v (ok _) v' =
      (v'.committed ≡ v.committed) × (v'.current ≡ v.committed) × (v'.aborted ≡ false)
  RollsBack v (err e) v' = (v'.committed ≡ v.committed) × Outage e

  abbrev pub Nests : View → Result (Unit {0}) → View → Type 0
  Nests v (ok _) v' =
      (v.aborted ≡ false)
      × (v'.committed ≡ v.committed)
      × (v'.current ≡ v.current)
      × (v'.aborted ≡ false)
      × (v'.saved ≡ some v.current)
  Nests v (err e) v' = (v'.committed ≡ v.committed) × Failed e v

  -- With no savepoint that could be restored nothing is promised but the committed database.
  abbrev Restored : Option Db → Db → Bool → Type 0
  Restored none current aborted = Unit
  Restored (some db) current aborted = (current ≡ db) × (aborted ≡ false)

  abbrev pub Restores : View → Result (Unit {0}) → View → Type 0
  Restores v (ok _) v' = (v'.committed ≡ v.committed) × Restored v.saved v'.current v'.aborted
  Restores v (err e) v' = (v'.committed ≡ v.committed) × (Outage e ⊎ (v.saved ≡ none))

  abbrev pub Reads : Uuid → View → Result (Option IngestionBatch) → View → Type 0
  Reads b v (ok found) v' = (found ≡ find_batch b v.current.batches) × (v' ≡ v)
  Reads b v (err e) v' = (v'.committed ≡ v.committed) × Failed e v

  abbrev pub Refreshes : Row → View → Result Row → View → Type 0
  Refreshes x v (ok y) v' = (stored_row x v.current ≡ some y) × (v' ≡ v)
  Refreshes x v (err e) v' =
      (v'.committed ≡ v.committed) × (Failed e v ⊎ (stored_row x v.current ≡ none))

  -- A repository that stores records by `ins`.
  pub record Stores {S R : Type 0} (view : S → View) (ins : R → Uuid → Db → Option Db)
      (rows : RowRepository S R) : Type 0 where
    pub bulk_insert_lem :
        (rs : List R) (b : Uuid) (s : S)
        → let (r, s') = rows.bulk_insert rs b s in
          Writes (insert_bulk (λ r. ins r b) rs) (view s) r (view s')
    pub add_lem :
        (r : R) (b : Uuid) (s : S)
        → let (out, s') = rows.add r b s in Writes (ins r b) (view s) out (view s')

  pub record IsLawful (U : UnitOfWork) : Type 0 where
    pub view : U.State → View
    pub add_batch_lem :
        (b : Uuid) (status : IngestionBatchStatus) (s : U.State)
        → let (r, s') = U.batch.add b status s in AddsBatch b status (view s) r (view s')
    pub update_status_lem :
        (b : Uuid) (status : IngestionBatchStatus) (errors : Option (List Text)) (s : U.State)
        → let (r, s') = U.batch.update_status b status errors s in
          Writes (write_status b status (or_empty errors)) (view s) r (view s')
    -- What is raised where PostgreSQL refuses the errors depends on the statement only.
    pub json_error : Uuid → IngestionBatchStatus → List Text → Exc
    pub update_status_refused_lem :
        (b : Uuid) (status : IngestionBatchStatus) (errors : Option (List Text)) (s : U.State)
        → let (r, s') = U.batch.update_status b status errors s in
          Refuses (json_error b status (or_empty errors)) (view s) r
    pub get_lem :
        (b : Uuid) (s : U.State) → let (r, s') = U.batch.get b s in Reads b (view s) r (view s')
    pub departments_lem : Stores view insert_department_record U.departments
    pub jobs_lem : Stores view insert_job_record U.jobs
    pub employees_lem : Stores view insert_employee_record U.employees
    pub commit_lem : (s : U.State) → let (r, s') = U.commit s in Commits (view s) r (view s')
    pub rollback_lem : (s : U.State) → let (r, s') = U.rollback s in RollsBack (view s) r (view s')
    pub refresh_lem :
        (x : Row) (s : U.State) → let (r, s') = U.refresh x s in Refreshes x (view s) r (view s')
    pub begin_nested_lem :
        (s : U.State) → let (r, s') = U.begin_nested s in Nests (view s) r (view s')
    pub rollback_to_savepoint_lem :
        (s : U.State) → let (r, s') = U.rollback_to_savepoint s in Restores (view s) r (view s')

-- An `OperationalError` may come at any call.
abbrev pub AnyOutage : Exc → Type 0
AnyOutage e = is_operational e ≡ true

-- The database answers every call.
abbrev pub NoOutage : Exc → Type 0
NoOutage _ = ⊥
