-- ===== src/Session.antt =====
-- The SQLAlchemy session, which is not part of the repository: the calls that the adapters make, as
-- a parameter, and what the adapters rely on. A state is one between two calls of a repository,
-- where no object waits to be flushed.
pub mod Memory
use globant.Base.{Bool, Option, none, some, List, Text}
use globant.Errors.{Uuid, Exc, Result, ok, err}
use globant.Action.{Action, ◌>>◌}
use globant.Models.{
  Db, Row, IngestionBatch, IngestionBatchStatus, Departments, Jobs, Employees, insert_department,
  insert_job, insert_employee, write_status,
}
use globant.UnitOfWork.Contract.{
  View, Writes, Refuses, AddsBatch, Commits, RollsBack, Nests, Restores, Reads, Refreshes,
  insert_bulk,
}

-- A model instance that `session.add` takes. The server fills in the rest of a batch.
pub data Instance : Type 0 where
  batch : Uuid → IngestionBatchStatus → Instance
  department : Departments → Instance
  job : Jobs → Instance
  employee : Employees → Instance

-- A statement that `session.exec` runs: `insert(T).values([…])`, or
-- `update(IngestionBatch).where(id == …).values(status=…, errors=…)`.
pub data Statement : Type 0 where
  insert_departments : List Departments → Statement
  insert_jobs : List Jobs → Statement
  insert_employees : List Employees → Statement
  update_status : Uuid → IngestionBatchStatus → List Text → Statement

pub record Session : Type 1 where
  pub State : Type 0
  pub Savepoint : Type 0
  pub add : Instance → Action State (Unit {0})
  pub flush : Action State (Unit {0})
  pub exec : Statement → Action State (Unit {0})
  -- `session.get(IngestionBatch, id)`
  pub get : Uuid → Action State (Option IngestionBatch)
  pub commit : Action State (Unit {0})
  pub rollback : Action State (Unit {0})
  -- `session.refresh(instance)`
  pub refresh : Row → Action State Row
  pub begin_nested : Action State Savepoint
  -- `savepoint.rollback()`
  pub rollback_savepoint : Savepoint → Action State (Unit {0})

abbrev pub restored_by : {S P : Type 0} → (S → P → Option Db) → Option P → S → Option Db
restored_by restores none s = none
restored_by restores (some p) s = restores s p

-- What a statement does to the database under its constraints.
abbrev pub run_statement : Statement → Db → Option Db
run_statement (insert_departments rows) = insert_bulk insert_department rows
run_statement (insert_jobs rows) = insert_bulk insert_job rows
run_statement (insert_employees rows) = insert_bulk insert_employee rows
run_statement (update_status b status errors) = write_status b status errors

-- The databases behind a session.
pub record Reading (S : Session) : Type 0 where
  pub committed : S.State → Db
  pub current : S.State → Db
  pub aborted : S.State → Bool
  -- The database that a savepoint goes back to; none for one that is no longer active.
  pub restores : S.State → S.Savepoint → Option Db

-- What a holder of a savepoint sees.
abbrev pub seen : {S : Session} → Reading S → Option S.Savepoint → S.State → View
seen I held s = record {
  committed = I.committed s;
  current = I.current s;
  aborted = I.aborted s;
  saved = restored_by I.restores held s;
}

module _ (Outage : Exc → Type 0) where
  -- `session.add` and `session.flush` of one instance: the INSERT of its row.
  abbrev pub Inserts : Instance → View → Result (Unit {0}) → View → Type 0
  Inserts (batch b status) = AddsBatch Outage b status
  Inserts (department d) = Writes Outage (insert_department d)
  Inserts (job j) = Writes Outage (insert_job j)
  Inserts (employee e) = Writes Outage (insert_employee e)

  -- A new savepoint goes back to the database as it is now.
  abbrev pub NestsWith :
      {S : Session} (I : Reading S)
      → Option S.Savepoint
      → S.State
      → Result S.Savepoint
      → S.State
      → Type 0
  NestsWith I held s (ok p) s' = Nests Outage (seen I held s) (ok tt) (seen I (some p) s')
  NestsWith I held s (err e) s' = Nests Outage (seen I held s) (err e) (seen I held s')

  -- The documented behaviour of the calls, whichever savepoint is held.
  pub record Behaves {S : Session} (I : Reading S) : Type 0 where
    pub add_flush_lem :
        (x : Instance) (held : Option S.Savepoint) (s : S.State)
        → let (r, s') = (S.add x >> S.flush) s in Inserts x (seen I held s) r (seen I held s')
    pub exec_flush_lem :
        (x : Statement) (held : Option S.Savepoint) (s : S.State)
        → let (r, s') = (S.exec x >> S.flush) s in
          Writes Outage (run_statement x) (seen I held s) r (seen I held s')
    pub json_error : Uuid → IngestionBatchStatus → List Text → Exc
    pub exec_refused_lem :
        (b : Uuid) (status : IngestionBatchStatus) (errors : List Text) (held : Option S.Savepoint)
        (s : S.State)
        → let (r, s') = (S.exec (update_status b status errors) >> S.flush) s in
          Refuses Outage (json_error b status errors) (seen I held s) r
    pub get_lem :
        (b : Uuid) (held : Option S.Savepoint) (s : S.State)
        → let (r, s') = S.get b s in Reads Outage b (seen I held s) r (seen I held s')
    pub commit_lem :
        (held : Option S.Savepoint) (s : S.State)
        → let (r, s') = S.commit s in Commits Outage (seen I held s) r (seen I held s')
    pub rollback_lem :
        (held : Option S.Savepoint) (s : S.State)
        → let (r, s') = S.rollback s in RollsBack Outage (seen I held s) r (seen I held s')
    pub refresh_lem :
        (x : Row) (held : Option S.Savepoint) (s : S.State)
        → let (r, s') = S.refresh x s in Refreshes Outage x (seen I held s) r (seen I held s')
    pub begin_nested_lem :
        (held : Option S.Savepoint) (s : S.State)
        → let (r, s') = S.begin_nested s in NestsWith I held s r s'
    pub rollback_savepoint_lem :
        (p : S.Savepoint) (s : S.State)
        → let (r, s') = S.rollback_savepoint p s in
          Restores Outage (seen I (some p) s) r (seen I (some p) s')
