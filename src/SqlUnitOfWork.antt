-- ===== src/SqlUnitOfWork.antt =====
-- The adapters of hiring-service/src/app/services/ingestion/adapters/: the repositories and the unit
-- of work over one SQLAlchemy session.
pub mod Lawful
use globant.Base.{Option, none, some, List, map, Text}
use globant.Errors.{Uuid, ok}
use globant.Action.{Action, pure, continue, ◌>>=◌, ◌>>◌}
use globant.Models.{
  IngestionBatch, IngestionBatchStatus, Departments, Jobs, Employees, DepartmentRecord, JobRecord,
  EmployeeRecord,
}
use globant.UnitOfWork.{BatchRepository, RowRepository, UnitOfWork}
use globant.UnitOfWork.Contract.{or_empty}
use globant.Session.{
  Session, batch, department, job, employee, insert_departments, insert_jobs, insert_employees,
  update_status,
}

-- `Departments(id=…, department=…, batch_id=…)`, and the values of one row of the bulk insert,
-- `{**n.model_dump(), "batch_id": batch_id}`.
abbrev pub department_row : Uuid → DepartmentRecord → Departments
department_row b r = record { id = r.id; department = r.department; batch_id = b }

abbrev pub job_row : Uuid → JobRecord → Jobs
job_row b r = record { id = r.id; job = r.job; batch_id = b }

abbrev pub employee_row : Uuid → EmployeeRecord → Employees
employee_row b r = record {
  id = r.id;
  name = r.name;
  hiring_datetime = r.hiring_datetime;
  department_id = r.department_id;
  job_id = r.job_id;
  batch_id = b;
}

module _ (S : Session) where
  -- `SqlUnitOfWork`: the session, which the repositories share, and `_savepoint`.
  pub record SqlState : Type 0 where
    pub session : S.State
    pub savepoint : Option S.Savepoint

  -- `SqlUnitOfWork(session=…)`
  abbrev pub open_unit : S.State → SqlState
  open_unit session = record { session = session; savepoint = none }

  -- A call of the session.
  abbrev pub on_session : {A : Type 0} → Action S.State A → Action SqlState A
  on_session m s = let (r, session) = m s.session in (r, record s { session = session })

  -- `SqlBatchRepository`
  unfoldable pub batch_repository : BatchRepository SqlState
  batch_repository = record {
    add = λ batch_id status. on_session (S.add (batch batch_id status) >> S.flush);
    update_status = λ batch_id status errors.
        on_session (S.exec (update_status batch_id status (or_empty errors)) >> S.flush);
    get = λ batch_id. on_session (S.get batch_id);
  }

  -- `SqlDepartmentRepository`
  unfoldable pub department_repository : RowRepository SqlState DepartmentRecord
  department_repository = record {
    bulk_insert = λ records batch_id.
        on_session (S.exec (insert_departments (map (department_row batch_id) records)) >> S.flush);
    add = λ r batch_id. on_session (S.add (department (department_row batch_id r)) >> S.flush);
  }

  -- `SqlJobRepository`
  unfoldable pub job_repository : RowRepository SqlState JobRecord
  job_repository = record {
    bulk_insert = λ records batch_id.
        on_session (S.exec (insert_jobs (map (job_row batch_id) records)) >> S.flush);
    add = λ r batch_id. on_session (S.add (job (job_row batch_id r)) >> S.flush);
  }

  -- `SqlEmployeeRepository`
  unfoldable pub employee_repository : RowRepository SqlState EmployeeRecord
  employee_repository = record {
    bulk_insert = λ records batch_id.
        on_session (S.exec (insert_employees (map (employee_row batch_id) records)) >> S.flush);
    add = λ r batch_id. on_session (S.add (employee (employee_row batch_id r)) >> S.flush);
  }

  -- `self._savepoint = self.session.begin_nested()`
  hold : S.Savepoint → Action SqlState (Unit {0})
  hold p s = (ok tt, record s { savepoint = some p })

  unfoldable pub begin_nested : Action SqlState (Unit {0})
  unfolding hold
  begin_nested = on_session S.begin_nested >>= hold

  -- `self._savepoint = None`
  forget : Action SqlState (Unit {0})
  forget s = (ok tt, record s { savepoint = none })

  -- `if self._savepoint:`
  restore : Option S.Savepoint → Action SqlState (Unit {0})
  unfolding forget
  restore none = pure tt
  restore (some p) = on_session (S.rollback_savepoint p) >> forget

  unfoldable pub rollback_to_savepoint : Action SqlState (Unit {0})
  unfolding restore
  rollback_to_savepoint s = restore s.savepoint s

  abbrev pub sql_unit_of_work : UnitOfWork
  sql_unit_of_work = record {
    State = SqlState;
    batch = batch_repository;
    departments = department_repository;
    jobs = job_repository;
    employees = employee_repository;
    commit = on_session S.commit;
    rollback = on_session S.rollback;
    refresh = λ instance. on_session (S.refresh instance);
    begin_nested = begin_nested;
    rollback_to_savepoint = rollback_to_savepoint;
  }
