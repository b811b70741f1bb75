-- ===== src/Session/Memory.antt =====
-- A session over a database in memory, with one savepoint and no outages: it behaves as the
-- adapters expect of SQLAlchemy's. The tests run on it.
pub mod Behaving
use globant.Base.{Bool, true, false, Option, none, some, codes, if◌then◌else◌}
use globant.Errors.{Exc, Result, ok, err, integrity_error, other}
use globant.Action.{Action}
use globant.Models.{
  Db, Row, stored_row, find_batch, insert_batch, insert_department, insert_job, insert_employee,
}
use globant.UnitOfWork.Contract.{new_batch}
use globant.Session.{
  Session, Reading, Instance, batch, department, job, employee, Statement, insert_departments,
  insert_jobs, insert_employees, update_status, run_statement,
}

pub record Memory : Type 0 where
  pub committed : Db
  pub current : Db
  pub aborted : Bool
  pub saved : Option Db
  pub waiting : Option Instance

abbrev pub memory : Db → Db → Bool → Option Db → Option Instance → Memory
memory committed current aborted saved waiting = record {
  committed = committed;
  current = current;
  aborted = aborted;
  saved = saved;
  waiting = waiting;
}

abbrev pub memory_of : Db → Memory
memory_of db = memory db db false none none

abbrev pub aborted_error : Exc
aborted_error = other (codes "current transaction is aborted")

abbrev pub violation : Exc
violation = integrity_error (codes "constraint")

abbrev pub data_error : Exc
data_error = other (codes "DataError")

abbrev pub statement_error : Statement → Exc
statement_error (insert_departments rows) = violation
statement_error (insert_jobs rows) = violation
statement_error (insert_employees rows) = violation
statement_error (update_status b status errors) = data_error

-- The result of a write, by what the constraints say.
abbrev pub write_result : Exc → Option Db → Action Memory (Unit {0})
write_result refusal none s = (err refusal, record s { aborted = true; waiting = none })
write_result refusal (some db) s = (ok tt, record s { current = db; waiting = none })

abbrev pub write : Exc → (Db → Option Db) → Action Memory (Unit {0})
write refusal step s =
    if s.aborted then (err aborted_error, s) else write_result refusal (step s.current) s

abbrev pub insert_instance : Instance → Db → Option Db
insert_instance (batch b status) = insert_batch (new_batch b status 0)
insert_instance (department d) = insert_department d
insert_instance (job j) = insert_job j
insert_instance (employee e) = insert_employee e

abbrev flush_waiting : Option Instance → Action Memory (Unit {0})
flush_waiting none s = (ok tt, s)
flush_waiting (some x) s = write violation (insert_instance x) s

abbrev refreshed : Option Row → Result Row
refreshed none = err (other (codes "InvalidRequestError"))
refreshed (some y) = ok y

abbrev pub memory_session : Session
memory_session = record {
  State = Memory;
  Savepoint = Unit {0};
  add = λ x s. (ok tt, record s { waiting = some x });
  flush = λ s. flush_waiting s.waiting s;
  exec = λ x s. write (statement_error x) (run_statement x) s;
  get =
      λ b s. if s.aborted then (err aborted_error, s) else (ok (find_batch b s.current.batches), s);
  commit = λ s. let db : Db = if s.aborted then s.committed else s.current in (ok tt, memory_of db);
  rollback = λ s. (ok tt, memory_of s.committed);
  refresh =
      λ x s. if s.aborted then (err aborted_error, s) else (refreshed (stored_row x s.current), s);
  begin_nested = λ s.
      if s.aborted then (err aborted_error, s) else (ok tt, record s { saved = some s.current });
  rollback_savepoint = λ _ s. elim s.saved [
    | none ↦ (err aborted_error, s)
    | some db ↦ (ok tt, record s { current = db; aborted = false; waiting = none })
  ];
}

abbrev pub memory_reading : Reading memory_session
memory_reading = record {
  committed = λ s. s.committed;
  current = λ s. s.current;
  aborted = λ s. s.aborted;
  restores = λ s _. s.saved;
}
