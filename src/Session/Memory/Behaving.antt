-- ===== src/Session/Memory/Behaving.antt =====
-- The session in memory behaves as the adapters expect.
use globant.Base.{
  ◌≡◌, refl, inl, inr, Bool, true, false, Option, none, some, arith, Option-cases, Bool-cases,
}
use mathlib.Core.Path.{subst, sym}
use globant.Errors.{Uuid, Exc, Result, ok, err, is_operational}
use globant.Action.{◌>>◌}
use globant.Models.{
  Db, Row, stored_row, IngestionBatchStatus, insert_batch, insert_department, insert_job,
  insert_employee,
}
use globant.UnitOfWork.Contract.{View, Writes, Refuses, AddsBatch, Refreshes, Restores, new_batch}
use globant.Session.{
  Behaves, NestsWith, seen, Inserts, Instance, batch, department, job, employee, Statement,
  insert_departments, insert_jobs, insert_employees, update_status, run_statement,
}
use globant.Session.Memory.{
  Memory, memory, write_result, write, insert_instance, violation, data_error, statement_error,
  memory_session, memory_reading,
}

statement_error-soft : (x : Statement) → is_operational (statement_error x) ≡ false
statement_error-soft (insert_departments rows) = refl
statement_error-soft (insert_jobs rows) = refl
statement_error-soft (insert_employees rows) = refl
statement_error-soft (update_status b status errors) = refl

seen-waiting :
    (held : Option (Unit {0})) (s : Memory) (w : Option Instance)
    → seen memory_reading held (record s { waiting = w }) ≡ seen memory_reading held s
seen-waiting none s w = refl
seen-waiting (some _) s w = refl

-- Nothing waits after a write, so the flush changes nothing.
write_flush :
    (refusal : Exc) (step : Db → Option Db) (s : Memory)
    → (write refusal step >> memory_session.flush) s ≡ write refusal step s
write_flush refusal step s = elim (Bool-cases s.aborted) [
  | inl broken ↦ simp broken
  | inr sound ↦ elim (Option-cases (step s.current)) [
    | inl e ↦ simp (sound, e)
    | inr (db, e) ↦ simp (sound, e)
  ]
]

module _ (Outage : Exc → Type 0) (refusal : Exc) (soft : is_operational refusal ≡ false) where
  write_result-Writes :
      (step : Db → Option Db) (held : Option (Unit {0})) (s : Memory) (after : Option Db)
      → s.aborted ≡ false
      → step s.current ≡ after
      → let (r, s') = write_result refusal after s in
        Writes Outage step (seen memory_reading held s) r (seen memory_reading held s')
  write_result-Writes step none s none sound e = (refl, inr (inr (refl, e, soft)))
  write_result-Writes step (some _) s none sound e = (refl, inr (inr (refl, e, soft)))
  write_result-Writes step none s (some db) sound e = (sound, e, refl, sound, refl)
  write_result-Writes step (some _) s (some db) sound e = (sound, e, refl, sound, refl)

  -- The states are split by their fields.
  write-Writes_of :
      (step : Db → Option Db) (held : Option (Unit {0})) (c d : Db) (aborted : Bool)
      (saved : Option Db) (waiting : Option Instance)
      → let s = memory c d aborted saved waiting in
        let (r, s') = write refusal step s in
        Writes Outage step (seen memory_reading held s) r (seen memory_reading held s')
  write-Writes_of step held c d true saved waiting = (refl, inr (inl refl))
  write-Writes_of step held c d false saved waiting =
      write_result-Writes step held (memory c d false saved waiting) (step d) refl refl

  write-Writes :
      (step : Db → Option Db) (held : Option (Unit {0})) (s : Memory)
      → let (r, s') = write refusal step s in
        Writes Outage step (seen memory_reading held s) r (seen memory_reading held s')
  write-Writes step held s =
      write-Writes_of step held s.committed s.current s.aborted s.saved s.waiting

module _ (Outage : Exc → Type 0) where
  Writes-AddsBatch :
      (b : Uuid) (status : IngestionBatchStatus) (v : View) (r : Result (Unit {0})) (v' : View)
      → Writes Outage (insert_batch (new_batch b status 0)) v r v'
      → AddsBatch Outage b status v r v'
  Writes-AddsBatch b status v (ok _) v' (sound, e, rest, sound', kept) =
      (sound, (0, e), rest, sound', kept)
  Writes-AddsBatch b status v (err e) v' (same, why) = ground arith

  write-AddsBatch :
      (b : Uuid) (status : IngestionBatchStatus) (held : Option (Unit {0})) (s : Memory)
      → let (r, s') = write violation (insert_batch (new_batch b status 0)) s in
        AddsBatch Outage b status (seen memory_reading held s) r (seen memory_reading held s')
  write-AddsBatch b status held s =
      let step = insert_batch (new_batch b status 0) in
      let (r, s') = write violation step s in
      Writes-AddsBatch b status (seen memory_reading held s) r (seen memory_reading held s')
        (write-Writes Outage violation refl step held s)

  insert_instance-Inserts :
      (x : Instance) (held : Option (Unit {0})) (s : Memory)
      → let (r, s') = write violation (insert_instance x) s in
        Inserts Outage x (seen memory_reading held s) r (seen memory_reading held s')
  insert_instance-Inserts (batch b status) held s = write-AddsBatch b status held s
  insert_instance-Inserts (department d) held s =
      write-Writes Outage violation refl (insert_department d) held s
  insert_instance-Inserts (job j) held s = write-Writes Outage violation refl (insert_job j) held s
  insert_instance-Inserts (employee e) held s =
      write-Writes Outage violation refl (insert_employee e) held s

  add_flush-Inserts :
      (x : Instance) (held : Option (Unit {0})) (s : Memory)
      → let (r, s') = (memory_session.add x >> memory_session.flush) s in
        Inserts Outage x (seen memory_reading held s) r (seen memory_reading held s')
  add_flush-Inserts x held s =
      let s1 : Memory = record s { waiting = some x } in
      let (r, s') = write violation (insert_instance x) s1 in
      subst (λ v. Inserts Outage x v r (seen memory_reading held s')) (seen-waiting held s (some x))
        (insert_instance-Inserts x held s1)

  exec_flush-Writes :
      (x : Statement) (held : Option (Unit {0})) (s : Memory)
      → let (r, s') = (memory_session.exec x >> memory_session.flush) s in
        Writes Outage (run_statement x) (seen memory_reading held s) r (seen memory_reading held s')
  exec_flush-Writes x held s =
      subst
        (λ (p : Result (Unit {0}) × Memory).
          Writes Outage (run_statement x) (seen memory_reading held s) p.0
            (seen memory_reading held p.1))
        (sym (write_flush (statement_error x) (run_statement x) s))
        (write-Writes Outage (statement_error x) (statement_error-soft x) (run_statement x) held s)

  exec_flush-Refuses :
      (x : Statement) (held : Option (Unit {0})) (s : Memory)
      → let (r, s') = (memory_session.exec x >> memory_session.flush) s in
        Refuses Outage (statement_error x) (seen memory_reading held s) r
  exec_flush-Refuses x held s =
      subst
        (λ (p : Result (Unit {0}) × Memory).
          Refuses Outage (statement_error x) (seen memory_reading held s) p.0)
        (sym (write_flush (statement_error x) (run_statement x) s))
        (elim (Bool-cases s.aborted) [
          | inl broken ↦ rw broken (inl (inr refl))
          | inr sound ↦ elim (Option-cases (run_statement x s.current)) [
            | inl e ↦ rw (sound, e) (inr refl)
            | inr (db, e) ↦ rw (sound, e) tt
          ]
        ])

  begin_nested-NestsWith_of :
      (held : Option (Unit {0})) (c d : Db) (aborted : Bool) (saved : Option Db)
      (waiting : Option Instance)
      → let s = memory c d aborted saved waiting in
        let (r, s') = memory_session.begin_nested s in NestsWith Outage memory_reading held s r s'
  begin_nested-NestsWith_of held c d true saved waiting = (refl, inr refl)
  begin_nested-NestsWith_of held c d false saved waiting = (refl, refl, refl, refl, refl)

  rollback_savepoint-Restores_of :
      (p : Unit {0}) (c d : Db) (aborted : Bool) (saved : Option Db) (waiting : Option Instance)
      → let s = memory c d aborted saved waiting in
        let (r, s') = memory_session.rollback_savepoint p s in
        Restores Outage (seen memory_reading (some p) s) r (seen memory_reading (some p) s')
  rollback_savepoint-Restores_of p c d aborted none waiting = (refl, inr refl)
  rollback_savepoint-Restores_of p c d aborted (some db) waiting = (refl, (refl, refl))

  refresh-Refreshes :
      (x : Row) (held : Option (Unit {0})) (s : Memory) (found : Option Row)
      → stored_row x s.current ≡ found
      → let (r, s') = memory_session.refresh x s in
        Refreshes Outage x (seen memory_reading held s) r (seen memory_reading held s')
  refresh-Refreshes x held s none e = ground arith
  refresh-Refreshes x held s (some y) e = ground arith

  -- The memory session behaves as documented.
  pub memory-Behaves : Behaves Outage memory_reading
  memory-Behaves = record {
    add_flush_lem = add_flush-Inserts;
    exec_flush_lem = exec_flush-Writes;
    json_error = λ b status errors. data_error;
    exec_refused_lem =
        λ b status errors held s. exec_flush-Refuses (update_status b status errors) held s;
    get_lem = λ b held s. ground arith;
    commit_lem = λ held s. ground arith;
    rollback_lem = λ held s. ground arith;
    refresh_lem = λ x held s. refresh-Refreshes x held s (stored_row x s.current) refl;
    begin_nested_lem =
        λ held s. begin_nested-NestsWith_of held s.committed s.current s.aborted s.saved s.waiting;
    rollback_savepoint_lem =
        λ p s. rollback_savepoint-Restores_of p s.committed s.current s.aborted s.saved s.waiting;
  }
