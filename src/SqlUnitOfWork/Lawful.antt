-- ===== src/SqlUnitOfWork/Lawful.antt =====
-- The laws of a unit of work, for `SqlUnitOfWork` over a session that behaves as documented.
use globant.Base.{◌≡◌, refl, inl, inr, Option, none, some, List, [], ◌∷◌, map, arith, Option-cases}
use mathlib.Core.Path.{subst, fun_ext}
use globant.Errors.{Exc, Result}
use globant.Action.{◌>>◌}
use globant.Action.Rules.{bind_rule}
use globant.Models.{Db}
use globant.UnitOfWork.Contract.{
  View, IsLawful, Stores, Writes, Nests, Restores, insert_rows, insert_bulk,
  insert_department_record, insert_job_record, insert_employee_record, or_empty,
}
use globant.Session.{
  Session, Reading, Behaves, NestsWith, seen, batch, department, job, employee, insert_departments,
  insert_jobs, insert_employees, update_status,
}
use globant.SqlUnitOfWork.{
  SqlState, sql_unit_of_work, department_row, job_row, employee_row, department_repository,
  job_repository, employee_repository, begin_nested, on_session, hold, forget, restore,
  rollback_to_savepoint, batch_repository,
}

module _ {R T : Type 0} (row : R → T) (ins : T → Db → Option Db) where
  insert_rows-map :
      (rs : List R) (db : Db)
      → insert_rows ins (map row rs) db ≡ insert_rows (λ r. ins (row r)) rs db
  insert_rows-map [] db = refl
  insert_rows-map (r ∷ rs) db = elim (Option-cases (ins (row r) db)) [
    | inl e ↦ ground arith
    | inr (db', e) ↦ ground (arith, insert_rows-map rs db')
  ]

  insert_bulk-map :
      (rs : List R) (db : Db)
      → insert_bulk ins (map row rs) db ≡ insert_bulk (λ r. ins (row r)) rs db
  insert_bulk-map [] db = refl
  insert_bulk-map (r ∷ rs) db = insert_rows-map (r ∷ rs) db

-- What a step writes depends on its values only.
Writes-eq :
    (Outage : Exc → Type 0) {f g : Db → Option Db}
    → ((db : Db) → f db ≡ g db)
    → (v : View) (r : Result (Unit {0})) (v' : View) → Writes Outage f v r v'
    → Writes Outage g v r v'
Writes-eq Outage same v r v' h = subst (λ k. Writes Outage k v r v') (fun_ext same) h

module _ (Outage : Exc → Type 0) (S : Session) (I : Reading S) (B : Behaves Outage I) where
  abbrev view : SqlState S → View
  view s = seen I s.savepoint s.session

  pub department_repository-Stores :
      Stores Outage view insert_department_record (department_repository S)
  unfolding department_repository
  department_repository-Stores = record {
    bulk_insert_lem = λ rs b s.
        let x = insert_departments (map (department_row b) rs) in
        let (r, s') = (S.exec x >> S.flush) s.session in
        Writes-eq Outage (insert_bulk-map (department_row b) _ rs) _ r _
          (B.exec_flush_lem x s.savepoint s.session);
    add_lem = λ r b s. B.add_flush_lem (department (department_row b r)) s.savepoint s.session;
  }

  pub job_repository-Stores : Stores Outage view insert_job_record (job_repository S)
  unfolding job_repository
  job_repository-Stores = record {
    bulk_insert_lem = λ rs b s.
        let x = insert_jobs (map (job_row b) rs) in
        let (r, s') = (S.exec x >> S.flush) s.session in
        Writes-eq Outage (insert_bulk-map (job_row b) _ rs) _ r _
          (B.exec_flush_lem x s.savepoint s.session);
    add_lem = λ r b s. B.add_flush_lem (job (job_row b r)) s.savepoint s.session;
  }

  pub employee_repository-Stores : Stores Outage view insert_employee_record (employee_repository S)
  unfolding employee_repository
  employee_repository-Stores = record {
    bulk_insert_lem = λ rs b s.
        let x = insert_employees (map (employee_row b) rs) in
        let (r, s') = (S.exec x >> S.flush) s.session in
        Writes-eq Outage (insert_bulk-map (employee_row b) _ rs) _ r _
          (B.exec_flush_lem x s.savepoint s.session);
    add_lem = λ r b s. B.add_flush_lem (employee (employee_row b r)) s.savepoint s.session;
  }

  -- A savepoint once taken is the one that the unit of work holds.
  pub begin_nested-Nests :
      (s : SqlState S) → let (r, s') = begin_nested S s in Nests Outage (view s) r (view s')
  unfolding begin_nested
  begin_nested-Nests s =
      bind_rule (on_session S S.begin_nested) (hold S) s
        (λ r s'.
          (s'.savepoint ≡ s.savepoint) × NestsWith Outage I s.savepoint s.session r s'.session)
        (λ r s'. Nests Outage (view s) r (view s')) (refl, B.begin_nested_lem s.savepoint s.session)
        (λ p s' h. h.1) (λ e s' h. h.1)

  restore-Restores :
      (held : Option S.Savepoint) (s : SqlState S)
      → s.savepoint ≡ held
      → let (r, s') = restore S held s in Restores Outage (seen I held s.session) r (view s')
  unfolding restore
  restore-Restores none s e = (refl, tt)
  restore-Restores (some p) s e =
      bind_rule (on_session S (S.rollback_savepoint p)) (λ _. forget S) s
        (λ r s'. Restores Outage (seen I (some p) s.session) r (seen I (some p) s'.session))
        (λ r s'. Restores Outage (seen I (some p) s.session) r (view s'))
        (B.rollback_savepoint_lem p s.session) (λ _ s' h. h) (λ e' s' h. h)

  pub rollback_to_savepoint-Restores :
      (s : SqlState S)
      → let (r, s') = rollback_to_savepoint S s in Restores Outage (view s) r (view s')
  unfolding rollback_to_savepoint
  rollback_to_savepoint-Restores s = restore-Restores s.savepoint s refl

  unfoldable pub sql_lawful : IsLawful Outage (sql_unit_of_work S)
  unfolding batch_repository
  sql_lawful = record {
    view = view;
    add_batch_lem = λ b status s. B.add_flush_lem (batch b status) s.savepoint s.session;
    update_status_lem = λ b status errors s.
        B.exec_flush_lem (update_status b status (or_empty errors)) s.savepoint s.session;
    json_error = B.json_error;
    update_status_refused_lem =
        λ b status errors s. B.exec_refused_lem b status (or_empty errors) s.savepoint s.session;
    get_lem = λ b s. B.get_lem b s.savepoint s.session;
    departments_lem = department_repository-Stores;
    jobs_lem = job_repository-Stores;
    employees_lem = employee_repository-Stores;
    commit_lem = λ s. B.commit_lem s.savepoint s.session;
    rollback_lem = λ s. B.rollback_lem s.savepoint s.session;
    refresh_lem = λ x s. B.refresh_lem x s.savepoint s.session;
    begin_nested_lem = begin_nested-Nests;
    rollback_to_savepoint_lem = rollback_to_savepoint-Restores;
  }

  -- Over a session that behaves as documented, the unit of work fulfils the contract that the use
  -- cases and the worker rely on, where the view of a state is what the session shows of it with
  -- the savepoint that is held.
  pub sql_unit_of_work-IsLawful :
      (law : IsLawful Outage (sql_unit_of_work S)) × ((s : SqlState S)
        → law.view s ≡ seen I s.savepoint s.session)
  unfolding sql_lawful
  sql_unit_of_work-IsLawful = (sql_lawful, λ s. refl)
