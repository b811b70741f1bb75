-- ===== src/System/Reached.antt =====
-- What any sequence of steps does to the database.
use globant.Base.{
  ℕ, ◌≡◌, inl, inr, false, ◌&&◌, Option, none, some, List, [], ◌∷◌, Text, Option-cases, Bool-cases,
  ◌==◌,
}
use globant.Errors.{Uuid, Result, ok, err}
use globant.Models.{
  Db, IngestionBatch, EmployeeRecord, has_batch, find_batch, completed, failed, pending,
  update_batch,
}
use globant.Models.Integrity.{IsValid}
use globant.Models.Evolution.{
  Extends, Evolves, Evolves-refl, Evolves-trans, update_batch-Evolves, insert_batch-Evolves,
  insert_department-Evolves, insert_job-Evolves, insert_employee-Evolves,
}
use globant.Settings.{Settings}
use globant.Ports.{BinaryFile}
use globant.UnitOfWork.Contract.{
  IsLawful, AnyOutage, new_batch, insert_department_record, insert_job_record,
  insert_employee_record,
}
use globant.UnitOfWork.Steps.{Updated, with_batch}
use globant.IngestRows.{
  department_label, job_label, IngestionResponse, ingest_departments, ingest_jobs,
}
use globant.IngestRows.Greedy.{greedy_db}
use globant.IngestRows.Execute.{Ingested, Executed}
use globant.IngestRows.Properties.{ingest_departments-Executed, ingest_jobs-Executed}
use globant.Workers.World.{Services, World}
use globant.Workers.EmployeeWriter.{employee_label, write_employees}
use globant.Workers.EmployeeWriter.Employees.{employees_db}
use globant.Workers.EmployeeWriter.Outcome.{Written, write_employees-Written}
use globant.Workers.Process.Chunks.{Quiet, finalize_batch-Finalized}
use globant.Workers.Process.Settled.{Marked, mark_batch_failed-Marked}
use globant.Workers.Process.{mark_batch_failed, finalize_batch}
use globant.BatchStatus.{
  BatchStatusResponse, get_batch_status, ingest_employees, is_pending, is_stale,
}
use globant.BatchStatus.Polled.{Reported, Polled, get_batch_status-Polled}
use globant.BatchStatus.Accepted.{Accepted, ingest_employees-Accepted}
use globant.System.{
  Step, upload_departments, upload_jobs, upload_employees, poll, write_chunk, complete, give_up,
  Reaches, here, next,
}

Evolves-of_eq : (db a b : Db) → b ≡ a → Evolves db a → Evolves db b
Evolves-of_eq db a b e h = rw e h

module _ {R : Type 0} (ins : R → Db → Option Db) (label : R → Text)
    (grows : (r : R) (db db' : Db) → ins r db ≡ some db' → Evolves db db') where
  greedy_db-Evolves : (rs : List R) (db : Db) → Evolves db (greedy_db ins label rs db)
  greedy_db-Evolves [] db = Evolves-refl db
  greedy_db-Evolves (r ∷ rs) db = elim (Option-cases (ins r db)) [
    | inl e ↦ rw (greedy_db, e) (greedy_db-Evolves rs db)
    | inr (db', e) ↦
        rw (greedy_db, e)
          (Evolves-trans db db' (greedy_db ins label rs db') (grows r db db' e)
            (greedy_db-Evolves rs db'))
  ]

module _ {R : Type 0} (label : R → Text) (ins : R → Uuid → Db → Option Db) (b : Uuid)
    (grows : (r : R) (db db' : Db) → ins r b db ≡ some db' → Evolves db db') (records : List R)
    (db : Db) (fresh : has_batch b db.batches ≡ false) where
  Ingested-Evolves :
      (response : IngestionResponse) (after : Db)
      → Ingested label ins b records db response after
      → Evolves db after
  Ingested-Evolves response after run = elim (Bool-cases (response.created_count == 0)) [
    | inl none_stored ↦ rw (run.stored, none_stored) (Evolves-refl db)
    | inr stored ↦
        let start = with_batch b run.created_at db in
        let full = greedy_db (λ r. ins r b) label records start in
        rw (run.stored, stored)
          (Evolves-trans db start (update_batch b completed [] full)
            (insert_batch-Evolves (new_batch b pending run.created_at) db fresh)
            (Evolves-trans start full (update_batch b completed [] full)
              (greedy_db-Evolves (λ r. ins r b) label grows records start)
              (update_batch-Evolves b completed [] full)))
  ]

employees_db-Evolves :
    (b : Uuid) (rs : List EmployeeRecord) (db : Db) → Evolves db (employees_db b rs db)
employees_db-Evolves b =
    greedy_db-Evolves (λ r. insert_employee_record r b) employee_label
      (λ r db db' e. insert_employee-Evolves _ db db' e)

module _ (settings : Settings) (now : ℕ) (b : Uuid) (db : Db) where
  Reported-Evolves :
      (found : Option IngestionBatch) (response : BatchStatusResponse) (after : Db)
      → Reported settings now b found db response after
      → Evolves db after
  Reported-Evolves none response after h = absurd h
  Reported-Evolves (some batch) response after h =
      elim (Bool-cases (is_pending batch.status && is_stale settings now batch.created_at)) [
        | inl stale ↦
            Evolves-of_eq db _ after (rw (Reported, stale) at h).1
              (update_batch-Evolves b failed [] db)
        | inr kept ↦ Evolves-of_eq db db after (rw (Reported, kept) at h).1 (Evolves-refl db)
      ]

module _ (V : Services) (L : IsLawful AnyOutage V.uow) (settings : Settings) (quiet : Quiet V)
    (db : Db) where
  Executed-Evolves :
      {R : Type 0} (label : R → Text) (ins : R → Uuid → Db → Option Db) (b : Uuid)
      (records : List R)
      → ((r : R) (db db' : Db) → ins r b db ≡ some db' → Evolves db db')
      → has_batch b db.batches ≡ false
      → (out : Result IngestionResponse) (s : V.uow.State)
      → Executed AnyOutage V.uow L label ins b records db out s
      → Evolves db (L.view s).committed
  Executed-Evolves label ins b records grows fresh (ok response) s h =
      Ingested-Evolves label ins b grows records db fresh response (L.view s).committed h
  Executed-Evolves label ins b records grows fresh (err e) s h =
      Evolves-of_eq db db _ h.0 (Evolves-refl db)

  Accepted-Evolves :
      (b : Uuid) (stream : BinaryFile) (w0 w : World V) (out : Result Uuid)
      → has_batch b db.batches ≡ false
      → Accepted AnyOutage V L settings b db stream w0 out w
      → Evolves db (L.view w.uow).committed
  Accepted-Evolves b stream w0 w (ok i) fresh (_, (t, same), _, _) =
      Evolves-of_eq db (with_batch b t db) _ same
        (insert_batch-Evolves (new_batch b pending t) db fresh)
  Accepted-Evolves b stream w0 w (err e) fresh h = Evolves-of_eq db db _ h.0 (Evolves-refl db)

  Polled-Evolves :
      (b : Uuid) (now : ℕ) (out : Result BatchStatusResponse) (s : V.uow.State)
      → Polled AnyOutage V.uow L settings now b db out s
      → Evolves db (L.view s).committed
  Polled-Evolves b now (ok response) s h =
      Reported-Evolves settings now b db (find_batch b db.batches) response (L.view s).committed h
  Polled-Evolves b now (err e) s (inl (_, _, same)) = Evolves-of_eq db db _ same (Evolves-refl db)
  Polled-Evolves b now (err e) s (inr (_, inl same)) = Evolves-of_eq db db _ same (Evolves-refl db)
  Polled-Evolves b now (err e) s (inr (_, inr same)) =
      Evolves-of_eq db _ _ same (update_batch-Evolves b failed [] db)

  Written-Evolves :
      (b : Uuid) (rs : List EmployeeRecord) (out : Result (List Text)) (s : V.uow.State)
      → Written AnyOutage (λ _ e. e) V.uow L b rs [] db out s
      → Evolves db (L.view s).committed
  Written-Evolves b rs (ok errors) s h =
      Evolves-of_eq db (employees_db b rs db) _ h.0.0 (employees_db-Evolves b rs db)
  Written-Evolves b rs (err e) s ((done, _, _, same), _) =
      Evolves-of_eq db (employees_db b done db) _ same (employees_db-Evolves b done db)

  Finalized-Evolves :
      (b : Uuid) (errors : List Text) (out : Result (Unit {0})) (s : V.uow.State)
      → Updated AnyOutage V.uow L db b completed errors db out s
      → Evolves db (L.view s).committed
  Finalized-Evolves b errors (ok _) s h =
      Evolves-of_eq db _ _ h.1.0 (update_batch-Evolves b completed errors db)
  Finalized-Evolves b errors (err e) s h = Evolves-of_eq db db _ h.0 (Evolves-refl db)

  Marked-Evolves :
      (b : Uuid) (out : Result (Unit {0})) (w : World V)
      → Marked AnyOutage V L b settings db out w
      → Evolves db (L.view w.uow).committed
  Marked-Evolves b (ok _) w (inl same) =
      Evolves-of_eq db _ _ same (update_batch-Evolves b failed [] db)
  Marked-Evolves b (ok _) w (inr (same, _)) = Evolves-of_eq db db _ same (Evolves-refl db)
  Marked-Evolves b (err e) w h = Evolves-of_eq db db _ h.0 (Evolves-refl db)

  Step-Evolves : (db' : Db) → Step AnyOutage V L settings db db' → Evolves db db'
  Step-Evolves db' (upload_departments b records s h fresh e) =
      let (out, s') = ingest_departments V.uow b records s in
      Evolves-of_eq db _ db' e (
        Executed-Evolves department_label insert_department_record b records
          (λ r d d' e. insert_department-Evolves _ d d' e) fresh out s'
          (ingest_departments-Executed V.uow b db fresh s L h records))
  Step-Evolves db' (upload_jobs b records s h fresh e) =
      let (out, s') = ingest_jobs V.uow b records s in
      Evolves-of_eq db _ db' e (
        Executed-Evolves job_label insert_job_record b records
          (λ r d d' e. insert_job-Evolves _ d d' e) fresh out s'
          (ingest_jobs-Executed V.uow b db fresh s L h records))
  Step-Evolves db' (upload_employees b stream w h fresh e) =
      let (out, w') = ingest_employees settings V b stream w in
      Evolves-of_eq db _ db' e (
        Accepted-Evolves b stream w w' out fresh
          (ingest_employees-Accepted AnyOutage V L settings b db stream fresh w h))
  Step-Evolves db' (poll b now s h e) =
      let (out, s') = get_batch_status settings V.uow now b s in
      Evolves-of_eq db _ db' e (
        Polled-Evolves b now out s'
          (get_batch_status-Polled AnyOutage V.uow L settings now b db s h))
  Step-Evolves db' (write_chunk b chunk s h e) =
      let (out, s') = write_employees V.uow b chunk s in
      Evolves-of_eq db _ db' e (
        Written-Evolves b chunk out s'
          (write_employees-Written AnyOutage (λ _ e. e) V.uow L b chunk db s h))
  Step-Evolves db' (complete b errors w h e) =
      let (out, w') = finalize_batch V settings b errors w in
      Evolves-of_eq db _ db' e (
        Finalized-Evolves b errors out w'.uow
          (finalize_batch-Finalized AnyOutage (λ _ e. e) V L settings b quiet errors db w h))
  Step-Evolves db' (give_up b w h e) =
      let (out, w') = mark_batch_failed V settings b w in
      Evolves-of_eq db _ db' e
        (Marked-Evolves b out w' (mark_batch_failed-Marked AnyOutage V L b settings db w h))

module _ (V : Services) (L : IsLawful AnyOutage V.uow) (settings : Settings) (quiet : Quiet V) where
  Reaches-Evolves : (db : Db) {last : Db} → Reaches AnyOutage V L settings db last → Evolves db last
  Reaches-Evolves db here = Evolves-refl db
  Reaches-Evolves db (next {mid} {last} before step) =
      Evolves-trans db mid last (Reaches-Evolves db before)
        (Step-Evolves V L settings quiet mid last step)

  -- Requests and the steps of workers, in any order and under any outage, keep the integrity of the
  -- database, where the cache raises nothing.
  pub Reaches-IsValid :
      (db last : Db) → Reaches AnyOutage V L settings db last → IsValid db → IsValid last
  Reaches-IsValid db last steps = (Reaches-Evolves db steps).valid

  -- In any order and under any outage, no row of departments, jobs or employees is ever changed or
  -- removed, and no batch is removed or changes its key or the time at which it was created, where
  -- the cache raises nothing.
  pub Reaches-Extends : (db last : Db) → Reaches AnyOutage V L settings db last → Extends db last
  Reaches-Extends db last steps = (Reaches-Evolves db steps).extends
