-- ===== src/System.antt =====
-- The service as a whole: requests and workers that run at the same time over one database. Each
-- step is one call of the code, on a session of its own, from a clean transaction over the database
-- that has been committed by then; the steps come in any order. A worker takes many steps: one for
-- each chunk, and one to complete or to fail its batch. It gives up from whatever transaction it is
-- in, which it rolls back first.
pub mod Reached
pub mod Requests
use globant.Base.{ℕ, ◌≡◌, false, List, Text}
use globant.Errors.{Uuid, Exc}
use globant.Models.{Db, DepartmentRecord, JobRecord, EmployeeRecord, has_batch}
use globant.Settings.{Settings}
use globant.Ports.{BinaryFile}
use globant.UnitOfWork.Contract.{IsLawful}
use globant.UnitOfWork.Steps.{At}
use globant.IngestRows.{ingest_departments, ingest_jobs}
use globant.Workers.World.{Services, World}
use globant.Workers.EmployeeWriter.{write_employees}
use globant.Workers.Process.{mark_batch_failed, finalize_batch}
use globant.BatchStatus.{get_batch_status, ingest_employees}

module _ (Outage : Exc → Type 0) (V : Services) (L : IsLawful Outage V.uow)
    (settings : Settings) where
  -- What a session leaves.
  abbrev left_by : V.uow.State → Db
  left_by s = (L.view s).committed

  -- The batch id of an upload is new.
  pub data Step (db db' : Db) : Type 0 where
    upload_departments :
        (b : Uuid) (records : List DepartmentRecord) (s : V.uow.State)
        → At db db (L.view s)
        → has_batch b db.batches ≡ false
        → db' ≡ left_by (ingest_departments V.uow b records s).1
        → Step db db'
    upload_jobs :
        (b : Uuid) (records : List JobRecord) (s : V.uow.State)
        → At db db (L.view s)
        → has_batch b db.batches ≡ false
        → db' ≡ left_by (ingest_jobs V.uow b records s).1
        → Step db db'
    upload_employees :
        (b : Uuid) (stream : BinaryFile) (w : World V)
        → At db db (L.view w.uow)
        → has_batch b db.batches ≡ false
        → db' ≡ left_by (ingest_employees settings V b stream w).1.uow
        → Step db db'
    poll :
        (b : Uuid) (now : ℕ) (s : V.uow.State)
        → At db db (L.view s)
        → db' ≡ left_by (get_batch_status settings V.uow now b s).1
        → Step db db'
    write_chunk :
        (b : Uuid) (chunk : List EmployeeRecord) (s : V.uow.State)
        → At db db (L.view s)
        → db' ≡ left_by (write_employees V.uow b chunk s).1
        → Step db db'
    complete :
        (b : Uuid) (errors : List Text) (w : World V)
        → At db db (L.view w.uow)
        → db' ≡ left_by (finalize_batch V settings b errors w).1.uow
        → Step db db'
    give_up :
        (b : Uuid) (w : World V)
        → left_by w.uow ≡ db
        → db' ≡ left_by (mark_batch_failed V settings b w).1.uow
        → Step db db'

  -- A sequence of steps.
  pub data Reaches (db : Db) : Db → Type 0 where
    here : Reaches db db
    next : {mid last : Db} → Reaches db mid → Step mid last → Reaches db last

  pub Reaches-trans : (db mid last : Db) → Reaches db mid → Reaches mid last → Reaches db last
  Reaches-trans db mid last before here = before
  Reaches-trans db mid last before (next {mid = between} rest step) =
      next (Reaches-trans db mid between before rest) step
