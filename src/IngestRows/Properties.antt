-- ===== src/IngestRows/Properties.antt =====
-- The use cases of departments and jobs, on a lawful unit of work.
use globant.Base.{
  ℕ, ◌+◌, ◌≡◌, refl, false, some, Option, List, [], ◌∷◌, Text, length, ◌==◌, if◌then◌else◌,
}
use globant.Errors.{Uuid, Result, ok, err}
use globant.Models.{Db, DepartmentRecord, JobRecord, has_batch, completed}
use globant.Models.Integrity.{IsValid}
use globant.UnitOfWork.{UnitOfWork}
use globant.UnitOfWork.Contract.{
  IsLawful, AnyOutage, NoOutage, insert_department_record, insert_job_record,
}
use globant.UnitOfWork.Steps.{At, with_batch}
use globant.IngestRows.{
  IngestionResponse, department_label, job_label, ingest_departments, ingest_jobs,
}
use globant.IngestRows.Greedy.{greedy_count_add_errors}
use globant.IngestRows.Execute.{Ingested, Executed, execute-Executed}
use globant.IngestRows.Stored.{
  Keeps, insert_department_record-Keeps, insert_job_record-Keeps, Ingested-IsValid,
  Ingested-batches,
}
use mathlib.Core.Path.{subst}

module _ {R : Type 0} (U : UnitOfWork) (label : R → Text) (ins : R → Uuid → Db → Option Db)
    (b : Uuid) (records : List R) (db : Db) where
  -- A run that no outage disturbs returns.
  returned :
      (L : IsLawful NoOutage U) (out : Result IngestionResponse) (s : U.State)
      → Executed NoOutage U L label ins b records db out s
      → (response : IngestionResponse) × (out ≡ ok response)
        × Ingested label ins b records db response (L.view s).committed
  returned L (ok response) s h = (response, refl, h)
  returned L (err e) s h = absurd h.1.1

  counted :
      (L : IsLawful AnyOutage U) (out : Result IngestionResponse) (s : U.State)
      → Executed AnyOutage U L label ins b records db out s
      → (response : IngestionResponse) → out ≡ ok response
      → response.created_count + length response.errors ≡ length records
  counted L (ok r) s h response e =
      let start = with_batch b h.created_at db in
      let all = greedy_count_add_errors (λ r. ins r b) label records start in
      let same : r ≡ response = cc in
      subst (λ (x : IngestionResponse). x.created_count + length x.errors ≡ length records) same
        (rw (h.counted, h.reported) all)
  counted L (err x) s h response e = cc

  valid :
      (L : IsLawful AnyOutage U) (out : Result IngestionResponse) (s : U.State)
      → Keeps (λ r. ins r b)
      → has_batch b db.batches ≡ false
      → Executed AnyOutage U L label ins b records db out s
      → IsValid db
      → IsValid (L.view s).committed
  valid L (ok r) s keeps fresh h v =
      Ingested-IsValid label ins b keeps records db (L.view s).committed r h fresh v
  valid L (err x) s keeps fresh h v = rw h.0 v

module _ (U : UnitOfWork) (b : Uuid) (db : Db) (fresh : has_batch b db.batches ≡ false)
    (s : U.State) where
  module _ (L : IsLawful AnyOutage U) (h : At db db (L.view s)) where
    -- Whatever connection is lost, at whichever call: from a clean transaction and a fresh batch
    -- id, `ingest_departments` either returns with the departments stored greedily under the new
    -- batch and reports the others, or raises an exception that an `OperationalError` explains and
    -- leaves the committed database as it was.
    pub ingest_departments-Executed :
        (records : List DepartmentRecord)
        → let (out, s') = ingest_departments U b records s in
          Executed AnyOutage U L department_label insert_department_record b records db out s'
    unfolding ingest_departments
    ingest_departments-Executed records =
        execute-Executed AnyOutage (λ _ e. e) U L U.departments department_label
          insert_department_record L.departments_lem b records db fresh s h

    -- The same of `ingest_jobs`: the jobs are stored greedily under the new batch, or an exception
    -- that an `OperationalError` explains leaves the committed database as it was.
    pub ingest_jobs-Executed :
        (records : List JobRecord)
        → let (out, s') = ingest_jobs U b records s in
          Executed AnyOutage U L job_label insert_job_record b records db out s'
    unfolding ingest_jobs
    ingest_jobs-Executed records =
        execute-Executed AnyOutage (λ _ e. e) U L U.jobs job_label insert_job_record L.jobs_lem b
          records db fresh s h

    -- Where `ingest_departments` returns, the created count and the number of reported errors add
    -- up to the number of records.
    pub ingest_departments-count :
        (records : List DepartmentRecord) (response : IngestionResponse)
        → (ingest_departments U b records s).0 ≡ ok response
        → response.created_count + length response.errors ≡ length records
    ingest_departments-count records response e =
        let (out, s') = ingest_departments U b records s in
        counted U department_label insert_department_record b records db L out s'
          (ingest_departments-Executed records) response e

    -- Where `ingest_jobs` returns, the created count and the number of reported errors add up to the
    -- number of records.
    pub ingest_jobs-count :
        (records : List JobRecord) (response : IngestionResponse)
        → (ingest_jobs U b records s).0 ≡ ok response
        → response.created_count + length response.errors ≡ length records
    ingest_jobs-count records response e =
        let (out, s') = ingest_jobs U b records s in
        counted U job_label insert_job_record b records db L out s' (ingest_jobs-Executed records)
          response e

    -- `ingest_departments` keeps the integrity of the committed database (unique keys, every
    -- reference with its row), however it ends.
    pub ingest_departments-IsValid :
        (records : List DepartmentRecord)
        → IsValid db
        → let (out, s') = ingest_departments U b records s in IsValid (L.view s').committed
    ingest_departments-IsValid records v =
        let (out, s') = ingest_departments U b records s in
        valid U department_label insert_department_record b records db L out s'
          (insert_department_record-Keeps b) fresh (ingest_departments-Executed records) v

    -- `ingest_jobs` keeps the integrity of the committed database, however it ends.
    pub ingest_jobs-IsValid :
        (records : List JobRecord)
        → IsValid db
        → let (out, s') = ingest_jobs U b records s in IsValid (L.view s').committed
    ingest_jobs-IsValid records v =
        let (out, s') = ingest_jobs U b records s in
        valid U job_label insert_job_record b records db L out s' (insert_job_record-Keeps b) fresh
          (ingest_jobs-Executed records) v

  module _ (L : IsLawful NoOutage U) (h : At db db (L.view s)) where
    -- Without an outage `ingest_departments` returns, with the departments stored greedily under
    -- the new, completed batch; where none could be stored the committed database, its batches
    -- included, stays as it was.
    pub ingest_departments-Ingested :
        (records : List DepartmentRecord)
        → let (out, s') = ingest_departments U b records s in
          (response : IngestionResponse) × (out ≡ ok response)
          × Ingested department_label insert_department_record b records db response
              (L.view s').committed
    unfolding ingest_departments
    ingest_departments-Ingested records =
        let (out, s') = ingest_departments U b records s in
        returned U department_label insert_department_record b records db L out s' (
          execute-Executed NoOutage (λ _ e. absurd e) U L U.departments department_label
            insert_department_record L.departments_lem b records db fresh s h)

    -- Without an outage `ingest_jobs` returns, with the jobs stored greedily under the new,
    -- completed batch, or with the committed database as it was where none could be stored.
    pub ingest_jobs-Ingested :
        (records : List JobRecord)
        → let (out, s') = ingest_jobs U b records s in
          (response : IngestionResponse) × (out ≡ ok response)
          × Ingested job_label insert_job_record b records db response (L.view s').committed
    unfolding ingest_jobs
    ingest_jobs-Ingested records =
        let (out, s') = ingest_jobs U b records s in
        returned U job_label insert_job_record b records db L out s' (
          execute-Executed NoOutage (λ _ e. absurd e) U L U.jobs job_label insert_job_record
            L.jobs_lem b records db fresh s h)

    -- Without an outage the batches after `ingest_departments` are those from before, and in front
    -- of them the new one, completed and without errors, unless the created count is zero.
    pub ingest_departments-batches :
        (records : List DepartmentRecord)
        → let (out, s') = ingest_departments U b records s in
          (response : IngestionResponse) × (out ≡ ok response)
          × ((t : ℕ) × ((L.view s').committed.batches ≡ (
                if response.created_count == 0
                then db.batches
                else (record { id = b; status = completed; errors = some []; created_at = t }
                    ∷ db.batches))))
    ingest_departments-batches records =
        let (out, s') = ingest_departments U b records s in
        let (response, e, run) = ingest_departments-Ingested records in
        (
          response,
          e,
          (
            run.created_at,
            Ingested-batches department_label insert_department_record b
                (insert_department_record-Keeps b) records db (L.view s').committed response run
                fresh,
          ),
        )
