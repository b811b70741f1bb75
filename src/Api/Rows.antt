-- ===== src/Api/Rows.antt =====
-- What the response to an upload says of the rows of its file.
use globant.Base.{ℕ, ◌+◌, ◌≡◌, ◌≤◌, refl, false, List, Text, length, arith, length-append}
use globant.Errors.{Uuid, Result, ok, err}
use globant.Action.{Action}
use globant.Models.{Db, has_batch}
use globant.UnitOfWork.{UnitOfWork}
use globant.UnitOfWork.Contract.{IsLawful, AnyOutage}
use globant.UnitOfWork.Steps.{At}
use globant.Csv.{read_rows, parse_departments, parse_jobs, department_of, job_of}
use globant.Csv.Rows.{parse_with-rows}
use globant.Guard.{validate_batch, validate_batch_lem}
use globant.IngestRows.{IngestionResponse, ingest_departments, ingest_jobs}
use globant.IngestRows.Properties.{ingest_departments-count, ingest_jobs-count}
use globant.Api.{
  guarded, get_department_records, get_job_records, extended, respond_with, post_departments,
  post_jobs,
}

-- What passes the guard has been parsed, and has between one and a thousand records.
guarded_lem :
    {R : Type 0} (parsed : Result (List R × List Text)) (records : List R) (errors : List Text)
    → guarded parsed ≡ ok (records, errors)
    → (parsed ≡ ok (records, errors)) × (1 ≤ length records) × (length records ≤ 1000)
guarded_lem (err e) records errors h = cc
guarded_lem {R} (ok (found, wrong)) records errors h = by_check (validate_batch found) refl h
  where
    by_check :
        (check : Result (Unit {0}))
        → validate_batch found ≡ check
        → guarded (ok (found, wrong)) ≡ ok (records, errors)
        → (◌≡◌ {A = Result (List R × List Text)} (ok (found, wrong)) (ok (records, errors)))
          × (1 ≤ length records)
          × (length records ≤ 1000)
    by_check (err e) checked h =
        let bad : ◌≡◌ {A = Result (List R × List Text)} (err e) (ok (records, errors)) =
          rw checked at h in
        cc
    by_check (ok _) checked h =
        let same : ◌≡◌ {A = Result (List R × List Text)} (ok (found, wrong))
            (ok (records, errors)) =
          rw checked at h in
        let bounds = (validate_batch_lem found).0 checked in
        let e : found ≡ records = cc in (same, rw e at bounds.0, rw e at bounds.1)

-- A response has passed the dependency and the use case.
respond_with_lem :
    (U : UnitOfWork) {R : Type 0} (parsed : Result (List R × List Text))
    (run : List R → Action U.State IngestionResponse) (s : U.State) (response : IngestionResponse)
    → (respond_with U parsed run s).0 ≡ ok response
    → (records : List R) × (errors : List Text) × (first : IngestionResponse) × (parsed
        ≡ ok (records, errors))
      × ((run records s).0 ≡ ok first)
      × (extended first errors ≡ response)
respond_with_lem U (err e) run s response h = cc
respond_with_lem U {R} (ok (records, errors)) run s response h = by_run (run records s).0 refl h
  where
    by_run :
        (out : Result IngestionResponse)
        → (run records s).0 ≡ out
        → (respond_with U (ok (records, errors)) run s).0 ≡ ok response
        → (records' : List R) × (errors' : List Text) × (first : IngestionResponse) × (◌≡◌
            {A = Result (List R × List Text)}
            (ok (records, errors))
            (ok (records', errors')))
          × ((run records' s).0 ≡ ok first)
          × (extended first errors' ≡ response)
    by_run (err e) ran h = let bad : err e ≡ ok response = rw ran at h in cc
    by_run (ok first) ran h =
        let same : ok (extended first errors) ≡ ok response = rw ran at h in
        (records, errors, first, refl, ran, cc)

-- The counts of a response, from those of its two parts.
both_counts :
    (rows records : ℕ) (first response : IngestionResponse) (errors : List Text)
    → records + length errors ≡ rows
    → first.created_count + length first.errors ≡ records
    → extended first errors ≡ response
    → response.created_count + length response.errors ≡ rows
both_counts rows records first response errors h h' e =
    let longer = length-append first.errors errors in rw (← e) (omega arith)

module _ (U : UnitOfWork) (L : IsLawful AnyOutage U) (b : Uuid) (db : Db)
    (fresh : has_batch b db.batches ≡ false) (s : U.State) (h : At db db (L.view s)) (raw : List ℕ)
    (response : IngestionResponse) where
  -- Where `POST /ingest/departments` answers, every row of the file is accounted for: the created
  -- count and the number of errors add up to the number of rows.
  pub post_departments-rows :
      (post_departments U b raw s).0 ≡ ok response
      → (rows : List (List Text)) × (read_rows raw ≡ ok rows)
        × (response.created_count + length response.errors ≡ length rows)
  unfolding post_departments get_department_records parse_departments
  post_departments-rows answered =
      let (records, errors, first, passed, ran, e) =
        respond_with_lem U (get_department_records raw) (ingest_departments U b) s response
          answered in
      let (parsed, _, _) = guarded_lem (parse_departments raw) records errors passed in
      let (rows, read, _, _, all) = parse_with-rows department_of raw records errors parsed in
      (
        rows,
        read,
        both_counts (length rows) (length records) first response errors all
            (ingest_departments-count U b db fresh s L h records first ran) e,
      )

  -- Where `POST /ingest/jobs` answers, the created count and the number of errors add up to the
  -- number of rows of the file.
  pub post_jobs-rows :
      (post_jobs U b raw s).0 ≡ ok response
      → (rows : List (List Text)) × (read_rows raw ≡ ok rows)
        × (response.created_count + length response.errors ≡ length rows)
  unfolding post_jobs get_job_records parse_jobs
  post_jobs-rows answered =
      let (records, errors, first, passed, ran, e) =
        respond_with_lem U (get_job_records raw) (ingest_jobs U b) s response answered in
      let (parsed, _, _) = guarded_lem (parse_jobs raw) records errors passed in
      let (rows, read, _, _, all) = parse_with-rows job_of raw records errors parsed in
      (
        rows,
        read,
        both_counts (length rows) (length records) first response errors all
            (ingest_jobs-count U b db fresh s L h records first ran) e,
      )
