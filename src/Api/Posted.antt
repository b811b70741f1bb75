-- ===== src/Api/Posted.antt =====
-- What an upload of departments or jobs does, from the bytes of its file to the database.
use globant.Base.{
  ℕ, ◌≡◌, refl, ◌⊎◌, inl, inr, true, false, Option, List, [], ◌∷◌, Text, codes, ltb, length,
  Bool-cases,
}
use globant.Errors.{Uuid, Exc, Result, ok, err, http_exception, is_operational}
use globant.Action.{Action, pure}
use globant.Action.Rules.{bind_rule}
use globant.Models.{Db, has_batch}
use globant.UnitOfWork.{UnitOfWork}
use globant.UnitOfWork.Contract.{IsLawful, insert_department_record, insert_job_record}
use globant.UnitOfWork.Steps.{At}
use globant.Csv.{and_then, parse_departments, parse_jobs}
use globant.Guard.{validate_batch, max_rows}
use globant.IngestRows.{
  IngestionResponse, ingest_departments, ingest_jobs, department_label, job_label,
}
use globant.IngestRows.Outcome.{Broken}
use globant.IngestRows.Execute.{Ingested, Executed, execute-Executed}
use globant.Api.{
  guarded, get_department_records, get_job_records, extended, respond_with, post_departments,
  post_jobs,
}

-- The guard of a batch refuses with status 422.
abbrev pub Refused : Exc → Type 0
Refused e = (detail : Text) × (e ≡ http_exception 422 detail)

-- Why the guarded parser may have raised.
abbrev pub Unread : {A : Type 0} → Result A → Exc → Type 0
Unread parsed e = (parsed ≡ err e) ⊎ Refused e

validate_batch-Refused :
    {A : Type 0} (records : List A) (e : Exc) → validate_batch records ≡ err e → Refused e
unfolding validate_batch
validate_batch-Refused [] e h = (codes "No valid rows found", cc)
validate_batch-Refused (x ∷ xs) e h = elim (Bool-cases (ltb max_rows (length (x ∷ xs)))) [
  | inl above ↦ let refused = rw above at h in (codes "Max 1000 rows per request", cc)
  | inr within ↦ let passed = rw within at h in absurd (cc)
]

module _ {R : Type 0} (Outage : Exc → Type 0) (U : UnitOfWork) (L : IsLawful Outage U)
    (label : R → Text) (ins : R → Uuid → Db → Option Db) (b : Uuid) (db : Db)
    (parsed : Result (List R × List Text)) where
  -- How an upload may end: with the parsed records stored, and the errors of the parser after those
  -- of the rows; or with the database as it was.
  abbrev pub Posted : Result IngestionResponse → U.State → Type 0
  Posted (ok response) s =
      (records : List R) × (errors : List Text) × (stored : IngestionResponse) × (parsed
        ≡ ok (records, errors))
      × (response ≡ extended stored errors)
      × Ingested label ins b records db stored (L.view s).committed
  Posted (err e) s = ((L.view s).committed ≡ db) × (Unread parsed e ⊎ Broken Outage e)

module _ {R : Type 0} (Outage : Exc → Type 0) (U : UnitOfWork) (L : IsLawful Outage U)
    (label : R → Text) (ins : R → Uuid → Db → Option Db) (b : Uuid) (db : Db)
    (run : List R → Action U.State IngestionResponse) (s : U.State) (h : At db db (L.view s))
    (runs : (records : List R)
      → let (out, s') = run records s in Executed Outage U L label ins b records db out s') where
  module _ (records : List R) (errors : List Text) where
    abbrev PostedThese : Result IngestionResponse → U.State → Type 0
    PostedThese = Posted Outage U L label ins b db (ok (records, errors))

    after_guard :
        (v : Result (Unit {0}))
        → validate_batch records ≡ v
        → let (out, s') = respond_with U (and_then v (λ _. ok (records, errors))) run s in
          PostedThese out s'
    after_guard (err e) refused = (h.0, inl (inr (validate_batch-Refused records e refused)))
    after_guard (ok _) passed =
        bind_rule (run records) (λ response. pure (extended response errors)) s
          (Executed Outage U L label ins b records db) PostedThese (runs records)
          (λ stored s' ingested. (records, errors, stored, refl, refl, ingested))
          (λ e s' (same, broken). (same, inr broken))

  respond_with-Posted :
      (parsed : Result (List R × List Text))
      → let (out, s') = respond_with U (guarded parsed) run s in
        Posted Outage U L label ins b db parsed out s'
  respond_with-Posted (err e) = (h.0, inl (inl refl))
  respond_with-Posted (ok (records, errors)) =
      after_guard records errors (validate_batch records) refl

module _ (Outage : Exc → Type 0) (outages : (e : Exc) → Outage e → is_operational e ≡ true)
    (U : UnitOfWork) (L : IsLawful Outage U) (b : Uuid) (db : Db)
    (fresh : has_batch b db.batches ≡ false) (s : U.State) (h : At db db (L.view s))
    (file : List ℕ) where
  -- From a clean transaction and with a fresh batch id, an upload of departments that returns has
  -- stored the records of the file and reports its other rows; one that raises has left the database
  -- alone, for the parser, the guard or an outage has raised.
  pub post_departments-Posted :
      let (out, s') = post_departments U b file s in
      Posted Outage U L department_label insert_department_record b db
        (parse_departments file)
        out
        s'
  unfolding post_departments get_department_records ingest_departments
  post_departments-Posted =
      respond_with-Posted Outage U L department_label insert_department_record b db
        (ingest_departments U b) s h
        (λ records.
          execute-Executed Outage outages U L U.departments department_label
            insert_department_record L.departments_lem b records db fresh s h)
        (parse_departments file)

  pub post_jobs-Posted :
      let (out, s') = post_jobs U b file s in
      Posted Outage U L job_label insert_job_record b db (parse_jobs file) out s'
  unfolding post_jobs get_job_records ingest_jobs
  post_jobs-Posted =
      respond_with-Posted Outage U L job_label insert_job_record b db (ingest_jobs U b) s h
        (λ records.
          execute-Executed Outage outages U L U.jobs job_label insert_job_record L.jobs_lem b
            records db fresh s h)
        (parse_jobs file)
