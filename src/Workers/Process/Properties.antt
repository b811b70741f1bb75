-- ===== src/Workers/Process/Properties.antt =====
-- The worker, on a lawful unit of work and with a cache port that raises nothing.
use globant.Base.{
  ◌≡◌, refl, sym, ap, ◌∙◌, inl, inr, true, false, if◌then◌else◌, List, [], ◌++◌, Text, ℕ, suc, pos,
  arith,
}
use globant.Errors.{Uuid, Exc, Result, ok, err}
use globant.Models.{Db, EmployeeRecord, completed, failed, update_batch, fits_json, insert_employee}
use globant.Models.Integrity.{IsValid, insert_employee-IsValid, update_batch-IsValid}
use globant.Settings.{Settings}
use globant.UnitOfWork.Contract.{IsLawful, AnyOutage, NoOutage, insert_employee_record}
use globant.UnitOfWork.Steps.{At}
use globant.IngestRows.Stored.{Keeps, greedy_db-IsValid}
use globant.Workers.World.{Services, World}
use globant.Workers.EmployeeWriter.{employee_label}
use globant.Workers.EmployeeWriter.Employees.{employees_db, employees_errors}
use globant.Workers.Process.Chunks.{Quiet, Processed, process_records-Processed}
use globant.Workers.Process.Settled.{
  Failed, Settled, stream_and_process-Settled, stream_and_process-Failed,
}
use globant.Workers.Process.{read_records, process_records, stream_and_process}

pub insert_employee_record-Keeps :
    (b : Uuid) → Keeps (λ (r : EmployeeRecord). insert_employee_record r b)
unfolding insert_employee
insert_employee_record-Keeps b r db db' e = (
  insert_employee-IsValid
      (record {
        id = r.id;
        name = r.name;
        hiring_datetime = r.hiring_datetime;
        department_id = r.department_id;
        job_id = r.job_id;
        batch_id = b;
      })
      db db' e,
  ground arith,
)

employees_db-IsValid :
    (b : Uuid) (rs : List EmployeeRecord) (d : Db) → IsValid d → IsValid (employees_db b rs d)
employees_db-IsValid b =
    greedy_db-IsValid (λ r. insert_employee_record r b) employee_label
      (insert_employee_record-Keeps b)

module _ (V : Services) (settings : Settings) (b : Uuid)
    (parse : List ℕ → Result (List EmployeeRecord × List Text)) (d : Db) (w : World V) where
  module _ (L : IsLawful AnyOutage V.uow) where
    Settled-IsValid :
        (records : List EmployeeRecord) (errors : List Text) (out : Result (Unit {0}))
        (w' : World V)
        → IsValid d
        → Settled AnyOutage (λ _ e. e) V L settings b parse records errors d out w'
        → IsValid (L.view w'.uow).committed
    Settled-IsValid records errors (ok _) w' v h = rw h.1.0 (
        update_batch-IsValid b completed (errors ++ employees_errors b records d)
          (employees_db b records d) (employees_db-IsValid b records d v))
    Settled-IsValid records errors (err e) w' v ((c, (done, left, _, same), how), _) =
        let kept : IsValid c = rw same (employees_db-IsValid b done d v) in
        elim how [ inl e ↦ rw e kept | inr e ↦ rw e (update_batch-IsValid b failed [] c kept) ]

    -- Whatever connection is lost, at whichever call: where the file can be read and the chunk size
    -- is positive, `stream_and_process` keeps the integrity of the committed database.
    pub stream_and_process-IsValid :
        At d d (L.view w.uow)
        → Quiet V
        → (n : ℕ) → settings.employee_chunk_size ≡ pos (suc n)
        → (records : List EmployeeRecord) (errors : List Text)
        → (read_records V settings parse b w).0 ≡ ok (records, errors)
        → IsValid d
        → let (out, w') = stream_and_process V settings parse b w in
          IsValid (L.view w'.uow).committed
    stream_and_process-IsValid h quiet n size records errors readable v =
        let (out, w') = stream_and_process V settings parse b w in
        Settled-IsValid records errors out w' v (
          stream_and_process-Settled AnyOutage (λ _ e. e) V L settings b parse quiet n size records
            errors d w h readable)

  module _ (L : IsLawful NoOutage V.uow) where
    completes :
        (records : List EmployeeRecord) (errors : List Text) (out : Result (Unit {0}))
        (w' : World V)
        → fits_json (errors ++ employees_errors b records d) ≡ true
        → Settled NoOutage (λ _ e. absurd e) V L settings b parse records errors d out w'
        → (out ≡ ok tt)
          × ((L.view w'.uow).committed
              ≡ update_batch b completed
                  (errors ++ employees_errors b records d)
                  (employees_db b records d))
    completes records errors (ok _) w' fits h = (refl, h.1.0)
    completes records errors (err e) w' fits (_, inl lost) = absurd lost.1
    completes records errors (err e) w' fits (_, inr ((refused, _, _), _)) = cc

    refuses :
        (records : List EmployeeRecord) (errors : List Text) (out : Result (Unit {0}))
        (w' : World V)
        → fits_json (errors ++ employees_errors b records d) ≡ false
        → Settled NoOutage (λ _ e. absurd e) V L settings b parse records errors d out w'
        → (out ≡ err (L.json_error b completed (errors ++ employees_errors b records d)))
          × ((L.view w'.uow).committed ≡ update_batch b failed [] (employees_db b records d))
    refuses records errors (ok _) w' refused (fits, _) = cc
    refuses records errors (err e) w' refused (_, inl lost) = absurd lost.1
    refuses records errors (err e) w' refused (_, inr ((_, same, _), left)) = (ap err same, left)

    fails :
        (exc : Exc) (out : Result (Unit {0})) (w' : World V)
        → Failed NoOutage V L b settings exc d out w'
        → (out ≡ err exc) × ((L.view w'.uow).committed ≡ update_batch b failed [] d)
    fails exc (ok _) w' h = absurd h
    fails exc (err e) w' (inl (same, inl marked)) = (rw same refl, marked)
    fails exc (err e) w' (inl (same, inr (_, (x, lost)))) = absurd lost
    fails exc (err e) w' (inr (_, lost)) = absurd lost

    -- Without an outage, where the file can be read, the chunk size is positive, the cache raises
    -- nothing and no error that the batch gets has the code point 0: `stream_and_process` returns;
    -- every employee has been stored in turn if the constraints allow it, whatever the chunks, and
    -- the batch is completed with the errors of the parser and then the employees that were refused.
    pub stream_and_process-completed :
        At d d (L.view w.uow)
        → Quiet V
        → (n : ℕ) → settings.employee_chunk_size ≡ pos (suc n)
        → (records : List EmployeeRecord) (errors : List Text)
        → (read_records V settings parse b w).0 ≡ ok (records, errors)
        → fits_json (errors ++ employees_errors b records d) ≡ true
        → let (out, w') = stream_and_process V settings parse b w in
          (out ≡ ok tt)
          × ((L.view w'.uow).committed
              ≡ update_batch b completed
                  (errors ++ employees_errors b records d)
                  (employees_db b records d))
    stream_and_process-completed h quiet n size records errors readable fits =
        let (out, w') = stream_and_process V settings parse b w in
        completes records errors out w' fits (
          stream_and_process-Settled NoOutage (λ _ e. absurd e) V L settings b parse quiet n size
            records errors d w h readable)

    -- Without an outage, where the file can be read, the chunk size is positive and the cache raises
    -- nothing, but an error that the batch would get has the code point 0: `stream_and_process`
    -- raises what PostgreSQL's refusal of the errors raises, every employee has been stored in turn
    -- if the constraints allow it, and the batch is failed, without its errors.
    pub stream_and_process-refused :
        At d d (L.view w.uow)
        → Quiet V
        → (n : ℕ) → settings.employee_chunk_size ≡ pos (suc n)
        → (records : List EmployeeRecord) (errors : List Text)
        → (read_records V settings parse b w).0 ≡ ok (records, errors)
        → fits_json (errors ++ employees_errors b records d) ≡ false
        → let (out, w') = stream_and_process V settings parse b w in
          (out ≡ err (L.json_error b completed (errors ++ employees_errors b records d)))
          × ((L.view w'.uow).committed ≡ update_batch b failed [] (employees_db b records d))
    stream_and_process-refused h quiet n size records errors readable unfit =
        let (out, w') = stream_and_process V settings parse b w in
        refuses records errors out w' unfit (
          stream_and_process-Settled NoOutage (λ _ e. absurd e) V L settings b parse quiet n size
            records errors d w h readable)

    -- Without an outage, where the file cannot be downloaded or parsed, `stream_and_process` raises
    -- that exception again, and the batch is failed, with nothing else changed.
    pub stream_and_process-failed :
        (exc : Exc)
        → (L.view w.uow).committed ≡ d
        → (read_records V settings parse b w).0 ≡ err exc
        → let (out, w') = stream_and_process V settings parse b w in
          (out ≡ err exc) × ((L.view w'.uow).committed ≡ update_batch b failed [] d)
    stream_and_process-failed exc h unreadable =
        let (out, w') = stream_and_process V settings parse b w in
        fails exc out w' (
          stream_and_process-Failed NoOutage (λ _ e. absurd e) V L settings b parse exc d w h
            unreadable)

-- The chunk size only.
abbrev with_chunk_size : ℕ → Settings → Settings
with_chunk_size n settings = record settings { employee_chunk_size = pos n }

module _ (V : Services) (L : IsLawful NoOutage V.uow) (b : Uuid) where
  -- The result, and the committed database, by whether the errors can be stored.
  processed : List EmployeeRecord → List Text → Db → Result (Unit {0}) × Db
  processed records errors d =
      let all = errors ++ employees_errors b records d in
      let full = employees_db b records d in
      if fits_json all
      then (ok tt, update_batch b completed all full)
      else (err (L.json_error b completed all), full)

  committed_by :
      (settings : Settings) (quiet : Quiet V) (records : List EmployeeRecord) (errors : List Text)
      (d : Db) (out : Result (Unit {0})) (w' : World V)
      → Processed NoOutage (λ _ e. absurd e) V L settings b quiet records errors d out w'
      → (out, (L.view w'.uow).committed) ≡ processed records errors d
  unfolding processed
  committed_by settings quiet records errors d (ok _) w' (fits, left) = rw (fits, left.0) refl
  committed_by settings quiet records errors d (err e) w' (_, inl lost) = absurd lost.1
  committed_by settings quiet records errors d (err e) w' (_, inr ((unfit, why, _), same)) =
      rw (unfit, why, same) refl

  -- Without an outage the chunk size makes no difference: any two positive ones end in the same
  -- result and the same committed database.
  pub process_records-chunk_size :
      (settings : Settings) (m n : ℕ)
      → Quiet V
      → (records : List EmployeeRecord) (errors : List Text) (d : Db) (w : World V)
      → At d d (L.view w.uow)
      → let (out, w') = process_records V (with_chunk_size (suc m) settings) b records errors w in
        let (out', w'') = process_records V (with_chunk_size (suc n) settings) b records errors w in
        (out ≡ out') × ((L.view w'.uow).committed ≡ (L.view w''.uow).committed)
  process_records-chunk_size settings m n quiet records errors d w h =
      let same = by_size m ∙ sym (by_size n) in (ap (λ p. p.0) same, ap (λ p. p.1) same)
    where
      by_size :
          (k : ℕ)
          → let (out, w') =
              process_records V (with_chunk_size (suc k) settings) b records errors w in
            (out, (L.view w'.uow).committed) ≡ processed records errors d
      by_size k =
          let settings' = with_chunk_size (suc k) settings in
          let (out, w') = process_records V settings' b records errors w in
          committed_by settings' quiet records errors d out w' (
            process_records-Processed NoOutage (λ _ e. absurd e) V L settings' b quiet k refl
              records errors d w h)
