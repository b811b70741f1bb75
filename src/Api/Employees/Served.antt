-- ===== src/Api/Employees/Served.antt =====
-- An employees file from its upload to the poll that reports it.
use globant.Base.{
  ℕ, suc, pos, ◌≡◌, refl, inl, inr, some, arith, ap, ◌∙◌, sym, true, false, List, [], ◌∷◌, ◌++◌,
  Text,
}
use globant.Errors.{Uuid, Exc, Result, ok, err}
use globant.Models.{
  Db, EmployeeRecord, pending, completed, failed, has_batch, find_batch, fits_json,
}
use globant.Settings.{Settings}
use globant.Ports.{Keeps, temporary_file}
use globant.UnitOfWork.Contract.{IsLawful, NoOutage, new_batch}
use globant.UnitOfWork.Steps.{At, with_batch}
use globant.Workers.World.{Services, World}
use globant.Workers.EmployeeWriter.Employees.{employees_errors}
use globant.Workers.Process.{employees_key, read_records, stream_and_process}
use globant.Workers.Process.Chunks.{Quiet}
use globant.Workers.Process.Properties.{stream_and_process-completed}
use globant.BatchStatus.{get_batch_status, ingest_employees}
use globant.BatchStatus.Accepted.{Accepted, ingest_employees-Accepted}
use globant.BatchStatus.AfterWorker.{poll_after_completed, poll_after_failed}
use globant.Api.Employees.{Task, post_employees, SessionMaker, run_process_employees_chunk}

module _ {Outage : Exc → Type 0} (V : Services) (L : IsLawful Outage V.uow)
    (M : SessionMaker V) where
  -- A new session starts from a clean transaction over what has been committed; the end of a
  -- session leaves that alone.
  abbrev pub Opens : Type 0
  Opens =
      (s : V.uow.State)
      → (let c = (L.view s).committed in At c c (L.view (M.open_session s)))
        × ((L.view (M.close_session s)).committed ≡ (L.view s).committed)

module _ (V : Services) (L : IsLawful NoOutage V.uow) (M : SessionMaker V) (settings : Settings)
    (parse : List ℕ → Result (List EmployeeRecord × List Text)) (b : Uuid) (db : Db)
    (fresh : has_batch b db.batches ≡ false) (w : World V) (h : At db db (L.view w.uow))
    (keeps : Keeps V.storage) (opens : Opens V L M) (file : List ℕ) (now : ℕ) where
  abbrev pub runner : Uuid → Task V
  runner = run_process_employees_chunk settings V M parse

  -- The upload has been accepted.
  abbrev pub stored : V.storage.State
  stored =
      (V.storage.upload_file (temporary_file file) settings.storage_bucket (employees_key b)
        w.storage).1

  abbrev pub Ready : Result Uuid → World V → Type 0
  Ready out w1 =
      (out ≡ ok b)
      × ((t : ℕ) × ((L.view w1.uow).committed ≡ with_batch b t db))
      × (w1.storage ≡ stored)

  Accepted-Ready :
      (out : Result Uuid) (w1 : World V)
      → Accepted NoOutage V L settings b db (temporary_file file) w out w1
      → Ready out w1
  Accepted-Ready (ok i) w1 (same, added, _, kept) = (ap ok same, added, kept)
  Accepted-Ready (err e) w1 (_, inr lost) = absurd lost
  Accepted-Ready (err e) w1 (_, inl up) =
      let (_, there) = (keeps file 0 settings.storage_bucket (employees_key b) w.storage).0 in
      let both : err e ≡ ok _ = sym up ∙ there in cc

  read_file :
      (w1 : World V) → w1.storage ≡ stored → (read_records V settings parse b w1).0 ≡ parse file
  unfolding read_records
  read_file w1 kept =
      let (_, (stream, streamed, whole, safe)) =
        keeps file 0 settings.storage_bucket (employees_key b) w.storage in
      rw (kept, streamed, safe, whole) refl

  pub ready : let (out, w1) = ingest_employees settings V b (temporary_file file) w in Ready out w1
  ready =
      let (out, w1) = ingest_employees settings V b (temporary_file file) w in
      Accepted-Ready out w1
        (ingest_employees-Accepted NoOutage V L settings b db (temporary_file file) fresh w h)

  -- The request answers with the batch, and adds its task.
  pub posted :
      {T : Type 0} (run : Uuid → T)
      → post_employees settings V run b file w ≡ (
        ok (record { batch_id = b }, run b ∷ []),
        (ingest_employees settings V b (temporary_file file) w).1,
      )
  unfolding post_employees
  posted run = rw ready.0 refl

  -- The task runs in a session of its own, and so does the poll that follows it.
  abbrev in_task : World V → World V
  in_task w1 = record w1 { uow = M.open_session w1.uow }

  abbrev polling : World V → V.uow.State
  polling w1 = M.open_session (run_process_employees_chunk settings V M parse b w1).1.uow

  found_batch : (t : ℕ) → find_batch b (with_batch b t db).batches ≡ some (new_batch b pending t)
  found_batch t = ground arith

  task-At :
      (t : ℕ) (w1 : World V)
      → (L.view w1.uow).committed ≡ with_batch b t db
      → At (with_batch b t db) (with_batch b t db) (L.view (in_task w1).uow)
  task-At t w1 same = rw (← same) (opens w1.uow).0

  abbrev left_by_task : World V → Db
  left_by_task w1 = (L.view (stream_and_process V settings parse b (in_task w1)).1.uow).committed

  polling-At : (w1 : World V) → At (left_by_task w1) (left_by_task w1) (L.view (polling w1))
  unfolding run_process_employees_chunk
  polling-At w1 =
      let ended = (stream_and_process V settings parse b (in_task w1)).1.uow in
      rw (← (opens ended).1) (opens (M.close_session ended)).0

  pub polled_completed :
      Quiet V
      → (n : ℕ) → settings.employee_chunk_size ≡ pos (suc n)
      → (records : List EmployeeRecord) (errors : List Text) → parse file ≡ ok (records, errors)
      → ((t : ℕ) → fits_json (errors ++ employees_errors b records (with_batch b t db)) ≡ true)
      → (out : Result Uuid) (w1 : World V) → Ready out w1
      → (t : ℕ) × ((get_batch_status settings V.uow now b (polling w1)).0
          ≡ ok (record {
            batch_id = b;
            status = completed;
            errors = errors ++ employees_errors b records (with_batch b t db);
          }))
  polled_completed quiet n size records errors parses fits out w1 (_, (t, added), kept) = (
    t,
    poll_after_completed V L settings b parse (with_batch b t db) (in_task w1) (task-At t w1 added)
        (new_batch b pending t) (found_batch t) now (polling w1) quiet n size records errors
        (read_file (in_task w1) kept ∙ parses) (fits t) (polling-At w1),
  )

  pub ran_completed :
      Quiet V
      → (n : ℕ) → settings.employee_chunk_size ≡ pos (suc n)
      → (records : List EmployeeRecord) (errors : List Text) → parse file ≡ ok (records, errors)
      → ((t : ℕ) → fits_json (errors ++ employees_errors b records (with_batch b t db)) ≡ true)
      → (out : Result Uuid) (w1 : World V) → Ready out w1
      → (run_process_employees_chunk settings V M parse b w1).0 ≡ ok tt
  unfolding run_process_employees_chunk
  ran_completed quiet n size records errors parses fits out w1 (_, (t, added), kept) =
      (stream_and_process-completed V settings b parse (with_batch b t db) (in_task w1) L
        (task-At t w1 added) quiet n size records errors (read_file (in_task w1) kept ∙ parses)
        (fits t)).0

  polled_failed :
      (exc : Exc)
      → parse file ≡ err exc
      → (out : Result Uuid) (w1 : World V) → Ready out w1
      → (get_batch_status settings V.uow now b (polling w1)).0
        ≡ ok (record { batch_id = b; status = failed; errors = [] })
  polled_failed exc fails out w1 (_, (t, added), kept) =
      poll_after_failed V L settings b parse (with_batch b t db) (in_task w1) (task-At t w1 added)
        (new_batch b pending t) (found_batch t) now (polling w1) exc
        (read_file (in_task w1) kept ∙ fails) (polling-At w1)

  -- The world once the request has been answered.
  abbrev pub answered : World V
  answered = (post_employees settings V runner b file w).1

  answered_lem : answered ≡ (ingest_employees settings V b (temporary_file file) w).1
  answered_lem = ap (λ p. p.1) (posted runner)

  -- Without an outage, with a storage that gives back what it takes, a cache that raises nothing
  -- and a positive chunk size, where the parser takes the file and no error that the batch gets has
  -- the code point 0: an upload under a fresh batch id answers with that id and adds one task; once
  -- the task has run, in its own session, a poll in a new session, at any time, reports the batch as
  -- completed, with the errors of the parser and then the employees that were refused.
  pub post_employees-completed :
      Quiet V
      → (n : ℕ) → settings.employee_chunk_size ≡ pos (suc n)
      → (records : List EmployeeRecord) (errors : List Text) → parse file ≡ ok (records, errors)
      → ((t : ℕ) → fits_json (errors ++ employees_errors b records (with_batch b t db)) ≡ true)
      → ((post_employees settings V runner b file w).0
          ≡ ok (record { batch_id = b }, runner b ∷ []))
        × ((t : ℕ) × ((get_batch_status settings V.uow now b
                (M.open_session (runner b answered).1.uow)).0
              ≡ ok (record {
                batch_id = b;
                status = completed;
                errors = errors ++ employees_errors b records (with_batch b t db);
              })))
  post_employees-completed quiet n size records errors parses fits =
      let (out, w1) = ingest_employees settings V b (temporary_file file) w in
      let (t, told) = polled_completed quiet n size records errors parses fits out w1 ready in
      (ap (λ p. p.0) (posted runner), (t, rw answered_lem told))

  -- Without an outage, with a storage that gives back what it takes, where the parser raises on the
  -- file: the upload is answered with its batch id all the same, and a poll after the task reports
  -- the batch as failed, with no errors.
  pub post_employees-failed :
      (exc : Exc)
      → parse file ≡ err exc
      → ((post_employees settings V runner b file w).0
          ≡ ok (record { batch_id = b }, runner b ∷ []))
        × ((get_batch_status settings V.uow now b (M.open_session (runner b answered).1.uow)).0
            ≡ ok (record { batch_id = b; status = failed; errors = [] }))
  post_employees-failed exc fails =
      let (out, w1) = ingest_employees settings V b (temporary_file file) w in
      (ap (λ p. p.0) (posted runner), rw answered_lem (polled_failed exc fails out w1 ready))
