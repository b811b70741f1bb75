-- ===== src/System/Requests.antt =====
-- The routes and the background task are made of the steps of `System`.
use globant.Base.{ℕ, ◌≡◌, refl, sym, ◌∙◌, true, false, List, [], ◌∷◌, ◌++◌, Text}
use globant.Errors.{Uuid, Exc, Result, ok, err, is_operational}
use globant.Action.{Action, pure, raise, ◌>>◌, ◌>>=◌}
use globant.Action.Rules.{bind_rule, try_rule}
use globant.Models.{Db, has_batch, EmployeeRecord}
use globant.Settings.{Settings}
use globant.Ports.{temporary_file}
use globant.UnitOfWork.Contract.{IsLawful}
use globant.UnitOfWork.Steps.{At}
use globant.Workers.World.{Services, World, on_uow, lift}
use globant.Workers.Chunking.{iter_chunks}
use globant.Workers.EmployeeWriter.{write_employees}
use globant.Workers.EmployeeWriter.Outcome.{Written, write_employees-Written}
use globant.Workers.Process.{
  write_chunks, finalize_batch, mark_batch_failed, process_records, read_records, process,
  stream_and_process,
}
use globant.Workers.Process.Settled.{read_records-uow}
use globant.IngestRows.{IngestionResponse, ingest_departments, ingest_jobs}
use globant.Api.{
  get_department_records, get_job_records, extended, respond_with, post_departments, post_jobs,
}
use globant.BatchStatus.{ingest_employees}
use globant.Api.Employees.{AcceptedResponse, post_employees}
use globant.System.{
  write_chunk, complete, give_up, upload_departments, upload_jobs, upload_employees, Reaches, here,
  next,
}

module _ (Outage : Exc → Type 0) (outages : (e : Exc) → Outage e → is_operational e ≡ true)
    (V : Services) (L : IsLawful Outage V.uow) (settings : Settings) (db : Db) where
  abbrev committed_by : World V → Db
  committed_by w = (L.view w.uow).committed

  abbrev Reached : Db → Type 0
  Reached = Reaches Outage V L settings db

  -- A call that returns has left a clean transaction; one that raises may have left any.
  abbrev Ran : {A : Type 0} → Result A → World V → Type 0
  Ran (ok _) w = At (committed_by w) (committed_by w) (L.view w.uow) × Reached (committed_by w)
  Ran (err e) w = Reached (committed_by w)

  module _ (b : Uuid) where
    Written-Ran :
        (chunk : List EmployeeRecord) (d : Db) (out : Result (List Text)) (w : World V)
        → Written Outage outages V.uow L b chunk [] d out w.uow
        → Reached (committed_by w)
        → Ran out w
    Written-Ran chunk d (ok _) w h reached = ((refl, h.0.1 ∙ sym h.0.0, h.0.2), reached)
    Written-Ran chunk d (err e) w h reached = reached

    write_chunk-Ran :
        (chunk : List EmployeeRecord) (w : World V)
        → Ran (ok tt) w
        → let (out, w') = on_uow V (write_employees V.uow b chunk) w in Ran out w'
    write_chunk-Ran chunk w (clean, reached) =
        let (out, s') = write_employees V.uow b chunk w.uow in
        Written-Ran chunk (committed_by w) out (record w { uow = s' })
          (write_employees-Written Outage outages V.uow L b chunk (committed_by w) w.uow clean)
          (next reached (write_chunk b chunk w.uow clean refl))

    write_chunks-Ran :
        (chunks : List (List EmployeeRecord)) (errors : List Text) (w : World V)
        → Ran (ok tt) w
        → let (out, w') = write_chunks V settings b chunks errors w in Ran out w'
    unfolding write_chunks
    write_chunks-Ran [] errors w h = h
    write_chunks-Ran (chunk ∷ chunks) errors w h =
        bind_rule (on_uow V (write_employees V.uow b chunk))
          (λ found. write_chunks V settings b chunks (errors ++ found)) w Ran Ran
          (write_chunk-Ran chunk w h)
          (λ found w1 h1. write_chunks-Ran chunks (errors ++ found) w1 h1) (λ e w1 h1. h1)

    -- Where a run has got to, however it ended.
    abbrev Ended : {A : Type 0} → Result A → World V → Type 0
    Ended out w = Reached (committed_by w)

    process_records-Ended :
        (records : List EmployeeRecord) (errors : List Text) (w : World V)
        → Ran (ok tt) w
        → let (out, w') = process_records V settings b records errors w in Ended out w'
    unfolding process_records
    process_records-Ended records errors w h =
        bind_rule (lift V (iter_chunks records settings.employee_chunk_size))
          (λ chunks. write_chunks V settings b chunks errors >>= finalize_batch V settings b) w
          (λ out w1. Ran (ok tt) w1) Ended h
          (λ chunks w1 h1.
            bind_rule (write_chunks V settings b chunks errors) (finalize_batch V settings b) w1 Ran
              Ended (write_chunks-Ran chunks errors w1 h1)
              (λ all_errors w2 h2. next h2.1 (complete b all_errors w2 h2.0 refl)) (λ e w2 h2. h2))
          (λ e w1 h1. h1.1)

    module _ (parse : List ℕ → Result (List EmployeeRecord × List Text)) where
      process-Ended :
          (w : World V)
          → Ran (ok tt) w
          → let (out, w') = process V settings parse b w in Ended out w'
      unfolding process
      process-Ended w h =
          bind_rule (read_records V settings parse b)
            (λ (records, errors). process_records V settings b records errors) w
            (λ out w1. w1.uow ≡ w.uow) Ended
            (read_records-uow Outage outages V L settings b parse w)
            (λ (records, errors) w1 same. process_records-Ended records errors w1 (rw same h))
            (λ e w1 same. rw same h.1)

      give_up-Ended :
          (exc : Exc) (w : World V)
          → Reached (committed_by w)
          → let raised : Action (World V) (Unit {0}) = raise exc in
            let (out, w') = (mark_batch_failed V settings b >> raised) w in Ended out w'
      give_up-Ended exc w reached =
          let raised : Action (World V) (Unit {0}) = raise exc in
          bind_rule (mark_batch_failed V settings b) (λ _. raised) w Ended Ended
            (next reached (give_up b w refl refl)) (λ _ w1 h1. h1) (λ e w1 h1. h1)

      -- From a clean transaction, whatever is uploaded and whatever fails, all that the worker does
      -- to the database is a sequence of steps of the service.
      pub stream_and_process-Reaches :
          (w : World V)
          → At db db (L.view w.uow)
          → let (out, w') = stream_and_process V settings parse b w in
            Reaches Outage V L settings db (L.view w'.uow).committed
      unfolding stream_and_process
      stream_and_process-Reaches w h =
          try_rule (process V settings parse b) (λ exc. mark_batch_failed V settings b >> raise exc)
            w Ended Ended (process-Ended w ((refl, h.1 ∙ sym h.0, h.2), rw h.0 here))
            (λ _ w1 h1. h1) (λ exc w1 h1. give_up-Ended exc w1 h1)

  -- A use case that takes one step, behind the parser of its route.
  respond_with-Reaches :
      {R : Type 0} (parsed : Result (List R × List Text))
      (run : List R → Action V.uow.State IngestionResponse) (s : V.uow.State)
      → At db db (L.view s)
      → ((records : List R) → Reached (L.view (run records s).1).committed)
      → Reached (L.view (respond_with V.uow parsed run s).1).committed
  respond_with-Reaches (err e) run s h reached = rw h.0 here
  respond_with-Reaches (ok (records, errors)) run s h reached =
      let extend : IngestionResponse → Action V.uow.State IngestionResponse =
        λ response. pure (extended response errors) in
      bind_rule (run records) extend s (λ _ s'. Reached (L.view s').committed)
        (λ _ s'. Reached (L.view s').committed) (reached records) (λ _ s' h'. h') (λ _ s' h'. h')

  -- From a clean transaction and with a fresh batch id, each of the three uploads takes one step of
  -- the service, or leaves the database alone.
  pub uploads-Reaches :
      {T : Type 0} (b : Uuid) (raw : List ℕ) (runner : Uuid → T) (w : World V)
      → At db db (L.view w.uow)
      → has_batch b db.batches ≡ false
      → Reached (L.view (post_departments V.uow b raw w.uow).1).committed
        × Reached (L.view (post_jobs V.uow b raw w.uow).1).committed
        × Reached (committed_by (post_employees settings V runner b raw w).1)
  unfolding post_departments post_jobs post_employees
  uploads-Reaches b raw runner w h fresh = (
    respond_with-Reaches (get_department_records raw) (ingest_departments V.uow b) w.uow h
        (λ records. next here (upload_departments b records w.uow h fresh refl)),
    respond_with-Reaches (get_job_records raw) (ingest_jobs V.uow b) w.uow h
        (λ records. next here (upload_jobs b records w.uow h fresh refl)),
    bind_rule (ingest_employees settings V b (temporary_file raw))
        (λ batch_id.
          let done : Action (World V) (AcceptedResponse × List _) =
            pure (record { batch_id = batch_id }, runner batch_id ∷ []) in
          done)
        w (λ _ w1. Reached (committed_by w1)) (λ _ w1. Reached (committed_by w1))
        (next here (upload_employees b (temporary_file raw) w h fresh refl)) (λ _ w1 h1. h1)
        (λ _ w1 h1. h1),
  )
