-- ===== src/BatchStatus/AfterWorker.antt =====
-- What a client is told of a batch once the worker has ended.
use globant.Base.{
  ℕ, suc, pos, ◌≡◌, refl, ◌∙◌, ap, inl, inr, true, false, some, List, [], ◌++◌, Text,
}
use globant.Errors.{Uuid, Exc, Result, ok, err}
use globant.Models.{
  Db, IngestionBatch, IngestionBatchStatus, EmployeeRecord, completed, failed, find_batch,
  update_batch, fits_json,
}
use globant.Settings.{Settings}
use globant.UnitOfWork.{UnitOfWork}
use globant.UnitOfWork.Contract.{IsLawful, NoOutage, or_empty, insert_employee_record}
use globant.UnitOfWork.Steps.{At}
use globant.IngestRows.Stored.{greedy_db-batches}
use globant.Workers.World.{Services, World}
use globant.Workers.EmployeeWriter.{employee_label}
use globant.Workers.EmployeeWriter.Employees.{employees_db, employees_errors}
use globant.Workers.Process.Chunks.{Quiet}
use globant.Workers.Process.{read_records, stream_and_process}
use globant.Workers.Process.Properties.{
  insert_employee_record-Keeps, stream_and_process-completed, stream_and_process-failed,
}
use globant.BatchStatus.{BatchStatusResponse, is_pending, get_batch_status}
use globant.BatchStatus.Polled.{Polled, get_batch_status-Polled, find_batch-update_batches}

module _ (settings : Settings) (U : UnitOfWork) (L : IsLawful NoOutage U) (now : ℕ) (b : Uuid)
    (db : Db) (batch : IngestionBatch) (there : find_batch b db.batches ≡ some batch)
    (settled : is_pending batch.status ≡ false) where
  told :
      (out : Result BatchStatusResponse) (s : U.State)
      → Polled NoOutage U L settings now b db out s
      → out ≡ ok (record { batch_id = b; status = batch.status; errors = or_empty batch.errors })
  told (ok response) s h = ap ok (rw (there, settled) at h).0
  told (err e) s (inl (missing, _, _)) = cc
  told (err e) s (inr lost) = absurd lost.0

  -- A batch that is not pending is reported as it is.
  pub poll_settled :
      (s : U.State)
      → At db db (L.view s)
      → (get_batch_status settings U now b s).0
        ≡ ok (record { batch_id = b; status = batch.status; errors = or_empty batch.errors })
  poll_settled s h =
      let (out, s') = get_batch_status settings U now b s in
      told out s' (get_batch_status-Polled NoOutage U L settings now b db s h)

module _ (V : Services) (L : IsLawful NoOutage V.uow) (settings : Settings) (b : Uuid)
    (parse : List ℕ → Result (List EmployeeRecord × List Text)) (d : Db) (w : World V)
    (h : At d d (L.view w.uow)) (batch : IngestionBatch)
    (there : find_batch b d.batches ≡ some batch) (now : ℕ) (s : V.uow.State) where
  abbrev pub left : Db
  left = (L.view (stream_and_process V settings parse b w).1.uow).committed

  poll_after :
      (status : IngestionBatchStatus) (errors : List Text) (c : Db)
      → is_pending status ≡ false
      → left ≡ update_batch b status errors c
      → find_batch b c.batches ≡ some batch
      → At left left (L.view s)
      → (get_batch_status settings V.uow now b s).0
        ≡ ok (record { batch_id = b; status = status; errors = errors })
  poll_after status errors c settled same found clean =
      let after = update_batch b status errors c in
      poll_settled settings V.uow L now b after
        (record batch { status = status; errors = some errors })
        (find_batch-update_batches b status errors c.batches batch found) settled s
        (rw same at clean)

  -- Without an outage, where the file can be read, the chunk size is positive, the cache raises nothing
  -- and no error has the code point 0: once the worker has ended, a poll from a clean transaction, at any time, reports the
  -- batch as completed, with the errors of the parser and then the employees that were refused.
  pub poll_after_completed :
      Quiet V
      → (n : ℕ) → settings.employee_chunk_size ≡ pos (suc n)
      → (records : List EmployeeRecord) (errors : List Text)
      → (read_records V settings parse b w).0 ≡ ok (records, errors)
      → fits_json (errors ++ employees_errors b records d) ≡ true
      → At left left (L.view s)
      → (get_batch_status settings V.uow now b s).0
        ≡ ok (record {
          batch_id = b;
          status = completed;
          errors = errors ++ employees_errors b records d;
        })
  poll_after_completed quiet n size records errors readable fits clean =
      let (_, same) =
        stream_and_process-completed V settings b parse d w L h quiet n size records errors readable
          fits in
      let kept =
        greedy_db-batches (λ r. insert_employee_record r b) employee_label
          (insert_employee_record-Keeps b) records d in
      poll_after completed (errors ++ employees_errors b records d) (employees_db b records d) refl
        same (ap (find_batch b) kept ∙ there) clean

  -- Without an outage, where the file cannot be read, a poll after the worker from a clean
  -- transaction, at any time, reports the batch as failed, with no errors.
  pub poll_after_failed :
      (exc : Exc)
      → (read_records V settings parse b w).0 ≡ err exc
      → At left left (L.view s)
      → (get_batch_status settings V.uow now b s).0
        ≡ ok (record { batch_id = b; status = failed; errors = [] })
  poll_after_failed exc unreadable clean =
      let (_, same) = stream_and_process-failed V settings b parse d w L exc h.0 unreadable in
      poll_after failed [] d refl same there clean
