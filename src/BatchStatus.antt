-- ===== src/BatchStatus.antt =====
-- hiring-service/src/app/services/ingestion/use_cases/: get_batch_status.py and
-- ingest_employees.py.
pub mod Polled
pub mod Accepted
pub mod AfterWorker
pub mod LateWorker
use globant.Base.{
  ℕ, suc, ◌-◌, ◌*◌, ◌^◌, Bool, true, false, ◌&&◌, Option, none, some, List, [], Text, ℤ, pos,
  negsuc, sub_ℕ, ltb_ℤ, if◌then◌else◌,
}
use globant.Errors.{Uuid, Exc, Result, ok, err, other, batch_not_found_error}
use globant.Base.{codes}
use globant.Action.{Action, pure, raise, ◌>>=◌, ◌>>◌}
use globant.Models.{IngestionBatch, IngestionBatchStatus, pending, completed, failed}
use globant.Settings.{Settings}
use globant.Ports.{BinaryFile}
use globant.UnitOfWork.{UnitOfWork}
use globant.UnitOfWork.Contract.{or_empty}
use globant.Workers.World.{Services, World, on_uow, on_storage}
use globant.Workers.Process.{employees_key}

pub record BatchStatusResponse : Type 0 where
  pub batch_id : Uuid
  pub status : IngestionBatchStatus
  pub errors : List Text

-- Seconds in microseconds.
abbrev pub microseconds : ℤ → ℤ
microseconds (pos n) = pos (n * 10 ^ 6)
microseconds (negsuc n) = negsuc (suc n * 10 ^ 6 - 1)

abbrev pub is_pending : IngestionBatchStatus → Bool
is_pending pending = true
is_pending _ = false

module _ (settings : Settings) where
  -- `_is_stale`, at the time `now`: the age in seconds is above the timeout. Times are in
  -- microseconds.
  unfoldable pub is_stale : ℕ → ℕ → Bool
  is_stale now created_at =
      ltb_ℤ (microseconds settings.batch_timeout_seconds) (sub_ℕ now created_at)

  module _ (U : UnitOfWork) where
    -- The response for a batch and its status.
    abbrev pub respond :
        IngestionBatchStatus → Option IngestionBatch → Action U.State BatchStatusResponse
    respond status none = raise (other (codes "ObjectDeletedError"))
    respond status (some b) =
        pure (record { batch_id = b.id; status = status; errors = or_empty b.errors })

    -- The commit expires the attributes of the batch, so that the response reads them again.
    unfoldable pub expire_batch : Uuid → Action U.State BatchStatusResponse
    expire_batch batch_id = do
      U.batch.update_status batch_id failed none
      U.commit
      reloaded ← U.batch.get batch_id
      respond failed reloaded

    unfoldable pub answer : ℕ → Uuid → Option IngestionBatch → Action U.State BatchStatusResponse
    unfolding expire_batch
    answer now batch_id none = raise (batch_not_found_error batch_id)
    answer now batch_id (some b) =
        if is_pending b.status && is_stale now b.created_at
        then expire_batch batch_id
        else respond b.status (some b)

    -- `GetBatchStatusUseCase.execute`
    unfoldable pub get_batch_status : ℕ → Uuid → Action U.State BatchStatusResponse
    unfolding answer
    get_batch_status now batch_id = U.batch.get batch_id >>= answer now batch_id

  -- `IngestEmployeesUseCase.execute`; the batch id is the fresh `uuid.uuid4()`.
  module _ (V : Services) where
    unfoldable pub ingest_employees : Uuid → BinaryFile → Action (World V) Uuid
    unfolding employees_key
    ingest_employees batch_id stream = do
      on_storage V (V.storage.upload_file stream settings.storage_bucket (employees_key batch_id))
      on_uow V (V.uow.batch.add batch_id pending)
      on_uow V V.uow.commit
      pure batch_id
