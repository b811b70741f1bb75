-- ===== src/Workers/Process.antt =====
-- hiring-service/src/app/workers/: process_employees_chunk.py with the helpers batch_status.py and
-- storage_reader.py. Logging is left out. `parse` is `parse_employees`.
pub mod Chunks
pub mod Cleared
pub mod Settled
pub mod Properties
use globant.Base.{ℕ, Option, none, some, List, [], ◌∷◌, ◌++◌, concat, Text, codes}
use globant.Errors.{Uuid, Exc, Result, ok, err, show_uuid}
use globant.Action.{Action, pure, raise, try_except, ◌>>=◌, ◌>>◌}
use globant.Models.{EmployeeRecord, completed, failed}
use globant.Settings.{Settings}
use globant.Workers.World.{Services, World, on_uow, on_cache, on_storage, lift}
use globant.Workers.Chunking.{iter_chunks}
use globant.Workers.EmployeeWriter.{write_employees}

-- `b"".join(chunks)`, unless the stream has raised
abbrev pub joined : List (List ℕ) → Option Exc → Result (List ℕ)
joined chunks none = ok (concat chunks)
joined chunks (some e) = err e

-- `f"employees/{batch_id}.csv"`
unfoldable pub employees_key : Uuid → Text
employees_key batch_id = codes "employees/" ++ (show_uuid batch_id ++ codes ".csv")

module _ (V : Services) (settings : Settings) where
  -- storage_reader.py
  unfoldable pub download_file : Text → Text → Action (World V) (List ℕ)
  download_file bucket key = do
    stream ← on_storage V (V.storage.stream_file bucket key)
    lift V (joined stream.chunks stream.failure)

  -- The `try` of `mark_batch_failed`.
  unfoldable pub fail_batch : Uuid → Action (World V) (Unit {0})
  fail_batch batch_id = do
    on_uow V V.uow.rollback
    on_uow V (V.uow.batch.update_status batch_id failed none >> V.uow.commit)

  unfoldable pub mark_batch_failed : Uuid → Action (World V) (Unit {0})
  unfolding fail_batch
  mark_batch_failed batch_id = try_except (fail_batch batch_id) (λ exc. on_uow V V.uow.rollback)

  unfoldable pub finalize_batch : Uuid → List Text → Action (World V) (Unit {0})
  finalize_batch batch_id errors = do
    on_uow V (V.uow.batch.update_status batch_id completed (some errors) >> V.uow.commit)
    on_cache V (V.cache.delete settings.metrics_cache_keys)

  -- The loop over the chunks, from the errors so far.
  unfoldable pub write_chunks :
      Uuid → List (List EmployeeRecord) → List Text → Action (World V) (List Text)
  write_chunks batch_id [] all_errors = pure all_errors
  write_chunks batch_id (chunk ∷ chunks) all_errors = do
    chunk_errors ← on_uow V (write_employees V.uow batch_id chunk)
    write_chunks batch_id chunks (all_errors ++ chunk_errors)

  -- `_process` after the parser
  unfoldable pub process_records :
      Uuid → List EmployeeRecord → List Text → Action (World V) (Unit {0})
  unfolding write_chunks finalize_batch
  process_records batch_id records parse_errors = do
    chunks ← lift V (iter_chunks records settings.employee_chunk_size)
    all_errors ← write_chunks batch_id chunks parse_errors
    finalize_batch batch_id all_errors

  module _ (parse : List ℕ → Result (List EmployeeRecord × List Text)) where
    -- The start of `_process`: the file of the batch, parsed.
    unfoldable pub read_records : Uuid → Action (World V) (List EmployeeRecord × List Text)
    unfolding download_file employees_key
    read_records batch_id = do
      raw ← download_file settings.storage_bucket (employees_key batch_id)
      lift V (parse raw)

    -- `_process`
    unfoldable pub process : Uuid → Action (World V) (Unit {0})
    unfolding read_records process_records
    process batch_id = do
      (records, parse_errors) ← read_records batch_id
      process_records batch_id records parse_errors

    -- `stream_and_process`
    unfoldable pub stream_and_process : Uuid → Action (World V) (Unit {0})
    unfolding process mark_batch_failed
    stream_and_process batch_id =
        try_except (process batch_id) (λ exc. mark_batch_failed batch_id >> raise exc)
