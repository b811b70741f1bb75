-- ===== src/Workers/Process/Cleared.antt =====
-- What a run of the worker does to the cache.
use globant.Base.{◌≡◌, refl, none, some, List, [], ◌∷◌, ◌++◌, Text, ℕ}
use globant.Errors.{Uuid, Result, ok, err}
use globant.Action.{Action, raise, ◌>>=◌, ◌>>◌}
use globant.Action.Rules.{bind_rule, try_rule}
use globant.Models.{EmployeeRecord, completed, failed}
use globant.Settings.{Settings}
use globant.Workers.World.{Services, World, on_uow, on_cache, on_storage, lift}
use globant.Workers.Chunking.{iter_chunks}
use globant.Workers.EmployeeWriter.{write_employees}
use globant.Workers.Process.{
  joined, employees_key, download_file, read_records, write_chunks, finalize_batch, process_records,
  process, fail_batch, mark_batch_failed, stream_and_process,
}
use globant.Workers.Process.Chunks.{Quiet}

module _ (V : Services) (settings : Settings) (quiet : Quiet V) where
  abbrev deleting : V.cache.State → Result (Unit {0}) × V.cache.State
  deleting = V.cache.delete settings.metrics_cache_keys

  -- A run that starts with the cache `c` and returns has deleted the keys of the metrics; one that
  -- raises has left the cache alone.
  abbrev pub Cleared : V.cache.State → Result (Unit {0}) → World V → Type 0
  Cleared c (ok _) w = w.cache ≡ (deleting c).1
  Cleared c (err e) w = w.cache ≡ c

  -- A part of a run that does not reach the cache.
  abbrev Left : {A : Type 0} → V.cache.State → Result A → World V → Type 0
  Left c out w = w.cache ≡ c

  module _ (c : V.cache.State) where
    finalize_batch-Cleared :
        (b : Uuid) (errors : List Text) (w : World V)
        → w.cache ≡ c
        → let (out, w') = finalize_batch V settings b errors w in Cleared c out w'
    unfolding finalize_batch
    finalize_batch-Cleared b errors w same =
        bind_rule (on_uow V (V.uow.batch.update_status b completed (some errors) >> V.uow.commit))
          (λ _. on_cache V deleting) w (Left c) (Cleared c) same
          (λ _ w1 same1. rw (same1, quiet settings.metrics_cache_keys c) refl) (λ e w1 same1. same1)

    write_chunks-Left :
        (b : Uuid) (chunks : List (List EmployeeRecord)) (errors : List Text) (w : World V)
        → w.cache ≡ c
        → let (out, w') = write_chunks V settings b chunks errors w in Left c out w'
    unfolding write_chunks
    write_chunks-Left b [] errors w same = same
    write_chunks-Left b (chunk ∷ chunks) errors w same =
        bind_rule (on_uow V (write_employees V.uow b chunk))
          (λ found. write_chunks V settings b chunks (errors ++ found)) w (Left c) (Left c) same
          (λ found w1 same1. write_chunks-Left b chunks (errors ++ found) w1 same1)
          (λ e w1 same1. same1)

    process_records-Cleared :
        (b : Uuid) (records : List EmployeeRecord) (errors : List Text) (w : World V)
        → w.cache ≡ c
        → let (out, w') = process_records V settings b records errors w in Cleared c out w'
    unfolding process_records
    process_records-Cleared b records errors w same =
        bind_rule (lift V (iter_chunks records settings.employee_chunk_size))
          (λ chunks. write_chunks V settings b chunks errors >>= finalize_batch V settings b) w
          (Left c) (Cleared c) same
          (λ chunks w1 same1.
            bind_rule (write_chunks V settings b chunks errors) (finalize_batch V settings b) w1
              (Left c) (Cleared c) (write_chunks-Left b chunks errors w1 same1)
              (λ all w2 same2. finalize_batch-Cleared b all w2 same2) (λ e w2 same2. same2))
          (λ e w1 same1. same1)

    mark_batch_failed-Left :
        (b : Uuid) (w : World V)
        → w.cache ≡ c
        → let (out, w') = mark_batch_failed V settings b w in Left c out w'
    unfolding mark_batch_failed fail_batch
    mark_batch_failed-Left b w same =
        try_rule (fail_batch V settings b) (λ exc. on_uow V V.uow.rollback) w (Left c) (Left c)
          (bind_rule (on_uow V V.uow.rollback)
            (λ _. on_uow V (V.uow.batch.update_status b failed none >> V.uow.commit)) w (Left c)
            (Left c) same (λ _ w1 same1. same1) (λ e w1 same1. same1))
          (λ _ w1 same1. same1) (λ e w1 same1. same1)

    module _ (parse : List ℕ → Result (List EmployeeRecord × List Text)) (b : Uuid) where
      read_records-Left :
          (w : World V)
          → w.cache ≡ c
          → let (out, w') = read_records V settings parse b w in Left c out w'
      unfolding read_records download_file
      read_records-Left w same =
          bind_rule (download_file V settings settings.storage_bucket (employees_key b))
            (λ raw. lift V (parse raw)) w (Left c) (Left c)
            (bind_rule
              (on_storage V (V.storage.stream_file settings.storage_bucket (employees_key b)))
              (λ stream. lift V (joined stream.chunks stream.failure)) w (Left c) (Left c) same
              (λ stream w1 same1. same1) (λ e w1 same1. same1))
            (λ raw w1 same1. same1) (λ e w1 same1. same1)

      process-Cleared :
          (w : World V)
          → w.cache ≡ c
          → let (out, w') = process V settings parse b w in Cleared c out w'
      unfolding process
      process-Cleared w same =
          bind_rule (read_records V settings parse b)
            (λ (records, errors). process_records V settings b records errors) w (Left c)
            (Cleared c) (read_records-Left w same)
            (λ (records, errors) w1 same1. process_records-Cleared b records errors w1 same1)
            (λ e w1 same1. same1)

      after_process-Cleared :
          (w : World V)
          → w.cache ≡ c
          → let (out, w') = stream_and_process V settings parse b w in Cleared c out w'
      unfolding stream_and_process
      after_process-Cleared w same =
          try_rule (process V settings parse b) (λ exc. mark_batch_failed V settings b >> raise exc)
            w (Cleared c) (Cleared c) (process-Cleared w same) (λ _ w1 cleared. cleared)
            (λ exc w1 left.
              let raised : Action (World V) (Unit {0}) = raise exc in
              bind_rule (mark_batch_failed V settings b) (λ _. raised) w1 (Left c) (Cleared c)
                (mark_batch_failed-Left b w1 left) (λ _ w2 left2. left2) (λ e w2 left2. left2))

  -- With a cache that raises nothing: a run that returns has deleted the keys of the metrics from the
  -- cache, and done nothing else to it; a run that raises has left the cache alone, whatever it has
  -- written to the database.
  pub stream_and_process-Cleared :
      (parse : List ℕ → Result (List EmployeeRecord × List Text)) (b : Uuid) (w : World V)
      → let (out, w') = stream_and_process V settings parse b w in Cleared w.cache out w'
  stream_and_process-Cleared parse b w = after_process-Cleared w.cache parse b w refl
