-- ===== src/Tests/Requests.antt =====
-- A worker that is late, at concrete inputs.
use globant.Base.{◌≡◌, refl, none, []}
use globant.Errors.{ok}
use globant.Models.{IngestionBatch, pending, completed, failed, fits_string}
use globant.Session.Memory.{memory_of, memory_session}
use globant.SqlUnitOfWork.{SqlState, open_unit}
use globant.SqlUnitOfWork.Lawful.{sql_lawful}
use globant.Workers.World.{World}
use globant.Workers.Process.{finalize_batch}
use globant.BatchStatus.{get_batch_status, is_stale}
use globant.BatchStatus.LateWorker.{late_worker}
use globant.Tests.Worker.{waiting_db, row_error, by_two, services, world, lawful_no_outage}

abbrev new_session : SqlState memory_session → SqlState memory_session
new_session s = open_unit memory_session (memory_of s.session.committed)

abbrev waiting_batch : IngestionBatch
waiting_batch = record { id = 2; status = pending; errors = none; created_at = 9 }

-- The poll comes eleven minutes after the batch, and the worker later.
abbrev polled : SqlState memory_session
polled = (get_batch_status by_two services.uow 660000009 2 (world none).uow).1

abbrev finishing : World services
finishing = record { uow = new_session polled; cache = tt; storage = none }

abbrev finished : SqlState memory_session
finished = new_session (finalize_batch services by_two 2 row_error finishing).1.uow

late_worker_example :
    ((get_batch_status by_two services.uow 660000009 2 (world none).uow).0
      ≡ ok (record { batch_id = 2; status = failed; errors = [] }))
    × ((get_batch_status by_two services.uow 670000009 2 finished).0
        ≡ ok (record { batch_id = 2; status = completed; errors = row_error }))
unfolding sql_lawful is_stale fits_string
late_worker_example =
    late_worker services lawful_no_outage by_two (λ _ _. refl) 2 waiting_db waiting_batch refl refl
      660000009 refl (world none).uow (refl, refl, refl) row_error refl finishing (refl, refl, refl)
      670000009 finished (refl, refl, refl)
