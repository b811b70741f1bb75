-- ===== src/BatchStatus/LateWorker.antt =====
-- A worker that is slower than the timeout: what a client is told before and after it ends.
use globant.Base.{ℕ, ◌≡◌, refl, ap, ◌∙◌, inl, inr, true, some, List, [], Text}
use globant.Errors.{Uuid, Result, ok, err}
use globant.Models.{
  Db, IngestionBatch, pending, completed, failed, find_batch, update_batch, fits_json,
}
use globant.Settings.{Settings}
use globant.UnitOfWork.Contract.{IsLawful, NoOutage}
use globant.UnitOfWork.Steps.{At, Updated}
use globant.Workers.World.{Services, World}
use globant.Workers.Process.{finalize_batch}
use globant.Workers.Process.Chunks.{Quiet, finalize_batch-Finalized}
use globant.BatchStatus.{BatchStatusResponse, is_stale, get_batch_status}
use globant.BatchStatus.Polled.{
  Reported, Polled, get_batch_status-Polled, find_batch-update_batches,
}
use globant.BatchStatus.AfterWorker.{poll_settled}

module _ (V : Services) (L : IsLawful NoOutage V.uow) (settings : Settings) (quiet : Quiet V)
    (b : Uuid) (db : Db) (batch : IngestionBatch) (there : find_batch b db.batches ≡ some batch)
    (waiting : batch.status ≡ pending) (now : ℕ)
    (stale : is_stale settings now batch.created_at ≡ true) (s : V.uow.State)
    (h : At db db (L.view s)) where
  abbrev failed_db : Db
  failed_db = update_batch b failed [] db

  told_failed :
      (out : Result BatchStatusResponse) (s' : V.uow.State)
      → Polled NoOutage V.uow L settings now b db out s'
      → (out ≡ ok (record { batch_id = b; status = failed; errors = [] }))
        × ((L.view s').committed ≡ failed_db)
  told_failed (ok response) s' p =
      let (told, same) = rw (there, Reported, waiting, stale) at p in (ap ok told, same)
  told_failed (err e) s' (inl (missing, _, _)) = cc
  told_failed (err e) s' (inr lost) = absurd lost.0

  -- What the poll leaves, and what the worker leaves that completes its batch in `w`.
  abbrev pub after_poll : Db
  after_poll = (L.view (get_batch_status settings V.uow now b s).1).committed

  module _ (errors : List Text) (fits : fits_json errors ≡ true) (w : World V)
      (hw : At after_poll after_poll (L.view w.uow)) where
    abbrev pub after_worker : Db
    after_worker = (L.view (finalize_batch V settings b errors w).1.uow).committed

    completed_db :
        (d : Db) (out : Result (Unit {0})) (w' : World V)
        → Updated NoOutage V.uow L d b completed errors d out w'.uow
        → (L.view w'.uow).committed ≡ update_batch b completed errors d
    completed_db d (ok _) w' p = p.1.0
    completed_db d (err e) w' (_, inl lost) = absurd lost
    completed_db d (err e) w' (_, inr (refused, _, _)) = cc

    -- Without an outage and with a cache that raises nothing, a poll that finds the batch pending
    -- past its timeout reports it as failed; where its worker then ends, with errors without the
    -- code point 0, it completes the batch after all, and a later poll reports the same batch as completed, with the errors that the worker has collected.
    pub late_worker :
        (later : ℕ) (s' : V.uow.State)
        → At after_worker after_worker (L.view s')
        → ((get_batch_status settings V.uow now b s).0
            ≡ ok (record { batch_id = b; status = failed; errors = [] }))
          × ((get_batch_status settings V.uow later b s').0
              ≡ ok (record { batch_id = b; status = completed; errors = errors }))
    late_worker later s' h' =
        let (out, s1) = get_batch_status settings V.uow now b s in
        let (told, left) =
          told_failed out s1 (get_batch_status-Polled NoOutage V.uow L settings now b db s h) in
        let (done, w1) = finalize_batch V settings b errors w in
        let ended : after_worker ≡ update_batch b completed errors after_poll =
          completed_db after_poll done w1 (
            finalize_batch-Finalized NoOutage (λ _ lost. absurd lost) V L settings b quiet errors
              after_poll w hw) in
        let final = update_batch b completed errors failed_db in
        let same : after_worker ≡ final = ended ∙ ap (update_batch b completed errors) left in
        let found =
          find_batch-update_batches b completed errors failed_db.batches
            (record batch { status = failed; errors = some [] })
            (find_batch-update_batches b failed [] db.batches batch there) in
        (
          told,
          poll_settled settings V.uow L later b final
              (record batch { status = completed; errors = some errors }) found refl s'
              (rw same at h'),
        )
