-- ===== src/BatchStatus/Accepted.antt =====
-- What the upload of an employees file does, on a lawful unit of work.
use globant.Base.{ℕ, ◌≡◌, refl, sym, ◌⊎◌, inl, inr, false}
use globant.Errors.{Uuid, Exc, Result, ok, err}
use globant.Action.{Action, pure, ◌>>◌}
use globant.Action.Rules.{bind_rule}
use globant.Models.{Db, pending, has_batch}
use globant.Settings.{Settings}
use globant.Ports.{BinaryFile, UploadResult}
use globant.UnitOfWork.Contract.{IsLawful}
use globant.UnitOfWork.Steps.{
  At, Committed, commit-Committed, with_batch, Started, add_batch-Started,
}
use globant.Workers.World.{Services, World, on_uow, on_storage}
use globant.Workers.Process.{employees_key}
use globant.BatchStatus.{ingest_employees}

module _ (Outage : Exc → Type 0) (V : Services) (L : IsLawful Outage V.uow) (settings : Settings)
    (b : Uuid) (db : Db) (stream : BinaryFile) where
  -- The upload under the key of the batch.
  abbrev pub uploaded : World V → Result UploadResult × World V
  uploaded = on_storage V (V.storage.upload_file stream settings.storage_bucket (employees_key b))

  -- A call at `w0` may end with the batch pending and its file stored, or with no change.
  abbrev pub Accepted : World V → Result Uuid → World V → Type 0
  Accepted w0 (ok i) w =
      (i ≡ b)
      × ((t : ℕ) × ((L.view w.uow).committed ≡ with_batch b t db))
      × ((place : UploadResult) × ((uploaded w0).0 ≡ ok place))
      × (w.storage ≡ (uploaded w0).1.storage)
  Accepted w0 (err e) w = ((L.view w.uow).committed ≡ db) × (((uploaded w0).0 ≡ err e) ⊎ Outage e)

  module _ (fresh : has_batch b db.batches ≡ false) where
    -- With a fresh batch id and a clean transaction, an upload that returns gives the batch id, has
    -- stored the file under the key of the batch, and has committed the pending batch. One that
    -- raises has changed nothing in the committed database, and either the storage raised that
    -- exception or it is an outage.
    pub ingest_employees-Accepted :
        (w : World V)
        → At db db (L.view w.uow)
        → let (out, w') = ingest_employees settings V b stream w in Accepted w out w'
    unfolding ingest_employees
    ingest_employees-Accepted w h =
        let returned : Action (World V) Uuid = pure b in
        let stored = (uploaded w).1.storage in
        bind_rule uploaded
          (λ _. on_uow V (V.uow.batch.add b pending) >> (on_uow V V.uow.commit >> returned)) w
          (λ out w'. (out ≡ (uploaded w).0) × (w'.storage ≡ stored) × (w'.uow ≡ w.uow)) (Accepted w)
          (refl, refl, refl)
          (λ place w1 (up, kept, same).
            bind_rule (on_uow V (V.uow.batch.add b pending))
              (λ _. on_uow V V.uow.commit >> returned) w1
              (λ out w'. Started Outage V.uow L b db out w'.uow × (w'.storage ≡ stored))
              (Accepted w) (add_batch-Started Outage V.uow L b db fresh w1.uow (rw same h), kept)
              (λ _ w2 ((t, h2), kept2).
                bind_rule (on_uow V V.uow.commit) (λ _. returned) w2
                  (λ out w'.
                    Committed Outage V.uow L db (with_batch b t db) out w'.uow
                    × (w'.storage ≡ stored))
                  (Accepted w)
                  (commit-Committed Outage V.uow L db (with_batch b t db) w2.uow h2, kept2)
                  (λ _ w3 (h3, kept3). (refl, (t, h3.0), (place, sym up), kept3))
                  (λ e w3 (h3, kept3). (h3.0, inr h3.1)))
              (λ e w2 (h2, kept2). (h2.0, inr h2.1)))
          (λ e w1 (up, kept, same). (rw same h.0, inl (sym up)))
