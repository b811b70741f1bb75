-- ===== src/BatchStatus/Polled.antt =====
-- What a poll of a batch answers, and what it changes, on a lawful unit of work.
use globant.Base.{
  ℕ, ◌≡◌, refl, sym, ap, ◌∙◌, ◌⊎◌, inl, inr, true, false, ◌&&◌, Option, none, some, List, [], ◌∷◌,
  arith, Bool-cases, Text, if◌then◌else◌,
}
use globant.Errors.{Uuid, Exc, Result, ok, err, batch_not_found_error}
use globant.Action.{◌>>=◌, ◌>>◌}
use globant.Action.Rules.{bind_rule}
use globant.Models.{
  Db, IngestionBatch, IngestionBatchStatus, failed, find_batch, update_batch, update_batches,
}
use globant.Settings.{Settings}
use globant.UnitOfWork.{UnitOfWork}
use globant.UnitOfWork.Contract.{View, IsLawful, Reads, Writes, or_empty}
use globant.UnitOfWork.Steps.{At, Committed, commit-Committed}
use globant.BatchStatus.{
  BatchStatusResponse, is_pending, is_stale, respond, expire_batch, answer, get_batch_status,
}

module _ (settings : Settings) (now : ℕ) (b : Uuid) where
  -- The answer to a poll and the database after it: a pending batch that is stale is failed, and
  -- any other is reported as it is.
  abbrev pub Reported : Option IngestionBatch → Db → BatchStatusResponse → Db → Type 0
  Reported none db response after = ⊥
  Reported (some batch) db response after =
      if is_pending batch.status && is_stale settings now batch.created_at
      then (response ≡ record { batch_id = b; status = failed; errors = [] })
        × (after ≡ update_batch b failed [] db)
      else (response
          ≡ record { batch_id = b; status = batch.status; errors = or_empty batch.errors })
        × (after ≡ db)

-- A batch that is found under a key has it.
find_batch-id :
    (b : Uuid) (bs : List IngestionBatch) (batch : IngestionBatch)
    → find_batch b bs ≡ some batch
    → batch.id ≡ b
find_batch-id b [] batch h = cc
find_batch-id b (x ∷ bs) batch h = ground (arith, find_batch-id b bs batch)

-- The update of a batch is found under its key.
pub find_batch-update_batches :
    (b : Uuid) (status : IngestionBatchStatus) (errors : List Text) (bs : List IngestionBatch)
    (batch : IngestionBatch)
    → find_batch b bs ≡ some batch
    → find_batch b (update_batches b status errors bs)
      ≡ some (record batch { status = status; errors = some errors })
find_batch-update_batches b status errors [] batch h = cc
find_batch-update_batches b status errors (x ∷ bs) batch h =
    ground (arith, find_batch-update_batches b status errors bs batch)

module _ (Outage : Exc → Type 0) (U : UnitOfWork) (L : IsLawful Outage U) (settings : Settings)
    (now : ℕ) (b : Uuid) (db : Db) where
  -- The committed database as it was, or with the batch failed.
  abbrev pub Interrupted : U.State → Type 0
  Interrupted s = ((L.view s).committed ≡ db) ⊎ ((L.view s).committed ≡ update_batch b failed [] db)

  -- What a poll may do.
  abbrev pub Polled : Result BatchStatusResponse → U.State → Type 0
  Polled (ok response) s =
      Reported settings now b (find_batch b db.batches) db response (L.view s).committed
  Polled (err e) s =
      ((find_batch b db.batches ≡ none)
        × (e ≡ batch_not_found_error b)
        × ((L.view s).committed ≡ db))
      ⊎ (Outage e × Interrupted s)

  -- A stale batch has been failed.
  abbrev Expired : Result BatchStatusResponse → U.State → Type 0
  Expired (ok response) s =
      (response ≡ record { batch_id = b; status = failed; errors = [] })
      × ((L.view s).committed ≡ update_batch b failed [] db)
  Expired (err e) s = Outage e × Interrupted s

  respond-Expired :
      (batch : IngestionBatch) (found : Option IngestionBatch) (s : U.State)
      → find_batch b db.batches ≡ some batch
      → found ≡ find_batch b (update_batches b failed [] db.batches)
      → (L.view s).committed ≡ update_batch b failed [] db
      → let (out, s') = respond settings U failed found s in Expired out s'
  respond-Expired batch found s there reread same =
      let e : found ≡ some (record batch { status = failed; errors = some [] }) =
        reread ∙ find_batch-update_batches b failed [] db.batches batch there in
      let key = find_batch-id b db.batches batch there in rw e (ground arith)

  expire_batch-Expired :
      (batch : IngestionBatch) (s : U.State)
      → find_batch b db.batches ≡ some batch
      → At db db (L.view s)
      → let (out, s') = expire_batch settings U b s in Expired out s'
  unfolding expire_batch
  expire_batch-Expired batch s there h =
      let after = update_batch b failed [] db in
      bind_rule (U.batch.update_status b failed none)
        (λ _. U.commit >> (U.batch.get b >>= respond settings U failed)) s
        (λ out s'.
          Writes Outage (λ d. some (update_batch b failed [] d)) (L.view s) out (L.view s'))
        Expired (L.update_status_lem b failed none s)
        (λ _ s1 h1.
          bind_rule U.commit (λ _. U.batch.get b >>= respond settings U failed) s1
            (Committed Outage U L db after) Expired
            (commit-Committed Outage U L db after s1 (ground arith))
            (λ _ s2 h2.
              bind_rule (U.batch.get b) (respond settings U failed) s2
                (λ out s'. Reads Outage b (L.view s2) out (L.view s')) Expired (L.get_lem b s2)
                (λ found s3 h3.
                  respond-Expired batch found s3 there (rw h2.1 at h3.0)
                    (ap (λ (v : View). v.committed) h3.1 ∙ h2.0))
                (λ e s3 h3. (ground arith, inr (h3.0 ∙ h2.0))))
            (λ e s2 h2. (h2.1, inl h2.0)))
        (λ e s1 h1. (ground arith, inl (h1.0 ∙ h.0)))

  module _ (batch : IngestionBatch) (there : find_batch b db.batches ≡ some batch) where
    Expired-Polled :
        is_pending batch.status && is_stale settings now batch.created_at ≡ true
        → (out : Result BatchStatusResponse) (s : U.State) → Expired out s
        → Polled out s
    Expired-Polled stale (ok response) s h = rw (there, Reported, stale) h
    Expired-Polled stale (err e) s h = inr h

    unchanged-Polled :
        is_pending batch.status && is_stale settings now batch.created_at ≡ false
        → (s : U.State) → At db db (L.view s)
        → let (out, s') = respond settings U batch.status (some batch) s in Polled out s'
    unchanged-Polled fresh s h =
        rw (there, Reported, fresh)
          (let key = find_batch-id b db.batches batch there in ground arith)

  answer-Polled :
      (found : Option IngestionBatch) (s : U.State)
      → find_batch b db.batches ≡ found
      → At db db (L.view s)
      → let (out, s') = answer settings U now b found s in Polled out s'
  unfolding answer
  answer-Polled none s e h = inl (e, refl, h.0)
  answer-Polled (some batch) s e h =
      elim (Bool-cases (is_pending batch.status && is_stale settings now batch.created_at)) [
        | inl stale ↦ rw stale (
            let (out, s') = expire_batch settings U b s in
            Expired-Polled batch e stale out s' (expire_batch-Expired batch s e h))
        | inr fresh ↦ rw fresh (unchanged-Polled batch e fresh s h)
      ]

  -- From a clean transaction, a poll raises the error 404 for an unknown batch, fails a pending batch
  -- that is stale and reports it so, and reports any other as it is; it changes nothing else. Any
  -- other exception is an outage, which leaves the database as it was or with the batch failed.
  pub get_batch_status-Polled :
      (s : U.State)
      → At db db (L.view s)
      → let (out, s') = get_batch_status settings U now b s in Polled out s'
  unfolding get_batch_status
  get_batch_status-Polled s h =
      bind_rule (U.batch.get b) (answer settings U now b) s
        (λ out s'. Reads Outage b (L.view s) out (L.view s')) Polled (L.get_lem b s)
        (λ found s1 h1. answer-Polled found s1 (rw h.1 at (sym h1.0)) (ground arith))
        (λ e s1 h1. inr (ground arith, inl (h1.0 ∙ h.0)))
