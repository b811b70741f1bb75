-- ===== src/UnitOfWork/Steps.antt =====
-- Calls that the use cases and the worker make in a row, on a lawful unit of work.
use globant.Base.{ℕ, ◌≡◌, ◌⊎◌, inl, inr, true, false, Option, List, ◌∷◌, Text, arith, Bool-cases}
use globant.Errors.{Uuid, Exc, Result, ok, err, is_operational}
use globant.Action.{◌>>◌}
use globant.Action.Rules.{bind_rule}
use globant.Models.{
  Db, IngestionBatchStatus, pending, has_batch, insert_batch, update_batch, fits_json, write_status,
}
use globant.UnitOfWork.{UnitOfWork}
use globant.UnitOfWork.Contract.{
  View, IsLawful, Writes, Refuses, AddsBatch, Commits, or_empty, new_batch,
}

-- A sound transaction over a committed database `c`, which sees `d`.
abbrev pub At : Db → Db → View → Type 0
At c d v = (v.committed ≡ c) × (v.current ≡ d) × (v.aborted ≡ false)

module _ (Outage : Exc → Type 0) (U : UnitOfWork) (L : IsLawful Outage U) (c : Db) where
  -- A change of the database from `c` to `d` is committed as a whole, or not at all.
  abbrev pub Committed : Db → Result (Unit {0}) → U.State → Type 0
  Committed d (ok _) s = At d d (L.view s)
  Committed d (err e) s = ((L.view s).committed ≡ c) × Outage e

  pub commit-Committed :
      (d : Db) (s : U.State) → At c d (L.view s) → let (out, s') = U.commit s in Committed d out s'
  commit-Committed d s h =
      let (out, s') = U.commit s in Commits-Committed (L.view s) out s' h (L.commit_lem s)
    where
      Commits-Committed :
          (v : View) (out : Result (Unit {0})) (s' : U.State)
          → At c d v
          → Commits Outage v out (L.view s')
          → Committed d out s'
      Commits-Committed v (ok _) s' h h' = ground arith
      Commits-Committed v (err e) s' h h' = ground arith

  -- PostgreSQL has refused the errors.
  abbrev pub Refused : Uuid → IngestionBatchStatus → List Text → Exc → Type 0
  Refused b status errors e =
      (fits_json errors ≡ false) × (e ≡ L.json_error b status errors) × (is_operational e ≡ false)

  -- The change of a batch is made in the transaction or committed, where its errors can be stored.
  abbrev Changed :
      Uuid → IngestionBatchStatus → List Text → Db → Result (Unit {0}) → U.State → Type 0
  Changed b status errors d (ok _) s =
      (fits_json errors ≡ true) × At c (update_batch b status errors d) (L.view s)
  Changed b status errors d (err e) s =
      ((L.view s).committed ≡ c) × (Outage e ⊎ Refused b status errors e)

  abbrev pub Updated :
      Uuid → IngestionBatchStatus → List Text → Db → Result (Unit {0}) → U.State → Type 0
  Updated b status errors d (ok _) s =
      (fits_json errors ≡ true) × (let d' = update_batch b status errors d in At d' d' (L.view s))
  Updated b status errors d (err e) s =
      ((L.view s).committed ≡ c) × (Outage e ⊎ Refused b status errors e)

  Writes-Changed :
      (b : Uuid) (status : IngestionBatchStatus) (errors : List Text) (d : Db) (v : View)
      (out : Result (Unit {0})) (s : U.State)
      → At c d v
      → Writes Outage (write_status b status errors) v out (L.view s)
      → Refuses Outage (L.json_error b status errors) v out
      → Changed b status errors d out s
  Writes-Changed b status errors d v (ok _) s h h' r = elim (Bool-cases (fits_json errors)) [
    | inl fits ↦ ground arith
    | inr refused ↦ ground arith
  ]
  Writes-Changed b status errors d v (err e) s h h' r = elim (Bool-cases (fits_json errors)) [
    | inl fits ↦ ground arith
    | inr refused ↦ ground arith
  ]

  Committed-Updated :
      (b : Uuid) (status : IngestionBatchStatus) (errors : List Text) (d : Db)
      (out : Result (Unit {0})) (s : U.State)
      → fits_json errors ≡ true
      → Committed (update_batch b status errors d) out s
      → Updated b status errors d out s
  Committed-Updated b status errors d (ok _) s fits h = (fits, h)
  Committed-Updated b status errors d (err e) s fits h = (h.0, inl h.1)

  -- `update_status` and `commit`, one after the other.
  pub update_commit-Updated :
      (b : Uuid) (status : IngestionBatchStatus) (errors : Option (List Text)) (d : Db)
      (s : U.State)
      → At c d (L.view s)
      → let (out, s') = (U.batch.update_status b status errors >> U.commit) s in
        Updated b status (or_empty errors) d out s'
  update_commit-Updated b status errors d s h =
      let all = or_empty errors in
      let (r, s1) = U.batch.update_status b status errors s in
      bind_rule (U.batch.update_status b status errors) (λ _. U.commit) s (Changed b status all d)
        (Updated b status all d)
        (Writes-Changed b status all d (L.view s) r s1 h (L.update_status_lem b status errors s)
          (L.update_status_refused_lem b status errors s))
        (λ _ s' (fits, h').
          let (out, s2) = U.commit s' in
          Committed-Updated b status all d out s2 fits
            (commit-Committed (update_batch b status all d) s' h'))
        (λ e s' h'. h')

  Updated-Committed :
      (b : Uuid) (status : IngestionBatchStatus) (errors : List Text) (d : Db)
      (out : Result (Unit {0})) (s : U.State)
      → fits_json errors ≡ true
      → Updated b status errors d out s
      → Committed (update_batch b status errors d) out s
  Updated-Committed b status errors d (ok _) s fits h = h.1
  Updated-Committed b status errors d (err e) s fits (same, inl lost) = (same, lost)
  Updated-Committed b status errors d (err e) s fits (same, inr (refused, _, _)) = cc

  -- With errors that can be stored, such as none.
  pub update_commit-Committed :
      (b : Uuid) (status : IngestionBatchStatus) (errors : Option (List Text)) (d : Db)
      (s : U.State)
      → fits_json (or_empty errors) ≡ true
      → At c d (L.view s)
      → let (out, s') = (U.batch.update_status b status errors >> U.commit) s in
        Committed (update_batch b status (or_empty errors) d) out s'
  update_commit-Committed b status errors d s fits h =
      let (out, s') = (U.batch.update_status b status errors >> U.commit) s in
      Updated-Committed b status (or_empty errors) d out s' fits
        (update_commit-Updated b status errors d s h)

-- The database with the new batch, which the server created at `t`.
abbrev pub with_batch : Uuid → ℕ → Db → Db
with_batch b t db = record db { batches = new_batch b pending t ∷ db.batches }

module _ (Outage : Exc → Type 0) (U : UnitOfWork) (L : IsLawful Outage U) (b : Uuid) (db : Db) where
  -- A batch has been added to a clean transaction.
  abbrev pub Started : Result (Unit {0}) → U.State → Type 0
  Started (ok _) s = (t : ℕ) × At db (with_batch b t db) (L.view s)
  Started (err e) s = ((L.view s).committed ≡ db) × Outage e

  module _ (fresh : has_batch b db.batches ≡ false) where
    AddsBatch-Started :
        (v : View) (out : Result (Unit {0})) (s' : U.State)
        → At db db v
        → AddsBatch Outage b pending v out (L.view s')
        → Started out s'
    unfolding insert_batch
    AddsBatch-Started v (ok _) s' h h' = (h'.1.0, ground arith)
    AddsBatch-Started v (err e) s' h h' = ground arith

    pub add_batch-Started :
        (s : U.State)
        → At db db (L.view s)
        → let (out, s') = U.batch.add b pending s in Started out s'
    add_batch-Started s h =
        let (out, s') = U.batch.add b pending s in
        AddsBatch-Started (L.view s) out s' h (L.add_batch_lem b pending s)
