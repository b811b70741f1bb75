-- ===== src/Workers/Process/Settled.antt =====
-- How `stream_and_process` ends: with the batch completed, or failed.
use globant.Base.{
  ◌≡◌, refl, ◌∙◌, ◌⊎◌, inl, inr, true, List, [], ◌++◌, Text, ℕ, suc, pos, none, arith,
}
use mathlib.Core.Path.{subst}
use globant.Errors.{Uuid, Exc, Result, ok, err, is_operational}
use globant.Action.{Action, raise, ◌>>◌}
use globant.Action.Rules.{bind_rule, try_rule}
use globant.Models.{Db, EmployeeRecord, completed, failed, update_batch, fits_json}
use globant.Settings.{Settings}
use globant.UnitOfWork.Contract.{IsLawful, RollsBack}
use globant.UnitOfWork.Steps.{At, Committed, Refused, update_commit-Committed}
use globant.Workers.World.{Services, World, on_uow, on_storage, lift}
use globant.Workers.EmployeeWriter.Employees.{
  employees_db, employees_errors, FirstPart, whole-FirstPart,
}
use globant.Workers.Process.Chunks.{Quiet, Processed, process_records-Processed}
use globant.Workers.Process.{
  joined, download_file, employees_key, read_records, process_records, process, fail_batch,
  mark_batch_failed, stream_and_process,
}

module _ (Outage : Exc → Type 0) (V : Services) (L : IsLawful Outage V.uow) (b : Uuid)
    (settings : Settings) where
  -- The batch has been marked, unless there was an outage.
  abbrev pub Marked : Db → Result (Unit {0}) → World V → Type 0
  Marked c (ok _) w =
      ((L.view w.uow).committed ≡ update_batch b failed [] c)
      ⊎ (((L.view w.uow).committed ≡ c) × ((x : Exc) × Outage x))
  Marked c (err e) w = ((L.view w.uow).committed ≡ c) × Outage e

  fail_batch-Committed :
      (c : Db) (w : World V)
      → (L.view w.uow).committed ≡ c
      → let (out, w') = fail_batch V settings b w in
        Committed Outage V.uow L c (update_batch b failed [] c) out w'.uow
  unfolding fail_batch
  fail_batch-Committed c w h =
      bind_rule (on_uow V V.uow.rollback)
        (λ _. on_uow V (V.uow.batch.update_status b failed none >> V.uow.commit)) w
        (λ out w'. RollsBack Outage (L.view w.uow) out (L.view w'.uow))
        (λ out w'. Committed Outage V.uow L c (update_batch b failed [] c) out w'.uow)
        (L.rollback_lem w.uow)
        (λ _ w1 h1.
          update_commit-Committed Outage V.uow L c b failed none c w1.uow refl (ground arith))
        (λ e w1 h1. ground arith)

  pub mark_batch_failed-Marked :
      (c : Db) (w : World V)
      → (L.view w.uow).committed ≡ c
      → let (out, w') = mark_batch_failed V settings b w in Marked c out w'
  unfolding mark_batch_failed
  mark_batch_failed-Marked c w h =
      try_rule (fail_batch V settings b) (λ _. on_uow V V.uow.rollback) w
        (λ out w'. Committed Outage V.uow L c (update_batch b failed [] c) out w'.uow) (Marked c)
        (fail_batch-Committed c w h) (λ _ w1 h1. inl h1.0)
        (λ e w1 h1.
          let (out, s) = V.uow.rollback w1.uow in
          rolled_back e h1.1 w1 out (record w1 { uow = s }) h1.0 (L.rollback_lem w1.uow))
    where
      rolled_back :
          (e : Exc)
          → Outage e
          → (w1 : World V) (out : Result (Unit {0})) (w2 : World V) → (L.view w1.uow).committed ≡ c
          → RollsBack Outage (L.view w1.uow) out (L.view w2.uow)
          → Marked c out w2
      rolled_back e lost w1 (ok _) w2 h1 h2 = inr (h2.0 ∙ h1, (e, lost))
      rolled_back e lost w1 (err e') w2 h1 h2 = (h2.0 ∙ h1, h2.1)

  -- A failed `_process`, whose exception is raised again.
  abbrev pub Failed : Exc → Db → Result (Unit {0}) → World V → Type 0
  Failed exc c (ok _) w = ⊥
  Failed exc c (err e) w =
      ((e ≡ exc) × Marked c (ok tt) w) ⊎ (((L.view w.uow).committed ≡ c) × Outage e)

  on_process_failure-Failed :
      (exc : Exc) (c : Db) (w : World V)
      → (L.view w.uow).committed ≡ c
      → let raised : Action (World V) (Unit {0}) = raise exc in
        let (out, w') = (mark_batch_failed V settings b >> raised) w in Failed exc c out w'
  on_process_failure-Failed exc c w h =
      let raised : Action (World V) (Unit {0}) = raise exc in
      bind_rule (mark_batch_failed V settings b) (λ _. raised) w (Marked c) (Failed exc c)
        (mark_batch_failed-Marked c w h) (λ _ w1 h1. inl (refl, h1)) (λ e w1 h1. inr h1)

module _ (Outage : Exc → Type 0) (outages : (e : Exc) → Outage e → is_operational e ≡ true)
    (V : Services) (L : IsLawful Outage V.uow) (settings : Settings) (b : Uuid)
    (parse : List ℕ → Result (List EmployeeRecord × List Text)) where
  download_file-uow :
      (bucket key : Text) (w : World V)
      → let (out, w') = download_file V settings bucket key w in w'.uow ≡ w.uow
  unfolding download_file
  download_file-uow bucket key w =
      bind_rule (on_storage V (V.storage.stream_file bucket key))
        (λ stream. lift V (joined stream.chunks stream.failure)) w (λ out w'. w'.uow ≡ w.uow)
        (λ out w'. w'.uow ≡ w.uow) refl (λ stream w1 h. h) (λ e w1 h. h)

  -- Reading the file leaves the database alone.
  pub read_records-uow :
      (w : World V) → let (out, w') = read_records V settings parse b w in w'.uow ≡ w.uow
  unfolding read_records
  read_records-uow w =
      bind_rule (download_file V settings settings.storage_bucket (employees_key b))
        (λ raw. lift V (parse raw)) w (λ out w'. w'.uow ≡ w.uow) (λ out w'. w'.uow ≡ w.uow)
        (download_file-uow settings.storage_bucket (employees_key b) w) (λ raw w1 h. h)
        (λ e w1 h. h)

  -- The file holds these records, and these of its rows are wrong.
  abbrev Read : List EmployeeRecord → List Text → Result (List EmployeeRecord × List Text) → Type 0
  Read records errors (ok (found, wrong)) = (found ≡ records) × (wrong ≡ errors)
  Read records errors (err e) = ⊥

  abbrev Raised : {A : Type 0} → Exc → Result A → Type 0
  Raised exc (ok _) = ⊥
  Raised exc (err e) = e ≡ exc

  -- All employees have been stored, but the errors cannot be: the batch is failed.
  abbrev Unstorable : List EmployeeRecord → List Text → Db → Exc → World V → Type 0
  Unstorable records errors d e w =
      Refused Outage V.uow L d b completed (errors ++ employees_errors b records d) e
      × ((L.view w.uow).committed ≡ update_batch b failed [] (employees_db b records d))

  -- How the worker may end with a file that it can read.
  abbrev pub Settled : List EmployeeRecord → List Text → Db → Result (Unit {0}) → World V → Type 0
  Settled records errors d (ok _) w =
      let after : Db =
        update_batch b completed (errors ++ employees_errors b records d)
          (employees_db b records d) in
      (fits_json (errors ++ employees_errors b records d) ≡ true) × At after after (L.view w.uow)
  Settled records errors d (err e) w =
      ((c : Db) × FirstPart b records d c
        × (((L.view w.uow).committed ≡ c)
            ⊎ ((L.view w.uow).committed ≡ update_batch b failed [] c)))
      × (((x : Exc) × Outage x) ⊎ Unstorable records errors d e w)

  module _ (quiet : Quiet V) where
    Failed-Settled :
        (records : List EmployeeRecord) (errors : List Text) (d c : Db) (exc x : Exc)
        (out : Result (Unit {0})) (w : World V)
        → FirstPart b records d c
        → Outage x
        → Failed Outage V L b settings exc c out w
        → Settled records errors d out w
    Failed-Settled records errors d c exc x (ok _) w part lost h = absurd h
    Failed-Settled records errors d c exc x (err e) w part lost h = elim h [
      | inl (same, marked) ↦ (
        (c, part, elim marked [ inl done ↦ inr done | inr (undone, _) ↦ inl undone ]),
        inl (x, lost),
      )
      | inr (same, _) ↦ ((c, part, inl same), inl (x, lost))
    ]

    -- Marking the batch may meet an outage, too.
    Refused-Settled :
        (records : List EmployeeRecord) (errors : List Text) (d : Db) (exc : Exc)
        (out : Result (Unit {0})) (w : World V)
        → Refused Outage V.uow L d b completed (errors ++ employees_errors b records d) exc
        → Failed Outage V L b settings exc (employees_db b records d) out w
        → Settled records errors d out w
    Refused-Settled records errors d exc (ok _) w refused h = absurd h
    Refused-Settled records errors d exc (err e) w refused h =
        let all = employees_db b records d in
        let part : FirstPart b records d all = whole-FirstPart b records d in
        elim h [
          | inl (same, inl done) ↦ ((all, part, inr done), inr (rw same refused, done))
          | inl (same, inr (undone, lost)) ↦ ((all, part, inl undone), inl lost)
          | inr (same, lost) ↦ ((all, part, inl same), inl (e, lost))
        ]

    process-Processed :
        (n : ℕ)
        → settings.employee_chunk_size ≡ pos (suc n)
        → (records : List EmployeeRecord) (errors : List Text) (d : Db) (w : World V)
        → At d d (L.view w.uow)
        → (read_records V settings parse b w).0 ≡ ok (records, errors)
        → let (out, w') = process V settings parse b w in
          Processed Outage outages V L settings b quiet records errors d out w'
    unfolding process
    process-Processed n size records errors d w h readable =
        bind_rule (read_records V settings parse b)
          (λ (found, wrong). process_records V settings b found wrong) w
          (λ out w'. Read records errors out × (w'.uow ≡ w.uow))
          (Processed Outage outages V L settings b quiet records errors d)
          (rw readable (refl, refl), read_records-uow w)
          (λ (found, wrong) w1 ((same, same'), kept).
            rw (same, same')
              (process_records-Processed Outage outages V L settings b quiet n size records errors d
                w1 (rw kept h)))
          (λ e w1 h1. absurd h1.0)

    -- Where the file can be read, the chunk size is positive and the cache raises nothing: the worker
    -- either completes the batch with all employees stored greedily, which needs errors that jsonb
    -- holds, or raises with a first part of the employees stored and the batch failed or left as it
    -- was. Then there was an outage, or PostgreSQL has refused the errors, after which all employees
    -- are stored and the batch is failed.
    pub stream_and_process-Settled :
        (n : ℕ)
        → settings.employee_chunk_size ≡ pos (suc n)
        → (records : List EmployeeRecord) (errors : List Text) (d : Db) (w : World V)
        → At d d (L.view w.uow)
        → (read_records V settings parse b w).0 ≡ ok (records, errors)
        → let (out, w') = stream_and_process V settings parse b w in Settled records errors d out w'
    unfolding stream_and_process process
    stream_and_process-Settled n size records errors d w h readable =
        try_rule (process V settings parse b) (λ exc. mark_batch_failed V settings b >> raise exc) w
          (Processed Outage outages V L settings b quiet records errors d)
          (Settled records errors d) (process-Processed n size records errors d w h readable)
          (λ _ w1 h1. h1)
          (λ e w1 h1.
            let raised : Action (World V) (Unit {0}) = raise e in
            let (out, w2) = (mark_batch_failed V settings b >> raised) w1 in
            let c = (L.view w1.uow).committed in
            let ended = on_process_failure-Failed Outage V L b settings e c w1 refl in
            elim h1.1 [
              | inl (x, lost, _) ↦ Failed-Settled records errors d c e x out w2 h1.0 lost ended
              | inr (refused, full) ↦
                  Refused-Settled records errors d e out w2 refused
                    (subst (λ k. Failed Outage V L b settings e k out w2) full ended)
            ])

  -- Where the file cannot be read, that exception is raised again.
  pub stream_and_process-Failed :
      (exc : Exc) (d : Db) (w : World V)
      → (L.view w.uow).committed ≡ d
      → (read_records V settings parse b w).0 ≡ err exc
      → let (out, w') = stream_and_process V settings parse b w in
        Failed Outage V L b settings exc d out w'
  unfolding stream_and_process process
  stream_and_process-Failed exc d w h unreadable =
      try_rule (process V settings parse b) (λ e. mark_batch_failed V settings b >> raise e) w
        (λ out w'. Raised exc out × ((L.view w'.uow).committed ≡ d))
        (Failed Outage V L b settings exc d)
        (bind_rule (read_records V settings parse b)
          (λ (found, wrong). process_records V settings b found wrong) w
          (λ out w'. Raised exc out × (w'.uow ≡ w.uow))
          (λ out w'. Raised exc out × ((L.view w'.uow).committed ≡ d))
          (rw unreadable refl, read_records-uow w) (λ a w1 h1. absurd h1.0)
          (λ e w1 (same, kept). (same, rw kept h)))
        (λ a w1 h1. absurd h1.0)
        (λ e w1 (same, h1). rw same (on_process_failure-Failed Outage V L b settings exc d w1 h1))
