-- ===== src/Workers/Process/Chunks.antt =====
-- What the worker does with the parsed records on a lawful unit of work: its chunks, put together,
-- and the last steps.
use globant.Base.{
  ◌≡◌, ◌⊎◌, refl, sym, inl, inr, true, List, [], ◌∷◌, ◌++◌, concat, Text, ℕ, suc, pos, some, arith,
  append-nil, append_assoc,
}
use mathlib.Core.Path.{subst}
use globant.Errors.{Uuid, Exc, Result, ok, err, is_operational}
use globant.Action.{◌>>=◌, ◌>>◌}
use globant.Action.Rules.{bind_rule}
use globant.Models.{Db, EmployeeRecord, completed, update_batch, fits_json}
use globant.Settings.{Settings}
use globant.UnitOfWork.Contract.{IsLawful}
use globant.UnitOfWork.Steps.{At, Refused, Updated, update_commit-Updated}
use globant.IngestRows.Outcome.{Broken}
use globant.Workers.World.{Services, World, on_uow, on_cache, lift}
use globant.Workers.Chunking.{iter_chunks, iter_chunks_partition}
use globant.Workers.EmployeeWriter.{write_employees}
use globant.Workers.EmployeeWriter.Employees.{
  employees_db, employees_errors, FirstPart, whole-FirstPart, FirstPart-append, FirstPart-after,
  employees_db-append, employees_errors-append,
}
use globant.Workers.EmployeeWriter.Outcome.{Written, write_employees-Written}
use globant.Workers.Process.{write_chunks, finalize_batch, process_records}

-- The `delete` of the cache port that the worker gets raises nothing.
abbrev pub Quiet : Services → Type 0
Quiet V = (keys : List Text) (c : V.cache.State) → (V.cache.delete keys c).0 ≡ ok tt

module _ (Outage : Exc → Type 0) (outages : (e : Exc) → Outage e → is_operational e ≡ true)
    (V : Services) (L : IsLawful Outage V.uow) (settings : Settings) (b : Uuid) where
  -- What the chunks have done.
  abbrev Chunked : List EmployeeRecord → List Text → Db → Result (List Text) → World V → Type 0
  Chunked rs errors d out w = Written Outage outages V.uow L b rs errors d out w.uow

  -- One chunk and the rest make all of them.
  Chunked-append :
      (xs ys : List EmployeeRecord) (errors found : List Text) (d : Db) (w w' : World V)
      (out : Result (List Text))
      → Chunked xs [] d (ok found) w
      → Chunked ys (errors ++ found) (employees_db b xs d) out w'
      → Chunked (xs ++ ys) errors d out w'
  Chunked-append xs ys errors found d w w' (ok all) h h' = ground (
    arith,
    employees_db-append b xs ys d,
    employees_errors-append b xs ys d,
    append_assoc errors (employees_errors b xs d) (employees_errors b ys (employees_db b xs d)),
  )
  Chunked-append xs ys errors found d w w' (err e) h (part, broken) =
      (FirstPart-after b xs ys d (L.view w'.uow).committed part, broken)

  write_chunks-Chunked :
      (chunks : List (List EmployeeRecord)) (errors : List Text) (d : Db) (w : World V)
      → At d d (L.view w.uow)
      → let (out, w') = write_chunks V settings b chunks errors w in
        Chunked (concat chunks) errors d out w'
  unfolding write_chunks
  write_chunks-Chunked [] errors d w h = ground (arith, append-nil errors)
  write_chunks-Chunked (chunk ∷ chunks) errors d w h =
      bind_rule (on_uow V (write_employees V.uow b chunk))
        (λ found. write_chunks V settings b chunks (errors ++ found)) w (Chunked chunk [] d)
        (Chunked (concat (chunk ∷ chunks)) errors d)
        (write_employees-Written Outage outages V.uow L b chunk d w.uow h)
        (λ found w1 h1.
          let (out, w2) = write_chunks V settings b chunks (errors ++ found) w1 in
          Chunked-append chunk (concat chunks) errors found d w1 w2 out h1
            (write_chunks-Chunked chunks (errors ++ found) (employees_db b chunk d) w1 h1.0))
        (λ e w1 h1.
          (FirstPart-append b chunk (concat chunks) d (L.view w1.uow).committed h1.0, h1.1))

  module _ (quiet : Quiet V) where
    abbrev pub Finalized : Db → List Text → Result (Unit {0}) → World V → Type 0
    Finalized d errors out w = Updated Outage V.uow L d b completed errors d out w.uow

    pub finalize_batch-Finalized :
        (errors : List Text) (d : Db) (w : World V)
        → At d d (L.view w.uow)
        → let (out, w') = finalize_batch V settings b errors w in Finalized d errors out w'
    unfolding finalize_batch
    finalize_batch-Finalized errors d w h =
        bind_rule (on_uow V (V.uow.batch.update_status b completed (some errors) >> V.uow.commit))
          (λ _. on_cache V (V.cache.delete settings.metrics_cache_keys)) w (Finalized d errors)
          (Finalized d errors)
          (update_commit-Updated Outage V.uow L d b completed (some errors) d w.uow h)
          (λ _ w1 h1. rw (quiet settings.metrics_cache_keys w1.cache) h1) (λ e w1 h1. h1)

    -- All employees have been stored, but the errors cannot be.
    abbrev Unstored : List EmployeeRecord → List Text → Db → Exc → World V → Type 0
    Unstored records errors d e w =
        Refused Outage V.uow L d b completed (errors ++ employees_errors b records d) e
        × ((L.view w.uow).committed ≡ employees_db b records d)

    -- What the worker does with the records, from the errors of the parser.
    abbrev pub Processed :
        List EmployeeRecord → List Text → Db → Result (Unit {0}) → World V → Type 0
    Processed records errors d (ok _) w =
        let after : Db =
          update_batch b completed (errors ++ employees_errors b records d)
            (employees_db b records d) in
        (fits_json (errors ++ employees_errors b records d) ≡ true) × At after after (L.view w.uow)
    Processed records errors d (err e) w =
        FirstPart b records d (L.view w.uow).committed
        × (Broken Outage e ⊎ Unstored records errors d e w)

    finalize_batch-Processed :
        (records : List EmployeeRecord) (errors all : List Text) (d : Db) (w : World V)
        → Chunked records errors d (ok all) w
        → let (out, w') = finalize_batch V settings b all w in Processed records errors d out w'
    finalize_batch-Processed records errors all d w h =
        let after = employees_db b records d in
        let (out, w') = finalize_batch V settings b all w in
        finalized out w' (finalize_batch-Finalized all after w h.0)
      where
        finalized :
            (out : Result (Unit {0})) (w' : World V)
            → Finalized (employees_db b records d) all out w'
            → Processed records errors d out w'
        finalized (ok _) w' h' = rw h.1 at h'
        finalized (err e) w' (same, inl lost) =
            (rw same (whole-FirstPart b records d), inl (e, lost, inl refl))
        finalized (err e) w' (same, inr refused) =
            (rw same (whole-FirstPart b records d), inr (rw h.1 at refused, same))

    -- The chunks make up the records.
    abbrev Cut : List EmployeeRecord → Result (List (List EmployeeRecord)) → Type 0
    Cut records (ok chunks) = concat chunks ≡ records
    Cut records (err e) = ⊥

    iter_chunks-Cut :
        (records : List EmployeeRecord) (n : ℕ) → Cut records (iter_chunks records (pos (suc n)))
    iter_chunks-Cut records n =
        let (chunks, cut, whole, _) = iter_chunks_partition records n in rw cut whole

    pub process_records-Processed :
        (n : ℕ)
        → settings.employee_chunk_size ≡ pos (suc n)
        → (records : List EmployeeRecord) (errors : List Text) (d : Db) (w : World V)
        → At d d (L.view w.uow)
        → let (out, w') = process_records V settings b records errors w in
          Processed records errors d out w'
    unfolding process_records
    process_records-Processed n size records errors d w h =
        let cut : Cut records (iter_chunks records settings.employee_chunk_size) =
          subst (λ k. Cut records (iter_chunks records k)) (sym size) (iter_chunks-Cut records n) in
        bind_rule (lift V (iter_chunks records settings.employee_chunk_size))
          (λ chunks. write_chunks V settings b chunks errors >>= finalize_batch V settings b) w
          (λ out w'. Cut records out × At d d (L.view w'.uow)) (Processed records errors d) (cut, h)
          (λ chunks w1 (whole, h1).
            bind_rule (write_chunks V settings b chunks errors) (finalize_batch V settings b) w1
              (Chunked records errors d) (Processed records errors d)
              (rw whole at (write_chunks-Chunked chunks errors d w1 h1))
              (λ all w2 h2. finalize_batch-Processed records errors all d w2 h2)
              (λ e w2 h2. (h2.0, inl h2.1)))
          (λ e w1 h1. absurd h1.0)
