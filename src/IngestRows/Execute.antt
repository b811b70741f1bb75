-- ===== src/IngestRows/Execute.antt =====
-- What `execute` does on a lawful unit of work, from a clean transaction and a fresh batch id.
use globant.Base.{
  ℕ, ◌≡◌, refl, sym, ◌⊎◌, inl, inr, true, false, Option, none, some, List, [], Text, length, arith,
  Bool-cases, ◌==◌, if◌then◌else◌,
}
use globant.Errors.{Uuid, Exc, Result, ok, err, is_operational}
use globant.Errors.Translator.{translate_db_error}
use globant.Action.{Action, pure, raise, try_except, ◌>>=◌, ◌>>◌}
use globant.Action.Rules.{bind_rule, try_rule}
use globant.Models.{Db, has_batch, update_batch, pending, completed}
use globant.UnitOfWork.{UnitOfWork, RowRepository}
use globant.UnitOfWork.Contract.{IsLawful, Stores, Writes, Commits, RollsBack, insert_bulk}
use globant.UnitOfWork.Steps.{
  At, Committed, update_commit-Committed, with_batch, Started, add_batch-Started,
}
use globant.IngestRows.{
  IngestionResponse, insert_in_bulk, on_bulk_failure, insert_each, complete_batch,
  insert_row_by_row, unless_returned, execute,
}
use globant.IngestRows.Greedy.{
  greedy_db, greedy_count, greedy_errors, insert_bulk-greedy, insert_bulk-nonempty,
}
use globant.IngestRows.Outcome.{Broken, Counted, insert_each-Counted}

module _ {R : Type 0} (label : R → Text) (ins : R → Uuid → Db → Option Db) (b : Uuid)
    (records : List R) (db : Db) where
  -- The response and the database that a run leaves: the records are stored greedily under the new
  -- batch, which is then completed; where none is stored the database stays as it was.
  pub record Ingested (response : IngestionResponse) (after : Db) : Type 0 where
    pub created_at : ℕ
    pub counted :
        response.created_count
        ≡ greedy_count (λ r. ins r b) label records (with_batch b created_at db)
    pub reported :
        response.errors ≡ greedy_errors (λ r. ins r b) label records (with_batch b created_at db)
    pub stored : after ≡ (
        if response.created_count == 0
        then db
        else update_batch b completed []
            (greedy_db (λ r. ins r b) label records (with_batch b created_at db)))

module _ {R : Type 0} (Outage : Exc → Type 0) (U : UnitOfWork) (L : IsLawful Outage U)
    (label : R → Text) (ins : R → Uuid → Db → Option Db) (b : Uuid) (records : List R)
    (db : Db) where
  -- How `execute` may end: with the records stored, or with the database as it was and an exception
  -- that an outage explains.
  abbrev pub Executed : Result IngestionResponse → U.State → Type 0
  Executed (ok response) s = Ingested label ins b records db response (L.view s).committed
  Executed (err e) s = ((L.view s).committed ≡ db) × Broken Outage e

module _ (Outage : Exc → Type 0) (outages : (e : Exc) → Outage e → is_operational e ≡ true)
    (U : UnitOfWork) (L : IsLawful Outage U) {R : Type 0} (rows : RowRepository U.State R)
    (label : R → Text) (ins : R → Uuid → Db → Option Db) (stores : Stores Outage L.view ins rows)
    (b : Uuid) (records : List R) (db : Db) (fresh : has_batch b db.batches ≡ false) where
  abbrev Run : Result IngestionResponse → U.State → Type 0
  Run = Executed Outage U L label ins b records db

  -- What the bulk insert has done.
  abbrev InBulk : Result (Option IngestionResponse) → U.State → Type 0
  InBulk (ok (some response)) s = Ingested label ins b records db response (L.view s).committed
  InBulk (ok none) s = ⊥
  InBulk (err e) s = ((L.view s).committed ≡ db) × (Outage e ⊎ (is_operational e ≡ false))

  -- Its last steps.
  finish-InBulk :
      (t : ℕ) (s1 s2 s3 s4 : U.State)
      → At db (with_batch b t db) (L.view s1)
      → Writes Outage (insert_bulk (λ r. ins r b) records) (L.view s1) (ok tt) (L.view s2)
      → Writes Outage (λ d. some (update_batch b completed [] d)) (L.view s2) (ok tt) (L.view s3)
      → Commits Outage (L.view s3) (ok tt) (L.view s4)
      → InBulk (ok (some (record { created_count = length records; errors = [] }))) s4
  finish-InBulk t s1 s2 s3 s4 h1 h2 h3 h4 =
      let went : insert_bulk (λ r. ins r b) records (with_batch b t db) ≡ some (L.view s2).current =
        rw h1.1 at h2.1 in
      let g = insert_bulk-greedy (λ r. ins r b) label records (with_batch b t db) went in
      let filled = insert_bulk-nonempty (λ r. ins r b) records (with_batch b t db) went in
      record { created_at = t; counted = sym g.1; reported = sym g.2; stored = ground arith }

  insert_in_bulk-InBulk :
      (s : U.State)
      → At db db (L.view s)
      → let (out, s') = insert_in_bulk U rows label b records s in InBulk out s'
  unfolding insert_in_bulk
  insert_in_bulk-InBulk s h =
      let response : IngestionResponse = record { created_count = length records; errors = [] } in
      let returned : Action U.State (Option IngestionResponse) = pure (some response) in
      let completes : Action U.State (Unit {0}) = U.batch.update_status b completed none in
      bind_rule (U.batch.add b pending)
        (λ _. rows.bulk_insert records b >> (completes >> (U.commit >> returned))) s
        (Started Outage U L b db) InBulk (add_batch-Started Outage U L b db fresh s h)
        (λ _ s1 (t, h1).
          bind_rule (rows.bulk_insert records b) (λ _. completes >> (U.commit >> returned)) s1
            (λ out s'.
              Writes Outage (insert_bulk (λ r. ins r b) records) (L.view s1) out (L.view s'))
            InBulk (stores.bulk_insert_lem records b s1)
            (λ _ s2 h2.
              bind_rule completes (λ _. U.commit >> returned) s2
                (λ out s'.
                  Writes Outage (λ d. some (update_batch b completed [] d)) (L.view s2) out
                    (L.view s'))
                InBulk (L.update_status_lem b completed none s2)
                (λ _ s3 h3.
                  bind_rule U.commit (λ _. returned) s3
                    (λ out s'. Commits Outage (L.view s3) out (L.view s')) InBulk (L.commit_lem s3)
                    (λ _ s4 h4. finish-InBulk t s1 s2 s3 s4 h1 h2 h3 h4) (λ e s4 h4. ground arith))
                (λ e s3 h3. ground arith))
            (λ e s2 h2. ground arith))
        (λ e s1 h1. (h1.0, inl h1.1))

  -- The first `try` with its handlers: a response, or a clean transaction again.
  abbrev Attempted : Result (Option IngestionResponse) → U.State → Type 0
  Attempted (ok (some response)) s = Ingested label ins b records db response (L.view s).committed
  Attempted (ok none) s = At db db (L.view s)
  Attempted (err e) s = ((L.view s).committed ≡ db) × Broken Outage e

  on_bulk_failure-Attempted :
      (e : Exc) (s : U.State)
      → (L.view s).committed ≡ db
      → Outage e ⊎ (is_operational e ≡ false)
      → let (out, s') = on_bulk_failure U rows label e s in Attempted out s'
  unfolding on_bulk_failure
  on_bulk_failure-Attempted e s same (inl outage) =
      let translated : Action U.State (Option IngestionResponse) = raise (translate_db_error e) in
      rw (outages e outage) (
        bind_rule U.rollback (λ _. translated) s
          (λ out s'. RollsBack Outage (L.view s) out (L.view s')) Attempted (L.rollback_lem s)
          (λ _ s' h. (ground arith, (e, outage, inr refl)))
          (λ e' s' h. (ground arith, (e', h.1, inl refl))))
  on_bulk_failure-Attempted e s same (inr violation) =
      let goes_on : Action U.State (Option IngestionResponse) = pure none in
      rw violation (
        bind_rule U.rollback (λ _. goes_on) s
          (λ out s'. RollsBack Outage (L.view s) out (L.view s')) Attempted (L.rollback_lem s)
          (λ _ s' h. ground arith) (λ e' s' h. (ground arith, (e', h.1, inl refl))))

  InBulk-Attempted :
      (a : Option IngestionResponse) (s : U.State) → InBulk (ok a) s → Attempted (ok a) s
  InBulk-Attempted (some response) s h = h
  InBulk-Attempted none s h = absurd h

  attempt-Attempted :
      (s : U.State)
      → At db db (L.view s)
      → let (out, s') =
          try_except (insert_in_bulk U rows label b records) (on_bulk_failure U rows label) s in
        Attempted out s'
  attempt-Attempted s h =
      try_rule (insert_in_bulk U rows label b records) (on_bulk_failure U rows label) s InBulk
        Attempted (insert_in_bulk-InBulk s h) InBulk-Attempted
        (λ e s' h'. on_bulk_failure-Attempted e s' h'.0 h'.1)

  -- The last steps of the fallback.
  complete_batch-Executed :
      (t n : ℕ) (errors : List Text) (s : U.State)
      → Counted Outage outages U L rows label ins stores b db records 0 []
          (with_batch b t db)
          (ok (n, errors))
          s
      → let done : Action U.State IngestionResponse =
          pure (record { created_count = n; errors = errors }) in
        let (out, s') = (complete_batch U rows label b n >> done) s in Run out s'
  unfolding complete_batch
  complete_batch-Executed t n errors s h = elim (Bool-cases (n == 0)) [
    | inl none_stored ↦ rw none_stored (record {
      created_at = t;
      counted = ground arith;
      reported = ground arith;
      stored = ground arith;
    })
    | inr stored ↦
        let completes : Action U.State (Unit {0}) = U.batch.update_status b completed none in
        let done : Action U.State IngestionResponse =
          pure (record { created_count = n; errors = errors }) in
        let after = greedy_db (λ r. ins r b) label records (with_batch b t db) in
        rw stored (
          bind_rule (completes >> U.commit) (λ _. done) s
            (Committed Outage U L db (update_batch b completed [] after)) Run
            (update_commit-Committed Outage U L db b completed none after s refl h.0)
            (λ _ s' h'. record {
              created_at = t;
              counted = ground arith;
              reported = ground arith;
              stored = ground arith;
            })
            (λ e s' h'. (h'.0, (e, h'.1, inl refl))))
  ]

  insert_row_by_row-Executed :
      (s : U.State)
      → At db db (L.view s)
      → let (out, s') = insert_row_by_row U rows label b records s in Run out s'
  unfolding insert_row_by_row
  insert_row_by_row-Executed s h =
      let finish : ℕ × List Text → Action U.State IngestionResponse = λ (n, errors).
        complete_batch U rows label b n >> pure (record { created_count = n; errors = errors }) in
      bind_rule (U.batch.add b pending) (λ _. insert_each U rows label b records 0 [] >>= finish) s
        (Started Outage U L b db) Run (add_batch-Started Outage U L b db fresh s h)
        (λ _ s1 (t, h1).
          bind_rule (insert_each U rows label b records 0 []) finish s1
            (Counted Outage outages U L rows label ins stores b db records 0 [] (with_batch b t db))
            Run
            (insert_each-Counted Outage outages U L rows label ins stores b db records 0 []
              (with_batch b t db) s1 h1)
            (λ (n, errors) s2 h2. complete_batch-Executed t n errors s2 h2) (λ e s2 h2. h2))
        (λ e s1 h1. (h1.0, (e, h1.1, inl refl)))

  unless_returned-Executed :
      (a : Option IngestionResponse) (s : U.State)
      → Attempted (ok a) s
      → let (out, s') = unless_returned U rows label b records a s in Run out s'
  unfolding unless_returned
  unless_returned-Executed (some response) s h = h
  unless_returned-Executed none s h = insert_row_by_row-Executed s h

  pub execute-Executed :
      (s : U.State)
      → At db db (L.view s)
      → let (out, s') = execute U rows label b records s in Run out s'
  unfolding execute
  execute-Executed s h =
      bind_rule (try_except (insert_in_bulk U rows label b records) (on_bulk_failure U rows label))
        (unless_returned U rows label b records) s Attempted Run (attempt-Attempted s h)
        unless_returned-Executed (λ e s' h'. h')
