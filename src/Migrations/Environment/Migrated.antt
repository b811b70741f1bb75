-- ===== src/Migrations/Environment/Migrated.antt =====
-- What a run of the migrations leaves in the database.
use globant.Base.{◌≡◌, ◌≢◌, refl, ◌∙◌, false, Option, some, ℕ, zero, ◌∷◌, ◌++◌, Text}
use globant.Errors.{Result, ok, err}
use globant.Action.{Action, raise, ◌>>=◌, ◌>>◌}
use globant.Action.Rules.{bind_rule}
use globant.Catalog.{run_operations, has_type}
use globant.Migrations.Metadata.{ingestion_batch_status, metadata}
use globant.Migrations.Upgraded.{Unused, our_names, status_name, upgraded}
use globant.Migrations.Environment.{
  Alembic, url_option, run_in_transaction, end_transaction, run_migrations_online, on_connection,
  run_in_mode, run_environment,
}
use globant.Migrations.Environment.Expected.{
  Versioned, pending, at_head, has_percent, Transactional,
}

module _ (A : Alembic) (L : Transactional A) (url : Option Text) (s0 : A.State) where
  -- No database has changed.
  abbrev pub Same : A.State → Type 0
  Same s = (u : Option Text) → L.committed u s ≡ L.committed u s0

  -- The database at `url` has the tables of the models beside its own, and no other has changed;
  -- or nothing has changed.
  abbrev pub Migrated : Result (Unit {0}) → A.State → Type 0
  Migrated (ok _) s =
      let before = (L.committed url s0).catalog in
      (L.committed url s ≡ record {
        catalog = record {
          types = ingestion_batch_status ∷ before.types;
          tables = metadata ++ before.tables;
        };
        version = 2;
      })
      × ((u : Option Text) → u ≢ url → L.committed u s ≡ L.committed u s0)
  Migrated (err e) s = Same s

module _ (A : Alembic) (L : Transactional A) (url : Option Text) (s0 : A.State)
    (fresh : (L.committed url s0).version ≡ zero)
    (unused : Unused our_names (L.committed url s0).catalog.tables)
    (no_type : has_type status_name (L.committed url s0).catalog.types ≡ false) where
  abbrev Made : Versioned → Versioned → Type 0
  Made before after = at_head (run_operations (pending before.version) before.catalog) ≡ some after

  abbrev Unchanged : A.State → Type 0
  Unchanged = Same A L url s0

  abbrev Done : Result (Unit {0}) → A.State → Type 0
  Done = Migrated A L url s0

  -- A call that changes no database keeps that none has changed.
  Same-step :
      (s s' : A.State)
      → ((u : Option Text) → L.committed u s' ≡ L.committed u s)
      → Unchanged s
      → Unchanged s'
  Same-step s s' step same u = step u ∙ same u

  commit-Migrated :
      (s : A.State)
      → Unchanged s
      → L.on s ≡ url
      → Made (L.committed url s0) (L.current s)
      → let (r, s') = A.commit s in Done r s'
  commit-Migrated s same on made = let (r, s') = A.commit s in by_outcome r s' (L.commit_lem s)
    where
      by_outcome :
          (r : Result (Unit {0})) (s' : A.State)
          → ((r ≡ ok tt → L.committed (L.on s) s' ≡ L.current s)
              × ((u : Option Text) → (r ≡ ok tt → u ≢ L.on s) → L.committed u s' ≡ L.committed u s))
          → Done r s'
      by_outcome (ok _) s' (stored, others) =
          let before = (L.committed url s0).catalog in
          let after = upgraded before.types before.tables unused no_type in
          let now : L.committed url s' ≡ L.current s = rw on at (stored refl) in
          let head : Versioned = record {
            catalog = record {
              types = ingestion_batch_status ∷ before.types;
              tables = metadata ++ before.tables;
            };
            version = 2;
          } in
          let made' : some head ≡ some (L.current s) = rw (fresh, after) at made in
          let is_head : L.current s ≡ head = cc in
          (now ∙ is_head, λ u other. others u (λ _ e. other (e ∙ on)) ∙ same u)
      by_outcome (err e) s' (stored, others) = λ u. others u (λ h. absurd (cc)) ∙ same u

  -- The end of the transaction, after the migrations.
  end_transaction-Migrated :
      (r : Result (Unit {0})) (s : A.State)
      → Unchanged s
      → (r ≡ ok tt → (L.on s ≡ url) × Made (L.committed url s0) (L.current s))
      → let (out, s') = end_transaction A r s in Done out s'
  end_transaction-Migrated (ok _) s same ran =
      let (on, made) = ran refl in commit-Migrated s same on made
  end_transaction-Migrated (err e) s same ran =
      let raised : Action A.State (Unit {0}) = raise e in
      bind_rule A.rollback (λ _. raised) s (λ _ s'. Unchanged s') Done
        (Same-step s (A.rollback s).1 (L.rollback_lem s) same) (λ _ s' h. h) (λ e' s' h. h)

  run_in_transaction-Migrated :
      (s : A.State)
      → Unchanged s
      → L.on s ≡ url
      → let (out, s') = run_in_transaction A s in Done out s'
  unfolding run_in_transaction
  run_in_transaction-Migrated s same on =
      bind_rule A.begin (λ _ s1. let (r, s') = A.run_migrations s1 in end_transaction A r s') s
        (λ r s1. Unchanged s1 × (r ≡ ok tt → (L.on s1 ≡ url) × (L.current s1 ≡ L.committed url s0)))
        Done
        (
          Same-step s (A.begin s).1 (L.begin_lem s).0 same,
          λ begun.
              let (on', sees) = (L.begin_lem s).1 begun in (on' ∙ on, rw on at sees ∙ same url),
        )
        (λ _ s1 (same1, begun).
          let (r, s2) = A.run_migrations s1 in
          end_transaction-Migrated r s2 (Same-step s1 s2 (L.run_migrations_lem s1).0 same1) (λ ran.
            let (on2, made) = (L.run_migrations_lem s1).1 ran in
            let (on1, sees) = begun refl in (on2 ∙ on1, rw sees at made)))
        (λ e s1 (same1, _). same1)

  -- A run on a connection, which is closed at the end.
  closed-Migrated :
      (c : A.Connection) (out : Result (Unit {0})) (s : A.State)
      → Done out s
      → Done out (A.close c s)
  closed-Migrated c (ok _) s (here, others) =
      (L.close_lem c s url ∙ here, λ u other. L.close_lem c s u ∙ others u other)
  closed-Migrated c (err e) s same = λ u. L.close_lem c s u ∙ same u

  on_connection-Migrated :
      (c : A.Connection) (s : A.State)
      → Unchanged s
      → L.url_of c ≡ url
      → let (out, s') = on_connection A c s in Done out s'
  on_connection-Migrated c s same target =
      let (out, s') = (A.configure_connection c >> run_in_transaction A) s in
      closed-Migrated c out s' (
        bind_rule (A.configure_connection c) (λ _. run_in_transaction A) s
          (λ r s1. Unchanged s1 × (r ≡ ok tt → L.on s1 ≡ url)) Done
          (
            Same-step s (A.configure_connection c s).1 (L.configure_connection_lem c s).0 same,
            λ done. (L.configure_connection_lem c s).1 done ∙ target,
          )
          (λ _ s1 (same1, on). run_in_transaction-Migrated s1 same1 (on refl))
          (λ e s1 (same1, _). same1))

  connected-Migrated :
      (asked : Option Text) (s : A.State)
      → Unchanged s
      → asked ≡ url
      → let (out, s') = (A.connect asked >>= on_connection A) s in Done out s'
  connected-Migrated asked s same option =
      bind_rule (A.connect asked) (on_connection A) s
        (λ r s1. Unchanged s1 × ((c : A.Connection) → r ≡ ok c → L.url_of c ≡ url)) Done
        (
          Same-step s (A.connect asked s).1 (L.connect_lem asked s).0 same,
          λ c made. (L.connect_lem asked s).1 c made ∙ option,
        )
        (λ c s1 (same1, target). on_connection-Migrated c s1 same1 (target c refl))
        (λ e s1 (same1, _). same1)

  run_migrations_online-Migrated :
      (s : A.State)
      → Unchanged s
      → (A.get_main_option url_option s).0 ≡ ok url
      → let (out, s') = run_migrations_online A s in Done out s'
  unfolding run_migrations_online
  run_migrations_online-Migrated s same option =
      bind_rule (A.get_main_option url_option) (λ asked. A.connect asked >>= on_connection A) s
        (λ r s1. Unchanged s1 × (r ≡ ok url)) Done
        (
          Same-step s (A.get_main_option url_option s).1 (L.get_main_option_lem url_option s) same,
          option,
        )
        (λ asked s1 (same1, e). connected-Migrated asked s1 same1 (cc)) (λ e s1 (same1, _). same1)

  -- An exception of `set_main_option` has changed nothing.
  run_in_mode-Migrated :
      (s : A.State)
      → A.is_offline_mode s ≡ false
      → Unchanged s
      → (A.get_main_option url_option s).0 ≡ ok url
      → let (out, s') = run_in_mode A s in Done out s'
  unfolding run_in_mode
  run_in_mode-Migrated s online same option =
      rw online (run_migrations_online-Migrated s same option)

module _ (A : Alembic) (L : Transactional A) (c : ℕ) (url : Text) (s : A.State) where
  -- The value of `DATABASE_URL`, which is set and not empty.
  abbrev database_url : Text
  database_url = c ∷ url

  -- In the online mode, with `DATABASE_URL` set to a URL without `%`, to a database that has had no
  -- migration and where the names of the service are unused: a run of `alembic upgrade head` that
  -- returns has migrated that database to the tables that the models declare, beside those that were
  -- there, and to the last version, and has changed no other database; a run that raises has changed
  -- none, whichever call raised.
  pub run_environment-Migrated :
      (plain : has_percent database_url ≡ false)
      (online : A.is_offline_mode (A.set_main_option url_option database_url s).1 ≡ false)
      (fresh : (L.committed (some database_url) s).version ≡ zero)
      (unused : Unused our_names (L.committed (some database_url) s).catalog.tables)
      (no_type : has_type status_name (L.committed (some database_url) s).catalog.types ≡ false)
      → let (out, s') = run_environment A (some database_url) s in
        Migrated A L (some database_url) s out s'
  unfolding run_environment
  run_environment-Migrated plain online fresh unused no_type =
      let (same, option) = L.set_main_option_lem url_option database_url s in
      bind_rule (A.set_main_option url_option database_url) (λ _. run_in_mode A) s
        (λ r s1.
          Same A L (some database_url) s s1
          × (A.is_offline_mode s1 ≡ false)
          × ((A.get_main_option url_option s1).0 ≡ ok (some database_url)))
        (Migrated A L (some database_url) s) (same, online, option plain)
        (λ _ s1 (same1, online1, option1).
          run_in_mode-Migrated A L (some database_url) s fresh unused no_type s1 online1 same1
            option1)
        (λ e s1 (same1, _, _). same1)
