-- ===== src/Migrations/Upgraded.antt =====
-- What the migrations do to a database.
use globant.Base.{
  ◌≡◌, refl, ◌∙◌, true, false, text_eq, text_eq_refl, Option, none, some, List, [], ◌∷◌, ◌++◌, Text,
  codes,
}
use globant.Errors.{Exc, Result, ok, err}
use globant.Action.Rules.{bind_rule}
use globant.Catalog.{
  Catalog, Table, Operation, has_type, has_relation, is_referred, run_operation, run_operations,
  create_types, all_there, create_table, create_index,
}
use globant.Migrations.{
  Database, perform, create_tables, ingestion_batches_table, departments_table, jobs_table,
  employees_table, drop_tables, add_failed,
}
use globant.Migrations.Metadata.{
  ingestion_batch_status, ingestion_batches, departments, jobs, metadata,
}

-- Nothing has one of these names, as a table or as an index.
abbrev pub Unused : List Text → List Table → Type 0
Unused [] ts = Unit
Unused (n ∷ names) ts = (has_relation n ts ≡ false) × Unused names ts

abbrev pub our_names : List Text
our_names =
    codes "ingestion_batches"
    ∷ codes "ix_ingestion_batches_id"
    ∷ codes "departments"
    ∷ codes "ix_departments_id"
    ∷ codes "jobs"
    ∷ codes "ix_jobs_id"
    ∷ codes "employees"
    ∷ codes "ix_employees_id"
    ∷ []

create_type :
    (n : Text) (values : List Text) (types : List (Text × List Text))
    → has_type n types ≡ false
    → create_types ((n, values) ∷ []) types ≡ some ((n, values) ∷ types)
create_type n values types h = rw h refl

-- A new table and its index.
create_indexed :
    (types : List (Text × List Text)) (t : Table) (index column : Text) (ops : List Operation)
    (c : Catalog) (types' : List (Text × List Text))
    → create_types types c.types ≡ some types'
    → has_relation t.name c.tables ≡ false
    → all_there t.foreign_keys c.tables ≡ true
    → has_relation index (t ∷ c.tables) ≡ false
    → run_operations (create_table types t ∷ create_index index t.name column ∷ ops) c
      ≡ run_operations ops (record {
        types = types';
        tables = record t { indexes = (index, column) ∷ t.indexes } ∷ c.tables;
      })
unfolding run_operations
create_indexed types t index column ops c types' made unused there unused' =
    let same = text_eq_refl t.name in rw (run_operations, made, unused, there, unused', same) refl

abbrev created : Table → Text → List Operation → List Operation
created t index ops = create_table [] t ∷ create_index index t.name (codes "id") ∷ ops

abbrev employees_on : List Operation
employees_on = created employees_table (codes "ix_employees_id") add_failed

abbrev jobs_on : List Operation
jobs_on = created jobs_table (codes "ix_jobs_id") employees_on

abbrev departments_on : List Operation
departments_on = created departments_table (codes "ix_departments_id") jobs_on

-- The status as the first migration creates it.
abbrev first_values : List Text
first_values = codes "pending" ∷ codes "completed" ∷ []

abbrev pub status_name : Text
status_name = codes "ingestion_batch_status"

pub upgraded :
    (types : List (Text × List Text)) (ts : List Table)
    → Unused our_names ts
    → has_type status_name types ≡ false
    → run_operations (create_tables ++ add_failed) (record { types = types; tables = ts })
      ≡ some (record { types = ingestion_batch_status ∷ types; tables = metadata ++ ts })
unfolding run_operations text_eq
upgraded types ts u h =
    let types' = (status_name, first_values) ∷ types in
    let at : List Table → Catalog = λ tables. record { types = types'; tables = tables } in
    create_indexed ((status_name, first_values) ∷ []) ingestion_batches_table
      (codes "ix_ingestion_batches_id") (codes "id") departments_on
      (record { types = types; tables = ts }) types' (create_type status_name first_values types h)
      u.0 refl u.1.0
    ∙ create_indexed [] departments_table (codes "ix_departments_id") (codes "id") jobs_on
        (at (ingestion_batches ∷ ts)) types' refl u.1.1.0 refl u.1.1.1.0
    ∙ create_indexed [] jobs_table (codes "ix_jobs_id") (codes "id") employees_on
        (at (departments ∷ ingestion_batches ∷ ts)) types' refl u.1.1.1.1.0 refl u.1.1.1.1.1.0
    ∙ create_indexed [] employees_table (codes "ix_employees_id") (codes "id") add_failed
        (at (jobs ∷ departments ∷ ingestion_batches ∷ ts)) types' refl u.1.1.1.1.1.1.0 refl
        u.1.1.1.1.1.1.1.0

-- The tables of this service are not referred to.
abbrev pub Unreferred : List Text → List Table → Type 0
Unreferred [] ts = Unit
Unreferred (n ∷ names) ts = (is_referred n ts ≡ false) × Unreferred names ts

abbrev pub our_tables : List Text
our_tables = codes "employees" ∷ codes "jobs" ∷ codes "departments" ∷ codes "ingestion_batches" ∷ []

downgraded :
    (types : List (Text × List Text)) (ts : List Table)
    → Unreferred our_tables ts
    → run_operations drop_tables (record { types = types; tables = metadata ++ ts })
      ≡ some (record { types = types; tables = ts })
unfolding run_operations text_eq
downgraded types ts r = rw (run_operations, r.0, r.1.0, r.1.1.0, r.1.1.1.0) refl

-- The type is still there.
refused :
    (types : List (Text × List Text)) (ts : List Table)
    → run_operations create_tables (record { types = ingestion_batch_status ∷ types; tables = ts })
      ≡ none
unfolding run_operations text_eq
refused types ts = refl

-- What is expected of the database: an operation does what is documented, or is refused.
abbrev pub Obeys : Operation → Catalog → Result (Unit {0}) → Catalog → Type 0
Obeys op c (ok _) c' = run_operation op c ≡ some c'
Obeys op c (err e) c' = (run_operation op c ≡ none) × (c' ≡ c)

pub record Behaves (D : Database) : Type 1 where
  pub view : D.State → Catalog
  pub execute_lem :
      (op : Operation) (s : D.State)
      → let (out, s') = D.execute op s in Obeys op (view s) out (view s')

module _ (D : Database) (L : Behaves D) where
  -- How a script ends, by what its operations do.
  abbrev Ends : Option Catalog → Result (Unit {0}) → D.State → Type 0
  Ends (some c) out s = (out ≡ ok tt) × (L.view s ≡ c)
  Ends none out s = (e : Exc) × (out ≡ err e)

  perform-Ends :
      (ops : List Operation) (s : D.State)
      → let (out, s') = perform D ops s in Ends (run_operations ops (L.view s)) out s'
  unfolding perform run_operations
  perform-Ends [] s = (refl, refl)
  perform-Ends (op ∷ ops) s =
      bind_rule (D.execute op) (λ _. perform D ops) s
        (λ out s'. Obeys op (L.view s) out (L.view s'))
        (λ out s'. Ends (run_operations (op ∷ ops) (L.view s)) out s') (L.execute_lem op s)
        (λ _ s' h. rw (run_operations, h) (perform-Ends ops s'))
        (λ e s' h. rw (run_operations, h.0) (e, refl))

  module _ (s : D.State) (unused : Unused our_names (L.view s).tables)
      (no_type : has_type status_name (L.view s).types ≡ false) where
    -- On a database where the names of the service are unused, both migrations pass, and add the
    -- tables that the models declare, with their columns, keys, indexes and comments, and the type
    -- of the status with the values that the models know.
    pub upgrade-metadata :
        let (out, s') = perform D (create_tables ++ add_failed) s in
        (out ≡ ok tt)
        × (L.view s' ≡ record {
          types = ingestion_batch_status ∷ (L.view s).types;
          tables = metadata ++ (L.view s).tables;
        })
    upgrade-metadata =
        rw (upgraded (L.view s).types (L.view s).tables unused no_type) at
          (perform-Ends (create_tables ++ add_failed) s)

    -- After the migrations, where no older table refers to those of the service, the downgrade
    -- passes and removes the tables; the type of the status stays, so that the first migration is
    -- refused from then on.
    pub downgrade_upgrade :
        Unreferred our_tables (L.view s).tables
        → let (_, s1) = perform D (create_tables ++ add_failed) s in
          let (out, s2) = perform D drop_tables s1 in
          (out ≡ ok tt)
          × (L.view s2 ≡ record {
            types = ingestion_batch_status ∷ (L.view s).types;
            tables = (L.view s).tables;
          })
          × ((e : Exc) × ((perform D create_tables s2).0 ≡ err e))
    downgrade_upgrade unreferred =
        let s1 = (perform D (create_tables ++ add_failed) s).1 in
        let s2 = (perform D drop_tables s1).1 in
        let types = ingestion_batch_status ∷ (L.view s).types in
        let ended = perform-Ends drop_tables s1 in
        let (passed, left) =
          rw (upgrade-metadata.1, downgraded types (L.view s).tables unreferred) at ended in
        let again = perform-Ends create_tables s2 in
        (passed, left, rw (left, refused (L.view s).types (L.view s).tables) at again)
