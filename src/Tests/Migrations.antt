-- ===== src/Tests/Migrations.antt =====
-- The migrations on a database with a table of another program.
use globant.Base.{◌≡◌, refl, false, Option, none, some, [], ◌∷◌, ◌++◌, codes, text_eq}
use globant.Errors.{Exc, Result, ok, err, other}
use globant.Catalog.{integer, column, Table, Catalog, Operation, run_operation}
use globant.Migrations.{Database, perform, create_tables, drop_tables, add_failed}
use globant.Migrations.Metadata.{ingestion_batch_status, metadata}
use globant.Migrations.Upgraded.{
  Behaves, Obeys, Unused, our_names, upgrade-metadata, downgrade_upgrade,
}

abbrev executed : Catalog → Option Catalog → Result (Unit {0}) × Catalog
executed c none = (err (other (codes "ProgrammingError")), c)
executed c (some c') = (ok tt, c')

-- A database that is its catalog.
abbrev catalog_database : Database
catalog_database = record { State = Catalog; execute = λ op c. executed c (run_operation op c) }

executed-Obeys :
    (op : Operation) (c : Catalog) (found : Option Catalog)
    → run_operation op c ≡ found
    → Obeys op c (executed c found).0 (executed c found).1
executed-Obeys op c none e = (e, refl)
executed-Obeys op c (some c') e = e

catalog_database-Behaves : Behaves catalog_database
catalog_database-Behaves = record {
  view = λ c. c;
  execute_lem = λ op c. executed-Obeys op c (run_operation op c) refl;
}

abbrev other_table : Table
other_table = record {
  name = codes "visits";
  columns = column (codes "id") integer false false (codes "Id of the visit") ∷ [];
  primary_key = codes "id";
  foreign_keys = [];
  indexes = (codes "ix_visits_id", codes "id") ∷ [];
  comment = codes "Visits";
}

abbrev shared_database : Catalog
shared_database = record { types = []; tables = other_table ∷ [] }

shared_database-Unused : Unused our_names shared_database.tables
unfolding text_eq
shared_database-Unused = (refl, (refl, (refl, (refl, (refl, (refl, (refl, (refl, tt))))))))

upgrade-metadata_example :
    let (out, c) = perform catalog_database (create_tables ++ add_failed) shared_database in
    (out ≡ ok tt)
    × (c ≡ record { types = ingestion_batch_status ∷ []; tables = metadata ++ other_table ∷ [] })
unfolding text_eq catalog_database-Behaves
upgrade-metadata_example =
    upgrade-metadata catalog_database catalog_database-Behaves shared_database
      shared_database-Unused refl

downgrade_upgrade_example :
    let (_, c1) = perform catalog_database (create_tables ++ add_failed) shared_database in
    let (out, c2) = perform catalog_database drop_tables c1 in
    (out ≡ ok tt)
    × (c2 ≡ record { types = ingestion_batch_status ∷ []; tables = other_table ∷ [] })
    × ((e : Exc) × ((perform catalog_database create_tables c2).0 ≡ err e))
unfolding text_eq catalog_database-Behaves
downgrade_upgrade_example =
    downgrade_upgrade catalog_database catalog_database-Behaves shared_database
      shared_database-Unused refl (refl, (refl, (refl, (refl, tt))))
