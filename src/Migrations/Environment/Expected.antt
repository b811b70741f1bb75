-- ===== src/Migrations/Environment/Expected.antt =====
-- What env.py relies on in Alembic and PostgreSQL.
use globant.Base.{
  ◌≡◌, ◌≢◌, Bool, false, ◌||◌, ◌==◌, Option, none, some, ℕ, zero, suc, List, [], ◌∷◌, ◌++◌, Text,
}
use globant.Errors.{ok}
use globant.Catalog.{Catalog, Operation, run_operations}
use globant.Migrations.{create_tables, add_failed}
use globant.Migrations.Environment.{Alembic}

-- A database, and how many of the two migrations its table `alembic_version` says it has.
pub record Versioned : Type 0 where
  pub catalog : Catalog
  pub version : ℕ

-- The migrations that are left to run.
abbrev pub pending : ℕ → List Operation
pending zero = create_tables ++ add_failed
pending (suc zero) = add_failed
pending (suc (suc n)) = []

-- What the two migrations leave.
abbrev pub at_head : Option Catalog → Option Versioned
at_head none = none
at_head (some c) = some (record { catalog = c; version = 2 })

-- `%` stands for an interpolation.
abbrev pub has_percent : Text → Bool
has_percent [] = false
has_percent (c ∷ t) = c == b'%' || has_percent t

-- What is expected of Alembic on PostgreSQL, whose DDL is transactional, for `alembic upgrade head` in
-- the online mode: only a commit changes a database, and it changes the one that the context is on.
-- `committed` gives each database by its URL, and `current` the one that the transaction sees.
pub record Transactional (A : Alembic) : Type 1 where
  pub committed : Option Text → A.State → Versioned
  pub current : A.State → Versioned
  -- The URL of the database that the context is on.
  pub on : A.State → Option Text
  pub url_of : A.Connection → Option Text
  -- A value without `%` is read back as it was set.
  pub set_main_option_lem :
      (key value : Text) (s : A.State)
      → let (r, s') = A.set_main_option key value s in
        ((u : Option Text) → committed u s' ≡ committed u s)
        × (has_percent value ≡ false → (A.get_main_option key s').0 ≡ ok (some value))
  pub get_main_option_lem :
      (key : Text) (s : A.State) (u : Option Text)
      → committed u (A.get_main_option key s).1 ≡ committed u s
  pub connect_lem :
      (url : Option Text) (s : A.State)
      → let (r, s') = A.connect url s in
        ((u : Option Text) → committed u s' ≡ committed u s)
        × ((c : A.Connection) → r ≡ ok c → url_of c ≡ url)
  pub configure_connection_lem :
      (c : A.Connection) (s : A.State)
      → let (r, s') = A.configure_connection c s in
        ((u : Option Text) → committed u s' ≡ committed u s) × (r ≡ ok tt → on s' ≡ url_of c)
  pub begin_lem :
      (s : A.State)
      → let (r, s') = A.begin s in
        ((u : Option Text) → committed u s' ≡ committed u s)
        × (r ≡ ok tt → (on s' ≡ on s) × (current s' ≡ committed (on s) s))
  pub run_migrations_lem :
      (s : A.State)
      → let (r, s') = A.run_migrations s in
        ((u : Option Text) → committed u s' ≡ committed u s)
        × (r ≡ ok tt
            → (on s' ≡ on s)
              × (at_head (run_operations (pending (current s).version) (current s).catalog)
                  ≡ some (current s')))
  pub commit_lem :
      (s : A.State)
      → let (r, s') = A.commit s in
        (r ≡ ok tt → committed (on s) s' ≡ current s)
        × ((u : Option Text) → (r ≡ ok tt → u ≢ on s) → committed u s' ≡ committed u s)
  pub rollback_lem :
      (s : A.State)
      → let (r, s') = A.rollback s in (u : Option Text) → committed u s' ≡ committed u s
  pub close_lem :
      (c : A.Connection) (s : A.State) (u : Option Text) → committed u (A.close c s) ≡ committed u s
