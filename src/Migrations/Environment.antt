-- ===== src/Migrations/Environment.antt =====
-- hiring-service/src/app/migrations/env.py, which Alembic runs around the migrations. Alembic, the
-- engine of SQLAlchemy and the database are a parameter. The set-up of the loggers is left out.
pub mod Expected
pub mod Migrated
use globant.Base.{Bool, Option, none, some, Text, codes, if◌then◌else◌}
use globant.Errors.{Exc, Result, ok, err}
use globant.Action.{Action, pure, raise, handle, ◌>>=◌, ◌>>◌}
use globant.Clients.{truthy}

-- The calls of `context`, of its `config` and of the engine. `begin`, `commit` and `rollback` are
-- what `with context.begin_transaction()` calls.
pub record Alembic : Type 1 where
  pub State : Type 0
  pub Connection : Type 0
  -- Both interpolate `%`, and may raise.
  pub set_main_option : Text → Text → Action State (Unit {0})
  pub get_main_option : Text → Action State (Option Text)
  pub is_offline_mode : State → Bool
  -- `engine_from_config(…)` at the URL of the configuration, without a pool, and `connect()`
  pub connect : Option Text → Action State Connection
  pub close : Connection → State → State
  -- `context.configure` with a URL and literal binds, or with a connection
  pub configure_url : Option Text → Action State (Unit {0})
  pub configure_connection : Connection → Action State (Unit {0})
  pub begin : Action State (Unit {0})
  pub commit : Action State (Unit {0})
  pub rollback : Action State (Unit {0})
  pub run_migrations : Action State (Unit {0})

abbrev pub url_option : Text
url_option = codes "sqlalchemy.url"

module _ (A : Alembic) where
  -- How a transaction ends, by the outcome of its body.
  abbrev pub end_transaction : Result (Unit {0}) → Action A.State (Unit {0})
  end_transaction (ok _) = A.commit
  end_transaction (err e) = A.rollback >> raise e

  -- `with context.begin_transaction(): context.run_migrations()`
  unfoldable pub run_in_transaction : Action A.State (Unit {0})
  run_in_transaction = A.begin >> λ s. let (r, s') = A.run_migrations s in end_transaction r s'

  unfoldable pub run_migrations_offline : Action A.State (Unit {0})
  unfolding run_in_transaction
  run_migrations_offline = do
    url ← A.get_main_option url_option
    A.configure_url url
    run_in_transaction

  -- `with connectable.connect() as connection`
  abbrev pub on_connection : A.Connection → Action A.State (Unit {0})
  on_connection connection s =
      let (r, s') = (A.configure_connection connection >> run_in_transaction) s in
      (r, A.close connection s')

  unfoldable pub run_migrations_online : Action A.State (Unit {0})
  unfolding run_in_transaction
  run_migrations_online = do
    url ← A.get_main_option url_option
    connection ← A.connect url
    on_connection connection

  -- `if database_url:`
  abbrev pub with_database_url : Option Text → Action A.State (Unit {0})
  with_database_url none = pure tt
  with_database_url (some url) = A.set_main_option url_option url

  -- `if context.is_offline_mode():`
  unfoldable pub run_in_mode : Action A.State (Unit {0})
  unfolding run_migrations_offline run_migrations_online
  run_in_mode s = if A.is_offline_mode s then run_migrations_offline s else run_migrations_online s

  -- The module, with the value of `DATABASE_URL`.
  unfoldable pub run_environment : Option Text → Action A.State (Unit {0})
  unfolding run_in_mode
  run_environment database_url = with_database_url (truthy database_url) >> run_in_mode
