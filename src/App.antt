-- ===== src/App.antt =====
-- The application of hiring-service/src/app/main.py while it runs: its state, the sessions of
-- hiring-service/src/app/db/__init__.py, and the dependencies of api/deps/ingestion.py,
-- api/deps/metrics.py and api/deps/shared.py that give the use cases what they are built from. What
-- the libraries make from a configuration is a parameter.
pub mod Routes
pub mod Serve
pub mod Answered
pub mod Exceptions
pub mod Uploads
pub mod Events
pub mod Tasks
use globant.Base.{ℕ, Option, none, some, List, Text}
use globant.Errors.{Uuid, Result, ok, err}
use globant.Action.{Action, ◌>>◌}
use globant.Models.{EmployeeRecord}
use globant.Settings.{Settings}
use globant.Clients.{Environ, cache_client, gcs_client, lru_cache}
use globant.Metrics.{AnalyticsDb, MetricsState}
use globant.Workers.World.{Services, World}
use globant.Workers.Process.{stream_and_process}
use globant.Api.Employees.{SessionMaker}

-- What the service is installed with. `redis_from_url` and `gcs_connect` make the clients behind
-- the ports, and `duckdb_connect` is `DuckDbClient()`; only whether they raise is told apart.
pub record Platform : Type 1 where
  pub settings : Settings
  pub services : Services
  pub sessions : SessionMaker services
  pub analytics : AnalyticsDb services.cache.Json
  pub redis_from_url : Text → Result (Unit {0})
  pub gcs_connect : Text → Result (Unit {0})
  pub duckdb_connect : Action analytics.State (Unit {0})
  -- `parse_employees`
  pub parse : List ℕ → Result (List EmployeeRecord × List Text)
  -- the texts of the two queries
  pub hires_sql : Text
  pub above_mean_sql : Text

module _ (P : Platform) where
  open P use {services as V, sessions as M, analytics as D, settings}

  -- The functions under `@lru_cache` have kept a client or have not.
  pub record AppState : Type 0 where
    pub world : World V
    pub analytics : D.State
    pub cache_client : Option (Unit {0})
    pub storage : Option (Unit {0})
    pub analytics_db : Option (Unit {0})

  abbrev pub on_world : {A : Type 0} → Action (World V) A → Action AppState A
  on_world m s = let (r, w) = m s.world in (r, record s { world = w })

  abbrev pub on_metrics :
      {A : Type 0} → Action (MetricsState V.cache D settings) A → Action AppState A
  on_metrics m s =
      let (r, t) = m (record { cache = s.world.cache; db = s.analytics }) in
      (r, record s { world = record s.world { cache = t.cache }; analytics = t.db })

  -- `get_cache_client()`
  unfoldable pub shared_cache : Environ → Action AppState (Unit {0})
  shared_cache env s =
      let (r, kept) = lru_cache (cache_client P.redis_from_url env) s.cache_client in
      (r, record s { cache_client = kept })

  -- `get_storage()`
  unfoldable pub shared_storage : Environ → Action AppState (Unit {0})
  shared_storage env s =
      let (r, kept) = lru_cache (gcs_client P.gcs_connect env) s.storage in
      (r, record s { storage = kept })

  -- `DuckDbAdapter(client=DuckDbClient())`, unless one has been kept
  connected : Option (Unit {0}) → Action AppState (Unit {0})
  connected (some _) s = (ok tt, s)
  connected none s =
      let (r, analytics) = P.duckdb_connect s.analytics in
      let (r', kept) = lru_cache r none in
      (r', record s { analytics = analytics; analytics_db = kept })

  -- `get_analytics_db()`
  unfoldable pub shared_analytics : Action AppState (Unit {0})
  unfolding connected
  shared_analytics s = connected s.analytics_db s

  abbrev pub with_session : (V.uow.State → V.uow.State) → AppState → AppState
  with_session f s = record s { world = record s.world { uow = f s.world.uow } }

  -- `with Session(engine)`, which ends however its body ends: `get_session` around a request.
  abbrev pub in_session : {A : Type 0} → Action AppState A → Action AppState A
  in_session m s =
      let (r, s') = m (with_session M.open_session s) in (r, with_session M.close_session s')

  -- `run_process_employees_chunk`, with the clients that it asks for
  unfoldable pub run_task : Environ → Uuid → Action AppState (Unit {0})
  run_task env batch_id = in_session (
      shared_cache env
      >> shared_storage env
      >> on_world (stream_and_process V settings P.parse batch_id))
