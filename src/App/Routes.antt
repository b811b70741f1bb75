-- ===== src/App/Routes.antt =====
-- The routes: hiring-service/src/app/api/routes/ (health.py, ingestion.py, metrics.py), which
-- hiring-service/src/app/api/main.py puts together. FastAPI finds the route of a request and reads
-- its parameters.
use globant.Base.{ℕ, List, []}
use globant.Errors.{Uuid}
use globant.Action.{Action, pure, ◌>>=◌, ◌>>◌}
use globant.Clients.{Environ}
use globant.Metrics.{MetricsState, hires_by_quarter, departments_above_mean}
use globant.Workers.World.{on_uow}
use globant.IngestRows.{IngestionResponse}
use globant.BatchStatus.{BatchStatusResponse, get_batch_status}
use globant.Api.{post_departments, post_jobs}
use globant.Api.Employees.{AcceptedResponse, post_employees}
use globant.App.{
  Platform, AppState, on_world, on_metrics, shared_cache, shared_storage, shared_analytics,
  in_session,
}

-- The routes, with their parameters: an uploaded file, or the batch id in the path.
pub data Route : Type 0 where
  get_health : Route
  post_ingest_departments : List ℕ → Route
  post_ingest_jobs : List ℕ → Route
  get_ingest_employees_status : Uuid → Route
  post_ingest_employees : List ℕ → Route
  get_metrics_hires_by_quarter : Route
  get_metrics_departments_above_mean : Route

-- The `status_code` of the decorator, 200 by default.
unfoldable pub status_code : Route → ℕ
status_code get_health = 200
status_code (post_ingest_departments _) = 200
status_code (post_ingest_jobs _) = 200
status_code (get_ingest_employees_status _) = 200
status_code (post_ingest_employees _) = 202
status_code get_metrics_hires_by_quarter = 200
status_code get_metrics_departments_above_mean = 200

-- What the handlers return.
pub data Body (Json : Type 0) : Type 0 where
  status_ok : Body Json
  ingestion : IngestionResponse → Body Json
  batch_status : BatchStatusResponse → Body Json
  accepted : AcceptedResponse → Body Json
  rows : Json → Body Json

-- What a call finds outside of the service: the clock, the environment, and the two values of
-- `uuid.uuid4()`, that of the middleware and that of the use case.
pub record Occasion : Type 0 where
  pub now : ℕ
  pub env : Environ
  pub request_uuid : Uuid
  pub batch_uuid : Uuid

module _ (P : Platform) where
  open P use {services as V, analytics as D, settings}

  -- A body, and the batches whose background tasks are to run.
  abbrev pub Reply : Type 0
  Reply = Body V.cache.Json × List Uuid

  abbrev pub replied :
      {A : Type 0} → (A → Body V.cache.Json) → Action (AppState P) A → Action (AppState P) Reply
  replied body m = m >>= λ a. pure (body a, [])

  abbrev pub replied_accepted : AcceptedResponse × List Uuid → Reply
  replied_accepted (response, tasks) = (accepted response, tasks)

  -- A task of the runner is known by its batch.
  abbrev pub accept_employees : Uuid → List ℕ → Action (AppState P) Reply
  accept_employees b file =
      on_world P (post_employees settings V (λ batch_id. batch_id) b file) >>= λ answer.
      pure (replied_accepted answer)

  -- `get_uow` and the use cases over it: a call in the session of its request.
  abbrev pub with_uow :
      {A : Type 0} → (A → Body V.cache.Json) → Action V.uow.State A → Action (AppState P) Reply
  with_uow body m = in_session P (replied body (on_world P (on_uow V m)))

  -- `get_ingest_employees_uc`
  abbrev pub with_clients : Environ → Action (AppState P) Reply → Action (AppState P) Reply
  with_clients env m = in_session P (shared_cache P env >> shared_storage P env >> m)

  -- `get_hires_by_quarter_uc` and `get_departments_above_mean_uc`
  abbrev pub with_analytics :
      Environ → Action (MetricsState V.cache D settings) V.cache.Json → Action (AppState P) Reply
  with_analytics env m = shared_analytics P >> shared_cache P env >> replied rows (on_metrics P m)

  abbrev pub health_check : Action (AppState P) Reply
  health_check = pure (status_ok, [])

  abbrev pub get_hires_by_quarter : Environ → Action (AppState P) Reply
  get_hires_by_quarter env = with_analytics env (hires_by_quarter V.cache D settings P.hires_sql)

  abbrev pub get_departments_above_mean : Environ → Action (AppState P) Reply
  get_departments_above_mean env =
      with_analytics env (departments_above_mean V.cache D settings P.above_mean_sql)

  -- A route with its dependencies, in their order; but a session is opened before a file of
  -- departments or jobs is parsed, where the code parses it first: opening one reaches no database.
  unfoldable pub handle_route : Occasion → Route → Action (AppState P) Reply
  handle_route o get_health = health_check
  handle_route o (post_ingest_departments file) =
      with_uow ingestion (post_departments V.uow o.batch_uuid file)
  handle_route o (post_ingest_jobs file) = with_uow ingestion (post_jobs V.uow o.batch_uuid file)
  handle_route o (get_ingest_employees_status batch_id) =
      with_uow batch_status (get_batch_status settings V.uow o.now batch_id)
  handle_route o (post_ingest_employees file) =
      with_clients o.env (accept_employees o.batch_uuid file)
  handle_route o get_metrics_hires_by_quarter = get_hires_by_quarter o.env
  handle_route o get_metrics_departments_above_mean = get_departments_above_mean o.env
