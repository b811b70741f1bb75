-- ===== src/App/Events/Routed.antt =====
-- What one request or one background task does to the database.
use globant.Base.{◌≡◌, refl, false, true, none, some, Option, List, []}
use globant.Errors.{Uuid, Exc, is_operational}
use globant.Action.{Action, pure, ◌>>=◌, ◌>>◌}
use globant.Action.Rules.{bind_rule}
use globant.Models.{Db, has_batch}
use globant.Clients.{Environ}
use globant.UnitOfWork.Contract.{IsLawful}
use globant.Workers.World.{on_uow}
use globant.Workers.Process.{stream_and_process}
use globant.BatchStatus.{get_batch_status}
use globant.Api.{post_departments, post_jobs}
use globant.Api.Employees.{AcceptedResponse, post_employees}
use globant.Metrics.{MetricsState, hires_by_quarter, departments_above_mean}
use globant.Api.Employees.Served.{Opens}
use globant.System.{Reaches, here, next, poll}
use globant.System.Requests.{uploads-Reaches, stream_and_process-Reaches}
use globant.App.{
  Platform, AppState, on_world, on_metrics, shared_cache, shared_storage, shared_analytics,
  connected, in_session, with_session, run_task,
}
use globant.App.Routes.{
  Route, get_health, post_ingest_departments, post_ingest_jobs, get_ingest_employees_status,
  post_ingest_employees, get_metrics_hires_by_quarter, get_metrics_departments_above_mean, Body,
  ingestion, batch_status, rows, replied_accepted, Reply, replied, accept_employees, Occasion,
  handle_route,
}

module _ (P : Platform) (Outage : Exc → Type 0)
    (outages : (e : Exc) → Outage e → is_operational e ≡ true) (L : IsLawful Outage P.services.uow)
    (opens : Opens P.services L P.sessions) where
  open P use {services as V, sessions as M, settings}

  -- The committed database.
  abbrev pub stored_in : AppState P → Db
  stored_in s = (L.view s.world.uow).committed

  module _ (db : Db) where
    abbrev Reached : AppState P → Type 0
    Reached s = Reaches Outage V L settings db (stored_in s)

    in_session-Reached :
        {A : Type 0} (m : Action (AppState P) A) (s : AppState P)
        → Reached (m (with_session P M.open_session s)).1
        → Reached (in_session P m s).1
    in_session-Reached m s h =
        let s' = (m (with_session P M.open_session s)).1 in rw (opens s'.world.uow).1 h

    bind-Reached :
        {A B : Type 0} (m : Action (AppState P) A) (f : A → Action (AppState P) B) (s : AppState P)
        → Reached (m s).1
        → ((a : A) (s' : AppState P) → Reached s' → Reached (f a s').1)
        → Reached ((m >>= f) s).1
    bind-Reached m f s h rest =
        bind_rule m f s (λ _ s'. Reached s') (λ _ s'. Reached s') h rest (λ _ s' h'. h')

    replied-Reached :
        {A : Type 0} (body : A → Body V.cache.Json) (m : Action (AppState P) A) (s : AppState P)
        → Reached (m s).1
        → Reached (replied P body m s).1
    replied-Reached body m s h = bind-Reached m (λ a. pure (body a, [])) s h (λ _ s' h'. h')

    shared_analytics-Reached : (s : AppState P) → Reached s → Reached (shared_analytics P s).1
    unfolding shared_analytics connected
    shared_analytics-Reached s h = connected-Reached s.analytics_db
      where
        connected-Reached : (kept : Option (Unit {0})) → Reached (connected P kept s).1
        connected-Reached (some _) = h
        connected-Reached none = h

    -- A metric asks for its two clients, and changes the cache and the client of the database.
    metric-Reached :
        (env : Environ) (metric : Action (MetricsState V.cache P.analytics settings) V.cache.Json)
        (s : AppState P)
        → Reached s
        → let run = replied P rows (on_metrics P metric) in
          Reached ((shared_analytics P >> shared_cache P env >> run) s).1
    unfolding shared_cache
    metric-Reached env metric s h =
        let run = replied P rows (on_metrics P metric) in
        bind-Reached (shared_analytics P >> shared_cache P env) (λ _. run) s
          (bind-Reached (shared_analytics P) (λ _. shared_cache P env) s
            (shared_analytics-Reached s h) (λ _ s' h'. h'))
          (λ _ s' h'. replied-Reached rows (on_metrics P metric) s' h')

    -- With both clients, a call on the world as it is.
    with_clients-Reached :
        {A : Type 0} (env : Environ) (run : Action (AppState P) A) (s : AppState P)
        → Reached s
        → ((s' : AppState P) → s'.world ≡ s.world → Reached (run s').1)
        → Reached ((shared_cache P env >> shared_storage P env >> run) s).1
    unfolding shared_cache shared_storage
    with_clients-Reached env run s h runs =
        bind_rule (shared_cache P env >> shared_storage P env) (λ _. run) s
          (λ _ s'. s'.world ≡ s.world) (λ _ s'. Reached s')
          (bind_rule (shared_cache P env) (λ _. shared_storage P env) s (λ _ s'. s'.world ≡ s.world)
            (λ _ s'. s'.world ≡ s.world) refl (λ _ s' e. e) (λ _ s' e. e))
          (λ _ s' e. runs s' e) (λ _ s' e. rw e h)

  module _ (s : AppState P) where
    -- The session of a call has started.
    abbrev start : AppState P
    start = with_session P M.open_session s

    start-Reached : Reached (stored_in s) start
    start-Reached = rw (opens s.world.uow).0.0 here

    -- A task of any batch.
    pub run_task-Reached : (env : Environ) (b : Uuid) → Reached (stored_in s) (run_task P env b s).1
    unfolding run_task
    run_task-Reached env b =
        let worker = on_world P (stream_and_process V settings P.parse b) in
        in_session-Reached (stored_in s) (shared_cache P env >> shared_storage P env >> worker) s (
          with_clients-Reached (stored_in s) env worker start start-Reached (λ s' e.
            stream_and_process-Reaches Outage outages V L settings (stored_in s) b P.parse s'.world
              (rw e (opens s.world.uow).0)))

    -- A call of a use case in the session of its request.
    call-Reached :
        {A : Type 0} (body : A → Body V.cache.Json) (m : Action V.uow.State A)
        → Reaches Outage V L settings (stored_in s) (L.view (m start.world.uow).1).committed
        → Reached (stored_in s) (in_session P (replied P body (on_world P (on_uow V m))) s).1
    call-Reached body m h =
        let run = on_world P (on_uow V m) in
        in_session-Reached (stored_in s) (replied P body run) s
          (replied-Reached (stored_in s) body run start h)

    -- A request under a fresh batch id.
    pub handle_route-Reached :
        (o : Occasion) (route : Route)
        → has_batch o.batch_uuid (stored_in s).batches ≡ false
        → Reached (stored_in s) (handle_route P o route s).1
    unfolding handle_route
    handle_route-Reached o get_health fresh = here
    handle_route-Reached o (post_ingest_departments file) fresh =
        call-Reached ingestion (post_departments V.uow o.batch_uuid file)
          (uploads-Reaches Outage outages V L settings (stored_in s) o.batch_uuid file (λ b. b)
            start.world (opens s.world.uow).0 fresh).0
    handle_route-Reached o (post_ingest_jobs file) fresh =
        call-Reached ingestion (post_jobs V.uow o.batch_uuid file)
          (uploads-Reaches Outage outages V L settings (stored_in s) o.batch_uuid file (λ b. b)
            start.world (opens s.world.uow).0 fresh).1
    handle_route-Reached o (get_ingest_employees_status b) fresh =
        call-Reached batch_status (get_batch_status settings V.uow o.now b)
          (next here (poll b o.now start.world.uow (opens s.world.uow).0 refl))
    handle_route-Reached o (post_ingest_employees file) fresh =
        let accepting = accept_employees P o.batch_uuid file in
        let posting = on_world P (post_employees settings V (λ b. b) o.batch_uuid file) in
        let answer : AcceptedResponse × List Uuid → Action (AppState P) (Reply P) =
          λ a. pure (replied_accepted P a) in
        in_session-Reached (stored_in s)
          (shared_cache P o.env >> shared_storage P o.env >> accepting) s
          (with_clients-Reached (stored_in s) o.env accepting start start-Reached (λ s' e.
            bind-Reached (stored_in s) posting answer s'
              (uploads-Reaches Outage outages V L settings (stored_in s) o.batch_uuid file (λ b. b)
                s'.world (rw e (opens s.world.uow).0) fresh).2
              (λ _ s'' h. h)))
    handle_route-Reached o get_metrics_hires_by_quarter fresh =
        metric-Reached (stored_in s) o.env
          (hires_by_quarter V.cache P.analytics settings P.hires_sql) s here
    handle_route-Reached o get_metrics_departments_above_mean fresh =
        metric-Reached (stored_in s) o.env
          (departments_above_mean V.cache P.analytics settings P.above_mean_sql) s here
