-- ===== src/App/Events/Reached.antt =====
-- What any sequence of requests and background tasks does to the database.
use globant.Base.{◌≡◌, false, true, List, [], ◌∷◌}
use globant.Errors.{Uuid, Exc, is_operational}
use globant.Models.{Db, has_batch}
use globant.Models.Integrity.{IsValid}
use globant.Models.Evolution.{Extends}
use globant.Clients.{Environ}
use globant.UnitOfWork.Contract.{IsLawful, AnyOutage}
use globant.Workers.Process.Chunks.{Quiet}
use globant.Api.Employees.Served.{Opens}
use globant.System.{Reaches, Reaches-trans, here}
use globant.System.Reached.{Reaches-IsValid, Reaches-Extends}
use globant.App.{Platform, AppState}
use globant.App.Serve.{Framework, serve}
use globant.App.Events.{Event, request, background, Process, run_waiting, occur, occur_all}
use globant.App.Events.Routed.{run_task-Reached, handle_route-Reached}

module _ (P : Platform) {Outage : Exc → Type 0} (L : IsLawful Outage P.services.uow)
    (F : Framework P.services.cache.Json) where
  -- The batch id of each request is new when the request comes.
  abbrev pub FreshIn : Event → Process P F → Type 0
  FreshIn (request req o) p =
      has_batch o.batch_uuid (L.view p.app.world.uow).committed.batches ≡ false
  FreshIn (background env) p = Unit {0}

  abbrev pub AllFresh : List Event → Process P F → Type 0
  AllFresh [] p = Unit {0}
  AllFresh (event ∷ events) p = FreshIn event p × AllFresh events (occur P F event p)

module _ (P : Platform) (Outage : Exc → Type 0)
    (outages : (e : Exc) → Outage e → is_operational e ≡ true) (L : IsLawful Outage P.services.uow)
    (opens : Opens P.services L P.sessions) where
  open P use {services as V, sessions as M, settings}

  abbrev stored_in : AppState P → Db
  stored_in s = (L.view s.world.uow).committed

  abbrev Reached : Db → AppState P → Type 0
  Reached db s = Reaches Outage V L settings db (stored_in s)

  module _ (F : Framework V.cache.Json) where
    run_waiting-Reached :
        (env : Environ) (waiting : List Uuid) (s : AppState P)
        → Reached (stored_in s) (run_waiting P F env waiting s).app
    run_waiting-Reached env [] s = here
    run_waiting-Reached env (b ∷ waiting) s = run_task-Reached P Outage outages L opens s env b

    occur-Reached :
        (event : Event) (p : Process P F)
        → FreshIn P L F event p
        → Reached (stored_in p.app) (occur P F event p).app
    unfolding occur serve
    occur-Reached (request req o) p fresh =
        handle_route-Reached P Outage outages L opens p.app o req.route fresh
    occur-Reached (background env) p fresh = run_waiting-Reached env p.waiting p.app

    -- Whatever is requested and whatever fails, all that a sequence of requests and background tasks
    -- does to the database is a sequence of steps of the service, where the batch ids are new.
    pub occur_all-Reaches :
        (events : List Event) (p : Process P F)
        → AllFresh P L F events p
        → Reaches Outage V L settings (stored_in p.app) (stored_in (occur_all P F events p).app)
    unfolding occur_all
    occur_all-Reaches [] p fresh = here
    occur_all-Reaches (event ∷ events) p (fresh, rest) =
        let p' = occur P F event p in
        Reaches-trans Outage V L settings (stored_in p.app) (stored_in p'.app)
          (stored_in (occur_all P F events p').app) (occur-Reached event p fresh)
          (occur_all-Reaches events p' rest)

module _ (P : Platform) (L : IsLawful AnyOutage P.services.uow)
    (opens : Opens P.services L P.sessions) (quiet : Quiet P.services)
    (F : Framework P.services.cache.Json) where
  -- Under any outage, with a cache that raises nothing and new batch ids: any sequence of requests
  -- and background tasks keeps the integrity of the database, and no row of departments, jobs or
  -- employees is ever changed or removed, nor any batch removed.
  pub occur_all-IsValid :
      (events : List Event) (p : Process P F)
      → AllFresh P L F events p
      → let before = (L.view p.app.world.uow).committed in
        let after = (L.view (occur_all P F events p).app.world.uow).committed in
        (IsValid before → IsValid after) × Extends before after
  occur_all-IsValid events p fresh =
      let before = (L.view p.app.world.uow).committed in
      let after = (L.view (occur_all P F events p).app.world.uow).committed in
      let steps = occur_all-Reaches P AnyOutage (λ _ e. e) L opens F events p fresh in
      (
        Reaches-IsValid P.services L P.settings quiet before after steps,
        Reaches-Extends P.services L P.settings quiet before after steps,
      )
