-- ===== src/App/Events.antt =====
-- The process over time: requests in any order, and the background tasks that their responses
-- leave, each of which runs later, in the order of the responses. What a session writes while
-- another call runs is left to `System`.
pub mod Routed
pub mod Reached
use globant.Base.{List, [], ◌∷◌, ◌++◌}
use globant.Errors.{Uuid, Result, ok, err}
use globant.Clients.{Environ}
use globant.App.{Platform, AppState, run_task}
use globant.App.Routes.{Occasion}
use globant.App.Serve.{Framework, Request, serve}

pub data Event : Type 0 where
  request : Request → Occasion → Event
  -- The task that waits longest runs, in the environment of then.
  background : Environ → Event

module _ (P : Platform) (F : Framework P.services.cache.Json) where
  -- The batches whose tasks have yet to run.
  pub record Process : Type 0 where
    pub app : AppState P
    pub waiting : List Uuid

  abbrev pub added : Result (F.Response × List Uuid) → List Uuid
  added (ok (response, tasks)) = tasks
  added (err exc) = []

  abbrev pub run_waiting : Environ → List Uuid → AppState P → Process
  run_waiting env [] s = record { app = s; waiting = [] }
  run_waiting env (b ∷ waiting) s = record { app = (run_task P env b s).1; waiting = waiting }

  unfoldable pub occur : Event → Process → Process
  occur (request req o) p =
      let (out, s) = serve P F req o p.app in record { app = s; waiting = p.waiting ++ added out }
  occur (background env) p = run_waiting env p.waiting p.app

  unfoldable pub occur_all : List Event → Process → Process
  unfolding occur
  occur_all [] p = p
  occur_all (event ∷ events) p = occur_all events (occur event p)
