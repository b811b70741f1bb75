-- ===== src/Api/Employees.antt =====
-- The upload of an employees file: the route `POST /ingest/employees` of
-- hiring-service/src/app/api/routes/ingestion.py, which answers before the file is processed, and
-- the background task of hiring-service/src/app/api/deps/ingestion.py. The sessions of SQLModel are
-- a parameter; the cache client and the storage are the ones that the request has used.
pub mod Served
use globant.Base.{ℕ, List, [], ◌∷◌, Text}
use globant.Errors.{Uuid, Result}
use globant.Action.{Action, pure, ◌>>=◌}
use globant.Models.{EmployeeRecord}
use globant.Settings.{Settings}
use globant.Ports.{temporary_file}
use globant.Workers.World.{Services, World}
use globant.Workers.Process.{stream_and_process}
use globant.BatchStatus.{ingest_employees}

pub record AcceptedResponse : Type 0 where
  pub batch_id : Uuid

-- What a background task of the worker does.
abbrev pub Task : Services → Type 0
Task V = Action (World V) (Unit {0})

-- The body of `POST /ingest/employees`, with the tasks that it adds: `runner` is the dependency
-- `get_process_employees_runner`, and `file` is what the client has sent.
unfoldable pub post_employees :
    {T : Type 0} (settings : Settings) (V : Services)
    → (Uuid → T)
    → Uuid
    → List ℕ
    → Action (World V) (AcceptedResponse × List T)
post_employees settings V runner b file = do
  batch_id ← ingest_employees settings V b (temporary_file file)
  pure (record { batch_id = batch_id }, runner batch_id ∷ [])

-- `with Session(engine)`: a new session over the database, and its end.
pub record SessionMaker (V : Services) : Type 0 where
  pub open_session : V.uow.State → V.uow.State
  pub close_session : V.uow.State → V.uow.State

module _ (settings : Settings) (V : Services) (M : SessionMaker V)
    (parse : List ℕ → Result (List EmployeeRecord × List Text)) where
  unfoldable pub run_process_employees_chunk : Uuid → Task V
  run_process_employees_chunk batch_id w =
      let (out, w') =
        stream_and_process V settings parse batch_id (record w { uow = M.open_session w.uow }) in
      (out, record w' { uow = M.close_session w'.uow })
