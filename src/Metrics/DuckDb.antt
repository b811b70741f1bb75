-- ===== src/Metrics/DuckDb.antt =====
-- hiring-service/src/app/integrations/duckdb/client.py, with the adapter
-- hiring-service/src/app/services/metrics/adapters/duckdb_adapter.py. The package duckdb is a
-- parameter. Logging is left out.
use globant.Base.{◌≡◌, refl, List, [], ◌∷◌, ◌++◌, Text, codes, map}
use globant.Errors.{Result, ok, err}
use globant.Action.{Action, pure, continue, handle, try_except, ◌>>=◌, ◌>>◌}
use globant.Settings.{Settings}

-- What `execute` gives: the names of `description`, and the rows of `fetchall`.
pub record Relation (V : Type 0) : Type 0 where
  pub columns : List Text
  pub rows : List (List V)

pub record DuckDbModule : Type 1 where
  pub State : Type 0
  pub Connection : Type 0
  pub Value : Type 0
  pub connect : Action State Connection
  pub execute : Connection → Text → Action State (Relation Value)

-- `zip(columns, row)`
abbrev pub zip : {A B : Type 0} → List A → List B → List (A × B)
zip [] ys = []
zip (x ∷ xs) [] = []
zip (x ∷ xs) (y ∷ ys) = (x, y) ∷ zip xs ys

-- The columns of the queries have different names, so that each row is a list of pairs.
abbrev pub dicts : {V : Type 0} → Relation V → List (List (Text × V))
dicts relation = map (zip relation.columns) relation.rows

module _ (M : DuckDbModule) (settings : Settings) where
  -- `DuckDbClient`
  pub record DuckDbClient : Type 0 where
    pub process : M.State
    pub conn : M.Connection

  abbrev pub Rows : Type 0
  Rows = List (List (Text × M.Value))

  -- `_connect`
  unfoldable pub connect : Action M.State M.Connection
  connect = do
    conn ← M.connect
    M.execute conn (codes "INSTALL postgres;")
    M.execute conn (codes "LOAD postgres;")
    M.execute conn
        (codes "ATTACH '" ++ (settings.database_url ++ codes "' AS pg (TYPE postgres, READ_ONLY);"))
    pure conn

  -- `_execute`
  abbrev pub run_query : Text → M.Connection → Action M.State Rows
  run_query sql conn = M.execute conn sql >>= λ relation. pure (dicts relation)

  unfoldable pub execute_query : Text → Action DuckDbClient Rows
  execute_query sql s =
      let (r, process) = run_query sql s.conn s.process in (r, record s { process = process })

  -- `self._conn = self._connect()`
  abbrev pub renewed : Result M.Connection → DuckDbClient → Result (Unit {0}) × DuckDbClient
  renewed (ok conn) s = (ok tt, record s { conn = conn })
  renewed (err e) s = (err e, s)

  unfoldable pub reconnect : Action DuckDbClient (Unit {0})
  unfolding connect
  reconnect s = let (r, process) = connect s.process in renewed r (record s { process = process })

  unfoldable pub query : Text → Action DuckDbClient Rows
  unfolding execute_query reconnect
  query sql = try_except (execute_query sql) (λ exc. reconnect >> execute_query sql)

  -- A call that gives rows.
  abbrev pub Answers : Result Rows → Type 0
  Answers r = (rows : Rows) × (r ≡ ok rows)

  reconnect_query-Answers :
      (sql : Text) (s : DuckDbClient)
      → Answers ((connect >>= run_query sql) s.process).0
      → Answers ((reconnect >> execute_query sql) s).0
  unfolding reconnect execute_query
  reconnect_query-Answers sql s h =
      let (r, process) = connect s.process in by_connection r process h
    where
      by_connection :
          (r : Result M.Connection) (process : M.State)
          → Answers (continue r (run_query sql) process).0
          → let (r', s') = renewed r (record s { process = process }) in
            Answers (continue r' (λ _. execute_query sql) s').0
      by_connection (ok conn) process h = h
      by_connection (err e) process h = h

  -- Where a new connection can be attached and answers the query, `query` answers it, whatever has
  -- become of the connection that the client holds.
  pub query-Answers :
      (sql : Text)
      → ((process : M.State) → Answers ((connect >>= run_query sql) process).0)
      → (s : DuckDbClient) → Answers (query sql s).0
  unfolding query
  query-Answers sql works s = let (r, s') = execute_query sql s in by_attempt r s'
    where
      by_attempt :
          (r : Result Rows) (s' : DuckDbClient)
          → Answers (handle r (λ exc. reconnect >> execute_query sql) s').0
      by_attempt (ok rows) s' = (rows, refl)
      by_attempt (err e) s' = reconnect_query-Answers sql s' (works s'.process)
