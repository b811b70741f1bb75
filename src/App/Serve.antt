-- ===== src/App/Serve.antt =====
-- A request from its arrival to its response: hiring-service/src/app/api/middleware/
-- correlation_id.py, the handlers that create_app of hiring-service/src/app/main.py registers, and
-- the routes. FastAPI, which calls them, is a parameter.
use globant.Base.{ℕ, ◌≡◌, Option, none, some, List, [], Text, codes}
use globant.Errors.{Uuid, Exc, Result, ok, err, show_uuid, http_exception, operational_error, other}
use globant.Handlers.{JsonResponse, base_error_handler}
use globant.App.{Platform, AppState}
use globant.App.Routes.{Route, status_code, Body, Occasion, handle_route}

-- `from_return` makes the response of a value that a route returns, `from_json` is that of a
-- `JSONResponse`, and `default_handler` those of the handlers that FastAPI brings itself.
pub record Framework (Json : Type 0) : Type 1 where
  pub Response : Type 0
  pub from_return : ℕ → Body Json → Response
  pub from_json : JsonResponse → Response
  pub default_handler : Exc → Option Response
  -- `response.headers[name] = value`
  pub set_header : Text → Text → Response → Response
  pub header : Text → Response → Option Text
  pub status : Response → ℕ

-- What is expected of FastAPI. Its default handlers are for exceptions of its own: that of an
-- `HTTPException` answers with the status of the exception.
pub record Documented {Json : Type 0} (F : Framework Json) : Type 0 where
  pub header_lem :
      (name value : Text) (r : F.Response) → F.header name (F.set_header name value r) ≡ some value
  pub set_header_status_lem :
      (name value : Text) (r : F.Response) → F.status (F.set_header name value r) ≡ F.status r
  pub from_return_status_lem : (n : ℕ) (body : Body Json) → F.status (F.from_return n body) ≡ n
  pub from_json_status_lem : (j : JsonResponse) → F.status (F.from_json j) ≡ j.status_code
  pub http_exception_lem :
      (n : ℕ) (detail : Text)
      → (r : F.Response) × (F.default_handler (http_exception n detail) ≡ some r) × (F.status r ≡ n)
  pub operational_lem : (message : Text) → F.default_handler (operational_error message) ≡ none
  pub other_lem : (message : Text) → F.default_handler (other message) ≡ none

-- The header `X-Request-ID`, where there is one.
pub record Request : Type 0 where
  pub x_request_id : Option Text
  pub route : Route

abbrev pub id_header : Text
id_header = codes "X-Request-ID"

-- `request.headers.get("X-Request-ID", str(uuid.uuid4()))`
unfoldable pub request_id : Request → Occasion → Text
request_id req o = elim req.x_request_id [ none ↦ show_uuid o.request_uuid | some id ↦ id ]

module _ (P : Platform) (F : Framework P.services.cache.Json) where
  -- The registered handler first, then those of FastAPI.
  abbrev pub handled_by : Option JsonResponse → Option F.Response → Option F.Response
  handled_by (some j) default = some (F.from_json j)
  handled_by none default = default

  unfoldable pub handle_exception : Exc → Option F.Response
  handle_exception exc = handled_by (base_error_handler exc) (F.default_handler exc)

  abbrev pub or_raised : Exc → Option F.Response → Result (F.Response × List Uuid)
  or_raised exc (some response) = ok (response, [])
  or_raised exc none = err exc

  -- What `call_next` returns or raises; the batches are those whose tasks run after the response.
  unfoldable pub call_next :
      ℕ → Result (Body P.services.cache.Json × List Uuid) → Result (F.Response × List Uuid)
  unfolding handle_exception
  call_next status (ok (body, tasks)) = ok (F.from_return status body, tasks)
  call_next status (err exc) = or_raised exc (handle_exception exc)

  abbrev pub tagged : Text → Result (F.Response × List Uuid) → Result (F.Response × List Uuid)
  tagged id (ok (response, tasks)) = ok (F.set_header id_header id response, tasks)
  tagged id (err exc) = err exc

  -- `correlation_id_middleware`
  unfoldable pub serve :
      Request → Occasion → AppState P → Result (F.Response × List Uuid) × AppState P
  unfolding call_next request_id
  serve req o s =
      let (out, s') = handle_route P o req.route s in
      (tagged (request_id req o) (call_next (status_code req.route) out), s')
