-- ===== src/App/Answered.antt =====
-- What a client gets for any request.
use globant.Base.{ℕ, ◌≡◌, refl, sym, ◌∙◌, ◌⊎◌, inl, inr, Option, none, some, List, [], Text, codes}
use mathlib.Core.Path.{subst}
use globant.Errors.{
  Uuid, Exc, Context, Result, ok, err, show_uuid, base_error, http_exception, integrity_error,
  operational_error, other,
}
use globant.Handlers.{JsonResponse, base_error_handler}
use globant.App.{Platform, AppState}
use globant.App.Routes.{
  Route, get_health, post_ingest_departments, post_ingest_jobs, get_ingest_employees_status,
  post_ingest_employees, get_metrics_hires_by_quarter, get_metrics_departments_above_mean,
  status_code, Reply, Occasion, handle_route,
}
use globant.App.Serve.{
  Framework, Documented, Request, id_header, request_id, handled_by, call_next, or_raised, tagged,
  handle_exception, serve,
}

module _ (P : Platform) (F : Framework P.services.cache.Json) where
  -- The answer to an exception: that of the handler for a `BaseError`, or that of FastAPI.
  abbrev pub Handled : Exc → F.Response → Type 0
  Handled exc r =
      ((j : JsonResponse) × (base_error_handler exc ≡ some j) × (F.status r ≡ j.status_code))
      ⊎ ((base_error_handler exc ≡ none)
          × ((r0 : F.Response) × (F.default_handler exc ≡ some r0) × (F.status r ≡ F.status r0)))

  -- What comes of the outcome of a route, for a request with the id `id`.
  abbrev pub Answered : Text → ℕ → Result (Reply P) → Result (F.Response × List Uuid) → Type 0
  Answered id n (ok (body, tasks)) (ok (r, added)) =
      (F.header id_header r ≡ some id) × (F.status r ≡ n) × (added ≡ tasks)
  Answered id n (ok _) (err e) = ⊥
  Answered id n (err exc) (ok (r, added)) =
      (F.header id_header r ≡ some id) × Handled exc r × (added ≡ [])
  Answered id n (err exc) (err e) =
      (e ≡ exc) × (base_error_handler exc ≡ none) × (F.default_handler exc ≡ none)

  module _ (D : Documented F) (id : Text) (n : ℕ) where
    handled_by-Answered :
        (exc : Exc) (found : Option JsonResponse) (default : Option F.Response)
        → base_error_handler exc ≡ found
        → F.default_handler exc ≡ default
        → Answered id n (err exc) (tagged P F id (or_raised P F exc (handled_by P F found default)))
    handled_by-Answered exc (some j) default e e' = (
      D.header_lem id_header id (F.from_json j),
      inl (j, e, D.set_header_status_lem id_header id (F.from_json j) ∙ D.from_json_status_lem j),
      refl,
    )
    handled_by-Answered exc none (some r) e e' = (
      D.header_lem id_header id r,
      inr (e, (r, e', D.set_header_status_lem id_header id r)),
      refl,
    )
    handled_by-Answered exc none none e e' = (refl, e, e')

    pub call_next-Answered :
        (out : Result (Reply P)) → Answered id n out (tagged P F id (call_next P F n out))
    unfolding call_next handle_exception
    call_next-Answered (ok (body, tasks)) = (
      D.header_lem id_header id (F.from_return n body),
      D.set_header_status_lem id_header id (F.from_return n body) ∙ D.from_return_status_lem n body,
      refl,
    )
    call_next-Answered (err exc) =
        handled_by-Answered exc (base_error_handler exc) (F.default_handler exc) refl refl

  -- The response carries the id of its request, or a fresh one.
  abbrev pub HasId : Option Text → Occasion → F.Response → Type 0
  HasId none o r = F.header (codes "X-Request-ID") r ≡ some (show_uuid o.request_uuid)
  HasId (some id) o r = F.header (codes "X-Request-ID") r ≡ some id

  -- The status of a route that returns.
  abbrev pub Succeeds : Route → ℕ → Type 0
  Succeeds (post_ingest_employees _) n = n ≡ 202
  Succeeds (post_ingest_departments _) n = n ≡ 200
  Succeeds (post_ingest_jobs _) n = n ≡ 200
  Succeeds (get_ingest_employees_status _) n = n ≡ 200
  Succeeds get_metrics_hires_by_quarter n = n ≡ 200
  Succeeds get_metrics_departments_above_mean n = n ≡ 200
  Succeeds get_health n = n ≡ 200

  status_code-Succeeds : (route : Route) → Succeeds route (status_code route)
  unfolding status_code
  status_code-Succeeds (post_ingest_employees _) = refl
  status_code-Succeeds (post_ingest_departments _) = refl
  status_code-Succeeds (post_ingest_jobs _) = refl
  status_code-Succeeds (get_ingest_employees_status _) = refl
  status_code-Succeeds get_metrics_hires_by_quarter = refl
  status_code-Succeeds get_metrics_departments_above_mean = refl
  status_code-Succeeds get_health = refl

  module _ (x_request_id : Option Text) (o : Occasion) where
    -- The outcome for a `BaseError`: its status, and its message, code and context as JSON.
    abbrev pub AsJson : Text → Text → Context → ℕ → Result (F.Response × List Uuid) → Type 0
    AsJson message code context n (ok (r, added)) =
        HasId x_request_id o r
        × (F.status r ≡ n)
        × ((name : Text) × (value : Text) × (r
              ≡ F.set_header name value (
                  F.from_json (record {
                    status_code = n;
                    message = message;
                    code = code;
                    context = context;
                  }))))
        × (added ≡ [])
    AsJson message code context n (err e) = ⊥

    -- The outcome for any other exception, which FastAPI may know.
    abbrev pub AsKnown : Exc → Result (F.Response × List Uuid) → Type 0
    AsKnown exc (ok (r, added)) =
        HasId x_request_id o r
        × ((r0 : F.Response) × (F.default_handler exc ≡ some r0) × (F.status r ≡ F.status r0))
        × (added ≡ [])
    AsKnown exc (err e) = (e ≡ exc) × (F.default_handler exc ≡ none)

    abbrev pub Excepted : Exc → Result (F.Response × List Uuid) → Type 0
    Excepted (base_error message code context cause n) out = AsJson message code context n out
    Excepted (http_exception n detail) out = AsKnown (http_exception n detail) out
    Excepted (integrity_error message) out = AsKnown (integrity_error message) out
    Excepted (operational_error message) out = AsKnown (operational_error message) out
    Excepted (other message) out = AsKnown (other message) out

    abbrev pub Responded : Route → Result (Reply P) → Result (F.Response × List Uuid) → Type 0
    Responded route (ok (body, tasks)) (ok (r, added)) =
        HasId x_request_id o r × Succeeds route (F.status r) × (added ≡ tasks)
    Responded route (ok _) (err e) = ⊥
    Responded route (err exc) out = Excepted exc out

    module _ (D : Documented F) (route : Route) where
      abbrev id : Text
      id = request_id (record { x_request_id = x_request_id; route = route }) o

      tagged_response : (r : F.Response) → HasId x_request_id o (F.set_header id_header id r)
      unfolding request_id
      tagged_response r = by_header x_request_id
        where
          by_header :
              (x : Option Text)
              → HasId x o (
                  F.set_header id_header
                    (request_id (record { x_request_id = x; route = route }) o)
                    r)
          by_header none = D.header_lem id_header (show_uuid o.request_uuid) r
          by_header (some x) = D.header_lem id_header x r

      known :
          (exc : Exc) (found : Option F.Response)
          → F.default_handler exc ≡ found
          → AsKnown exc (tagged P F id (or_raised P F exc found))
      known exc (some r) e =
          (tagged_response r, (r, e, D.set_header_status_lem id_header id r), refl)
      known exc none e = (refl, e)

      excepted :
          (exc : Exc) → Excepted exc (tagged P F id (or_raised P F exc (handle_exception P F exc)))
      unfolding handle_exception base_error_handler
      excepted (base_error message code context cause n) =
          let j : JsonResponse = record {
            status_code = n;
            message = message;
            code = code;
            context = context;
          } in
          (
            tagged_response (F.from_json j),
            D.set_header_status_lem id_header id (F.from_json j) ∙ D.from_json_status_lem j,
            (id_header, id, refl),
            refl,
          )
      excepted (http_exception n detail) = known (http_exception n detail) _ refl
      excepted (integrity_error message) = known (integrity_error message) _ refl
      excepted (operational_error message) = known (operational_error message) _ refl
      excepted (other message) = known (other message) _ refl

      responded :
          (out : Result (Reply P))
          → Responded route out (tagged P F id (call_next P F (status_code route) out))
      unfolding call_next
      responded (ok (body, tasks)) =
          let r = F.from_return (status_code route) body in
          let same =
            D.set_header_status_lem id_header id r
            ∙ D.from_return_status_lem (status_code route) body in
          (
            tagged_response r,
            subst (λ n. Succeeds route n) (sym same) (status_code-Succeeds route),
            refl,
          )
      responded (err exc) = excepted exc

  -- Whatever a route does: every response carries in `X-Request-ID` the id of its request, or the
  -- fresh one where the request has none. Where the route returns, the status is 202 for an upload of
  -- employees and 200 for any other, and the response adds the tasks of the route. Where it raises a
  -- `BaseError`, the response has its status, with its message, code and context as JSON, and adds no
  -- task; where it raises anything else, the response has the status that FastAPI gives to that
  -- exception, and adds no task, or the exception leaves as it was raised if FastAPI has no handler.
  pub serve-Answered :
      (D : Documented F) (req : Request) (o : Occasion) (s : AppState P)
      → Responded req.x_request_id o req.route
          (handle_route P o req.route s).0
          (serve P F req o s).0
  unfolding serve
  serve-Answered D req o s =
      responded req.x_request_id o D req.route (handle_route P o req.route s).0
