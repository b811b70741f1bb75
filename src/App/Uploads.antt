-- ===== src/App/Uploads.antt =====
-- An upload of departments or jobs, from its request to its response and the database.
use globant.Base.{ℕ, ◌≡◌, refl, ap, ◌∙◌, ◌⊎◌, inl, inr, true, false, some, Option, List, [], Text}
use globant.Errors.{Uuid, Exc, Result, ok, err, is_operational}
use globant.Models.{Db, has_batch}
use globant.UnitOfWork.{UnitOfWork}
use globant.UnitOfWork.Contract.{IsLawful, insert_department_record, insert_job_record}
use globant.Csv.{parse_departments, parse_jobs, department_of, job_of}
use globant.Action.{Action, pure, continue}
use globant.Csv.Reader.Raised.{Plain, parse_with-Plain}
use globant.IngestRows.{IngestionResponse, department_label, job_label}
use globant.IngestRows.Execute.{Ingested}
use globant.Api.{extended, post_departments, post_jobs}
use globant.Api.Posted.{Posted, post_departments-Posted, post_jobs-Posted}
use globant.Api.Employees.Served.{Opens}
use globant.App.{Platform, AppState, with_session}
use globant.App.Routes.{
  ingestion, Reply, Occasion, handle_route, post_ingest_departments, post_ingest_jobs, status_code,
}
use globant.App.Serve.{
  Framework, Documented, Request, id_header, request_id, serve, call_next, tagged,
}
use globant.App.Answered.{Answered, call_next-Answered}
use globant.App.Exceptions.{
  Unhandled, Gives, Gives-Handled, plain-Unhandled, operational-Unhandled, Refused-Gives,
  translated-Gives,
}

module _ (P : Platform) (F : Framework P.services.cache.Json) {R : Type 0} (Outage : Exc → Type 0)
    (label : R → Text) (ins : R → Uuid → Db → Option Db) (b : Uuid) (db : Db)
    (parsed : Result (List R × List Text)) (id : Text) where
  -- What a client may get for an upload, and the database then: 200 with the response, where the
  -- parsed records have been stored; 422 for the guard or 503 for the database, where nothing has
  -- changed. The exceptions of the parser, and outages where the code does not expect them, leave
  -- the application, and have not changed anything either.
  abbrev pub Served : Result (F.Response × List Uuid) → Db → Type 0
  Served (ok (r, tasks)) after =
      (tasks ≡ [])
      × (F.header id_header r ≡ some id)
      × (((records : List R) × (errors : List Text) × (stored : IngestionResponse) × (parsed
              ≡ ok (records, errors))
            × (r
                ≡ F.set_header id_header id
                    (F.from_return 200 (ingestion (extended stored errors))))
            × (F.status r ≡ 200)
            × Ingested label ins b records db stored after)
          ⊎ ((after ≡ db) × ((F.status r ≡ 422) ⊎ (F.status r ≡ 503))))
  Served (err e) after = (after ≡ db) × ((parsed ≡ err e) ⊎ Outage e)

  abbrev as_reply : Result IngestionResponse → Result (Reply P)
  as_reply (ok response) = ok (ingestion response, [])
  as_reply (err e) = err e

  module _ (D : Documented F) (outages : (e : Exc) → Outage e → is_operational e ≡ true)
      (plain : Plain parsed) where
    Gives-Served :
        (n : ℕ) (e : Exc) (out : Result (F.Response × List Uuid)) (after : Db)
        → Gives P F n e
        → ((status : ℕ) → status ≡ n → (status ≡ 422) ⊎ (status ≡ 503))
        → Answered P F id 200 (err e) out
        → after ≡ db
        → Served out after
    Gives-Served n e (ok (r, tasks)) after gives which (header, handled, none') same =
        (none', header, inr (same, which (F.status r) (Gives-Handled P F n e r gives handled)))
    Gives-Served n e (err e') after (inl (j, found, _)) which (_, none', _) same = absurd (cc)
    Gives-Served n e (err e') after (inr (_, (r, found, _))) which (_, _, none') same = absurd (cc)

    Unhandled-Served :
        (e : Exc) (out : Result (F.Response × List Uuid)) (after : Db)
        → Unhandled P F e
        → (parsed ≡ err e) ⊎ Outage e
        → Answered P F id 200 (err e) out
        → after ≡ db
        → Served out after
    Unhandled-Served e (ok (r, tasks)) after h why (_, inl (j, found, _), _) same = absurd (cc)
    Unhandled-Served e (ok (r, tasks)) after h why (_, inr (_, (r0, found, _)), _) same =
        absurd (cc)
    Unhandled-Served e (err e') after h why (eq, _, _) same = (same, rw eq why)

    module _ (U : UnitOfWork) (L : IsLawful Outage U) where
      Posted-Served :
          (out : Result IngestionResponse) (u : U.State)
          → Posted Outage U L label ins b db parsed out u
          → Served (tagged P F id (call_next P F 200 (as_reply out))) (L.view u).committed
      unfolding call_next
      Posted-Served (ok response) u (records, errors, stored, parses, same, ingested) = (
        refl,
        D.header_lem id_header id (F.from_return 200 (ingestion response)),
        inl (
          records,
          errors,
          stored,
          parses,
          ap (λ k. F.set_header id_header id (F.from_return 200 (ingestion k))) same,
          D.set_header_status_lem id_header id (F.from_return 200 (ingestion response))
              ∙ D.from_return_status_lem 200 (ingestion response),
          ingested,
        ),
      )
      Posted-Served (err e) u (same, inl (inl parses)) =
          let (message, raised) = plain e parses in
          Unhandled-Served e _ _ (plain-Unhandled P F D e message raised) (inl parses)
            (call_next-Answered P F D id 200 (err e)) same
      Posted-Served (err e) u (same, inl (inr refused)) =
          Gives-Served 422 e _ _ (Refused-Gives P F D e refused) (λ _ s. inl s)
            (call_next-Answered P F D id 200 (err e)) same
      Posted-Served (err e) u (same, inr (cause, outage, inl raw)) =
          Unhandled-Served e _ _ (rw raw (operational-Unhandled P F D cause (outages cause outage)))
            (inr (rw raw outage)) (call_next-Answered P F D id 200 (err e)) same
      Posted-Served (err e) u (same, inr (cause, outage, inr translated)) =
          Gives-Served 503 e _ _
            (rw translated (translated-Gives P F D cause (outages cause outage))) (λ _ s. inr s)
            (call_next-Answered P F D id 200 (err e)) same

module _ (P : Platform) (F : Framework P.services.cache.Json) (D : Documented F)
    (Outage : Exc → Type 0) (outages : (e : Exc) → Outage e → is_operational e ≡ true)
    (L : IsLawful Outage P.services.uow) (opens : Opens P.services L P.sessions) where
  open P use {services as V, sessions as M}

  -- The session of a request ends with the database as the upload has left it.
  module _ {R : Type 0} (label : R → Text) (ins : R → Uuid → Db → Option Db) (b : Uuid) (db : Db)
      (parsed : Result (List R × List Text)) (plain : Plain parsed) (id : Text) where
    session-Served :
        (out : Result IngestionResponse) (u : V.uow.State) (s : AppState P)
        → Posted Outage V.uow L label ins b db parsed out u
        → let s1 : AppState P = record s { world = record s.world { uow = u } } in
          let reply : IngestionResponse → Action (AppState P) (Reply P) =
            λ response. pure (ingestion response, []) in
          let (reply', s2) = continue out reply s1 in
          Served P F Outage label ins b db parsed id
            (tagged P F id (call_next P F 200 reply'))
            (L.view (M.close_session s2.world.uow)).committed
    session-Served (ok response) u s h = rw (opens u).1 (
        Posted-Served P F Outage label ins b db parsed id D outages plain V.uow L (ok response) u h)
    session-Served (err e) u s h =
        rw (opens u).1
          (Posted-Served P F Outage label ins b db parsed id D outages plain V.uow L (err e) u h)

  module _ (o : Occasion) (s : AppState P)
      (fresh : has_batch o.batch_uuid (L.view s.world.uow).committed.batches ≡ false)
      (x_request_id : Option Text) (file : List ℕ) where
    -- Under any outage, with a fresh batch id: an upload of departments or of jobs has stored the
    -- records of its file where it is answered with 200, and has changed nothing where it is answered
    -- with 422 or 503, or raises. What it raises is an exception of the parser or an outage.
    pub serve_uploads-Served :
        let db = (L.view s.world.uow).committed in
        let req : Request = record {
          x_request_id = x_request_id;
          route = post_ingest_departments file;
        } in
        let req' : Request = record {
          x_request_id = x_request_id;
          route = post_ingest_jobs file;
        } in
        let (out, s') = serve P F req o s in
        let (out', s'') = serve P F req' o s in
        Served P F Outage department_label insert_department_record o.batch_uuid db
          (parse_departments file)
          (request_id req o)
          out
          (L.view s'.world.uow).committed
        × Served P F Outage job_label insert_job_record o.batch_uuid db
            (parse_jobs file)
            (request_id req' o)
            out'
            (L.view s''.world.uow).committed
    unfolding serve handle_route status_code request_id parse_departments parse_jobs
    serve_uploads-Served =
        let db = (L.view s.world.uow).committed in
        let req : Request = record {
          x_request_id = x_request_id;
          route = post_ingest_departments file;
        } in
        let s0 = with_session P M.open_session s in
        let (out, u) = post_departments V.uow o.batch_uuid file s0.world.uow in
        let (out', u') = post_jobs V.uow o.batch_uuid file s0.world.uow in
        (
          session-Served department_label insert_department_record o.batch_uuid db
              (parse_departments file) (parse_with-Plain department_of file) (request_id req o) out
              u s0
              (post_departments-Posted Outage outages V.uow L o.batch_uuid db fresh s0.world.uow
                (opens s.world.uow).0 file),
          session-Served job_label insert_job_record o.batch_uuid db (parse_jobs file)
              (parse_with-Plain job_of file) (request_id req o) out' u' s0
              (post_jobs-Posted Outage outages V.uow L o.batch_uuid db fresh s0.world.uow
                (opens s.world.uow).0 file),
        )
