-- ===== src/App/Tasks.antt =====
-- An employees file over HTTP: its upload, the background task that its response leaves, and the
-- poll that reports it.
use globant.Base.{
  ℕ, suc, pos, ◌≡◌, refl, ◌∙◌, true, false, Option, none, some, List, [], ◌∷◌, ◌++◌, Text,
}
use globant.Errors.{Uuid, Result, ok, err}
use globant.Models.{EmployeeRecord, completed, has_batch, fits_json}
use globant.Ports.{Keeps, temporary_file}
use globant.Clients.{Environ, cache_client, gcs_client, lru_cache}
use globant.UnitOfWork.Contract.{IsLawful, NoOutage}
use globant.UnitOfWork.Steps.{with_batch}
use globant.Workers.World.{World}
use globant.Workers.EmployeeWriter.Employees.{employees_errors}
use globant.Workers.Process.Chunks.{Quiet}
use globant.BatchStatus.{get_batch_status, BatchStatusResponse, ingest_employees}
use globant.Api.Employees.{run_process_employees_chunk, post_employees}
use globant.Api.Employees.Served.{Opens, Ready, ready, posted, polled_completed, ran_completed}
use globant.App.{Platform, AppState, shared_cache, shared_storage, run_task}
use globant.App.Routes.{
  Occasion, handle_route, status_code, accepted, batch_status, post_ingest_employees,
  get_ingest_employees_status,
}
use globant.App.Serve.{Framework, Request, id_header, request_id, serve, call_next}

-- What a function under `@lru_cache` has returned is kept.
lru_cache-kept :
    (made : Result (Unit {0})) (kept : Option (Unit {0}))
    → (lru_cache made kept).0 ≡ ok tt
    → lru_cache made kept ≡ (ok tt, some tt)
unfolding lru_cache
lru_cache-kept made (some _) h = refl
lru_cache-kept (ok _) none h = refl
lru_cache-kept (err e) none h = absurd (cc)

module _ (P : Platform) where
  open P use {services as V, sessions as M, settings}

  abbrev HasClients : AppState P → Type 0
  HasClients s = (s.cache_client ≡ some tt) × (s.storage ≡ some tt)

  -- Once both clients have been made, the task is the worker alone, whatever the environment.
  run_task-worker :
      (env : Environ) (b : Uuid) (s : AppState P)
      → HasClients s
      → let (out, s') = run_task P env b s in
        let (out', w') = run_process_employees_chunk settings V M P.parse b s.world in
        (out ≡ out') × (s'.world ≡ w')
  unfolding run_task run_process_employees_chunk shared_cache shared_storage lru_cache
  run_task-worker env b s (cached, stored) = rw (cached, stored) (refl, refl)

module _ (P : Platform) (F : Framework P.services.cache.Json) (o : Occasion) (s : AppState P)
    (cached : (lru_cache (cache_client P.redis_from_url o.env) s.cache_client).0 ≡ ok tt)
    (stores : (lru_cache (gcs_client P.gcs_connect o.env) s.storage).0 ≡ ok tt) where
  open P use {services as V, sessions as M, settings}

  abbrev b : Uuid
  b = o.batch_uuid

  -- The state of an upload that has stored its file.
  abbrev after_upload : World V → AppState P
  after_upload w1 = record s {
    world = record w1 { uow = M.close_session w1.uow };
    cache_client = some tt;
    storage = some tt;
  }

  abbrev opened : World V
  opened = record s.world { uow = M.open_session s.world.uow }

  handle_route-accepted :
      (file : List ℕ) (w1 : World V)
      → post_employees settings V (λ batch_id. batch_id) b file opened
        ≡ (ok (record { batch_id = b }, b ∷ []), w1)
      → handle_route P o (post_ingest_employees file) s
        ≡ (ok (accepted (record { batch_id = b }), b ∷ []), after_upload w1)
  unfolding handle_route shared_cache shared_storage
  handle_route-accepted file w1 posts =
      rw (lru_cache-kept _ s.cache_client cached, lru_cache-kept _ s.storage stores, posts) refl

  serve-accepted :
      (x_request_id : Option Text) (file : List ℕ) (w1 : World V)
      → post_employees settings V (λ batch_id. batch_id) b file opened
        ≡ (ok (record { batch_id = b }, b ∷ []), w1)
      → let req : Request = record {
        x_request_id = x_request_id;
        route = post_ingest_employees file;
      } in
        serve P F req o s ≡ (
          ok (
            F.set_header id_header
                (request_id req o)
                (F.from_return 202 (accepted (record { batch_id = b }))),
            b ∷ [],
          ),
          after_upload w1,
        )
  unfolding serve call_next status_code
  serve-accepted x_request_id file w1 posts = rw (handle_route-accepted file w1 posts) refl

-- A poll that is answered.
serve-polled :
    (P : Platform) (F : Framework P.services.cache.Json) (o : Occasion) (s : AppState P) (b : Uuid)
    (x_request_id : Option Text) (told : BatchStatusResponse)
    → (get_batch_status P.settings P.services.uow o.now b (P.sessions.open_session s.world.uow)).0
      ≡ ok told
    → let req : Request = record {
      x_request_id = x_request_id;
      route = get_ingest_employees_status b;
    } in
      (serve P F req o s).0
      ≡ ok (F.set_header id_header (request_id req o) (F.from_return 200 (batch_status told)), [])
unfolding serve call_next status_code handle_route
serve-polled P F o s b x_request_id told answers = rw answers refl

module _ (P : Platform) (F : Framework P.services.cache.Json) (L : IsLawful NoOutage P.services.uow)
    (opens : Opens P.services L P.sessions) (keeps : Keeps P.services.storage)
    (quiet : Quiet P.services) (n : ℕ) (size : P.settings.employee_chunk_size ≡ pos (suc n))
    (o : Occasion) (s : AppState P)
    (fresh : has_batch o.batch_uuid (L.view s.world.uow).committed.batches ≡ false)
    (cached : (lru_cache (cache_client P.redis_from_url o.env) s.cache_client).0 ≡ ok tt)
    (stores : (lru_cache (gcs_client P.gcs_connect o.env) s.storage).0 ≡ ok tt) where
  open P use {services as V, sessions as M, settings}

  -- Without an outage, with a storage that gives back what it takes, a cache that raises nothing and
  -- a positive chunk size, where both clients can be made, the parser takes the file and no error
  -- that the batch gets has the code point 0: an upload of employees under a fresh batch id is
  -- answered with 202, that id, and one task. The task returns, whatever the environment has become,
  -- and a later poll is answered with 200 and the completed batch, with the errors of the parser and then the employees that were refused.
  pub serve_employees-completed :
      (x_request_id : Option Text) (file : List ℕ) (records : List EmployeeRecord)
      (errors : List Text)
      → P.parse file ≡ ok (records, errors)
      → ((t : ℕ)
          → fits_json (
              errors
              ++ employees_errors o.batch_uuid records
                  (with_batch o.batch_uuid t (L.view s.world.uow).committed))
            ≡ true)
      → (env : Environ) (o' : Occasion) (x_request_id' : Option Text)
      → let req : Request = record {
        x_request_id = x_request_id;
        route = post_ingest_employees file;
      } in
        let req' : Request = record {
          x_request_id = x_request_id';
          route = get_ingest_employees_status o.batch_uuid;
        } in
        let (out, s1) = serve P F req o s in
        let (done, s2) = run_task P env o.batch_uuid s1 in
        (out
          ≡ ok (
            F.set_header id_header
                (request_id req o)
                (F.from_return 202 (accepted (record { batch_id = o.batch_uuid }))),
            o.batch_uuid ∷ [],
          ))
        × (done ≡ ok tt)
        × ((t : ℕ) × ((serve P F req' o' s2).0
              ≡ ok (
                F.set_header id_header (request_id req' o') (
                    F.from_return 200 (
                      batch_status (record {
                        batch_id = o.batch_uuid;
                        status = completed;
                        errors =
                            errors
                            ++ employees_errors o.batch_uuid records
                                (with_batch o.batch_uuid t (L.view s.world.uow).committed);
                      }))),
                [],
              )))
  serve_employees-completed x_request_id file records errors parses fits env o' x_request_id' =
      let db = (L.view s.world.uow).committed in
      let b = o.batch_uuid in
      let w = opened P F o s cached stores in
      let h = (opens s.world.uow).0 in
      let (out, w1) = ingest_employees settings V b (temporary_file file) w in
      let s1 = after_upload P F o s cached stores w1 in
      let (same, (t, added), kept) =
        ready V L M settings P.parse b db fresh w h keeps opens file o'.now in
      let ready' : Ready V L M settings P.parse b db fresh w h keeps opens file o'.now out
          s1.world =
        (same, (t, (opens w1.uow).1 ∙ added), kept) in
      let served =
        serve-accepted P F o s cached stores x_request_id file w1
          (posted V L M settings P.parse b db fresh w h keeps opens file o'.now (λ i. i)) in
      let ran =
        ran_completed V L M settings P.parse b db fresh w h keeps opens file o'.now quiet n size
          records errors parses fits out s1.world ready' in
      let (t', told) =
        polled_completed V L M settings P.parse b db fresh w h keeps opens file o'.now quiet n size
          records errors parses fits out s1.world ready' in
      let alone = run_task-worker P env b s1 (refl, refl) in
      rw served
        (refl, alone.0 ∙ ran, (t', serve-polled P F o' _ b x_request_id' _ (rw alone.1 told)))
