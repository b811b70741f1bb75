-- ===== src/Tests/Served.antt =====
-- Requests over HTTP and their background tasks, at concrete inputs.
use globant.Base.{
  ℕ, suc, ◌≡◌, refl, Option, none, some, List, [], ◌∷◌, ◌++◌, Text, codes, text_eq, text_eq_refl,
  append-nil, show_nat, show_int, true, if◌then◌else◌,
}
use globant.Errors.{Exc, ok, http_exception, integrity_error, operational_error, base_error, other}
use globant.Csv.{parse_employees, parse_departments, parse_jobs}
use globant.Clients.{Environ, lru_cache, cache_client, gcs_client}
use globant.Models.{completed, fits_json, fits_string, fits_integer, insert_employee}
use globant.Models.Evolution.{Extends}
use globant.Models.Integrity.{IsValid}
use globant.Ports.{Keeps}
use globant.Session.Memory.{memory_of, memory_session}
use globant.SqlUnitOfWork.{SqlState, open_unit}
use globant.SqlUnitOfWork.Lawful.{sql_lawful}
use globant.UnitOfWork.Contract.{AnyOutage, insert_department_record, insert_job_record}
use globant.UnitOfWork.Steps.{with_batch}
use globant.IngestRows.{department_label, job_label}
use globant.Workers.EmployeeWriter.{employee_label}
use globant.Workers.EmployeeWriter.Employees.{employees_errors}
use globant.App.{Platform, AppState, run_task}
use globant.App.Routes.{
  accepted, batch_status, Occasion, handle_route, get_ingest_employees_status,
  post_ingest_departments, post_ingest_jobs, post_ingest_employees,
}
use globant.App.Serve.{Framework, Documented, Request, id_header, request_id, serve}
use globant.App.Answered.{Responded, serve-Answered}
use globant.App.Uploads.{Served, serve_uploads-Served}
use globant.App.Tasks.{serve_employees-completed}
use globant.App.Events.{Event, request, background, Process, occur_all}
use globant.App.Events.Reached.{AllFresh, occur_all-IsValid}
use globant.Tests.Worker.{
  waiting_db, no_cache, three_employees, file, parse, row_error, by_two, services, world, lawful,
  lawful_no_outage,
}

-- A response with its status and its headers.
record Sent : Type 0 where
  code : ℕ
  headers : Text → Option Text

abbrev plain : ℕ → Sent
plain n = record { code = n; headers = λ name. none }

abbrev own_handler : Exc → Option Sent
own_handler (http_exception n detail) = some (plain n)
own_handler (integrity_error t) = none
own_handler (operational_error t) = none
own_handler (base_error m c x k n) = none
own_handler (other t) = none

abbrev sending : Framework no_cache.Json
sending = record {
  Response = Sent;
  from_return = λ n body. plain n;
  from_json = λ j. plain j.status_code;
  default_handler = own_handler;
  set_header = λ name value r. record r {
    headers = λ asked. if text_eq asked name then some value else r.headers asked;
  };
  header = λ name r. r.headers name;
  status = λ r. r.code;
}

sending-Documented : Documented sending
sending-Documented = record {
  header_lem = λ name value r. rw (text_eq_refl name) refl;
  set_header_status_lem = λ name value r. refl;
  from_return_status_lem = λ n body. refl;
  from_json_status_lem = λ j. refl;
  http_exception_lem = λ n detail. (plain n, refl, refl);
  operational_lem = λ message. refl;
  other_lem = λ message. refl;
}

abbrev new_session : SqlState memory_session → SqlState memory_session
new_session s = open_unit memory_session (memory_of s.session.committed)

abbrev platform : Platform
platform = record {
  settings = by_two;
  services = services;
  sessions = record { open_session = new_session; close_session = new_session };
  analytics = record { State = ℕ; query = λ sql n. (ok tt, suc n) };
  redis_from_url = λ url. ok tt;
  gcs_connect = λ project. ok tt;
  duckdb_connect = λ n. (ok tt, n);
  parse = parse;
  hires_sql = codes "SELECT 1";
  above_mean_sql = codes "SELECT 2";
}

-- Every variable is set; later none is.
abbrev configured : Environ
configured name = some (codes "x")

abbrev unconfigured : Environ
unconfigured name = none

abbrev occasion : Occasion
occasion = record { now = 20; env = configured; request_uuid = 77; batch_uuid = 3 }

abbrev later : Occasion
later = record { now = 900000000; env = unconfigured; request_uuid = 78; batch_uuid = 4 }

abbrev started : AppState platform
started = record {
  world = world none;
  analytics = 0;
  cache_client = none;
  storage = none;
  analytics_db = none;
}

abbrev unknown_batch : Request
unknown_batch = record { x_request_id = some (codes "abc"); route = get_ingest_employees_status 9 }

serve-Answered_example :
    Responded platform sending
      (some (codes "abc"))
      occasion
      (get_ingest_employees_status 9)
      (handle_route platform occasion unknown_batch.route started).0
      (serve platform sending unknown_batch occasion started).0
serve-Answered_example =
    serve-Answered platform sending sending-Documented unknown_batch occasion started

abbrev rows_file : List ℕ
rows_file = codes "2,Legal\nx\n"

abbrev departments_request : Request
departments_request = record { x_request_id = none; route = post_ingest_departments rows_file }

abbrev jobs_request : Request
jobs_request = record { x_request_id = none; route = post_ingest_jobs rows_file }

serve_uploads-Served_example :
    let (out, s') = serve platform sending departments_request occasion started in
    let (out', s'') = serve platform sending jobs_request occasion started in
    Served platform sending AnyOutage department_label insert_department_record 3 waiting_db
      (parse_departments rows_file)
      (request_id departments_request occasion)
      out
      (lawful.view s'.world.uow).committed
    × Served platform sending AnyOutage job_label insert_job_record 3 waiting_db
        (parse_jobs rows_file)
        (request_id jobs_request occasion)
        out'
        (lawful.view s''.world.uow).committed
unfolding sql_lawful
serve_uploads-Served_example =
    serve_uploads-Served platform sending sending-Documented AnyOutage (λ _ e. e) lawful
      (λ s. ((refl, refl, refl), refl)) occasion started refl none rows_file

services-Keeps : Keeps services.storage
services-Keeps content position bucket key s = ((_, refl), (_, refl, append-nil content, refl))

abbrev employees_request : Request
employees_request = record { x_request_id = none; route = post_ingest_employees file }

abbrev poll_request : Request
poll_request = record { x_request_id = none; route = get_ingest_employees_status 3 }

errors_fit_later :
    (t : ℕ)
    → fits_json (row_error ++ employees_errors 3 three_employees (with_batch 3 t waiting_db)) ≡ true
unfolding fits_string insert_employee fits_integer employee_label show_int
errors_fit_later t = refl

serve_employees-completed_example :
    let (out, s1) = serve platform sending employees_request occasion started in
    let (done, s2) = run_task platform unconfigured 3 s1 in
    (out
      ≡ ok (
        sending.set_header id_header
            (request_id employees_request occasion)
            (sending.from_return 202 (accepted (record { batch_id = 3 }))),
        3 ∷ [],
      ))
    × (done ≡ ok tt)
    × ((t : ℕ) × ((serve platform sending poll_request later s2).0
          ≡ ok (
            sending.set_header id_header (request_id poll_request later) (
                sending.from_return 200 (
                  batch_status (record {
                    batch_id = 3;
                    status = completed;
                    errors =
                        row_error ++ employees_errors 3 three_employees (with_batch 3 t waiting_db);
                  }))),
            [],
          )))
unfolding sql_lawful parse_employees show_nat lru_cache cache_client gcs_client
serve_employees-completed_example =
    serve_employees-completed platform sending lawful_no_outage (λ s. ((refl, refl, refl), refl))
      services-Keeps (λ _ _. refl) 1 refl occasion started refl refl refl none file three_employees
      row_error refl errors_fit_later unconfigured later none

abbrev process : Process platform sending
process = record { app = started; waiting = [] }

-- An upload and its task.
abbrev events : List Event
events = request employees_request occasion ∷ background unconfigured ∷ []

events-AllFresh : AllFresh platform lawful sending events process
unfolding sql_lawful
events-AllFresh = (refl, (tt, tt))

occur_all-IsValid_example :
    let after = (occur_all platform sending events process).app.world.uow in
    (IsValid waiting_db → IsValid (lawful.view after).committed)
    × Extends waiting_db (lawful.view after).committed
unfolding sql_lawful
occur_all-IsValid_example =
    occur_all-IsValid platform lawful (λ s. ((refl, refl, refl), refl)) (λ _ _. refl) sending events
      process events-AllFresh
