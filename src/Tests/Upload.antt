-- ===== src/Tests/Upload.antt =====
-- The upload of an employees file through the storage of GCS, the steps of the whole service, and
-- the clients, at concrete inputs.
use globant.Base.{
  ℕ, ◌≡◌, refl, none, some, Option, List, [], ◌∷◌, Text, codes, take, drop, length, arith,
  take-append-drop, length-take, sym, ap, ◌∙◌, ◌≤◌, zero, suc,
}
use globant.Csv.{parse_employees}
use globant.Errors.{Result, ok, err, other}
use globant.Models.{Db, failed}
use globant.Models.Evolution.{Extends}
use globant.Models.Integrity.{IsValid}
use globant.Ports.{BinaryFile, seeks, unread, temporary_file}
use globant.Session.Memory.{memory_of, memory_session}
use globant.SqlUnitOfWork.{SqlState, open_unit, sql_unit_of_work}
use globant.SqlUnitOfWork.Lawful.{sql_lawful}
use globant.UnitOfWork.Contract.{AnyOutage}
use globant.Workers.World.{Services, World}
use globant.Workers.EmployeeWriter.{write_employees}
use globant.Workers.Process.{mark_batch_failed}
use globant.BatchStatus.{get_batch_status, ingest_employees}
use globant.Storage.Gcs.{GcsClient, gcs_storage}
use globant.Storage.Gcs.Whole.{Stores, gcs_storage-Keeps}
use globant.Api.Employees.{post_employees, SessionMaker, run_process_employees_chunk}
use globant.Api.Employees.Served.{post_employees-failed}
use globant.System.{Reaches, here, next, upload_employees, write_chunk, give_up}
use globant.System.Reached.{Reaches-IsValid, Reaches-Extends}
use globant.Clients.{Environ, gcs_client, minio_client, get_cache_client, get_storage}
use globant.Clients.Kept.{CacheMade, GcsMade, S3Made, MadeOnce, clients-MadeOnce}
use globant.Tests.Worker.{
  waiting_db, waiting_db-IsValid, no_cache, three_employees, file, parse, by_two, services, lawful,
  lawful_no_outage,
}

-- A bucket with room for one blob; a file is what it has left.
abbrev blob_of : Option (List ℕ) → Result (List ℕ)
blob_of none = err (other (codes "NotFound"))
blob_of (some content) = ok content

abbrev one_blob : GcsClient
one_blob = record {
  State = Option (List ℕ);
  File = List ℕ;
  upload_from_file = λ fileobj bucket key s. (ok tt, some (unread fileobj));
  open_blob = λ bucket key s. (blob_of s, s);
  read = λ n content. ok (take n content, drop n content);
  size = length;
}

take_none : (n : ℕ) (content : List ℕ) → 1 ≤ n → take n content ≡ [] → content ≡ []
take_none zero content h e = absurd (omega arith)
take_none (suc n) [] h e = refl
take_none (suc n) (c ∷ content) h e = cc

one_blob-Stores : Stores one_blob
one_blob-Stores = record {
  Holds = λ f content. f ≡ content;
  size_lem = λ f content e. omega (arith, ap length e);
  read_lem = λ n f content e h. (
    take n f,
    drop n f,
    drop n f,
    refl,
    refl,
    sym e ∙ sym (take-append-drop n f),
    omega (arith, length-take n f),
    λ none_left. sym e ∙ take_none n f h none_left,
  );
  upload_lem = λ fileobj bucket key s. (refl, (unread fileobj, refl, refl));
}

-- It has been read up to the third byte.
abbrev half_read : BinaryFile
half_read = record { content = file; position = 3; seek = seeks }

abbrev gcs_services : Services
gcs_services = record {
  uow = sql_unit_of_work memory_session;
  cache = no_cache;
  storage = gcs_storage one_blob;
}

abbrev gcs_world : World gcs_services
gcs_world = record {
  uow = open_unit memory_session (memory_of waiting_db);
  cache = tt;
  storage = none;
}

abbrev new_session : SqlState memory_session → SqlState memory_session
new_session s = open_unit memory_session (memory_of s.session.committed)

abbrev sessions : SessionMaker gcs_services
sessions = record { open_session = new_session; close_session = new_session }

abbrev over : Db → World services
over db = record { uow = open_unit memory_session (memory_of db); cache = tt; storage = none }

-- Batch 3 is uploaded while the worker of batch 2 writes a chunk, which is then given up.
abbrev uploaded_db : Db
uploaded_db =
    (ingest_employees by_two services 3 (temporary_file file)
      (over waiting_db)).1.uow.session.committed

abbrev written_db : Db
written_db =
    (write_employees services.uow 2 three_employees (over uploaded_db).uow).1.session.committed

abbrev given_up_db : Db
given_up_db = (mark_batch_failed services by_two 2 (over written_db)).1.uow.session.committed

three_steps : Reaches AnyOutage services lawful by_two waiting_db given_up_db
unfolding sql_lawful
three_steps =
    next
      (next
        (next here
          (upload_employees 3 (temporary_file file) (over waiting_db) (refl, refl, refl) refl refl))
        (write_chunk 2 three_employees (over uploaded_db).uow (refl, refl, refl) refl))
      (give_up 2 (over written_db) refl refl)

Reaches-IsValid_example : IsValid given_up_db
unfolding sql_lawful
Reaches-IsValid_example =
    Reaches-IsValid services lawful by_two (λ _ _. refl) waiting_db given_up_db three_steps
      waiting_db-IsValid

Reaches-Extends_example : Extends waiting_db given_up_db
unfolding sql_lawful
Reaches-Extends_example =
    Reaches-Extends services lawful by_two (λ _ _. refl) waiting_db given_up_db three_steps

-- Nothing is set at first.
abbrev nothing_set : Environ
nothing_set name = none

abbrev all_set : Environ
all_set name = some (codes "value")

abbrev named : Text → Result Text
named name = ok name

abbrev named_with_keys : Text → Text → Text → Result Text
named_with_keys url access_key secret_key = ok url

clients-MadeOnce_example :
    let envs = nothing_set ∷ all_set ∷ nothing_set ∷ [] in
    MadeOnce (CacheMade named) envs (get_cache_client named envs)
    × MadeOnce (GcsMade named) envs (get_storage (gcs_client named) envs)
    × MadeOnce (S3Made named_with_keys) envs (get_storage (minio_client named_with_keys) envs)
clients-MadeOnce_example =
    clients-MadeOnce named named_with_keys (nothing_set ∷ all_set ∷ nothing_set ∷ [])

-- A file that is no UTF-8.
post_employees-failed_example :
    let runner = run_process_employees_chunk by_two gcs_services sessions parse in
    let (out, w') = post_employees by_two gcs_services runner 3 (255 ∷ []) gcs_world in
    (out ≡ ok (record { batch_id = 3 }, runner 3 ∷ []))
    × ((get_batch_status by_two gcs_services.uow 10 3 (new_session (runner 3 w').1.uow)).0
        ≡ ok (record { batch_id = 3; status = failed; errors = [] }))
unfolding sql_lawful parse_employees
post_employees-failed_example =
    post_employees-failed gcs_services lawful_no_outage sessions by_two parse 3 waiting_db refl
      gcs_world (refl, refl, refl) (gcs_storage-Keeps one_blob one_blob-Stores)
      (λ s. ((refl, refl, refl), refl)) (255 ∷ []) 10 (other (codes "UnicodeDecodeError")) refl
