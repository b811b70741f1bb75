-- ===== src/Tests/Worker.antt =====
-- The upload of an employees file and the worker, over a database in memory.
use globant.Base.{
  ℕ, ◌++◌, ◌≡◌, refl, true, false, Option, none, some, List, [], ◌∷◌, Text, codes, show_nat,
  show_int, ℤ, pos, concat,
}
use globant.Errors.{Result, ok, err, other}
use globant.Models.{
  Db, Datetime, EmployeeRecord, completed, pending, failed, update_batch, fits_json, fits_string,
  fits_integer, insert_employee,
}
use globant.Models.Integrity.{IsValid}
use globant.Settings.{Settings, default_settings}
use globant.Ports.{CachePort, Stream, StoragePort, temporary_file}
use globant.UnitOfWork.Contract.{IsLawful, AnyOutage, NoOutage}
use globant.Session.Memory.{memory_of, memory_session, memory_reading}
use globant.Session.Memory.Behaving.{memory-Behaves}
use globant.SqlUnitOfWork.{open_unit, sql_unit_of_work}
use globant.SqlUnitOfWork.Lawful.{sql_lawful}
use globant.Csv.{parse_employees}
use globant.Workers.World.{Services, World}
use globant.Workers.Chunking.{ChunksOf, iter_chunks, iter_chunks_partition}
use globant.Workers.EmployeeWriter.{write_employees, employee_label}
use globant.Workers.EmployeeWriter.Employees.{employees_db, employees_errors}
use globant.Workers.EmployeeWriter.Outcome.{Written, write_employees-Written}
use globant.Workers.Process.{read_records, process_records, stream_and_process}
use globant.Workers.Process.Settled.{Settled, stream_and_process-Settled}
use globant.Workers.Process.Properties.{
  stream_and_process-completed, stream_and_process-refused, stream_and_process-failed,
  process_records-chunk_size,
}
use globant.BatchStatus.{ingest_employees}
use globant.BatchStatus.Accepted.{Accepted, ingest_employees-Accepted}

-- Batch 2 waits for its file; there is one department and one job.
abbrev pub waiting_db : Db
waiting_db = record {
  batches =
      record { id = 2; status = pending; errors = none; created_at = 9 }
      ∷ record { id = 1; status = completed; errors = some []; created_at = 5 }
      ∷ [];
  departments = record { id = pos 1; department = codes "Sales"; batch_id = 1 } ∷ [];
  jobs = record { id = pos 4; job = codes "Clerk"; batch_id = 1 } ∷ [];
  employees = [];
}

pub waiting_db-IsValid : IsValid waiting_db
waiting_db-IsValid = record {
  batches_ok = (refl, (refl, tt));
  departments_ok = (refl, refl, tt);
  jobs_ok = (refl, refl, tt);
  employees_ok = tt;
}

-- A cache that stores nothing.
abbrev pub no_cache : CachePort
no_cache = record {
  State = Unit {0};
  Json = Unit {0};
  get_json = λ key s. (ok none, s);
  set_json = λ key value ttl s. (ok tt, s);
  delete = λ keys s. (ok tt, s);
}

-- A bucket with room for one file.
abbrev open_file : Option (List ℕ) → Result Stream
open_file none = err (other (codes "NoSuchKey"))
open_file (some file) = ok (record { chunks = file ∷ []; failure = none })

abbrev one_file : StoragePort
one_file = record {
  State = Option (List ℕ);
  upload_file =
      λ file bucket key s. (ok (record { bucket = bucket; key = key }), some file.content);
  stream_file = λ bucket key s. (open_file s, s);
}

abbrev pub services : Services
services = record { uow = sql_unit_of_work memory_session; cache = no_cache; storage = one_file }

abbrev pub world : Option (List ℕ) → World services
world file = record {
  uow = open_unit memory_session (memory_of waiting_db);
  cache = tt;
  storage = file;
}

abbrev pub noon : Datetime
noon = record {
  year = 2021;
  month = 7;
  day = 27;
  hour = 16;
  minute = 2;
  second = 8;
  microsecond = 0;
  utc_offset = some (pos 0);
}

abbrev employee : ℤ → Text → ℤ → EmployeeRecord
employee id name department = record {
  id = id;
  name = name;
  hiring_datetime = noon;
  department_id = department;
  job_id = pos 4;
}

-- The second department does not exist.
abbrev pub three_employees : List EmployeeRecord
three_employees =
    employee (pos 1) (codes "Ana") (pos 1)
    ∷ employee (pos 2) (codes "Luis") (pos 7)
    ∷ employee (pos 3) (codes "Eva") (pos 1)
    ∷ []

-- The dates that this `fromisoformat` takes are not empty.
abbrev pub some_date : Text → Option Datetime
some_date [] = none
some_date (_ ∷ _) = some noon

abbrev pub file : List ℕ
file = codes "1,Ana,x,1,4\n2,Luis,x,7,4\n9,Bad\n3,Eva,x,1,4\n"

abbrev pub parse : List ℕ → Result (List EmployeeRecord × List Text)
parse = parse_employees some_date

abbrev pub row_error : List Text
row_error = codes "row 3: invalid" ∷ []

abbrev pub by_two : Settings
by_two = record default_settings { employee_chunk_size = pos 2 }

abbrev pub lawful : IsLawful AnyOutage services.uow
lawful = sql_lawful AnyOutage memory_session memory_reading (memory-Behaves AnyOutage)

abbrev pub lawful_no_outage : IsLawful NoOutage services.uow
lawful_no_outage = sql_lawful NoOutage memory_session memory_reading (memory-Behaves NoOutage)

readable :
    (read_records services by_two parse 2 (world (some file))).0 ≡ ok (three_employees, row_error)
unfolding read_records parse_employees show_nat
readable = refl

iter_chunks_partition_example :
    (chunks : List (List EmployeeRecord)) × (iter_chunks three_employees (pos 2) ≡ ok chunks)
    × (concat chunks ≡ three_employees)
    × ChunksOf 2 chunks
iter_chunks_partition_example = iter_chunks_partition three_employees 1

write_employees-Written_example :
    let (out, s') = write_employees services.uow 2 three_employees (world none).uow in
    Written AnyOutage (λ _ e. e) services.uow lawful 2 three_employees [] waiting_db out s'
unfolding sql_lawful
write_employees-Written_example =
    write_employees-Written AnyOutage (λ _ e. e) services.uow lawful 2 three_employees waiting_db
      (world none).uow (refl, refl, refl)

stream_and_process-Settled_example :
    let (out, w') = stream_and_process services by_two parse 2 (world (some file)) in
    Settled AnyOutage
      (λ _ e. e)
      services
      lawful
      by_two
      2
      parse
      three_employees
      row_error
      waiting_db
      out
      w'
unfolding sql_lawful
stream_and_process-Settled_example =
    stream_and_process-Settled AnyOutage (λ _ e. e) services lawful by_two 2 parse (λ _ _. refl) 1
      refl three_employees row_error waiting_db (world (some file)) (refl, refl, refl) readable

pub errors_fit : fits_json (row_error ++ employees_errors 2 three_employees waiting_db) ≡ true
unfolding fits_string insert_employee fits_integer employee_label show_int
errors_fit = refl

stream_and_process-completed_example :
    let (out, w') = stream_and_process services by_two parse 2 (world (some file)) in
    (out ≡ ok tt)
    × ((lawful_no_outage.view w'.uow).committed
        ≡ update_batch 2 completed
            (row_error ++ employees_errors 2 three_employees waiting_db)
            (employees_db 2 three_employees waiting_db))
unfolding sql_lawful
stream_and_process-completed_example =
    stream_and_process-completed services by_two 2 parse waiting_db (world (some file))
      lawful_no_outage (refl, refl, refl) (λ _ _. refl) 1 refl three_employees row_error readable
      errors_fit

-- The department does not exist, and the name holds the code point 0.
abbrev unstorable : List EmployeeRecord
unstorable = employee (pos 1) (65 ∷ 0 ∷ []) (pos 7) ∷ []

abbrev parse_unstorable : List ℕ → Result (List EmployeeRecord × List Text)
parse_unstorable raw = ok (unstorable, [])

unstorable_refused : fits_json (employees_errors 2 unstorable waiting_db) ≡ false
unfolding fits_string insert_employee fits_integer employee_label show_int
unstorable_refused = refl

stream_and_process-refused_example :
    let (out, w') = stream_and_process services by_two parse_unstorable 2 (world (some file)) in
    (out ≡ err (lawful_no_outage.json_error 2 completed (employees_errors 2 unstorable waiting_db)))
    × ((lawful_no_outage.view w'.uow).committed
        ≡ update_batch 2 failed [] (employees_db 2 unstorable waiting_db))
unfolding sql_lawful read_records
stream_and_process-refused_example =
    stream_and_process-refused services by_two 2 parse_unstorable waiting_db (world (some file))
      lawful_no_outage (refl, refl, refl) (λ _ _. refl) 1 refl unstorable [] refl unstorable_refused

-- The file is not there.
stream_and_process-failed_example :
    let (out, w') = stream_and_process services by_two parse 2 (world none) in
    (out ≡ err (other (codes "NoSuchKey")))
    × ((lawful_no_outage.view w'.uow).committed ≡ update_batch 2 failed [] waiting_db)
unfolding sql_lawful read_records
stream_and_process-failed_example =
    stream_and_process-failed services by_two 2 parse waiting_db (world none) lawful_no_outage
      (other (codes "NoSuchKey")) refl refl

process_records-chunk_size_example :
    let by = λ (n : ℕ). record default_settings { employee_chunk_size = pos n } in
    let (out, w') = process_records services (by 1) 2 three_employees [] (world none) in
    let (out', w'') = process_records services (by 2) 2 three_employees [] (world none) in
    (out ≡ out')
    × ((lawful_no_outage.view w'.uow).committed ≡ (lawful_no_outage.view w''.uow).committed)
unfolding sql_lawful
process_records-chunk_size_example =
    process_records-chunk_size services lawful_no_outage 2 default_settings 0 1 (λ _ _. refl)
      three_employees [] waiting_db (world none) (refl, refl, refl)

ingest_employees-Accepted_example :
    let (out, w') =
      ingest_employees default_settings services 3 (temporary_file file) (world none) in
    Accepted AnyOutage services lawful default_settings 3 waiting_db
      (temporary_file file)
      (world none)
      out
      w'
unfolding sql_lawful
ingest_employees-Accepted_example =
    ingest_employees-Accepted AnyOutage services lawful default_settings 3 waiting_db
      (temporary_file file) refl (world none) (refl, refl, refl)
