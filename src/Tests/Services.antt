-- ===== src/Tests/Services.antt =====
-- The metrics, the object storage and the exception handler, at concrete inputs.
use globant.Base.{ℕ, suc, ◌≡◌, refl, none, some, [], ◌∷◌, codes, ltb, if◌then◌else◌}
use globant.Errors.{ok, err, other, batch_not_found_error}
use globant.Models.{Db, find_batch}
use globant.Settings.{default_settings}
use globant.UnitOfWork.{UnitOfWork}
use globant.UnitOfWork.Contract.{IsLawful, NoOutage}
use globant.Session.Memory.{memory_of, memory_session, memory_reading}
use globant.Session.Memory.Behaving.{memory-Behaves}
use globant.SqlUnitOfWork.{SqlState, open_unit, sql_unit_of_work, batch_repository}
use globant.SqlUnitOfWork.Lawful.{sql_lawful}
use globant.BatchStatus.{get_batch_status}
use globant.Handlers.{base_error_handler}
use globant.Handlers.Responses.{not_found, get_batch_status-not_found}
use globant.Metrics.DuckDb.{DuckDbModule, DuckDbClient, connect, query, Answers, query-Answers}
use globant.Ports.{BinaryFile, seeks, unread}
use globant.Storage.{S3Client, client_error, upload_file}
use globant.Storage.Raised.{Uploaded, upload_file-Uploaded}

abbrev empty_db : Db
empty_db = record { batches = []; departments = []; jobs = []; employees = [] }

abbrev memory_unit : UnitOfWork
memory_unit = sql_unit_of_work memory_session

abbrev start : SqlState memory_session
start = open_unit memory_session (memory_of empty_db)

abbrev lawful : IsLawful NoOutage memory_unit
lawful = sql_lawful NoOutage memory_session memory_reading (memory-Behaves NoOutage)

get_batch_status-not_found_example :
    (find_batch 7 empty_db.batches ≡ none)
    × (base_error_handler (batch_not_found_error 7) ≡ some (not_found 7))
unfolding sql_lawful get_batch_status batch_repository
get_batch_status-not_found_example =
    get_batch_status-not_found memory_unit lawful default_settings 9 7 empty_db start
      (batch_not_found_error 7) (refl, refl, refl) refl

-- A process whose first connection is dead.
abbrev reconnecting : DuckDbModule
reconnecting = record {
  State = Unit {0};
  Connection = ℕ;
  Value = ℕ;
  connect = λ s. (ok 1, s);
  execute = λ conn sql s.
      if ltb 0 conn
      then (ok (record { columns = codes "n" ∷ []; rows = (4 ∷ []) ∷ [] }), s)
      else (err (other (codes "IOException")), s);
}

abbrev dead : DuckDbClient reconnecting default_settings
dead = record { process = tt; conn = 0 }

query-Answers_example :
    Answers reconnecting default_settings
      (query reconnecting default_settings (codes "SELECT") dead).0
unfolding connect
query-Answers_example =
    query-Answers reconnecting default_settings (codes "SELECT") (λ process. (_, refl)) dead

-- An S3 server with no bucket.
abbrev no_bucket : S3Client
no_bucket = record {
  State = ℕ;
  upload_fileobj = λ file bucket key calls. (err (other (codes "ClientError")), suc calls);
  get_object = λ bucket key calls. (err (other (codes "ClientError")), suc calls);
  class_of = λ e. client_error (some (codes "NoSuchBucket"));
  class_name = λ e. codes "ClientError";
}

abbrev half_read : BinaryFile
half_read = record { content = 1 ∷ 2 ∷ []; position = 1; seek = seeks }

upload_file-Uploaded_example :
    let (out, s') = upload_file no_bucket half_read (codes "hiring") (codes "a.csv") 0 in
    (sent : BinaryFile) × (unread sent ≡ 1 ∷ 2 ∷ [])
    × Uploaded no_bucket (codes "hiring") (codes "a.csv") (err (other (codes "ClientError"))) out
    × (s' ≡ 1)
upload_file-Uploaded_example =
    upload_file-Uploaded no_bucket (codes "hiring") (codes "a.csv") half_read 0
