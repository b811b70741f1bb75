-- ===== src/Tests/Files.antt =====
-- The parser, the guard, the uploads of departments and jobs, the error translator and the cache,
-- at concrete inputs.
use globant.Base.{
  ℕ, ◌+◌, ◌≡◌, refl, Option, some, List, [], ◌∷◌, Text, codes, length, pos, show_int, show_nat,
}
use globant.Errors.{ok, err, other}
use globant.Models.{
  Db, DepartmentRecord, insert_batch, insert_department, fits_integer, fits_string,
}
use globant.UnitOfWork.{UnitOfWork}
use globant.UnitOfWork.Contract.{IsLawful, AnyOutage}
use globant.Session.Memory.{memory_of, memory_session, memory_reading}
use globant.Session.Memory.Behaving.{memory-Behaves}
use globant.SqlUnitOfWork.{
  SqlState, open_unit, sql_unit_of_work, batch_repository, department_repository, begin_nested,
  rollback_to_savepoint,
}
use globant.SqlUnitOfWork.Lawful.{sql_lawful}
use globant.Csv.{read_rows, department_of, parse_with, parse_departments}
use globant.Csv.Rows.{valid_records, invalid_rows, parse_with-rows}
use globant.Guard.{validate_batch}
use globant.IngestRows.{IngestionResponse, ingest_departments}
use globant.Api.{post_departments}
use globant.Api.Rows.{post_departments-rows}
use globant.Cache.{connection_or_timeout, RedisClient, JsonModule, redis_cache, redis_cache-quiet}

-- A quoted name, a row with no name, a key that is taken twice.
abbrev file : List ℕ
file = codes "1,\"Sales, EMEA\"\n7\n1,Legal\n"

abbrev two_records : List DepartmentRecord
two_records =
    record { id = pos 1; department = codes "Sales, EMEA" }
    ∷ record { id = pos 1; department = codes "Legal" }
    ∷ []

parse_with-rows_example :
    (rows : List (List Text)) × (read_rows file ≡ ok rows)
    × (two_records ≡ valid_records department_of rows)
    × ((codes "row 2: invalid" ∷ []) ≡ invalid_rows department_of 1 rows)
    × (length two_records + length (codes "row 2: invalid" ∷ []) ≡ length rows)
unfolding parse_with department_of show_nat
parse_with-rows_example =
    parse_with-rows department_of file two_records (codes "row 2: invalid" ∷ []) refl

abbrev empty_db : Db
empty_db = record { batches = []; departments = []; jobs = []; employees = [] }

abbrev memory_unit : UnitOfWork
memory_unit = sql_unit_of_work memory_session

abbrev start : SqlState memory_session
start = open_unit memory_session (memory_of empty_db)

abbrev lawful : IsLawful AnyOutage memory_unit
lawful = sql_lawful AnyOutage memory_session memory_reading (memory-Behaves AnyOutage)

abbrev one_stored : IngestionResponse
one_stored = record { created_count = 1; errors = codes "1:Legal" ∷ codes "row 2: invalid" ∷ [] }

post_departments-rows_example :
    (rows : List (List Text)) × (read_rows file ≡ ok rows)
    × (one_stored.created_count + length one_stored.errors ≡ length rows)
unfolding sql_lawful post_departments parse_departments validate_batch ingest_departments
    batch_repository department_repository begin_nested rollback_to_savepoint insert_batch
    insert_department fits_integer fits_string show_int show_nat
post_departments-rows_example =
    post_departments-rows memory_unit lawful 2 empty_db refl start (refl, refl, refl) file
      one_stored refl

-- A server that is down; its clock.
abbrev down : RedisClient
down = record {
  State = ℕ;
  get = λ key now. (err (other (codes "ConnectionError")), now);
  set = λ key payload now. (err (other (codes "ConnectionError")), now);
  setex = λ key ttl payload now. (err (other (codes "ConnectionError")), now);
  delete = λ keys now. (err (other (codes "ConnectionError")), now);
  sleep = λ seconds now. now + seconds;
  log = λ event now. now;
  class_of = λ exc. connection_or_timeout;
  class_name = λ exc. codes "ConnectionError";
}

-- The JSON values are texts here.
abbrev texts : JsonModule
texts = record {
  Json = Text;
  loads = λ payload. ok (some payload);
  dumps = λ value. ok value;
  type_name = λ value. codes "str";
}

redis_cache-quiet_example :
    let cache = redis_cache down texts in
    ((found : Option Text) × ((cache.get_json (codes "k") 0).0 ≡ ok found))
    × ((cache.set_json (codes "k") (codes "v") (some 60) 0).0 ≡ ok tt)
    × ((cache.delete (codes "k" ∷ []) 0).0 ≡ ok tt)
redis_cache-quiet_example =
    redis_cache-quiet down texts (codes "k") (codes "k" ∷ []) (codes "v") (some 60) 0
