-- ===== src/Lib.antt =====
-- The hiring service: uploads of departments, jobs and employees as CSV files into PostgreSQL.
--
-- Departments and jobs are stored within the request. A route (`Api`) parses the file (`Csv`),
-- checks the number of records (`Guard`) and runs a use case (`IngestRows`), which inserts all
-- records at once and, where a constraint refuses that, one at a time under savepoints. A file of
-- employees goes to the object storage with a pending batch (`BatchStatus`); a background worker
-- (`Workers`) reads it, parses it, writes it chunk by chunk, and completes or fails the batch. A
-- poll (`BatchStatus`) reports the batch, and fails it once it has been pending for too long. All
-- of them reach the database through a unit of work (`UnitOfWork`), which `SqlUnitOfWork`
-- implements over a SQLAlchemy session (`Session`).
--
-- The files, with their sources below hiring-service/src/app/:
-- - Models: models/models.py and services/ingestion/schemas/; Models/Integrity is the invariant of
--   the database.
-- - Errors: core/exceptions/base.py and ingestion.py; Errors/Translator:
--   services/ingestion/helpers/db_error_translator.py, whose regular expressions run in Regex.
-- - Settings: core/config/settings.py. Ports: services/shared/ports/. UnitOfWork:
--   services/ingestion/ports/, with the contract in UnitOfWork/Contract.
-- - SqlUnitOfWork: services/ingestion/adapters/. Session says what is expected of SQLAlchemy and
--   PostgreSQL; Session/Memory is a session over a database in memory that behaves so.
-- - Csv: services/ingestion/helpers/csv_parser.py. Csv/Decode, Csv/Reader and Csv/Integer are the
--   parts of Python that it calls: `bytes.decode`, `csv.reader` and `int`.
-- - Guard: services/ingestion/helpers/batch_guard.py. Api: api/routes/ingestion.py and
--   api/deps/ingestion.py.
-- - IngestRows: services/ingestion/use_cases/ingest_departments.py and ingest_jobs.py, which
--   differ in the table and the label of a row, and are two instances of one definition.
-- - Workers: workers/process_employees_chunk.py and workers/helpers/.
-- - BatchStatus: services/ingestion/use_cases/get_batch_status.py and ingest_employees.py.
-- - Cache: integrations/cache/redis/ and services/shared/adapters/redis_cache_adapter.py.
-- - Metrics: services/metrics/use_cases/; Metrics/Fresh and Workers/Process/Cleared follow the
--   cache through a run of the worker; Metrics/DuckDb: integrations/duckdb/client.py.
-- - Storage: integrations/storage/minio/ with core/exceptions/storage.py and
--   services/shared/adapters/storage_adapter.py. Storage/Gcs: integrations/storage/gcs/storage.py.
--   Handlers: api/handlers/exception_handlers.py.
-- - Clients: api/deps/shared.py with the constructors of the clients and core/exceptions/cache.py.
-- - Api/Employees: the route of employees and its background task, from api/routes/ingestion.py
--   and api/deps/ingestion.py; Api/Employees/Served follows a file from its upload to the poll
--   that reports it.
-- - Migrations: migrations/versions/, over the Catalog of a database; Migrations/Environment:
--   migrations/env.py; Migrations/Metadata is what models/models.py declares of the tables.
-- - App: main.py with db/__init__.py and what api/deps/ builds; App/Routes: api/main.py,
--   api/routes/ and the other dependencies; App/Serve: api/middleware/correlation_id.py and the
--   registered handlers; App/Events: requests and background tasks one after another.
-- - IngestRows/Selected says which records are stored where their ids differ, and IngestRows/Order
--   takes them in another order.
-- - System: uploads, polls and the steps of workers as steps on one database, in any order.
--   Models/Evolution says what no step undoes.
-- - Csv/Decode/Encoded, Csv/Reader/Printed, Csv/Integer/Printed, Csv/RoundTrip with Csv/Printable,
--   and Errors/Messages print what the parser and the translator read.
--
-- Base and Action are shared: lists and numbers, and methods that may raise. An `Action` gives
-- back the state beside the exception, since what was done before a raise stays done. An exception
-- handler is `try_except`.
--
-- A view of the unit of work has the committed database, the database as the transaction sees it,
-- whether the transaction is aborted, and what the savepoint would restore. The theorems about use
-- cases and the worker hold for every unit of work with the laws of UnitOfWork/Contract. `Outage`
-- is the set of exceptions that may come at any call: `AnyOutage` is every `OperationalError`,
-- `NoOutage` is none. To store records greedily (IngestRows/Greedy) is to store each in turn if
-- the constraints allow it, and to report it if they do not.
--
-- Bounds and fuel: decimal digits are printed with a round more than the number, and chunks are
-- cut with a round for each item, both of which are enough as no round consumes less than one; a
-- blob is read with a round more than its bytes, since each round but the last reads one. A column
-- of type Integer holds 32-bit integers. A column of type String or JSONB refuses the code point
-- 0; texts come from UTF-8, and have no surrogates. Times are in microseconds.
--
-- Not modelled: logging (but that of the cache), how FastAPI finds the route of a request and
-- reads its parameters, the threads of the pool (the calls of a request are awaited one after
-- another), a session that writes within a call of another one (System interleaves whole calls),
-- exceptions that are no `Exception` such as a cancellation, the time at which departments, jobs
-- and employees were created, and digits other than ASCII in `int`. It is assumed that a commit
-- which raises has committed nothing. `datetime.fromisoformat`, the Redis client, its logger,
-- `json`, the session, FastAPI and the object storage are parameters. So are DuckDB, the text of
-- its queries, the S3 client, the client of Google Cloud Storage, and Alembic with the database
-- that it works on. Left out for good, as I/O: the configuration of the logger.
pub mod Base
pub mod Regex
pub mod Errors
pub mod Action
pub mod Models
pub mod Settings
pub mod Ports
pub mod UnitOfWork
pub mod Session
pub mod SqlUnitOfWork
pub mod Csv
pub mod IngestRows
pub mod Workers
pub mod BatchStatus
pub mod Cache
pub mod Clients
pub mod Guard
pub mod Api
pub mod App
pub mod Metrics
pub mod Handlers
pub mod Storage
pub mod Catalog
pub mod Migrations
pub mod System
pub mod Tests
