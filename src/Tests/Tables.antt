-- ===== src/Tests/Tables.antt =====
-- The use cases of departments and jobs, and the poll of a batch, over a database in memory.
use globant.Base.{◌≡◌, refl, none, List, [], ◌∷◌, codes, pos, negsuc}
use globant.Errors.{ok}
use globant.Models.{Db, DepartmentRecord, JobRecord, pending}
use globant.Settings.{default_settings}
use globant.UnitOfWork.{UnitOfWork}
use globant.UnitOfWork.Contract.{IsLawful, AnyOutage, NoOutage, insert_department_record}
use globant.Session.{seen}
use globant.Session.Memory.{memory_of, memory_session, memory_reading}
use globant.Session.Memory.Behaving.{memory-Behaves}
use globant.SqlUnitOfWork.{SqlState, open_unit, sql_unit_of_work}
use globant.SqlUnitOfWork.Lawful.{sql_lawful, sql_unit_of_work-IsLawful}
use globant.IngestRows.{IngestionResponse, department_label, ingest_departments}
use mathlib.Core.List.{Perm, Permᴰ}
use globant.IngestRows.Selected.{DistinctIds-Nodup}
use globant.IngestRows.Order.{ingest_departments-order}
use globant.IngestRows.Execute.{Ingested, Executed}
use globant.IngestRows.Properties.{ingest_departments-Executed, ingest_departments-Ingested}
use globant.BatchStatus.{get_batch_status}
use globant.BatchStatus.Polled.{Polled, get_batch_status-Polled}

-- One old batch.
abbrev old_db : Db
old_db = record {
  batches = record { id = 1; status = pending; errors = none; created_at = 5 } ∷ [];
  departments = record { id = pos 1; department = codes "Sales"; batch_id = 1 } ∷ [];
  jobs = [];
  employees = [];
}

-- The second key is taken.
abbrev three_departments : List DepartmentRecord
three_departments =
    record { id = pos 2; department = codes "Legal" }
    ∷ record { id = pos 1; department = codes "Support" }
    ∷ record { id = negsuc 2; department = codes "HR" }
    ∷ []

abbrev two_jobs : List JobRecord
two_jobs =
    record { id = pos 1; job = codes "Clerk" } ∷ record { id = pos 1; job = codes "Cook" } ∷ []

abbrev memory_unit : UnitOfWork
memory_unit = sql_unit_of_work memory_session

abbrev start : SqlState memory_session
start = open_unit memory_session (memory_of old_db)

abbrev lawful : IsLawful AnyOutage memory_unit
lawful = sql_lawful AnyOutage memory_session memory_reading (memory-Behaves AnyOutage)

abbrev lawful_no_outage : IsLawful NoOutage memory_unit
lawful_no_outage = sql_lawful NoOutage memory_session memory_reading (memory-Behaves NoOutage)

sql_unit_of_work-IsLawful_example :
    (law : IsLawful AnyOutage memory_unit) × ((s : SqlState memory_session)
      → law.view s ≡ seen memory_reading s.savepoint s.session)
sql_unit_of_work-IsLawful_example =
    sql_unit_of_work-IsLawful AnyOutage memory_session memory_reading (memory-Behaves AnyOutage)

ingest_departments-Executed_example :
    let (out, s') = ingest_departments memory_unit 2 three_departments start in
    Executed AnyOutage memory_unit lawful department_label insert_department_record 2
      three_departments old_db out s'
unfolding sql_lawful
ingest_departments-Executed_example =
    ingest_departments-Executed memory_unit 2 old_db refl start lawful (refl, refl, refl)
      three_departments

ingest_departments-Ingested_example :
    let (out, s') = ingest_departments memory_unit 2 three_departments start in
    (response : IngestionResponse) × (out ≡ ok response)
    × Ingested department_label insert_department_record 2 three_departments old_db response
        (lawful_no_outage.view s').committed
unfolding sql_lawful
ingest_departments-Ingested_example =
    ingest_departments-Ingested memory_unit 2 old_db refl start lawful_no_outage (refl, refl, refl)
      three_departments

-- Eleven minutes after it was created, the old batch is stale.
get_batch_status-Polled_example :
    let (out, s') = get_batch_status default_settings memory_unit 660000005 1 start in
    Polled AnyOutage memory_unit lawful default_settings 660000005 1 old_db out s'
unfolding sql_lawful
get_batch_status-Polled_example =
    get_batch_status-Polled AnyOutage memory_unit lawful default_settings 660000005 1 old_db start
      (refl, refl, refl)

-- The first two records in the other order.
abbrev reordered : List DepartmentRecord
reordered =
    record { id = pos 1; department = codes "Support" }
    ∷ record { id = pos 2; department = codes "Legal" }
    ∷ record { id = negsuc 2; department = codes "HR" }
    ∷ []

ingest_departments-order_example :
    let (out, s1) = ingest_departments memory_unit 2 three_departments start in
    let (out', s2) = ingest_departments memory_unit 2 reordered start in
    (res : IngestionResponse) × (res' : IngestionResponse) × (out ≡ ok res)
    × (out' ≡ ok res')
    × (res.created_count ≡ res'.created_count)
    × Perm res.errors res'.errors
    × Perm
        (lawful_no_outage.view s1).committed.departments
        (lawful_no_outage.view s2).committed.departments
unfolding sql_lawful
ingest_departments-order_example =
    ingest_departments-order memory_unit lawful_no_outage 2 old_db refl start (refl, refl, refl)
      three_departments reordered
      (DistinctIds-Nodup (λ r. r.id) three_departments ((refl, (refl, tt)), ((refl, tt), (tt, tt))))
      (Permᴰ.swap refl refl)
