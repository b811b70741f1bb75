-- ===== src/IngestRows/Stored.antt =====
-- The database that a run of the use cases leaves: what becomes of its integrity, and of the row of
-- the batch.
use globant.Base.{
  ◌≡◌, refl, ◌∙◌, inl, inr, false, Option, some, List, [], ◌∷◌, Text, arith, Option-cases,
  Bool-cases, ◌==◌, if◌then◌else◌,
}
use globant.Errors.{Uuid}
use globant.Models.{
  Db, IngestionBatch, DepartmentRecord, JobRecord, completed, pending, has_batch, insert_batch,
  insert_department, insert_job, update_batches,
}
use globant.Models.Integrity.{
  IsValid, insert_batch-IsValid, update_batch-IsValid, insert_department-IsValid,
  insert_job-IsValid,
}
use globant.UnitOfWork.Contract.{new_batch, insert_department_record, insert_job_record}
use globant.UnitOfWork.Steps.{with_batch}
use globant.IngestRows.{IngestionResponse}
use globant.IngestRows.Greedy.{greedy_db}
use globant.IngestRows.Execute.{Ingested}

-- A way to store a record that keeps the integrity, and the batches.
abbrev pub Keeps : {R : Type 0} → (R → Db → Option Db) → Type 0
Keeps {R} ins =
    (r : R) (db db' : Db)
    → ins r db ≡ some db'
    → (IsValid db → IsValid db') × (db'.batches ≡ db.batches)

pub insert_department_record-Keeps :
    (b : Uuid) → Keeps (λ (r : DepartmentRecord). insert_department_record r b)
unfolding insert_department
insert_department_record-Keeps b r db db' e = (
  insert_department-IsValid (record { id = r.id; department = r.department; batch_id = b }) db db'
      e,
  ground arith,
)

pub insert_job_record-Keeps : (b : Uuid) → Keeps (λ (r : JobRecord). insert_job_record r b)
unfolding insert_job
insert_job_record-Keeps b r db db' e =
    (insert_job-IsValid (record { id = r.id; job = r.job; batch_id = b }) db db' e, ground arith)

module _ {R : Type 0} (ins : R → Db → Option Db) (label : R → Text) (keeps : Keeps ins) where
  pub greedy_db-IsValid : (rs : List R) (db : Db) → IsValid db → IsValid (greedy_db ins label rs db)
  greedy_db-IsValid [] db v = v
  greedy_db-IsValid (r ∷ rs) db v = elim (Option-cases (ins r db)) [
    | inl e ↦ rw (greedy_db, e) (greedy_db-IsValid rs db v)
    | inr (db', e) ↦ rw (greedy_db, e) (greedy_db-IsValid rs db' ((keeps r db db' e).0 v))
  ]

  pub greedy_db-batches : (rs : List R) (db : Db) → (greedy_db ins label rs db).batches ≡ db.batches
  greedy_db-batches [] db = refl
  greedy_db-batches (r ∷ rs) db = elim (Option-cases (ins r db)) [
    | inl e ↦ rw (greedy_db, e) (greedy_db-batches rs db)
    | inr (db', e) ↦ rw (greedy_db, e) (greedy_db-batches rs db' ∙ (keeps r db db' e).1)
  ]

-- A batch that is not there is not changed.
update_batches-absent :
    (b : Uuid) (bs : List IngestionBatch)
    → has_batch b bs ≡ false
    → update_batches b completed [] bs ≡ bs
update_batches-absent b [] h = refl
update_batches-absent b (c ∷ bs) h = ground (arith, update_batches-absent b bs)

module _ {R : Type 0} (label : R → Text) (ins : R → Uuid → Db → Option Db) (b : Uuid)
    (keeps : Keeps (λ r. ins r b)) (records : List R) (db after : Db) (response : IngestionResponse)
    (run : Ingested label ins b records db response after) where
  pub Ingested-IsValid : has_batch b db.batches ≡ false → IsValid db → IsValid after
  unfolding insert_batch
  Ingested-IsValid fresh v = elim (Bool-cases (response.created_count == 0)) [
    | inl none_stored ↦ let e = run.stored in ground arith
    | inr stored ↦
        let start = with_batch b run.created_at db in
        let begun : IsValid start =
          insert_batch-IsValid (new_batch b pending run.created_at) db start (rw fresh refl) v in
        let full = greedy_db-IsValid (λ r. ins r b) label keeps records start begun in
        let done =
          update_batch-IsValid b completed [] (greedy_db (λ r. ins r b) label records start) full in
        rw (run.stored, stored) done
  ]

  pub Ingested-batches :
      has_batch b db.batches ≡ false
      → after.batches ≡ (
          if response.created_count == 0
          then db.batches
          else (record { id = b; status = completed; errors = some []; created_at = run.created_at }
              ∷ db.batches))
  Ingested-batches fresh = elim (Bool-cases (response.created_count == 0)) [
    | inl none_stored ↦ rw (run.stored, none_stored) refl
    | inr stored ↦
        let start = with_batch b run.created_at db in
        let same = greedy_db-batches (λ r. ins r b) label keeps records start in
        rw (run.stored, stored, same) (ground (arith, update_batches-absent b db.batches fresh))
  ]
