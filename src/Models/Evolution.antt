-- ===== src/Models/Evolution.antt =====
-- How the database grows: rows are put in front of the rows that are there, and a batch keeps its
-- key and the time at which it was created.
use globant.Base.{
  ℕ, ◌≡◌, refl, sym, ap, ◌∙◌, false, inl, inr, some, List, [], ◌∷◌, ◌++◌, map, Text, append_assoc,
  arith, Bool-cases, ◌==◌,
}
use globant.Errors.{Uuid}
use globant.Models.{
  Db, IngestionBatch, IngestionBatchStatus, Departments, Jobs, Employees, has_batch, insert_batch,
  insert_department, insert_job, insert_employee, update_batches, update_batch,
}
use globant.Models.Integrity.{
  IsValid, insert_batch-IsValid, update_batch-IsValid, insert_department-IsValid,
  insert_job-IsValid, insert_employee-IsValid,
}

abbrev pub Suffix : {A : Type 0} → List A → List A → Type 0
Suffix {A} xs ys = (new : List A) × (ys ≡ new ++ xs)

-- What does not change of a batch.
abbrev pub stamp : IngestionBatch → Uuid × ℕ
stamp b = (b.id, b.created_at)

pub record Extends (db db' : Db) : Type 0 where
  pub batches : Suffix (map stamp db.batches) (map stamp db'.batches)
  pub departments : Suffix db.departments db'.departments
  pub jobs : Suffix db.jobs db'.jobs
  pub employees : Suffix db.employees db'.employees

module _ {A : Type 0} where
  Suffix_refl : (xs : List A) → Suffix xs xs
  Suffix_refl xs = ([], refl)

  Suffix_of_eq : (xs ys : List A) → ys ≡ xs → Suffix xs ys
  Suffix_of_eq xs ys e = ([], e)

  Suffix_trans : (xs ys zs : List A) → Suffix xs ys → Suffix ys zs → Suffix xs zs
  Suffix_trans xs ys zs (a, e) (b, e') =
      (b ++ a, e' ∙ ap (λ t. b ++ t) e ∙ sym (append_assoc b a xs))

-- A step that keeps the integrity and extends the database.
pub record Evolves (db db' : Db) : Type 0 where
  pub valid : IsValid db → IsValid db'
  pub extends : Extends db db'

pub Evolves-refl : (db : Db) → Evolves db db
Evolves-refl db = record {
  valid = λ v. v;
  extends = record {
    batches = Suffix_refl _;
    departments = Suffix_refl _;
    jobs = Suffix_refl _;
    employees = Suffix_refl _;
  };
}

pub Extends-trans : (a b c : Db) → Extends a b → Extends b c → Extends a c
Extends-trans a b c h h' = record {
  batches = Suffix_trans _ _ _ h.batches h'.batches;
  departments = Suffix_trans _ _ _ h.departments h'.departments;
  jobs = Suffix_trans _ _ _ h.jobs h'.jobs;
  employees = Suffix_trans _ _ _ h.employees h'.employees;
}

pub Evolves-trans : (a b c : Db) → Evolves a b → Evolves b c → Evolves a c
Evolves-trans a b c h h' = record {
  valid = λ v. h'.valid (h.valid v);
  extends = Extends-trans a b c h.extends h'.extends;
}

stamps-update_batches :
    (b : Uuid) (status : IngestionBatchStatus) (errors : List Text) (bs : List IngestionBatch)
    → map stamp (update_batches b status errors bs) ≡ map stamp bs
stamps-update_batches b status errors [] = refl
stamps-update_batches b status errors (x ∷ bs) = elim (Bool-cases (x.id == b)) [
  | inl hit ↦ rw (hit, stamps-update_batches b status errors bs) refl
  | inr other ↦ rw (other, stamps-update_batches b status errors bs) refl
]

pub update_batch-Evolves :
    (b : Uuid) (status : IngestionBatchStatus) (errors : List Text) (db : Db)
    → Evolves db (update_batch b status errors db)
update_batch-Evolves b status errors db = record {
  valid = update_batch-IsValid b status errors db;
  extends = record {
    batches = Suffix_of_eq _ _ (stamps-update_batches b status errors db.batches);
    departments = Suffix_refl _;
    jobs = Suffix_refl _;
    employees = Suffix_refl _;
  };
}

pub insert_batch-Evolves :
    (x : IngestionBatch) (db : Db)
    → has_batch x.id db.batches ≡ false
    → Evolves db (record db { batches = x ∷ db.batches })
unfolding insert_batch
insert_batch-Evolves x db fresh = record {
  valid = insert_batch-IsValid x db (record db { batches = x ∷ db.batches }) (rw fresh refl);
  extends = record {
    batches = (stamp x ∷ [], refl);
    departments = Suffix_refl _;
    jobs = Suffix_refl _;
    employees = Suffix_refl _;
  };
}

-- What an INSERT that goes through has done.
insert_department_lem :
    (x : Departments) (db db' : Db)
    → insert_department x db ≡ some db'
    → db' ≡ record db { departments = x ∷ db.departments }
unfolding insert_department
insert_department_lem x db db' e = ground arith

insert_job_lem :
    (x : Jobs) (db db' : Db) → insert_job x db ≡ some db' → db' ≡ record db { jobs = x ∷ db.jobs }
unfolding insert_job
insert_job_lem x db db' e = ground arith

insert_employee_lem :
    (x : Employees) (db db' : Db)
    → insert_employee x db ≡ some db'
    → db' ≡ record db { employees = x ∷ db.employees }
unfolding insert_employee
insert_employee_lem x db db' e = ground arith

pub insert_department-Evolves :
    (x : Departments) (db db' : Db) → insert_department x db ≡ some db' → Evolves db db'
insert_department-Evolves x db db' e = record {
  valid = insert_department-IsValid x db db' e;
  extends = rw (insert_department_lem x db db' e) (record {
    batches = Suffix_refl _;
    departments = (x ∷ [], refl);
    jobs = Suffix_refl _;
    employees = Suffix_refl _;
  });
}

pub insert_job-Evolves : (x : Jobs) (db db' : Db) → insert_job x db ≡ some db' → Evolves db db'
insert_job-Evolves x db db' e = record {
  valid = insert_job-IsValid x db db' e;
  extends = rw (insert_job_lem x db db' e) (record {
    batches = Suffix_refl _;
    departments = Suffix_refl _;
    jobs = (x ∷ [], refl);
    employees = Suffix_refl _;
  });
}

pub insert_employee-Evolves :
    (x : Employees) (db db' : Db) → insert_employee x db ≡ some db' → Evolves db db'
insert_employee-Evolves x db db' e = record {
  valid = insert_employee-IsValid x db db' e;
  extends = rw (insert_employee_lem x db db' e) (record {
    batches = Suffix_refl _;
    departments = Suffix_refl _;
    jobs = Suffix_refl _;
    employees = (x ∷ [], refl);
  });
}
