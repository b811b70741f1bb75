-- ===== src/IngestRows/Order.antt =====
-- An upload whose records come in another order.
use globant.Base.{
  ℕ, suc, ◌≡◌, refl, sym, ap, ◌∙◌, inl, inr, Bool, false, ◌&&◌, not, List, [], ◌∷◌, ◌++◌, length,
  map, arith, Bool-cases, ◌==◌,
}
use mathlib.Core.List.{Nodup, Perm, Permᴰ, perm_middle}
use mathlib.Core.List.Perm
use mathlib.Core.List.Permᴰ
use globant.Errors.{Uuid, ok}
use globant.Models.{
  Db, DepartmentRecord, has_batch, has_department, insert_department, fits_integer, fits_string,
}
use globant.SqlUnitOfWork.{department_row}
use globant.UnitOfWork.{UnitOfWork}
use globant.UnitOfWork.Contract.{IsLawful, NoOutage, insert_department_record}
use globant.UnitOfWork.Steps.{At, with_batch}
use globant.IngestRows.{IngestionResponse, department_label, ingest_departments}
use globant.IngestRows.Greedy.{greedy_db}
use globant.IngestRows.Selected.{
  Nodup-DistinctIds, kept, refused, put_all, Selects, Selected, greedy-Selected,
}
use globant.IngestRows.Execute.{Ingested}
use globant.IngestRows.Properties.{ingest_departments-Ingested}

length-Permᴰ : {A : Type 0} {xs ys : List A} → Permᴰ xs ys → length xs ≡ length ys
length-Permᴰ Permᴰ.nil = refl
length-Permᴰ (Permᴰ.cons e d) = ap suc (length-Permᴰ d)
length-Permᴰ (Permᴰ.swap e e') = refl
length-Permᴰ (Permᴰ.trans d d') = length-Permᴰ d ∙ length-Permᴰ d'

module _ {R : Type 0} (accepts : R → Db → Bool) (db : Db) where
  -- The records that are kept, and those that are refused, come in the order of all of them.
  selected-Permᴰ :
      {rs rs' : List R}
      → Permᴰ rs rs'
      → Permᴰ (kept accepts db rs) (kept accepts db rs')
        × Permᴰ (refused accepts db rs) (refused accepts db rs')
  selected-Permᴰ Permᴰ.nil = (Permᴰ.nil, Permᴰ.nil)
  selected-Permᴰ (Permᴰ.cons {a = a} e d) =
      let (d1, d2) = selected-Permᴰ d in
      elim (Bool-cases (accepts a db)) [
        | inl taken ↦ rw (← e, taken) (Permᴰ.cons refl d1, d2)
        | inr left ↦ rw (← e, left) (d1, Permᴰ.cons refl d2)
      ]
  selected-Permᴰ (Permᴰ.swap {a = a} {b = b} {l = l} e e') = elim (Bool-cases (accepts a db)) [
    | inl ya ↦ elim (Bool-cases (accepts b db)) [
      | inl yb ↦ rw (← e, ← e', ya, yb) (Permᴰ.swap refl refl, Permᴰ.refl (refused accepts db l))
      | inr nb ↦
          rw (← e, ← e', ya, nb)
            (Permᴰ.refl (a ∷ kept accepts db l), Permᴰ.refl (b ∷ refused accepts db l))
    ]
    | inr na ↦ elim (Bool-cases (accepts b db)) [
      | inl yb ↦
          rw (← e, ← e', na, yb)
            (Permᴰ.refl (b ∷ kept accepts db l), Permᴰ.refl (a ∷ refused accepts db l))
      | inr nb ↦ rw (← e, ← e', na, nb) (Permᴰ.refl (kept accepts db l), Permᴰ.swap refl refl)
    ]
  ]
  selected-Permᴰ (Permᴰ.trans d d') =
      let (d1, d2) = selected-Permᴰ d in
      let (d1', d2') = selected-Permᴰ d' in (Permᴰ.trans d1 d1', Permᴰ.trans d2 d2')

-- The departments that a list of records puts in front of those that are there.
abbrev department_accepts : Uuid → DepartmentRecord → Db → Bool
department_accepts b r db =
    fits_integer r.id
    && fits_string r.department
    && not (has_department r.id db.departments)
    && has_batch b db.batches

abbrev put_department : Uuid → DepartmentRecord → Db → Db
put_department b r db = record db { departments = department_row b r ∷ db.departments }

department-Selects :
    (b : Uuid)
    → Selects
        (λ r. insert_department_record r b)
        (λ r. r.id)
        (department_accepts b)
        (put_department b)
unfolding insert_department
department-Selects b = record { insert_lem = λ r db. refl; put_lem = λ r x db apart. rw apart refl }

put_all-departments :
    (b : Uuid) (rs : List DepartmentRecord) (db : Db)
    → Perm
        (put_all (put_department b) rs db).departments
        (map (department_row b) rs ++ db.departments)
put_all-departments b [] db = Perm.refl db.departments
put_all-departments b (r ∷ rs) db =
    Perm.trans (put_all-departments b rs (put_department b r db))
      (perm_middle (map (department_row b) rs) db.departments)

module _ (b : Uuid) (db : Db) where
  -- Which departments an upload stores, whatever the time of its batch.
  abbrev stored_of : List DepartmentRecord → List DepartmentRecord
  stored_of rs = kept (department_accepts b) (with_batch b 0 db) rs

  abbrev refused_of : List DepartmentRecord → List DepartmentRecord
  refused_of rs = refused (department_accepts b) (with_batch b 0 db) rs

  any_time :
      (t : ℕ) (rs : List DepartmentRecord)
      → (kept (department_accepts b) (with_batch b t db) rs ≡ stored_of rs)
        × (refused (department_accepts b) (with_batch b t db) rs ≡ refused_of rs)
  any_time t [] = (refl, refl)
  any_time t (r ∷ rs) = let (same, same') = any_time t rs in rw (same, same') (refl, refl)

  -- What an upload of distinct departments leaves.
  record Leaves (rs : List DepartmentRecord) (res : IngestionResponse) (after : Db) : Type 0 where
    counted : res.created_count ≡ length (stored_of rs)
    reported : res.errors ≡ map department_label (refused_of rs)
    departments : Perm after.departments (map (department_row b) (stored_of rs) ++ db.departments)

  module _ (rs : List DepartmentRecord) (res : IngestionResponse) (after : Db)
      (distinct : Nodup (map (λ r. r.id) rs))
      (h : Ingested department_label insert_department_record b rs db res after) where
    abbrev d : Db
    d = with_batch b h.created_at db

    selected :
        Selected
          (λ r. insert_department_record r b)
          (λ r. r.id)
          (department_accepts b)
          (put_department b)
          (department-Selects b)
          department_label
          rs
          d
    selected =
        greedy-Selected (λ r. insert_department_record r b) (λ r. r.id) (department_accepts b)
          (put_department b) (department-Selects b) department_label rs d
          (Nodup-DistinctIds (λ r. r.id) rs distinct)

    count-stored : res.created_count ≡ length (stored_of rs)
    count-stored = h.counted ∙ selected.1 ∙ ap length (any_time h.created_at rs).0

    put-stored :
        Perm
          (put_all (put_department b) (stored_of rs) d).departments
          (map (department_row b) (stored_of rs) ++ db.departments)
    put-stored = put_all-departments b (stored_of rs) d

    greedy-stored :
        Perm
          (greedy_db (λ r. insert_department_record r b) department_label rs d).departments
          (map (department_row b) (stored_of rs) ++ db.departments)
    greedy-stored = rw (selected.0, (any_time h.created_at rs).0) put-stored

    nothing_stored : {A : Type 0} (xs : List A) → length xs ≡ 0 → xs ≡ []
    nothing_stored [] e = refl
    nothing_stored (x ∷ xs) e = absurd (omega (arith, e))

    Ingested-Leaves : Leaves rs res after
    Ingested-Leaves = record {
      counted = count-stored;
      reported = h.reported ∙ selected.2 ∙ ap (map department_label) (any_time h.created_at rs).1;
      departments = elim (Bool-cases (res.created_count == 0)) [
        | inl e ↦
            let none_there : stored_of rs ≡ [] =
              nothing_stored (stored_of rs) (ground (arith, count-stored)) in
            let same : after ≡ db = rw e at h.stored in
            rw (same, none_there) (Perm.refl db.departments)
        | inr e ↦ let same = rw e at h.stored in rw same greedy-stored
      ];
    }

  module _ (rs rs' : List DepartmentRecord) (order : Permᴰ rs rs') where
    -- Two responses to the same departments, and the databases behind them.
    abbrev SameUpToOrder : IngestionResponse → Db → IngestionResponse → Db → Type 0
    SameUpToOrder res after res' after' =
        (res.created_count ≡ res'.created_count)
        × Perm res.errors res'.errors
        × Perm after.departments after'.departments

    Leaves-SameUpToOrder :
        (res res' : IngestionResponse) (after after' : Db)
        → Leaves rs res after
        → Leaves rs' res' after'
        → SameUpToOrder res after res' after'
    Leaves-SameUpToOrder res res' after after' h h' =
        let (d1, d2) = selected-Permᴰ (department_accepts b) (with_batch b 0 db) order in
        let labels : Perm (map department_label (refused_of rs))
            (map department_label (refused_of rs')) =
          Perm.map department_label ∣ d2 ∣₁ in
        let rows : Perm (map (department_row b) (stored_of rs))
            (map (department_row b) (stored_of rs')) =
          Perm.map (department_row b) ∣ d1 ∣₁ in
        (
          h.counted ∙ length-Permᴰ d1 ∙ sym h'.counted,
          rw (h.reported, h'.reported) labels,
          Perm.trans h.departments
              (Perm.trans (Perm.append_right db.departments rows) (Perm.symm h'.departments)),
        )

module _ (U : UnitOfWork) (L : IsLawful NoOutage U) (b : Uuid) (db : Db)
    (fresh : has_batch b db.batches ≡ false) (s : U.State) (h : At db db (L.view s)) where
  -- Without an outage, where no two records of an upload of departments have the same id: the same
  -- records in another order are answered with the same created count, the same errors and the same
  -- departments in the database, up to order.
  pub ingest_departments-order :
      (records records' : List DepartmentRecord)
      → Nodup (map (λ r. r.id) records)
      → Permᴰ records records'
      → let (out, s1) = ingest_departments U b records s in
        let (out', s2) = ingest_departments U b records' s in
        (res : IngestionResponse) × (res' : IngestionResponse) × (out ≡ ok res)
        × (out' ≡ ok res')
        × (res.created_count ≡ res'.created_count)
        × Perm res.errors res'.errors
        × Perm (L.view s1).committed.departments (L.view s2).committed.departments
  ingest_departments-order records records' distinct order =
      let (res, answered, h1) = ingest_departments-Ingested U b db fresh s L h records in
      let (res', answered', h2) = ingest_departments-Ingested U b db fresh s L h records' in
      let ids : Perm (map (λ r. r.id) records) (map (λ r. r.id) records') =
        Perm.map (λ r. r.id) ∣ order ∣₁ in
      let distinct' : Nodup (map (λ r. r.id) records') = Perm.nodup ids distinct in
      let (counts, errors, departments) =
        Leaves-SameUpToOrder b db records records' order res res' _ _
          (Ingested-Leaves b db records res _ distinct h1)
          (Ingested-Leaves b db records' res' _ distinct' h2) in
      (res, res', answered, answered', counts, errors, departments)
