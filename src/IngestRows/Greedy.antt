-- ===== src/IngestRows/Greedy.antt =====
-- What storing a list of records means: each record in turn is stored if the constraints allow
-- it, and is reported if they do not.
use globant.Base.{
  ℕ, suc, ◌+◌, ◌≡◌, ◌≢◌, refl, inl, inr, Option, none, some, List, [], ◌∷◌, ◌++◌, Text, length,
  arith, Option-cases,
}
use globant.Models.{Db}
use globant.UnitOfWork.Contract.{insert_rows, insert_bulk}

module _ {R : Type 0} (ins : R → Db → Option Db) (label : R → Text) where
  -- The database after the records.
  abbrev pub greedy_db : List R → Db → Db
  greedy_db [] db = db
  greedy_db (r ∷ rs) db = elim (ins r db) [ none ↦ greedy_db rs db | some db' ↦ greedy_db rs db' ]

  -- How many were stored.
  abbrev pub greedy_count : List R → Db → ℕ
  greedy_count [] db = 0
  greedy_count (r ∷ rs) db = elim (ins r db) [
    | none ↦ greedy_count rs db
    | some db' ↦ suc (greedy_count rs db')
  ]

  -- The labels of the others.
  abbrev pub greedy_errors : List R → Db → List Text
  greedy_errors [] db = []
  greedy_errors (r ∷ rs) db = elim (ins r db) [
    | none ↦ label r ∷ greedy_errors rs db
    | some db' ↦ greedy_errors rs db'
  ]

  pub greedy_count_add_errors :
      (rs : List R) (db : Db) → greedy_count rs db + length (greedy_errors rs db) ≡ length rs
  greedy_count_add_errors [] db = omega arith
  greedy_count_add_errors (r ∷ rs) db = elim (Option-cases (ins r db)) [
    | inl e ↦ ground (arith, greedy_count_add_errors rs db)
    | inr (db', e) ↦ ground (arith, greedy_count_add_errors rs db')
  ]

  -- Where the records go in together, each of them goes in.
  pub insert_rows-greedy :
      (rs : List R) (db : Db) {db' : Db}
      → insert_rows ins rs db ≡ some db'
      → (greedy_db rs db ≡ db') × (greedy_count rs db ≡ length rs) × (greedy_errors rs db ≡ [])
  insert_rows-greedy [] db h = (cc, refl, refl)
  insert_rows-greedy (r ∷ rs) db {db'} h = elim (Option-cases (ins r db)) [
    | inl e ↦ ground arith
    | inr (db2, e) ↦ ground (arith, insert_rows-greedy rs db2 {db' = db'})
  ]

  pub insert_bulk-greedy :
      (rs : List R) (db : Db) {db' : Db}
      → insert_bulk ins rs db ≡ some db'
      → (greedy_db rs db ≡ db') × (greedy_count rs db ≡ length rs) × (greedy_errors rs db ≡ [])
  insert_bulk-greedy [] db h = cc
  insert_bulk-greedy (r ∷ rs) db h = insert_rows-greedy (r ∷ rs) db h

  -- A list in two parts is stored in two parts.
  pub greedy_db-append :
      (xs ys : List R) (db : Db) → greedy_db (xs ++ ys) db ≡ greedy_db ys (greedy_db xs db)
  greedy_db-append [] ys db = refl
  greedy_db-append (x ∷ xs) ys db = elim (Option-cases (ins x db)) [
    | inl e ↦ ground (arith, greedy_db-append xs ys db)
    | inr (db', e) ↦ ground (arith, greedy_db-append xs ys db')
  ]

  pub greedy_count-append :
      (xs ys : List R) (db : Db)
      → greedy_count (xs ++ ys) db ≡ greedy_count xs db + greedy_count ys (greedy_db xs db)
  greedy_count-append [] ys db = omega arith
  greedy_count-append (x ∷ xs) ys db = elim (Option-cases (ins x db)) [
    | inl e ↦ ground (arith, greedy_count-append xs ys db)
    | inr (db', e) ↦ ground (arith, greedy_count-append xs ys db')
  ]

  pub greedy_errors-append :
      (xs ys : List R) (db : Db)
      → greedy_errors (xs ++ ys) db ≡ greedy_errors xs db ++ greedy_errors ys (greedy_db xs db)
  greedy_errors-append [] ys db = refl
  greedy_errors-append (x ∷ xs) ys db = elim (Option-cases (ins x db)) [
    | inl e ↦ ground (arith, greedy_errors-append xs ys db)
    | inr (db', e) ↦ ground (arith, greedy_errors-append xs ys db')
  ]

-- An INSERT that has gone through had a row.
pub insert_bulk-nonempty :
    {R : Type 0} (ins : R → Db → Option Db) (rs : List R) (db : Db) {db' : Db}
    → insert_bulk ins rs db ≡ some db'
    → length rs ≢ 0
insert_bulk-nonempty ins [] db h = cc
insert_bulk-nonempty ins (r ∷ rs) db h = omega arith
