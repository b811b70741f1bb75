-- ===== src/IngestRows/Selected.antt =====
-- Which records are stored, where no two of them have the same id: each of them is accepted or
-- refused by the database as it was before the first, whatever their order.
use globant.Base.{
  suc, ◌≡◌, refl, ap, inl, inr, Bool, true, false, Option, none, some, List, [], ◌∷◌, Text, ℤ,
  int_eq, int_eq→eq, int_eq_refl, length, map, Bool-cases, if◌then◌else◌,
}
use mathlib.Core.List.{
  Mem, Memᴰ, Nodup, Nodup-cons, Pairwise, mem-cons_of_mem, not-mem-nil, eq-or-mem_of_mem-cons,
}
use mathlib.Core.Logic.Or
use mathlib.Core.HLevel.{⊥_prop}
use globant.Models.{Db}
use globant.IngestRows.Greedy.{greedy_db, greedy_count, greedy_errors}

module _ {R : Type 0} (id : R → ℤ) where
  -- No record of the list has the id of `r`.
  abbrev pub Apart : R → List R → Type 0
  Apart r [] = Unit
  Apart r (x ∷ xs) = (int_eq (id r) (id x) ≡ false) × Apart r xs

  abbrev pub DistinctIds : List R → Type 0
  DistinctIds [] = Unit
  DistinctIds (r ∷ rs) = Apart r rs × DistinctIds rs

  Apart-of_not_mem : (r : R) (rs : List R) → (Mem (id r) (map id rs) → ⊥) → Apart r rs
  Apart-of_not_mem r [] absent = tt
  Apart-of_not_mem r (x ∷ xs) absent = elim (Bool-cases (int_eq (id r) (id x))) [
    | inl e ↦ absurd (absent ∣ Memᴰ.head (int_eq→eq (id r) (id x) e) ∣₁)
    | inr e ↦ (e, Apart-of_not_mem r xs (λ m. absent (mem-cons_of_mem (id x) m)))
  ]

  pub Nodup-DistinctIds : (rs : List R) → Nodup (map id rs) → DistinctIds rs
  Nodup-DistinctIds [] h = tt
  Nodup-DistinctIds (r ∷ rs) h =
      let (absent, rest) = Nodup-cons.0 h in
      (Apart-of_not_mem r rs absent, Nodup-DistinctIds rs rest)

  not_mem-of_Apart : (r : R) (rs : List R) → Apart r rs → Mem (id r) (map id rs) → ⊥
  not_mem-of_Apart r [] h m = not-mem-nil m
  not_mem-of_Apart r (x ∷ xs) (apart, rest) m =
      Or.elim ⊥_prop (eq-or-mem_of_mem-cons m)
        (λ same. let equal : int_eq (id r) (id x) ≡ true = rw (← same) (int_eq_refl (id r)) in cc)
        (λ m'. not_mem-of_Apart r xs rest m')

  pub DistinctIds-Nodup : (rs : List R) → DistinctIds rs → Nodup (map id rs)
  DistinctIds-Nodup [] h = Pairwise.nil
  DistinctIds-Nodup (r ∷ rs) (apart, rest) =
      Nodup-cons.1 (not_mem-of_Apart r rs apart, DistinctIds-Nodup rs rest)

module _ {R : Type 0} (accepts : R → Db → Bool) (db : Db) where
  abbrev pub kept : List R → List R
  kept [] = []
  kept (r ∷ rs) = if accepts r db then r ∷ kept rs else kept rs

  abbrev pub refused : List R → List R
  refused [] = []
  refused (r ∷ rs) = if accepts r db then refused rs else r ∷ refused rs

abbrev pub put_all : {R : Type 0} → (R → Db → Db) → List R → Db → Db
put_all put [] db = db
put_all put (r ∷ rs) db = put_all put rs (put r db)

-- An insert that accepts a record or not, and goes on accepting what has another id.
pub record Selects {R : Type 0} (ins : R → Db → Option Db) (id : R → ℤ) (accepts : R → Db → Bool)
    (put : R → Db → Db) : Type 0 where
  pub insert_lem : (r : R) (db : Db) → ins r db ≡ (if accepts r db then some (put r db) else none)
  pub put_lem :
      (r x : R) (db : Db) → int_eq (id r) (id x) ≡ false → accepts x (put r db) ≡ accepts x db

module _ {R : Type 0} (ins : R → Db → Option Db) (id : R → ℤ) (accepts : R → Db → Bool)
    (put : R → Db → Db) (selects : Selects ins id accepts put) where
  kept-put :
      (r : R) (rs : List R) (db : Db)
      → Apart id r rs
      → (kept accepts (put r db) rs ≡ kept accepts db rs)
        × (refused accepts (put r db) rs ≡ refused accepts db rs)
  kept-put r [] db h = (refl, refl)
  kept-put r (x ∷ xs) db (apart, rest) =
      rw (selects.put_lem r x db apart, (kept-put r xs db rest).0, (kept-put r xs db rest).1)
        (refl, refl)

  -- What is stored and what is reported, without following the database.
  abbrev pub Selected : (R → Text) → List R → Db → Type 0
  Selected label rs db =
      (greedy_db ins label rs db ≡ put_all put (kept accepts db rs) db)
      × (greedy_count ins label rs db ≡ length (kept accepts db rs))
      × (greedy_errors ins label rs db ≡ map label (refused accepts db rs))

  pub greedy-Selected :
      (label : R → Text) (rs : List R) (db : Db) → DistinctIds id rs → Selected label rs db
  greedy-Selected label [] db h = (refl, refl, refl)
  greedy-Selected label (r ∷ rs) db (apart, rest) = elim (Bool-cases (accepts r db)) [
    | inl e ↦
        let (same, same') = kept-put r rs db apart in
        let (stored, counted, reported) = greedy-Selected label rs (put r db) rest in
        let went : ins r db ≡ some (put r db) = rw e at (selects.insert_lem r db) in
        rw (greedy_db, greedy_count, greedy_errors, went, e)
          (rw same at stored, ap suc (rw same at counted), rw same' at reported)
    | inr e ↦
        let (stored, counted, reported) = greedy-Selected label rs db rest in
        let stayed : ins r db ≡ none = rw e at (selects.insert_lem r db) in
        rw (greedy_db, greedy_count, greedy_errors, stayed, e)
          (stored, counted, ap (λ t. label r ∷ t) reported)
  ]
