-- ===== src/Guard.antt =====
-- hiring-service/src/app/services/ingestion/helpers/batch_guard.py
use globant.Base.{
  ℕ, ◌≡◌, ◌≤◌, refl, List, [], ◌∷◌, codes, length, ltb, arith, if◌then◌else◌, Bool-cases, inl, inr,
}
use globant.Errors.{Result, ok, err, http_exception}

abbrev pub max_rows : ℕ
max_rows = 1000

unfoldable pub validate_batch : {A : Type 0} → List A → Result (Unit {0})
validate_batch [] = err (http_exception 422 (codes "No valid rows found"))
validate_batch (x ∷ xs) =
    if ltb max_rows (length (x ∷ xs))
    then err (http_exception 422 (codes "Max 1000 rows per request"))
    else ok tt

pub validate_batch_lem :
    {A : Type 0} (records : List A)
    → (validate_batch records ≡ ok tt → (1 ≤ length records) × (length records ≤ 1000))
      × ((1 ≤ length records) → (length records ≤ 1000) → validate_batch records ≡ ok tt)
unfolding validate_batch
validate_batch_lem [] = (λ h. cc, λ h h'. absurd (omega arith))
validate_batch_lem (x ∷ xs) = elim (Bool-cases (ltb max_rows (length (x ∷ xs)))) [
  | inl above ↦ (λ h. ground arith, λ h h'. absurd (ground arith))
  | inr within ↦ (λ h. ground arith, λ h h'. rw within refl)
]
