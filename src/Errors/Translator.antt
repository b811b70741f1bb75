-- ===== src/Errors/Translator.antt =====
-- hiring-service/src/app/services/ingestion/helpers/db_error_translator.py
use globant.Base.{
  ◌≡◌, refl, Option, none, some, List, [], ◌∷◌, Text, codes, text_eq, ℤ, pos, negsuc, true, false,
  if◌then◌else◌,
}
use globant.Regex.{Piece, literal, any, digits, search_group, digits_value}
use globant.Errors.{
  Exc, integrity_error, operational_error, record_conflict_error, record_foreign_key_error,
  ingestion_db_unavailable_error,
}

-- `name in d`, `d[name]`
abbrev pub dict_get : Text → List (Text × Text) → Option Text
dict_get name [] = none
dict_get name ((k, v) ∷ d) = if text_eq k name then some v else dict_get name d

-- PK constraint name → table name
abbrev pub pk_map : List (Text × Text)
pk_map =
    (codes "departments_pkey", codes "departments")
    ∷ (codes "jobs_pkey", codes "jobs")
    ∷ (codes "employees_pkey", codes "employees")
    ∷ []

-- FK constraint name → field name
abbrev pub fk_map : List (Text × Text)
fk_map =
    (codes "employees_department_id_fkey", codes "department_id")
    ∷ (codes "employees_job_id_fkey", codes "job_id")
    ∷ []

-- r'constraint "(.+?)"'
abbrev pub constraint_pattern : List Piece
constraint_pattern = literal (codes "constraint \"") ∷ any true ∷ literal (codes "\"") ∷ []

-- r"Key \(.+?\)=\((.+?)\)"
abbrev pub fk_value_pattern : List Piece
fk_value_pattern =
    literal (codes "Key (")
    ∷ any false
    ∷ literal (codes ")=(")
    ∷ any true
    ∷ literal (codes ")")
    ∷ []

-- r"Key \(id\)=\((\d+)\)"
abbrev pub pk_id_pattern : List Piece
pk_id_pattern = literal (codes "Key (id)=(") ∷ digits true ∷ literal (codes ")") ∷ []

unfoldable pub parse_constraint : Text → Text
unfolding search_group
parse_constraint message = elim (search_group constraint_pattern message) [
  | none ↦ []
  | some name ↦ name
]

unfoldable pub parse_fk_value : Text → Text
unfolding search_group
parse_fk_value message = elim (search_group fk_value_pattern message) [
  | none ↦ codes "unknown"
  | some value ↦ value
]

-- `\d+` takes no sign: the id of a negative key is not found, and -1 stands for it. (`int` refuses
-- more than 4300 digits; the ids that PostgreSQL prints here have ten at most.)
unfoldable pub parse_pk_id : Text → ℤ
unfolding search_group digits_value
parse_pk_id message = elim (search_group pk_id_pattern message) [
  | none ↦ negsuc 0
  | some number ↦ pos (digits_value 0 number)
]

-- The translation of an `IntegrityError` with that message, by its constraint.
unfoldable pub translate_constraint : Option Text → Option Text → Text → Exc
unfolding parse_fk_value parse_pk_id
translate_constraint (some table) field message = record_conflict_error table (parse_pk_id message)
translate_constraint none (some field) message =
    record_foreign_key_error field (parse_fk_value message)
translate_constraint none none message = integrity_error message

unfoldable pub translate_db_error : Exc → Exc
unfolding translate_constraint parse_constraint text_eq
translate_db_error (integrity_error message) =
    let constraint : Text = parse_constraint message in
    translate_constraint (dict_get constraint pk_map) (dict_get constraint fk_map) message
translate_db_error (operational_error message) =
    ingestion_db_unavailable_error (operational_error message)
translate_db_error exc = exc

test_conflict :
    translate_db_error (
      integrity_error
        (codes "unique constraint \"jobs_pkey\"\nDETAIL:  Key (id)=(42) already exists."))
    ≡ record_conflict_error (codes "jobs") (pos 42)
unfolding translate_db_error
test_conflict = refl
