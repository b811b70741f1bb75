-- ===== src/Errors.antt =====
-- The exceptions: hiring-service/src/app/core/exceptions/ (base.py, ingestion.py), and those of
-- SQLAlchemy, FastAPI and Python that the code catches or raises.
pub mod Translator
pub mod Translated
pub mod Messages
use globant.Base.{
  ℕ, zero, suc, ◌+◌, ◌-◌, ◌/◌, ◌%◌, ◌^◌, ◌≡◌, Bool, true, false, ltb, List, [], ◌∷◌, ◌++◌, Text,
  codes, show_int, show_nat, ℤ, pos, if◌then◌else◌,
}

-- A `uuid.UUID`, as its 128-bit number.
abbrev pub Uuid : Type 0
Uuid = ℕ

-- The lowest `k` hexadecimal digits of `n`, in front of `rest`.
hex_before : ℕ → ℕ → Text → Text
hex_before zero n rest = rest
hex_before (suc k) n rest =
    let d : ℕ = n % 16 in
    hex_before k (n / 16) ((if ltb d 10 then d + b'0' else d - 10 + b'a') ∷ rest)

-- `str(uuid)`: 32 hexadecimal digits in groups of 8, 4, 4, 4 and 12.
unfoldable pub show_uuid : Uuid → Text
unfolding hex_before
show_uuid u = hex_before 8 (u / 2 ^ 96) (
    b'-'
    ∷ hex_before 4 (u / 2 ^ 80) (
        b'-'
        ∷ hex_before 4 (u / 2 ^ 64) (b'-' ∷ hex_before 4 (u / 2 ^ 48) (b'-' ∷ hex_before 12 u []))))

-- What a `context` dictionary holds.
pub data Value : Type 0 where
  str : Text → Value
  int : ℤ → Value

abbrev pub Context : Type 0
Context = List (Text × Value)

mutual
  -- `integrity_error` and `operational_error` are those of `sqlalchemy.exc`, with their `str(exc)`;
  -- `base_error` is any `BaseError`; `other` is an exception that no handler tells apart.
  pub data Exc : Type 0 where
    integrity_error : Text → Exc
    operational_error : Text → Exc
    http_exception : ℕ → Text → Exc
    base_error : Text → Text → Context → Cause → ℕ → Exc
    other : Text → Exc

  pub data Cause : Type 0 where
    no_cause : Cause
    caused_by : Exc → Cause

-- `RecordConflictError(table=…, record_id=…)`
unfoldable pub record_conflict_error : Text → ℤ → Exc
record_conflict_error table record_id =
    base_error (codes "Record " ++ (show_int record_id ++ (codes " already exists in " ++ table)))
      (codes "RECORD_CONFLICT") ((codes "table", str table) ∷ (codes "id", int record_id) ∷ [])
      no_cause 409

-- `RecordForeignKeyError(field=…, value=…)`
unfoldable pub record_foreign_key_error : Text → Text → Exc
record_foreign_key_error field value =
    base_error
      (codes "Foreign key violation: "
        ++ (field ++ (codes "=" ++ (value ++ codes " does not exist"))))
      (codes "RECORD_FK_VIOLATION") ((codes "field", str field) ∷ (codes "value", str value) ∷ [])
      no_cause 422

-- `IngestionDbUnavailableError(cause=…)`
unfoldable pub ingestion_db_unavailable_error : Exc → Exc
ingestion_db_unavailable_error cause =
    base_error (codes "Database unavailable") (codes "DB_UNAVAILABLE") [] (caused_by cause) 503

-- `BatchNotFoundError(batch_id=…)`
unfoldable pub batch_not_found_error : Uuid → Exc
batch_not_found_error batch_id =
    base_error (codes "Batch " ++ (show_uuid batch_id ++ codes " not found"))
      (codes "BATCH_NOT_FOUND") ((codes "batch_id", str (show_uuid batch_id)) ∷ []) no_cause 404

-- `isinstance(exc, OperationalError)`
abbrev pub is_operational : Exc → Bool
is_operational (operational_error _) = true
is_operational _ = false

-- The outcome of a call: a value, or an exception that left it.
pub data Result {ℓ} (A : Type ℓ) : Type ℓ where
  ok : A → Result A
  err : Exc → Result A
