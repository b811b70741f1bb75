-- ===== src/Errors/Translated.antt =====
-- What `translate_db_error` makes of an exception.
use globant.Base.{◌≡◌, refl, false, Option, none, some, Text}
use globant.Errors.{
  Exc, integrity_error, operational_error, http_exception, base_error, other, is_operational,
  record_conflict_error, record_foreign_key_error, ingestion_db_unavailable_error,
}
use globant.Errors.Translator.{
  dict_get, pk_map, fk_map, parse_constraint, translate_constraint, translate_db_error,
}

-- Translating again changes nothing, and no outage is left.
abbrev Settles : Exc → Type 0
Settles e = (translate_db_error e ≡ e) × (is_operational e ≡ false)

translate_constraint-Settles :
    (message : Text) (table field : Option Text)
    → dict_get (parse_constraint message) pk_map ≡ table
    → dict_get (parse_constraint message) fk_map ≡ field
    → Settles (translate_constraint table field message)
unfolding translate_db_error translate_constraint record_conflict_error record_foreign_key_error
translate_constraint-Settles message (some table) field h h' = (refl, refl)
translate_constraint-Settles message none (some field) h h' = (refl, refl)
translate_constraint-Settles message none none h h' = (rw (h, h') refl, refl)

-- The translation of any exception is no `OperationalError`, and translating it again changes
-- nothing.
pub translate_db_error-Settles :
    (e : Exc)
    → (translate_db_error (translate_db_error e) ≡ translate_db_error e)
      × (is_operational (translate_db_error e) ≡ false)
unfolding translate_db_error ingestion_db_unavailable_error
translate_db_error-Settles (integrity_error message) =
    translate_constraint-Settles message (dict_get (parse_constraint message) pk_map)
      (dict_get (parse_constraint message) fk_map) refl refl
translate_db_error-Settles (operational_error message) = (refl, refl)
translate_db_error-Settles (http_exception status detail) = (refl, refl)
translate_db_error-Settles (base_error m c ctx cause status) = (refl, refl)
translate_db_error-Settles (other message) = (refl, refl)
