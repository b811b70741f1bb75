-- ===== src/Settings.antt =====
-- hiring-service/src/app/core/config/settings.py. The values come from the environment; the
-- defaults are `default_settings`.
use globant.Base.{ℕ, ◌*◌, List, [], ◌∷◌, Text, codes, ℤ, pos}

pub record Settings : Type 0 where
  pub database_url : Text
  pub redis_url : Text
  pub storage_bucket : Text
  pub employee_chunk_size : ℤ
  pub batch_timeout_seconds : ℤ
  pub metrics_cache_keys : List Text
  pub cache_key_hires_by_quarter : Text
  pub cache_key_departments_above_mean : Text
  pub metrics_cache_ttl : ℕ

abbrev pub default_settings : Settings
default_settings = record {
  database_url = [];
  redis_url = [];
  storage_bucket = codes "hiring";
  employee_chunk_size = pos 10000;
  batch_timeout_seconds = pos 600;
  metrics_cache_keys =
      codes "hiring:metrics:hires_by_quarter" ∷ codes "hiring:metrics:departments_above_mean" ∷ [];
  cache_key_hires_by_quarter = codes "hiring:metrics:hires_by_quarter";
  cache_key_departments_above_mean = codes "hiring:metrics:departments_above_mean";
  metrics_cache_ttl = 3600 * 8;
}
