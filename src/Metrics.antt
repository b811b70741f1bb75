-- ===== src/Metrics.antt =====
-- The metrics: hiring-service/src/app/services/metrics/use_cases/, which read through the cache. The
-- two use cases differ in their key and in their query, whose text is an argument here. Logging is
-- left out.
pub mod DuckDb
pub mod Cached
pub mod Fresh
use globant.Base.{ℕ, ◌≡◌, refl, ◌∙◌, Option, none, some, [], Text, codes}
use globant.Errors.{Exc, Result, ok, err, base_error, caused_by}
use globant.Action.{Action, pure, raise, try_except, ◌>>=◌, ◌>>◌}
use globant.Action.Rules.{bind_rule}
use globant.Ports.{CachePort}
use globant.Settings.{Settings}

-- `AnalyticsUnavailableError(cause=…)`
unfoldable pub analytics_unavailable_error : Exc → Exc
analytics_unavailable_error cause =
    base_error (codes "Analytics engine unavailable, please retry later")
      (codes "ANALYTICS_UNAVAILABLE") [] (caused_by cause) 503

-- `AnalyticsDb`, whose rows are a value of the cache.
pub record AnalyticsDb (Json : Type 0) : Type 1 where
  pub State : Type 0
  pub query : Text → Action State Json

module _ (C : CachePort) (D : AnalyticsDb C.Json) (settings : Settings) where
  pub record MetricsState : Type 0 where
    pub cache : C.State
    pub db : D.State

  abbrev pub cached : {A : Type 0} → Action C.State A → Action MetricsState A
  cached m w = let (r, s) = m w.cache in (r, record w { cache = s })

  abbrev pub queried : {A : Type 0} → Action D.State A → Action MetricsState A
  queried m w = let (r, s) = m w.db in (r, record w { db = s })

  -- The query, whose every exception is answered in the same way.
  unfoldable pub ask_metric : Text → Action MetricsState C.Json
  ask_metric sql =
      try_except (queried (D.query sql)) (λ exc. raise (analytics_unavailable_error exc))

  -- What a reader that has asked the database does with the rows.
  unfoldable pub store_metric : Text → C.Json → Action MetricsState C.Json
  store_metric cache_key result = do
    cached (C.set_json cache_key result (some settings.metrics_cache_ttl))
    pure result

  -- What follows the look into the cache.
  unfoldable pub unless_cached : Text → Text → Option C.Json → Action MetricsState C.Json
  unfolding ask_metric store_metric
  unless_cached cache_key sql (some result) = pure result
  unless_cached cache_key sql none = ask_metric sql >>= store_metric cache_key

  -- `execute` of both use cases.
  unfoldable pub read_metric : Text → Text → Action MetricsState C.Json
  unfolding unless_cached
  read_metric cache_key sql = cached (C.get_json cache_key) >>= unless_cached cache_key sql

  -- `HiresByQuarterUseCase.execute`, from the rendered template
  unfoldable pub hires_by_quarter : Text → Action MetricsState C.Json
  unfolding read_metric
  hires_by_quarter sql = read_metric settings.cache_key_hires_by_quarter sql

  -- `DepartmentsAboveMeanUseCase.execute`, from the file of the query
  unfoldable pub departments_above_mean : Text → Action MetricsState C.Json
  unfolding read_metric
  departments_above_mean sql = read_metric settings.cache_key_departments_above_mean sql

  -- A cache that answers what was set, and answers it again.
  pub record Remembers : Type 0 where
    pub get_set_lem :
        (key : Text) (value : C.Json) (ttl : Option ℕ) (s : C.State)
        → (C.set_json key value ttl s).0 ≡ ok tt
        → (C.get_json key (C.set_json key value ttl s).1).0 ≡ ok (some value)
    pub get_get_lem :
        (key : Text) (value : C.Json) (s : C.State)
        → (C.get_json key s).0 ≡ ok (some value)
        → (C.get_json key (C.get_json key s).1).0 ≡ ok (some value)
