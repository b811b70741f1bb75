-- ===== src/Metrics/Cached.antt =====
-- What a metric answers once it has been read.
use globant.Base.{◌≡◌, refl, Option, none, some, Text}
use mathlib.Core.Path.{subst, sym}
use globant.Errors.{Exc, Result, ok}
use globant.Action.{Action, pure, raise, try_except, ◌>>◌}
use globant.Action.Rules.{bind_rule}
use globant.Ports.{CachePort}
use globant.Settings.{Settings}
use globant.Metrics.{
  AnalyticsDb, MetricsState, cached, queried, analytics_unavailable_error, unless_cached,
  read_metric, Remembers,
}

module _ (C : CachePort) (D : AnalyticsDb C.Json) (settings : Settings) (R : Remembers C D settings)
    (key : Text) where
  -- The cache has a value under the key.
  abbrev Hit : C.Json → MetricsState C D settings → Type 0
  Hit value w = (C.get_json key w.cache).0 ≡ ok (some value)

  -- What is answered is in the cache then.
  abbrev Leaves : Result C.Json → MetricsState C D settings → Type 0
  Leaves out w = (value : C.Json) → out ≡ ok value → Hit value w

  unless_cached-Leaves :
      (sql : Text) (found : Option C.Json) (w w1 : MetricsState C D settings)
      → (C.get_json key w.cache).0 ≡ ok found
      → w1.cache ≡ (C.get_json key w.cache).1
      → let (out, w') = unless_cached C D settings key sql found w1 in Leaves out w'
  unfolding unless_cached
  unless_cached-Leaves sql (some result) w w1 e kept = λ value same.
      let there : (C.get_json key w.cache).0 ≡ ok (some value) = cc in
      rw kept (R.get_get_lem key value w.cache there)
  unless_cached-Leaves sql none w w1 e kept =
      let stores : C.Json → Action (MetricsState C D settings) (Unit {0}) =
        λ result. cached C D settings (C.set_json key result (some settings.metrics_cache_ttl)) in
      let failing : Exc → Action (MetricsState C D settings) C.Json =
        λ exc. raise (analytics_unavailable_error exc) in
      bind_rule (try_except (queried C D settings (D.query sql)) failing)
        (λ result. stores result >> pure result) w1 (λ _ _. Unit {0}) Leaves tt
        (λ result w2 _.
          bind_rule (stores result) (λ _. pure result) w2 (λ out w3. out ≡ ok tt → Hit result w3)
            Leaves (R.get_set_lem key result (some settings.metrics_cache_ttl) w2.cache)
            (λ _ w3 hit value same.
              let e : result ≡ value = cc in subst (λ v. Hit v w3) e (hit refl))
            (λ exc w3 _ value same. cc))
        (λ exc w2 _ value same. cc)

  read_metric-Leaves :
      (sql : Text) (w : MetricsState C D settings)
      → let (out, w') = read_metric C D settings key sql w in Leaves out w'
  unfolding read_metric
  read_metric-Leaves sql w =
      bind_rule (cached C D settings (C.get_json key)) (unless_cached C D settings key sql) w
        (λ out w1. (out ≡ (C.get_json key w.cache).0) × (w1.cache ≡ (C.get_json key w.cache).1))
        Leaves (refl, refl) (λ found w1 (e, kept). unless_cached-Leaves sql found w w1 (sym e) kept)
        (λ exc w1 _ value same. cc)

  -- A value in the cache is the answer, and the database is left alone.
  Hit-read_metric :
      (sql : Text) (value : C.Json) (w : MetricsState C D settings)
      → Hit value w
      → let (out, w') = read_metric C D settings key sql w in (out ≡ ok value) × (w'.db ≡ w.db)
  unfolding read_metric unless_cached
  Hit-read_metric sql value w hit = rw hit (refl, refl)

  -- With a cache that answers what was set: once a metric has been answered, reading it again gives
  -- the same answer and leaves the database alone.
  pub read_metric_again :
      (sql : Text) (value : C.Json) (w : MetricsState C D settings)
      → (read_metric C D settings key sql w).0 ≡ ok value
      → let w' = (read_metric C D settings key sql w).1 in
        let (out, w'') = read_metric C D settings key sql w' in (out ≡ ok value) × (w''.db ≡ w'.db)
  read_metric_again sql value w answered =
      let w' = (read_metric C D settings key sql w).1 in
      Hit-read_metric sql value w' (read_metric-Leaves sql w value answered)
