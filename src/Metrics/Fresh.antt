-- ===== src/Metrics/Fresh.antt =====
-- The metrics after a batch has been completed: its worker deletes their keys from the cache.
use globant.Base.{◌≡◌, refl, Option, none, some, List, Text, ℕ}
use mathlib.Core.List.{Mem}
use globant.Errors.{Uuid, Result, ok, err}
use globant.Action.{Action, pure, raise, continue, handle, ◌>>◌}
use globant.Models.{EmployeeRecord}
use globant.Ports.{CachePort}
use globant.Settings.{Settings}
use globant.Workers.World.{Services, World}
use globant.Workers.Process.{stream_and_process}
use globant.Workers.Process.Chunks.{Quiet}
use globant.Workers.Process.Cleared.{Cleared, stream_and_process-Cleared}
use globant.Metrics.{
  AnalyticsDb, MetricsState, cached, analytics_unavailable_error, unless_cached, read_metric,
}

-- A cache that is up: what is deleted is gone, and what is set is stored.
pub record Forgets (C : CachePort) : Type 0 where
  pub delete_lem :
      (keys : List Text) (key : Text) (c : C.State)
      → Mem key keys
      → (C.delete keys c).0 ≡ ok tt
      → (C.get_json key (C.delete keys c).1).0 ≡ ok none
  pub set_json_lem :
      (key : Text) (value : C.Json) (ttl : Option ℕ) (c : C.State)
      → (C.set_json key value ttl c).0 ≡ ok tt

module _ (V : Services) (D : AnalyticsDb V.cache.Json) (settings : Settings) where
  -- What is answered where the database has been asked.
  abbrev pub Asked : Result V.cache.Json → Result V.cache.Json → Type 0
  Asked (ok rows) out = out ≡ ok rows
  Asked (err exc) out = out ≡ err (analytics_unavailable_error exc)

  module _ (forgets : Forgets V.cache) (key : Text) (sql : Text) where
    store-Asked :
        (r : Result V.cache.Json) (w : MetricsState V.cache D settings)
        → let asking : Action (MetricsState V.cache D settings) V.cache.Json =
            handle r (λ exc. raise (analytics_unavailable_error exc)) in
          let (r', w1) = asking w in
          let (out, w') =
            continue r'
              (λ rows.
                cached V.cache D settings
                  (V.cache.set_json key rows (some settings.metrics_cache_ttl))
                >> pure rows)
              w1 in
          Asked r out × (w'.db ≡ w.db)
    store-Asked (ok rows) w =
        rw (forgets.set_json_lem key rows (some settings.metrics_cache_ttl) w.cache) (refl, refl)
    store-Asked (err exc) w = (refl, refl)

    -- A metric that is not in the cache is asked of the database.
    read_metric-Asked :
        (c : V.cache.State) (db : D.State)
        → (V.cache.get_json key c).0 ≡ ok none
        → let (out, t) = read_metric V.cache D settings key sql (record { cache = c; db = db }) in
          let (r, d) = D.query sql db in Asked r out × (t.db ≡ d)
    unfolding read_metric unless_cached
    read_metric-Asked c db missing =
        let (r, d) = D.query sql db in
        rw missing (store-Asked r (record { cache = (V.cache.get_json key c).1; db = d }))

  -- With a cache that is up: once a background run has returned, a metric whose key is among those
  -- that the settings list is asked of the database, whatever the cache had before the run.
  pub stream_and_process-fresh_metric :
      (quiet : Quiet V) (forgets : Forgets V.cache)
      (parse : List ℕ → Result (List EmployeeRecord × List Text)) (b : Uuid) (w : World V)
      → (stream_and_process V settings parse b w).0 ≡ ok tt
      → (key : Text) → Mem key settings.metrics_cache_keys
      → (sql : Text) (db : D.State)
      → let w' = (stream_and_process V settings parse b w).1 in
        let (out, t) =
          read_metric V.cache D settings key sql (record { cache = w'.cache; db = db }) in
        let (r, d) = D.query sql db in Asked r out × (t.db ≡ d)
  stream_and_process-fresh_metric quiet forgets parse b w done key listed sql db =
      let (out, w') = stream_and_process V settings parse b w in
      let same = on_return out w' done (stream_and_process-Cleared V settings quiet parse b w) in
      read_metric-Asked forgets key sql w'.cache db (
        rw same (
          forgets.delete_lem settings.metrics_cache_keys key w.cache listed
            (quiet settings.metrics_cache_keys w.cache)))
    where
      on_return :
          (out : Result (Unit {0})) (w' : World V)
          → out ≡ ok tt
          → Cleared V settings quiet w.cache out w'
          → w'.cache ≡ (V.cache.delete settings.metrics_cache_keys w.cache).1
      on_return (ok _) w' e cleared = cleared
      on_return (err exc) w' e cleared = absurd (cc)
