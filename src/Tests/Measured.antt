-- ===== src/Tests/Measured.antt =====
-- The metrics after a run of the worker, at concrete inputs.
use globant.Base.{ℕ, suc, ◌≡◌, refl, Option, none, some, Text, codes, show_nat}
use mathlib.Core.List.{Mem, Memᴰ}
use globant.Errors.{ok}
use globant.Csv.{parse_employees}
use globant.Ports.{CachePort}
use globant.Workers.World.{Services, World}
use globant.SqlUnitOfWork.Lawful.{sql_lawful}
use globant.Workers.Process.{read_records, stream_and_process}
use globant.Workers.Process.Cleared.{Cleared, stream_and_process-Cleared}
use globant.Workers.Process.Properties.{stream_and_process-completed}
use globant.Metrics.{AnalyticsDb, read_metric}
use globant.Metrics.Fresh.{Asked, Forgets, stream_and_process-fresh_metric}
use globant.Tests.Worker.{
  waiting_db, three_employees, row_error, file, parse, by_two, services, world, lawful_no_outage,
  errors_fit,
}

-- A cache with room for one value, whatever its key.
abbrev one_value : CachePort
one_value = record {
  State = Option ℕ;
  Json = ℕ;
  get_json = λ key s. (ok s, s);
  set_json = λ key value ttl s. (ok tt, some value);
  delete = λ keys s. (ok tt, none);
}

one_value-Forgets : Forgets one_value
one_value-Forgets = record {
  delete_lem = λ keys key c listed deleted. refl;
  set_json_lem = λ key value ttl c. refl;
}

abbrev caching : Services
caching = record services { cache = one_value }

-- A database that answers how often it has been asked.
abbrev counting : AnalyticsDb ℕ
counting = record { State = ℕ; query = λ sql n. (ok (suc n), suc n) }

-- The metric is in the cache when the run starts.
abbrev before : World caching
before = record { uow = (world none).uow; cache = some 7; storage = some file }

abbrev key : Text
key = by_two.cache_key_departments_above_mean

key-listed : Mem key by_two.metrics_cache_keys
key-listed = ∣ Memᴰ.tail (Memᴰ.head refl) ∣₁

returns : (stream_and_process caching by_two parse 2 before).0 ≡ ok tt
unfolding sql_lawful parse_employees show_nat read_records
returns =
    (stream_and_process-completed caching by_two 2 parse waiting_db before lawful_no_outage
      (refl, refl, refl) (λ _ _. refl) 1 refl three_employees row_error refl errors_fit).0

stream_and_process-fresh_metric_example :
    let w' = (stream_and_process caching by_two parse 2 before).1 in
    let (out, t) =
      read_metric one_value counting by_two key (codes "q") (record { cache = w'.cache; db = 4 }) in
    Asked caching counting by_two (ok 5) out × (t.db ≡ 5)
stream_and_process-fresh_metric_example =
    stream_and_process-fresh_metric caching counting by_two (λ _ _. refl) one_value-Forgets parse 2
      before returns key key-listed (codes "q") 4

-- There is no file for the run.
abbrev without_file : World caching
without_file = record { uow = (world none).uow; cache = some 7; storage = none }

stream_and_process-Cleared_example :
    let (out, w') = stream_and_process caching by_two parse 2 without_file in
    Cleared caching by_two (λ _ _. refl) (some 7) out w'
stream_and_process-Cleared_example =
    stream_and_process-Cleared caching by_two (λ _ _. refl) parse 2 without_file
