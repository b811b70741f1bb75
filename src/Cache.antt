-- ===== src/Cache.antt =====
-- The cache: hiring-service/src/app/integrations/cache/redis/cache.py and
-- hiring-service/src/app/services/shared/adapters/redis_cache_adapter.py, with what
-- hiring-service/src/app/integrations/cache/redis/mappers/error_mapper.py logs. The client of
-- redis-py, the module `json` and the logger are parameters.
use globant.Base.{ℕ, suc, codes, ◌≡◌, refl, Option, none, some, List, [], ◌∷◌, Text}
use globant.Errors.{Exc, Result, ok, err}
use globant.Action.{Action, pure, handle, try_except, ◌>>=◌, ◌>>◌}
use globant.Ports.{CachePort}

-- Which class of redis-py an exception belongs to: `ConnectionError` or `TimeoutError`,
-- `ResponseError` or `DataError`, any other `RedisError`, or none of these.
pub data RedisError : Type 0 where
  connection_or_timeout response_or_data any_redis_error any_other : RedisError

-- The method of the logger.
pub data Level : Type 0 where
  warning error exception : Level

-- What is logged: the event of an error, with the operation, the keys, the type of the payload and
-- the name of the exception's class; or that `delete` is tried again, with the keys, the attempt and
-- the backoff.
pub data LogRecord : Type 0 where
  cache_event : Level → Text → Text → List Text → Option Text → Text → LogRecord
  delete_retry : List Text → ℕ → ℕ → LogRecord

-- The calls of redis-py, each of which may raise. Its state holds the clock and the log too: `sleep`
-- is `asyncio.sleep`, in seconds.
pub record RedisClient : Type 1 where
  pub State : Type 0
  pub get : Text → Action State (Option Text)
  pub set : Text → Text → Action State (Unit {0})
  pub setex : Text → ℕ → Text → Action State (Unit {0})
  pub delete : List Text → Action State (Unit {0})
  pub sleep : ℕ → State → State
  pub log : LogRecord → State → State
  pub class_of : Exc → RedisError
  pub class_name : Exc → Text

-- The module `json`.
pub record JsonModule : Type 1 where
  pub Json : Type 0
  -- None for the text `null`
  pub loads : Text → Result (Option Json)
  pub dumps : Json → Result Text
  -- `type(value).__name__`
  pub type_name : Json → Text

-- `_DELETE_RETRY_BACKOFFS_SECONDS`
abbrev pub delete_retry_backoffs_seconds : List ℕ
delete_retry_backoffs_seconds = 15 ∷ 30 ∷ []

module _ (K : RedisClient) (M : JsonModule) where
  -- A computation that may raise and changes nothing.
  abbrev lift_cache : {A : Type 0} → Result A → Action K.State A
  lift_cache r s = (r, s)

  -- `log_cache_error`, by the class of the exception
  unfoldable pub error_record : RedisError → Text → List Text → Option Text → Text → LogRecord
  error_record connection_or_timeout operation key payload_type reason =
      cache_event warning (codes "cache_connection_failed") operation key none reason
  error_record response_or_data operation key payload_type reason =
      cache_event error (codes "cache_operation_invalid") operation key payload_type reason
  error_record any_redis_error operation key payload_type reason =
      cache_event error (codes "cache_unexpected_error") operation key none reason
  error_record any_other operation key payload_type reason =
      cache_event exception (codes "cache_unknown_error") operation key none reason

  unfoldable pub log_cache_error : Exc → Text → List Text → Option Text → Action K.State (Unit {0})
  unfolding error_record
  log_cache_error exc operation key payload_type s =
      (ok tt, K.log (error_record (K.class_of exc) operation key payload_type (K.class_name exc)) s)

  -- `json.loads(payload) if payload is not None else None`
  abbrev pub loaded : Option Text → Action K.State (Option M.Json)
  loaded none = pure none
  loaded (some payload) = lift_cache (M.loads payload)

  unfoldable pub get_json : Text → Action K.State (Option M.Json)
  unfolding log_cache_error
  get_json key =
      try_except (K.get key >>= loaded)
        (λ exc. log_cache_error exc (codes "get_json") (key ∷ []) none >> pure none)

  -- `if ttl is not None`
  abbrev pub stored_for : Text → Option ℕ → Text → Action K.State (Unit {0})
  stored_for key (some ttl) payload = K.setex key ttl payload
  stored_for key none payload = K.set key payload

  unfoldable pub set_json : Text → M.Json → Option ℕ → Action K.State (Unit {0})
  unfolding log_cache_error
  set_json key value ttl =
      try_except (lift_cache (M.dumps value) >>= stored_for key ttl)
        (λ exc. log_cache_error exc (codes "set_json") (key ∷ []) (some (M.type_name value)))

  -- How a turn of the loop goes on from its `try`, where `next` is the next turn and `backoff` the
  -- one at index `attempt`, if there is one.
  unfoldable pub after_attempt :
      List Text
      → ℕ
      → Option ℕ
      → Action K.State (Unit {0})
      → Result (Unit {0})
      → Action K.State (Unit {0})
  unfolding log_cache_error
  after_attempt keys attempt backoff next (ok _) s = (ok tt, s)
  after_attempt keys attempt none next (err exc) s =
      log_cache_error exc (codes "delete") keys none s
  after_attempt keys attempt (some seconds) next (err exc) s =
      next (K.sleep seconds (K.log (delete_retry keys attempt seconds) s))

  -- The loop of `delete`, on the backoffs from index `attempt` on.
  unfoldable pub delete_retrying : List Text → ℕ → List ℕ → Action K.State (Unit {0})
  unfolding after_attempt
  delete_retrying keys attempt [] s =
      let (r, s') = K.delete keys s in after_attempt keys attempt none (pure tt) r s'
  delete_retrying keys attempt (backoff ∷ backoffs) s =
      let (r, s') = K.delete keys s in
      after_attempt keys attempt (some backoff) (delete_retrying keys (suc attempt) backoffs) r s'

  unfoldable pub delete : List Text → Action K.State (Unit {0})
  unfolding delete_retrying
  delete keys = delete_retrying keys 0 delete_retry_backoffs_seconds

  -- `RedisCacheAdapter`
  abbrev pub redis_cache : CachePort
  redis_cache = record {
    State = K.State;
    Json = M.Json;
    get_json = get_json;
    set_json = set_json;
    delete = delete;
  }

  caught :
      {A : Type 0} (a : A) (logged : Exc → Action K.State (Unit {0}))
      → ((exc : Exc) (s : K.State) → (logged exc s).0 ≡ ok tt)
      → (r : Result A) (s : K.State)
      → (found : A) × ((handle r (λ exc. logged exc >> pure a) s).0 ≡ ok found)
  caught a logged quiet (ok found) s = (found, refl)
  caught a logged quiet (err e) s = (a, rw (quiet e s) refl)

  caught_unit :
      (logged : Exc → Action K.State (Unit {0}))
      → ((exc : Exc) (s : K.State) → (logged exc s).0 ≡ ok tt)
      → (r : Result (Unit {0})) (s : K.State) → (handle r logged s).0 ≡ ok tt
  caught_unit logged quiet (ok _) s = refl
  caught_unit logged quiet (err e) s = quiet e s

  log_cache_error-ok :
      (exc : Exc) (operation : Text) (key : List Text) (payload_type : Option Text) (s : K.State)
      → (log_cache_error exc operation key payload_type s).0 ≡ ok tt
  unfolding log_cache_error
  log_cache_error-ok exc operation key payload_type s = refl

  after_attempt-ok :
      (keys : List Text) (attempt : ℕ) (backoff : Option ℕ) (next : Action K.State (Unit {0}))
      → ((s : K.State) → (next s).0 ≡ ok tt)
      → (r : Result (Unit {0})) (s : K.State)
      → (after_attempt keys attempt backoff next r s).0 ≡ ok tt
  unfolding after_attempt
  after_attempt-ok keys attempt backoff next go_on (ok _) s = refl
  after_attempt-ok keys attempt none next go_on (err e) s =
      log_cache_error-ok e (codes "delete") keys none s
  after_attempt-ok keys attempt (some seconds) next go_on (err e) s =
      go_on (K.sleep seconds (K.log (delete_retry keys attempt seconds) s))

  delete_retrying-ok :
      (keys : List Text) (attempt : ℕ) (backoffs : List ℕ) (s : K.State)
      → (delete_retrying keys attempt backoffs s).0 ≡ ok tt
  unfolding delete_retrying
  delete_retrying-ok keys attempt [] s =
      let (r, s') = K.delete keys s in after_attempt-ok keys attempt none (pure tt) (λ _. refl) r s'
  delete_retrying-ok keys attempt (backoff ∷ backoffs) s =
      let (r, s') = K.delete keys s in
      after_attempt-ok keys attempt (some backoff) (delete_retrying keys (suc attempt) backoffs)
        (delete_retrying-ok keys (suc attempt) backoffs) r s'

  -- Whatever the Redis client and `json` raise, the cache port raises nothing: `get_json` returns a
  -- value or None, `set_json` and `delete` return.
  pub redis_cache-quiet :
      (key : Text) (keys : List Text) (value : M.Json) (ttl : Option ℕ) (s : K.State)
      → ((found : Option M.Json) × ((redis_cache.get_json key s).0 ≡ ok found))
        × ((redis_cache.set_json key value ttl s).0 ≡ ok tt)
        × ((redis_cache.delete keys s).0 ≡ ok tt)
  unfolding get_json set_json delete
  redis_cache-quiet key keys value ttl s =
      let (r, s') = (K.get key >>= loaded) s in
      let (r', s'') = (lift_cache (M.dumps value) >>= stored_for key ttl) s in
      (
        caught none (λ exc. log_cache_error exc (codes "get_json") (key ∷ []) none)
            (λ exc s. log_cache_error-ok exc (codes "get_json") (key ∷ []) none s) r s',
        caught_unit
            (λ exc. log_cache_error exc (codes "set_json") (key ∷ []) (some (M.type_name value)))
            (λ exc s.
              log_cache_error-ok exc (codes "set_json") (key ∷ []) (some (M.type_name value)) s)
            r' s'',
        delete_retrying-ok keys 0 delete_retry_backoffs_seconds s,
      )
