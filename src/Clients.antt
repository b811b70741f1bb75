-- ===== src/Clients.antt =====
-- How the clients are made: the constructors of the cache client (hiring-service/src/app/
-- integrations/cache/redis/cache.py) and of the two storage clients (integrations/storage/gcs/
-- storage.py and integrations/storage/minio/storage.py), and the functions of
-- hiring-service/src/app/api/deps/shared.py that keep what has been made. What the libraries make
-- from a configuration is a parameter.
pub mod Kept
use globant.Base.{Option, none, some, List, [], ◌∷◌, Text, codes}
use globant.Errors.{Exc, no_cause, Context, str, Result, ok, err, base_error}

-- `os.getenv` at the time of a call
abbrev pub Environ : Type 0
Environ = Text → Option Text

-- `if not value`: the value of a variable that is set and is not empty.
abbrev pub truthy : Option Text → Option Text
truthy none = none
truthy (some []) = none
truthy (some (c ∷ t)) = some (c ∷ t)

abbrev pub missing : Text → Context
missing name = (codes "missing", str name) ∷ []

-- `CacheMisconfiguredError(context={"missing": name})`
unfoldable pub cache_misconfigured_error : Text → Exc
cache_misconfigured_error name =
    base_error (codes "Cache provider is misconfigured") (codes "CACHE_MISCONFIGURED")
      (missing name) no_cause 500

-- `StorageMisconfiguredError(context={"missing": name})`
unfoldable pub storage_misconfigured : Text → Exc
storage_misconfigured name =
    base_error (codes "Storage provider is misconfigured") (codes "STORAGE_MISCONFIGURED")
      (missing name) no_cause 500

module _ {C : Type 0} where
  abbrev pub required : Option Text → Exc → (Text → Result C) → Result C
  required none exc make = err exc
  required (some value) exc make = make value

  -- `CacheClient.__init__`, where `make` is `aioredis.from_url`
  unfoldable pub cache_client : (Text → Result C) → Environ → Result C
  cache_client make env =
      required (truthy (env (codes "REDIS_URL"))) (cache_misconfigured_error (codes "REDIS_URL"))
        make

  -- `StorageClient.__init__` for GCS, where `make` is `gcs.Client`
  unfoldable pub gcs_client : (Text → Result C) → Environ → Result C
  gcs_client make env =
      required (truthy (env (codes "GCS_PROJECT"))) (storage_misconfigured (codes "GCS_PROJECT"))
        make

  -- `StorageClient.__init__` for S3, where `make` takes the URL, the access key and the secret key
  unfoldable pub minio_client : (Text → Text → Text → Result C) → Environ → Result C
  minio_client make env =
      required (truthy (env (codes "MINIO_URL"))) (storage_misconfigured (codes "MINIO_URL"))
        (λ url.
          required (truthy (env (codes "ACCESS_KEY")))
            (storage_misconfigured (codes "ACCESS_KEY/SECRET_KEY"))
            (λ access_key.
              required (truthy (env (codes "SECRET_KEY")))
                (storage_misconfigured (codes "ACCESS_KEY/SECRET_KEY")) (make url access_key)))

  -- `@lru_cache` on a function without arguments: what it has returned is kept, what it has raised
  -- is not.
  unfoldable pub lru_cache : Result C → Option C → Result C × Option C
  lru_cache made (some kept) = (ok kept, some kept)
  lru_cache (ok made) none = (ok made, some made)
  lru_cache (err exc) none = (err exc, none)

  -- The calls of `get_cache_client` or of `get_storage`, each in the environment of its time.
  unfoldable pub get_each : (Environ → Result C) → List Environ → Option C → List (Result C)
  unfolding lru_cache
  get_each construct [] kept = []
  get_each construct (env ∷ envs) kept =
      let (out, kept') = lru_cache (construct env) kept in out ∷ get_each construct envs kept'

  -- `get_cache_client`
  unfoldable pub get_cache_client : (Text → Result C) → List Environ → List (Result C)
  unfolding get_each cache_client
  get_cache_client make envs = get_each (cache_client make) envs none

  -- `get_storage`, with the constructor of the client that is imported: `gcs_client make`, or
  -- `minio_client make` once the import is swapped.
  unfoldable pub get_storage : (Environ → Result C) → List Environ → List (Result C)
  unfolding get_each
  get_storage construct envs = get_each construct envs none
