-- ===== src/Clients/Kept.antt =====
-- One client for all of the requests.
use globant.Base.{
  ◌≡◌, ◌≢◌, refl, ap, ◌⊎◌, inl, inr, Option, none, some, List, [], ◌∷◌, Text, codes, map,
}
use globant.Errors.{Exc, str, no_cause, base_error, Result, ok, err}
use globant.Clients.{
  Environ, truthy, required, cache_misconfigured_error, storage_misconfigured, cache_client,
  gcs_client, minio_client, get_each, get_cache_client, get_storage,
}

-- A variable is set to a value that is not empty, of which `Set` holds; or it is not, and then
-- `Unset` does.
abbrev pub Reads : Environ → Text → (Text → Type 0) → Type 0 → Type 0
Reads env name Set Unset =
    (((env name ≡ none) ⊎ (env name ≡ some [])) × Unset)
    ⊎ ((value : Text) × (value ≢ []) × (env name ≡ some value) × Set value)

module _ {C : Type 0} where
  -- A client of the cache is made of `REDIS_URL`.
  abbrev pub CacheMade : (Text → Result C) → Environ → Result C → Type 0
  CacheMade make env out =
      Reads env (codes "REDIS_URL") (λ url. out ≡ make url)
        (out
          ≡ err (
              base_error (codes "Cache provider is misconfigured") (codes "CACHE_MISCONFIGURED")
                ((codes "missing", str (codes "REDIS_URL")) ∷ []) no_cause 500))

  -- The storage is misconfigured.
  abbrev pub Misconfigured : Text → Result C → Type 0
  Misconfigured name out =
      out
      ≡ err (
          base_error (codes "Storage provider is misconfigured") (codes "STORAGE_MISCONFIGURED")
            ((codes "missing", str name) ∷ []) no_cause 500)

  -- A client of GCS is made of `GCS_PROJECT`.
  abbrev pub GcsMade : (Text → Result C) → Environ → Result C → Type 0
  GcsMade make env out =
      Reads env (codes "GCS_PROJECT") (λ project. out ≡ make project)
        (Misconfigured (codes "GCS_PROJECT") out)

  -- A client of S3 is made of `MINIO_URL`, and then of both keys.
  abbrev pub S3Made : (Text → Text → Text → Result C) → Environ → Result C → Type 0
  S3Made make env out =
      let no_keys : Type 0 = Misconfigured (codes "ACCESS_KEY/SECRET_KEY") out in
      Reads env (codes "MINIO_URL")
        (λ url.
          Reads env (codes "ACCESS_KEY")
            (λ access_key.
              Reads env (codes "SECRET_KEY") (λ secret_key. out ≡ make url access_key secret_key)
                no_keys)
            no_keys)
        (Misconfigured (codes "MINIO_URL") out)

  required-Reads :
      (env : Environ) (name : Text) (exc : Exc) (make : Text → Result C)
      (Set : Text → Result C → Type 0)
      → ((value : Text) → Set value (make value))
      → (found : Option Text) → env name ≡ found
      → let out = required (truthy found) exc make in
        Reads env name (λ value. Set value out) (out ≡ err exc)
  required-Reads env name exc make Set made none e = inl (inl e, refl)
  required-Reads env name exc make Set made (some []) e = inl (inr e, refl)
  required-Reads env name exc make Set made (some (c ∷ t)) e =
      inr (c ∷ t, λ eq. absurd (cc), e, made (c ∷ t))

  cache_client-CacheMade :
      (make : Text → Result C) (env : Environ) → CacheMade make env (cache_client make env)
  unfolding cache_client cache_misconfigured_error
  cache_client-CacheMade make env =
      required-Reads env (codes "REDIS_URL") (cache_misconfigured_error (codes "REDIS_URL")) make
        (λ url out. out ≡ make url) (λ url. refl) (env (codes "REDIS_URL")) refl

  gcs_client-GcsMade :
      (make : Text → Result C) (env : Environ) → GcsMade make env (gcs_client make env)
  unfolding gcs_client storage_misconfigured
  gcs_client-GcsMade make env =
      required-Reads env (codes "GCS_PROJECT") (storage_misconfigured (codes "GCS_PROJECT")) make
        (λ project out. out ≡ make project) (λ project. refl) (env (codes "GCS_PROJECT")) refl

  minio_client-S3Made :
      (make : Text → Text → Text → Result C) (env : Environ)
      → S3Made make env (minio_client make env)
  unfolding minio_client storage_misconfigured
  minio_client-S3Made make env =
      let no_keys = storage_misconfigured (codes "ACCESS_KEY/SECRET_KEY") in
      let with_keys : Text → Text → Result C = λ url access_key.
        required (truthy (env (codes "SECRET_KEY"))) no_keys (make url access_key) in
      let with_url : Text → Result C =
        λ url. required (truthy (env (codes "ACCESS_KEY"))) no_keys (with_keys url) in
      let Secret : Text → Text → Result C → Type 0 = λ url access_key out.
        Reads env (codes "SECRET_KEY") (λ secret_key. out ≡ make url access_key secret_key)
          (out ≡ err no_keys) in
      required-Reads env (codes "MINIO_URL") (storage_misconfigured (codes "MINIO_URL")) with_url
        (λ url out.
          Reads env (codes "ACCESS_KEY") (λ access_key. Secret url access_key out)
            (out ≡ err no_keys))
        (λ url.
          required-Reads env (codes "ACCESS_KEY") no_keys (with_keys url)
            (λ access_key out. Secret url access_key out)
            (λ access_key.
              required-Reads env (codes "SECRET_KEY") no_keys (make url access_key)
                (λ secret_key out. out ≡ make url access_key secret_key) (λ secret_key. refl)
                (env (codes "SECRET_KEY")) refl)
            (env (codes "ACCESS_KEY")) refl)
        (env (codes "MINIO_URL")) refl

  abbrev pub all_same : C → List Environ → List (Result C)
  all_same c envs = map (λ _. ok c) envs

  -- Calls that raise what `Made` says of their environments; from the first one on where a client is
  -- made, all of them give that client.
  abbrev pub MadeOnce : (Environ → Result C → Type 0) → List Environ → List (Result C) → Type 0
  MadeOnce Made [] outs = outs ≡ []
  MadeOnce Made (env ∷ envs) outs =
      ((exc : Exc) × (rest : List (Result C)) × (outs ≡ err exc ∷ rest)
        × Made env (err exc)
        × MadeOnce Made envs rest)
      ⊎ ((c : C) × (outs ≡ ok c ∷ all_same c envs) × Made env (ok c))

  get_each-kept :
      (construct : Environ → Result C) (c : C) (envs : List Environ)
      → get_each construct envs (some c) ≡ all_same c envs
  unfolding get_each
  get_each-kept construct c [] = refl
  get_each-kept construct c (env ∷ envs) = ap (λ outs. ok c ∷ outs) (get_each-kept construct c envs)

  module _ (Made : Environ → Result C → Type 0) (construct : Environ → Result C)
      (makes : (env : Environ) → Made env (construct env)) where
    one_more :
        (env : Environ) (envs : List Environ) (made : Result C)
        → construct env ≡ made
        → Made env made
        → MadeOnce Made envs (get_each construct envs none)
        → MadeOnce Made (env ∷ envs) (get_each construct (env ∷ envs) none)
    unfolding get_each
    one_more env envs (ok c) e h rest = inr (c, rw (e, get_each-kept construct c envs) refl, h)
    one_more env envs (err exc) e h rest =
        inl (exc, get_each construct envs none, rw e refl, h, rest)

    get_each-MadeOnce : (envs : List Environ) → MadeOnce Made envs (get_each construct envs none)
    unfolding get_each
    get_each-MadeOnce [] = refl
    get_each-MadeOnce (env ∷ envs) =
        one_more env envs (construct env) refl (makes env) (get_each-MadeOnce envs)

  -- The calls of `get_cache_client` raise that `REDIS_URL` is missing where it is not set, or what
  -- the library raises for it, up to the first one where a client is made of it; from there on all of
  -- them give that client, whatever the environment has become. The calls of `get_storage` do the
  -- same, with `GCS_PROJECT` for GCS, and with `MINIO_URL` and then both keys for S3.
  pub clients-MadeOnce :
      (make : Text → Result C) (make' : Text → Text → Text → Result C) (envs : List Environ)
      → MadeOnce (CacheMade make) envs (get_cache_client make envs)
        × MadeOnce (GcsMade make) envs (get_storage (gcs_client make) envs)
        × MadeOnce (S3Made make') envs (get_storage (minio_client make') envs)
  unfolding get_cache_client get_storage
  clients-MadeOnce make make' envs = (
    get_each-MadeOnce (CacheMade make) (cache_client make) (cache_client-CacheMade make) envs,
    get_each-MadeOnce (GcsMade make) (gcs_client make) (gcs_client-GcsMade make) envs,
    get_each-MadeOnce (S3Made make') (minio_client make') (minio_client-S3Made make') envs,
  )
