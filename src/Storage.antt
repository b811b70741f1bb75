-- ===== src/Storage.antt =====
-- The object storage: hiring-service/src/app/integrations/storage/minio/storage.py with its
-- mappers/error_mapper.py, and the adapter
-- hiring-service/src/app/services/shared/adapters/storage_adapter.py. The S3 client of boto3 and
-- the classes of its exceptions are parameters.
pub mod Raised
pub mod Gcs
use globant.Base.{
  ℕ, ◌≡◌, ◌≢◌, refl, inl, inr, ◌⊎◌, Bool, true, false, ◌||◌, Option, none, some, List, [], ◌∷◌,
  Text, codes, text_eq, if◌then◌else◌,
}
use globant.Errors.{Exc, Context, Cause, caused_by, str, Value, Result, ok, err, base_error}
use globant.Action.{Action, pure, raise, try_except, ◌>>=◌, ◌>>◌}
use globant.Ports.{BinaryFile, no_seek, seeks, seek_fails, Stream, UploadResult, StoragePort}

-- Which class of botocore an exception belongs to; a `ClientError` comes with its `Code`.
pub data BotoError : Type 0 where
  timeout_or_connection credentials param_validation : BotoError
  client_error : Option Text → BotoError
  any_other : BotoError

-- An S3 client. `get_object` gives the chunks of the body, and what ends them.
pub record S3Client : Type 1 where
  pub State : Type 0
  pub upload_fileobj : BinaryFile → Text → Text → Action State (Unit {0})
  pub get_object : Text → Text → Action State Stream
  pub class_of : Exc → BotoError
  pub class_name : Exc → Text

-- `if hasattr(fileobj, "seek"):`, with the `try` around `fileobj.seek(0)`
unfoldable pub rewound : BinaryFile → BinaryFile
rewound fileobj = elim fileobj.seek [
  | no_seek ↦ fileobj
  | seeks ↦ record fileobj { position = 0 }
  | seek_fails ↦ fileobj
]

-- The exceptions of hiring-service/src/app/core/exceptions/storage.py, with the default status.
abbrev pub storage_error : Text → Text → Context → Exc → Exc
storage_error message code context cause = base_error message code context (caused_by cause) 500

unfoldable pub bucket_not_found_error : Context → Exc → Exc
bucket_not_found_error =
    storage_error (codes "Storage bucket not found or inaccessible") (codes "BUCKET_NOT_FOUND")

unfoldable pub storage_unavailable_error : Context → Exc → Exc
storage_unavailable_error =
    storage_error (codes "Storage provider unavailable") (codes "STORAGE_PROVIDER_UNAVAILABLE")

unfoldable pub storage_upload_failed_error : Context → Exc → Exc
storage_upload_failed_error =
    storage_error (codes "Failed to upload file to storage") (codes "STORAGE_UPLOAD_FAILED")

unfoldable pub storage_access_denied_error : Context → Exc → Exc
storage_access_denied_error =
    storage_error (codes "Access denied to storage resource") (codes "STORAGE_ACCESS_DENIED")

unfoldable pub storage_misconfigured_error : Context → Exc → Exc
storage_misconfigured_error =
    storage_error (codes "Storage provider is misconfigured") (codes "STORAGE_MISCONFIGURED")

unfoldable pub storage_invalid_request_error : Context → Exc → Exc
storage_invalid_request_error =
    storage_error (codes "Invalid request to storage client") (codes "STORAGE_INVALID_REQUEST")

abbrev pub in_codes : Text → List Text → Bool
in_codes code [] = false
in_codes code (c ∷ cs) = text_eq c code || in_codes code cs

abbrev pub bucket_codes : List Text
bucket_codes = codes "NoSuchBucket" ∷ codes "InvalidBucketName" ∷ codes "AllAccessDisabled" ∷ []

abbrev pub access_codes : List Text
access_codes = codes "AccessDenied" ∷ codes "UnauthorizedOperation" ∷ []

module _ (S : S3Client) where
  -- The keys of the contexts; `operation` is always "upload".
  abbrev pub bucket_context : Text → Context
  bucket_context bucket =
      (codes "bucket", str bucket) ∷ (codes "operation", str (codes "upload")) ∷ []

  abbrev pub object_context : Text → Text → Context
  object_context bucket key =
      (codes "bucket", str bucket)
      ∷ (codes "object", str key)
      ∷ (codes "operation", str (codes "upload"))
      ∷ []

  -- The last line of the mapper.
  unfoldable pub upload_failed : Exc → Text → Text → Exc
  upload_failed error bucket key =
      storage_upload_failed_error
        ((codes "bucket", str bucket)
          ∷ (codes "object", str key)
          ∷ (codes "operation", str (codes "upload"))
          ∷ (codes "hint", str (S.class_name error))
          ∷ [])
        error

  -- By the `Code` of a `ClientError`.
  unfoldable pub translate_client_error : Option Text → Exc → Text → Text → Exc
  unfolding upload_failed
  translate_client_error none error bucket key = upload_failed error bucket key
  translate_client_error (some code) error bucket key =
      if in_codes code bucket_codes
      then bucket_not_found_error (bucket_context bucket) error
      else if in_codes code access_codes
      then storage_access_denied_error (object_context bucket key) error
      else upload_failed error bucket key

  unfoldable pub translate_class : BotoError → Exc → Text → Text → Exc
  unfolding translate_client_error
  translate_class timeout_or_connection error bucket key =
      storage_unavailable_error (object_context bucket key) error
  translate_class credentials error bucket key =
      storage_misconfigured_error (bucket_context bucket) error
  translate_class param_validation error bucket key =
      storage_invalid_request_error (object_context bucket key) error
  translate_class (client_error code) error bucket key =
      translate_client_error code error bucket key
  translate_class any_other error bucket key = upload_failed error bucket key

  unfoldable pub translate_storage_error : Exc → Text → Text → Exc
  unfolding translate_class
  translate_storage_error error bucket key = translate_class (S.class_of error) error bucket key

  -- `StorageClient.upload_file`
  unfoldable pub upload_file : BinaryFile → Text → Text → Action S.State UploadResult
  unfolding translate_storage_error rewound
  upload_file fileobj bucket key =
      try_except
        (S.upload_fileobj (rewound fileobj) bucket key
          >> pure (record { bucket = bucket; key = key }))
        (λ exc. raise (translate_storage_error exc bucket key))

  -- The generator of `StorageClient.stream_file` raises when its chunks are asked for.
  abbrev pub failed_with : (Exc → Exc) → Stream → Stream
  failed_with f stream = record stream {
    failure = elim stream.failure [ none ↦ none | some e ↦ some (f e) ];
  }

  unfoldable pub stream_file : Text → Text → Action S.State Stream
  unfolding translate_storage_error
  stream_file bucket key =
      try_except
        (S.get_object bucket key >>= λ stream.
          pure (failed_with (λ e. translate_storage_error e bucket key) stream))
        (λ exc.
          pure (record { chunks = []; failure = some (translate_storage_error exc bucket key) }))

  -- `StorageAdapter`
  abbrev pub storage_adapter : StoragePort
  storage_adapter = record { State = S.State; upload_file = upload_file; stream_file = stream_file }
