-- ===== src/Storage/Raised.antt =====
-- What the storage answers, and what it raises.
use globant.Base.{
  ℕ, ◌≡◌, refl, inl, inr, ◌⊎◌, true, false, Option, none, some, List, [], ◌∷◌, Text, codes,
  Bool-cases,
}
use globant.Errors.{Exc, Context, caused_by, str, base_error, Result, ok, err}
use globant.Action.{Action, pure, raise, handle, continue}
use globant.Ports.{BinaryFile, Seek, no_seek, seeks, seek_fails, unread, Stream, UploadResult}
use globant.Storage.{
  BotoError, timeout_or_connection, credentials, param_validation, client_error, any_other,
  S3Client, bucket_not_found_error, storage_unavailable_error, storage_upload_failed_error,
  storage_access_denied_error, storage_misconfigured_error, storage_invalid_request_error, in_codes,
  bucket_codes, access_codes, upload_failed, translate_client_error, translate_class,
  translate_storage_error, upload_file, failed_with, stream_file, rewound,
}

-- What the code of the error is, by the class of the client's exception.
abbrev pub HasCode : BotoError → Text → Type 0
HasCode timeout_or_connection code = code ≡ codes "STORAGE_PROVIDER_UNAVAILABLE"
HasCode credentials code = code ≡ codes "STORAGE_MISCONFIGURED"
HasCode param_validation code = code ≡ codes "STORAGE_INVALID_REQUEST"
HasCode (client_error none) code = code ≡ codes "STORAGE_UPLOAD_FAILED"
HasCode (client_error (some c)) code =
    let no_bucket =
      in_codes c
        (codes "NoSuchBucket" ∷ codes "InvalidBucketName" ∷ codes "AllAccessDisabled" ∷ []) in
    let denied = in_codes c (codes "AccessDenied" ∷ codes "UnauthorizedOperation" ∷ []) in
    ((code ≡ codes "BUCKET_NOT_FOUND") × (no_bucket ≡ true))
    ⊎ ((code ≡ codes "STORAGE_ACCESS_DENIED") × (no_bucket ≡ false) × (denied ≡ true))
    ⊎ ((code ≡ codes "STORAGE_UPLOAD_FAILED") × (no_bucket ≡ false) × (denied ≡ false))
HasCode any_other code = code ≡ codes "STORAGE_UPLOAD_FAILED"

-- A `BaseError` with status 500, whose cause is the exception of class `c` that the client raised,
-- with the code of that class, and the bucket first in its context.
abbrev pub StorageError : Text → BotoError → Exc → Exc → Type 0
StorageError bucket c cause e =
    (message : Text) × (code : Text) × (context : Context) × (e
      ≡ base_error message code ((codes "bucket", str bucket) ∷ context) (caused_by cause) 500)
    × HasCode c code

module _ (S : S3Client) (bucket key : Text) where
  upload_failed-code :
      (c : BotoError) (e : Exc)
      → HasCode c (codes "STORAGE_UPLOAD_FAILED")
      → StorageError bucket c e (upload_failed S e bucket key)
  unfolding upload_failed storage_upload_failed_error
  upload_failed-code c e h = (_, _, _, refl, h)

  translate_client_error-StorageError :
      (code : Option Text) (e : Exc)
      → StorageError bucket (client_error code) e (translate_client_error S code e bucket key)
  unfolding translate_client_error bucket_not_found_error storage_access_denied_error upload_failed
      storage_upload_failed_error
  translate_client_error-StorageError none e = upload_failed-code (client_error none) e refl
  translate_client_error-StorageError (some code) e =
      elim (Bool-cases (in_codes code bucket_codes)) [
        | inl no_bucket ↦ rw no_bucket (_, _, _, refl, inl (refl, refl))
        | inr there ↦ elim (Bool-cases (in_codes code access_codes)) [
          | inl denied ↦ rw (there, denied) (_, _, _, refl, inr (inl (refl, refl, refl)))
          | inr unknown ↦ rw (there, unknown) (_, _, _, refl, inr (inr (refl, refl, refl)))
        ]
      ]

  translate_class-StorageError :
      (c : BotoError) (e : Exc) → StorageError bucket c e (translate_class S c e bucket key)
  unfolding translate_class storage_unavailable_error storage_misconfigured_error
      storage_invalid_request_error
  translate_class-StorageError timeout_or_connection e = (_, _, _, refl, refl)
  translate_class-StorageError credentials e = (_, _, _, refl, refl)
  translate_class-StorageError param_validation e = (_, _, _, refl, refl)
  translate_class-StorageError (client_error code) e = translate_client_error-StorageError code e
  translate_class-StorageError any_other e = upload_failed-code any_other e refl

  -- The error for an exception of the client.
  abbrev pub Translated : Exc → Exc → Type 0
  Translated cause e = StorageError bucket (S.class_of cause) cause e

  translate_storage_error-Translated :
      (e : Exc) → Translated e (translate_storage_error S e bucket key)
  unfolding translate_storage_error
  translate_storage_error-Translated e = translate_class-StorageError (S.class_of e) e

  -- What an upload may do, by what the client has done.
  abbrev pub Uploaded : Result (Unit {0}) → Result UploadResult → Type 0
  Uploaded (ok _) out = out ≡ ok (record { bucket = bucket; key = key })
  Uploaded (err cause) out = (e : Exc) × (out ≡ err e) × Translated cause e

  -- What the client reads of a file: all of it, but where there is no `seek`, or it raises, the part
  -- that has not been read.
  abbrev pub Sends : BinaryFile → BinaryFile → Type 0
  Sends file sent = elim file.seek [
    | no_seek ↦ unread sent ≡ unread file
    | seeks ↦ unread sent ≡ file.content
    | seek_fails ↦ unread sent ≡ unread file
  ]

  rewound-Sends : (file : BinaryFile) → Sends file (rewound file)
  unfolding rewound
  rewound-Sends file = by_seek file.content file.position file.seek
    where
      by_seek :
          (content : List ℕ) (position : ℕ) (seek : Seek)
          → let file : BinaryFile = record {
            content = content;
            position = position;
            seek = seek;
          } in
            Sends file (rewound file)
      by_seek content position no_seek = refl
      by_seek content position seeks = refl
      by_seek content position seek_fails = refl

  -- An upload hands the client the whole file, or what is left of one that cannot seek. It answers
  -- the bucket and the key where the client has uploaded it, and else raises an error with status
  -- 500, whose cause is the client's exception, whose code is that of the exception's class, and
  -- whose context has the bucket. The state is the client's.
  pub upload_file-Uploaded :
      (file : BinaryFile) (s : S.State)
      → let (out, s') = upload_file S file bucket key s in
        (sent : BinaryFile) × Sends file sent
        × Uploaded (S.upload_fileobj sent bucket key s).0 out
        × (s' ≡ (S.upload_fileobj sent bucket key s).1)
  unfolding upload_file
  upload_file-Uploaded file s =
      let (r, s') = S.upload_fileobj (rewound file) bucket key s in
      let (ended, same) = by_result r s' in (rewound file, rewound-Sends file, ended, same)
    where
      by_result :
          (r : Result (Unit {0})) (s' : S.State)
          → let place : UploadResult = record { bucket = bucket; key = key } in
            let (r1, s1) = continue {S = S.State} r (λ _. pure place) s' in
            let (out, s2) =
              handle r1 (λ exc. raise (translate_storage_error S exc bucket key)) s1 in
            Uploaded r out × (s2 ≡ s')
      by_result (ok _) s' = (refl, refl)
      by_result (err e) s' = ((_, refl, translate_storage_error-Translated e), refl)

  -- An error of the storage ends a stream, if anything does.
  abbrev pub Ends : Option Exc → Type 0
  Ends none = Unit
  Ends (some e) = (cause : Exc) × Translated cause e

  -- A download gives a stream, which ends well or in an error of the storage; no other exception
  -- leaves it.
  pub stream_file-Ends :
      (s : S.State)
      → (stream : Stream) × ((stream_file S bucket key s).0 ≡ ok stream) × Ends stream.failure
  unfolding stream_file
  stream_file-Ends s = let (r, s') = S.get_object bucket key s in by_result r s'
    where
      by_failure :
          (chunks : List (List ℕ)) (failure : Option Exc)
          → Ends
              (failed_with S
                (λ e. translate_storage_error S e bucket key)
                (record { chunks = chunks; failure = failure })).failure
      by_failure chunks none = tt
      by_failure chunks (some e) = (e, translate_storage_error-Translated e)

      by_result :
          (r : Result Stream) (s' : S.State)
          → let translated = λ (e : Exc). translate_storage_error S e bucket key in
            let (r1, s1) =
              continue {S = S.State} r (λ stream. pure (failed_with S translated stream)) s' in
            let broken : Exc → Action S.State Stream =
              λ exc. pure (record { chunks = []; failure = some (translated exc) }) in
            (stream : Stream) × ((handle r1 broken s1).0 ≡ ok stream) × Ends stream.failure
      by_result (ok stream) s' = (_, refl, by_failure stream.chunks stream.failure)
      by_result (err e) s' = (_, refl, (e, translate_storage_error-Translated e))
