-- ===== src/Storage/Gcs.antt =====
-- The storage that the service uses by default: hiring-service/src/app/integrations/storage/gcs/
-- storage.py, behind the adapter hiring-service/src/app/services/shared/adapters/
-- storage_adapter.py. The client of google-cloud-storage is a parameter.
pub mod Whole
use globant.Base.{ℕ, zero, suc, none, some, List, [], ◌∷◌, Text, codes}
use globant.Errors.{Exc, Result, ok, err, other}
use globant.Action.{Action, pure, try_except, ◌>>=◌, ◌>>◌}
use globant.Storage.{rewound}
use globant.Ports.{BinaryFile, Stream, UploadResult, StoragePort}

-- `blob.upload_from_file(fileobj)`, `blob.open("rb")` and the `read` of the file that it gives.
-- `size` is how many bytes that file has left.
pub record GcsClient : Type 1 where
  pub State : Type 0
  pub File : Type 0
  pub upload_from_file : BinaryFile → Text → Text → Action State (Unit {0})
  pub open_blob : Text → Text → Action State File
  pub read : ℕ → File → Result (List ℕ × File)
  pub size : File → ℕ

-- A stream that ends with an exception at once.
abbrev pub broken_stream : Exc → Stream
broken_stream e = record { chunks = []; failure = some e }

module _ (G : GcsClient) where
  -- `StorageClient.upload_file`, which translates no exception
  unfoldable pub gcs_upload_file : BinaryFile → Text → Text → Action G.State UploadResult
  unfolding rewound
  gcs_upload_file fileobj bucket key =
      G.upload_from_file (rewound fileobj) bucket key
      >> pure (record { bucket = bucket; key = key })

  -- A turn of the loop, from what `read` gives: an empty chunk ends it. `go_on` is the next turns.
  abbrev pub after_read : Result (List ℕ × G.File) → (G.File → Stream) → Stream
  after_read (err e) go_on = broken_stream e
  after_read (ok ([], f)) go_on = record { chunks = []; failure = none }
  after_read (ok (byte ∷ bytes, f)) go_on =
      let rest : Stream = go_on f in record rest { chunks = (byte ∷ bytes) ∷ rest.chunks }

  -- `while chunk := f.read(8192): yield chunk`
  unfoldable pub read_loop : ℕ → G.File → Stream
  read_loop zero f = broken_stream (other (codes "out of fuel"))
  read_loop (suc fuel) f = after_read (G.read 8192 f) (read_loop fuel)

  -- `StorageClient.stream_file`: the generator raises when its chunks are asked for. Each turn but
  -- the last reads a byte at least.
  unfoldable pub gcs_stream_file : Text → Text → Action G.State Stream
  unfolding read_loop
  gcs_stream_file bucket key =
      try_except (G.open_blob bucket key >>= λ f. pure (read_loop (suc (G.size f)) f))
        (λ exc. pure (broken_stream exc))

  -- `StorageAdapter`
  abbrev pub gcs_storage : StoragePort
  gcs_storage = record {
    State = G.State;
    upload_file = gcs_upload_file;
    stream_file = gcs_stream_file;
  }
