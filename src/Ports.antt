-- ===== src/Ports.antt =====
-- The ports of hiring-service/src/app/services/shared/ports/: the cache and the file storage.
use globant.Base.{ℕ, zero, suc, ◌≡◌, Option, none, List, [], ◌∷◌, concat, Text}
use globant.Errors.{Exc, ok}
use globant.Action.{Action}

-- `Json` is what `json.loads` gives; a value that is set may have a time to live, in seconds.
pub record CachePort : Type 1 where
  pub State : Type 0
  pub Json : Type 0
  pub get_json : Text → Action State (Option Json)
  pub set_json : Text → Json → Option ℕ → Action State (Unit {0})
  pub delete : List Text → Action State (Unit {0})

-- What an asynchronous generator of bytes yields: its chunks, and the exception that ends it, if
-- one does.
pub record Stream : Type 0 where
  pub chunks : List (List ℕ)
  pub failure : Option Exc

-- `UploadResult`
pub record UploadResult : Type 0 where
  pub bucket : Text
  pub key : Text

-- The `seek` of a file: it may have none, or one that raises and leaves the file where it was.
pub data Seek : Type 0 where
  no_seek seeks seek_fails : Seek

-- A binary file that is open for reading at a position.
pub record BinaryFile : Type 0 where
  pub content : List ℕ
  pub position : ℕ
  pub seek : Seek

abbrev pub drop : ℕ → List ℕ → List ℕ
drop zero bytes = bytes
drop (suc n) [] = []
drop (suc n) (byte ∷ bytes) = drop n bytes

-- What a reader of the file gets.
abbrev pub unread : BinaryFile → List ℕ
unread file = drop file.position file.content

-- The file of an `UploadFile`, a temporary file that FastAPI has written and rewound.
abbrev pub temporary_file : List ℕ → BinaryFile
temporary_file content = record { content = content; position = 0; seek = seeks }

-- `upload_file` takes the file, the bucket and the key.
pub record StoragePort : Type 1 where
  pub State : Type 0
  pub upload_file : BinaryFile → Text → Text → Action State UploadResult
  pub stream_file : Text → Text → Action State Stream

-- A storage that takes a file that can seek, wherever it stands, and gives the whole of it back.
abbrev pub Keeps : StoragePort → Type 0
Keeps F =
    (content : List ℕ) (position : ℕ) (bucket key : Text) (s : F.State)
    → let file : BinaryFile = record { content = content; position = position; seek = seeks } in
      let (out, s') = F.upload_file file bucket key s in
      ((place : UploadResult) × (out ≡ ok place))
      × ((stream : Stream) × ((F.stream_file bucket key s').0 ≡ ok stream)
          × (concat stream.chunks ≡ content)
          × (stream.failure ≡ none))
