-- ===== src/Storage/Gcs/Whole.antt =====
-- What the loop over `read` yields.
use globant.Base.{
  ℕ, zero, suc, ◌+◌, ◌≤◌, ◌<◌, ◌≡◌, refl, sym, ap, ◌∙◌, none, List, [], ◌∷◌, ◌++◌, Text, length,
  concat, arith, length-append,
}
use mathlib.Core.Path.{subst}
use globant.Errors.{ok}
use globant.Storage.{rewound}
use globant.Ports.{BinaryFile, Seek, no_seek, seeks, seek_fails, unread, Stream, Keeps}
use globant.Storage.Gcs.{
  GcsClient, after_read, read_loop, gcs_upload_file, gcs_stream_file, gcs_storage,
}

-- What the client promises, where `Holds f content` says that the file `f` has `content` left:
-- `read` gives at most as many bytes as it is asked for, none only at the end, and a blob holds
-- what was left to read in the file that was uploaded.
pub record Stores (G : GcsClient) : Type 1 where
  pub Holds : G.File → List ℕ → Type 0
  pub size_lem : (f : G.File) (content : List ℕ) → Holds f content → length content ≤ G.size f
  pub read_lem :
      (n : ℕ) (f : G.File) (content : List ℕ)
      → Holds f content
      → 1 ≤ n
      → (chunk : List ℕ) × (f' : G.File) × (rest : List ℕ) × (G.read n f ≡ ok (chunk, f'))
        × Holds f' rest
        × (content ≡ chunk ++ rest)
        × (length chunk ≤ n)
        × (chunk ≡ [] → content ≡ [])
  pub upload_lem :
      (file : BinaryFile) (bucket key : Text) (s : G.State)
      → let (out, s') = G.upload_from_file file bucket key s in
        (out ≡ ok tt)
        × ((f : G.File) × ((G.open_blob bucket key s').0 ≡ ok f) × Holds f (unread file))

-- Chunks of 1 to 8192 bytes.
abbrev pub ShortChunks : List (List ℕ) → Type 0
ShortChunks [] = Unit
ShortChunks (chunk ∷ chunks) = (1 ≤ length chunk) × (length chunk ≤ 8192) × ShortChunks chunks

-- A whole file, in short chunks.
abbrev pub WholeFile : List ℕ → Stream → Type 0
WholeFile content stream =
    (concat stream.chunks ≡ content) × (stream.failure ≡ none) × ShortChunks stream.chunks

module _ (G : GcsClient) (L : Stores G) where
  after_read-WholeFile :
      (chunk : List ℕ) (f' : G.File) (rest content : List ℕ) (go_on : G.File → Stream)
      → content ≡ chunk ++ rest
      → length chunk ≤ 8192
      → (chunk ≡ [] → content ≡ [])
      → (1 ≤ length chunk → WholeFile rest (go_on f'))
      → WholeFile content (after_read G (ok (chunk, f')) go_on)
  after_read-WholeFile [] f' rest content go_on whole short last more = (sym (last refl), refl, tt)
  after_read-WholeFile (byte ∷ bytes) f' rest content go_on whole short last more =
      let (joined, safe, chunks) = more (omega arith) in
      (ap (λ t. byte ∷ bytes ++ t) joined ∙ sym whole, safe, (omega arith, short, chunks))

  read_loop-WholeFile :
      (fuel : ℕ) (f : G.File) (content : List ℕ)
      → L.Holds f content
      → length content < fuel
      → WholeFile content (read_loop G fuel f)
  unfolding read_loop
  read_loop-WholeFile zero f content h enough = absurd (omega arith)
  read_loop-WholeFile (suc fuel) f content h enough =
      let (chunk, f', rest, got, h', whole, short, last) =
        L.read_lem 8192 f content h (omega arith) in
      let parts : length content ≡ length chunk + length rest =
        ap length whole ∙ length-append chunk rest in
      rw got (
        after_read-WholeFile chunk f' rest content (read_loop G fuel) whole short last
          (λ some_bytes. read_loop-WholeFile fuel f' rest h' (omega (arith, parts))))

  -- What an upload has to store of a file: all of it, but where there is no `seek`, or it raises, the
  -- part that has not been read.
  abbrev pub to_store : BinaryFile → List ℕ
  to_store file = elim file.seek [
    | no_seek ↦ unread file
    | seeks ↦ file.content
    | seek_fails ↦ unread file
  ]

  unread-rewound : (file : BinaryFile) → unread (rewound file) ≡ to_store file
  unfolding rewound
  unread-rewound file = by_seek file.content file.position file.seek
    where
      by_seek :
          (content : List ℕ) (position : ℕ) (seek : Seek)
          → let file : BinaryFile = record {
            content = content;
            position = position;
            seek = seek;
          } in
            unread (rewound file) ≡ to_store file
      by_seek content position no_seek = refl
      by_seek content position seeks = refl
      by_seek content position seek_fails = refl

  pub gcs_storage-WholeFile :
      (file : BinaryFile) (bucket key : Text) (s : G.State)
      → let (out, s') = gcs_upload_file G file bucket key s in
        (out ≡ ok (record { bucket = bucket; key = key }))
        × ((stream : Stream) × ((gcs_stream_file G bucket key s').0 ≡ ok stream)
            × WholeFile (to_store file) stream)
  unfolding gcs_upload_file gcs_stream_file
  gcs_storage-WholeFile file bucket key s =
      let (done, (f, opened, holds)) = L.upload_lem (rewound file) bucket key s in
      let h : L.Holds f (to_store file) = subst (λ t. L.Holds f t) (unread-rewound file) holds in
      (
        rw done refl,
        (
          read_loop G (suc (G.size f)) f,
          rw (done, opened) refl,
          read_loop-WholeFile (suc (G.size f)) f (to_store file) h
              (omega (arith, L.size_lem f (to_store file) h)),
        ),
      )

  pub gcs_storage-Keeps : Keeps (gcs_storage G)
  gcs_storage-Keeps content position bucket key s =
      let file : BinaryFile = record { content = content; position = position; seek = seeks } in
      let (done, (stream, streamed, (joined, safe, _))) = gcs_storage-WholeFile file bucket key s in
      ((record { bucket = bucket; key = key }, done), (stream, streamed, joined, safe))
