-- ===== src/Web/Upload.antt =====
-- `uploadFile` and `markComplete` of web/src/lib/uppy-connectrpc-uploader.ts: the chunks of one file.
-- The upload service's answers and the digest are arguments; a `Blob` is the list of its bytes.
-- What it tells Uppy of them is in `Web.Upload.Uppy`.
pub mod Chunks
pub mod Uppy
use dropbox_go_grpc_microser.Prelude.{
  ℕ, zero, suc, ◌+◌, ◌/◌, String, Bool, true, false, Option, none, some, List, [], ◌∷◌, ◌++◌, ltb,
  leb, ◌==◌, any, length, min, max, if◌then◌else◌,
}
use dropbox_go_grpc_microser.Exec.{Reply, ok, err}
use dropbox_go_grpc_microser.Web.Blocks.{Bytes, subarray}
use dropbox_go_grpc_microser.Web.Hex.{to_hex}

pub record Initialized : Type 0 where
  pub already_complete : Bool
  pub object_id : String
  pub upload_id : String
  pub chunk_size_bytes : ℕ
  pub already_received_chunk_indices : List ℕ

pub record Chunk : Type 0 where
  pub upload_id : String
  pub offset : ℕ
  pub bytes : Bytes
  pub sha256_of_chunk : List ℕ
  pub chunk_index : ℕ

pub record Services (E : Type 0) : Type 0 where
  pub unavailable : E
  pub invalid_chunk_size : E
  pub ended_early : E
  pub init_upload : ℕ → Reply E Initialized
  -- The offset that the service has persisted after a chunk.
  pub upload_chunk : Chunk → Reply E ℕ
  pub digest : Bytes → Bytes

-- Number.MAX_SAFE_INTEGER
abbrev pub max_safe_integer : ℕ
max_safe_integer = 9007199254740991

-- What the loop leaves: the bytes that count as uploaded or the error, and the chunks that were sent.
pub record Sent (E : Type 0) : Type 0 where
  pub result : Reply E ℕ
  pub chunks : List Chunk

-- The id of the upload that the file is complete with, or the error.
pub record Uploaded (E : Type 0) : Type 0 where
  pub complete : Reply E String
  pub chunks : List Chunk

abbrev failed : {E : Type 0} → E → List Chunk → Option (Uploaded E)
failed e chunks = some (record { complete = err e; chunks = chunks })

-- `!Number.isSafeInteger(chunkSize) || chunkSize <= 0` is false
abbrev pub valid_chunk_size : ℕ → Bool
valid_chunk_size n = elim (n == 0) [ true ↦ false | false ↦ leb n max_safe_integer ]

module _ {E : Type 0} (s : Services E) where
  abbrev pub chunk_at : Bytes → Initialized → ℕ → Chunk
  chunk_at blob init offset = record {
    upload_id = init.upload_id;
    offset = offset;
    bytes = subarray blob offset (min (offset + init.chunk_size_bytes) (length blob));
    sha256_of_chunk =
        to_hex
          (s.digest (subarray blob offset (min (offset + init.chunk_size_bytes) (length blob))));
    chunk_index = offset / init.chunk_size_bytes;
  }

  abbrev pub is_received : Initialized → ℕ → Bool
  is_received init offset =
      any (λ i. i == offset / init.chunk_size_bytes) init.already_received_chunk_indices

  abbrev after_chunk : Chunk → Option (Sent E) → Option (Sent E)
  after_chunk chunk none = none
  after_chunk chunk (some sent) = some (record sent { chunks = chunk ∷ sent.chunks })

  -- The loop, from an offset on, with what counts as uploaded and the rounds that are left; `none`
  -- means that they ran out.
  unfoldable pub send_from : ℕ → Bytes → Initialized → ℕ → ℕ → Option (Sent E)
  send_from zero blob init offset uploaded = none
  send_from (suc fuel) blob init offset uploaded =
      if ltb offset (length blob)
      then (elim (is_received init offset) [
        | true ↦
            send_from fuel blob init (offset + init.chunk_size_bytes)
              (max uploaded (min (offset + init.chunk_size_bytes) (length blob)))
        | false ↦ elim (s.upload_chunk (chunk_at blob init offset)) [
          | err e ↦ some (record { result = err e; chunks = chunk_at blob init offset ∷ [] })
          | ok persisted ↦
              after_chunk (chunk_at blob init offset)
                (send_from fuel blob init (offset + init.chunk_size_bytes) persisted)
        ]
      ])
      else some (record { result = ok uploaded; chunks = [] })

  abbrev finish : Bytes → Initialized → Option (Sent E) → Option (Uploaded E)
  finish blob init none = none
  finish blob init (some sent) = elim sent.result [
    | err e ↦ failed e sent.chunks
    | ok uploaded ↦
        if ltb uploaded (length blob)
        then failed s.ended_early sent.chunks
        else some (record { complete = ok init.upload_id; chunks = sent.chunks })
  ]

  abbrev start : Bytes → Initialized → Option (Uploaded E)
  start blob init =
      if init.already_complete
      then some (record { complete = ok init.object_id; chunks = [] })
      else if valid_chunk_size init.chunk_size_bytes
      then finish blob init (send_from (suc (length blob)) blob init 0 0)
      else failed s.invalid_chunk_size []

  -- `none` as a `Blob` stands for data that is none.
  unfoldable pub upload_file : Option Bytes → Option (Uploaded E)
  unfolding send_from
  upload_file none = failed s.unavailable []
  upload_file (some blob) = elim (s.init_upload (length blob)) [
    | err e ↦ failed e []
    | ok init ↦ start blob init
  ]
