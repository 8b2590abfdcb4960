-- ===== src/Web/Upload/Uppy.antt =====
-- What an upload reports to Uppy: the events and the file state that `uploadFile` and `markComplete` of
-- web/src/lib/uppy-connectrpc-uploader.ts leave, and `upload`, over several files. The service's answer
-- to each chunk that was sent is asked for again. The start time of an upload is left out.
pub mod Reports
use dropbox_go_grpc_microser.Prelude.{
  ℕ, ◌+◌, ◌*◌, ◌/◌, String, Bool, true, false, ◌||◌, Option, none, some, List, [], ◌∷◌, ◌++◌,
  length, min, map, if◌then◌else◌,
}
use dropbox_go_grpc_microser.Exec.{Reply, ok, err}
use dropbox_go_grpc_microser.Web.Blocks.{Bytes}
use dropbox_go_grpc_microser.Web.Upload.{Chunk, Services, Uploaded, upload_file}

pub record FileProgress : Type 0 where
  pub upload_complete : Bool
  pub bytes_uploaded : ℕ
  pub bytes_total : ℕ
  pub percentage : ℕ

pub data Event (E : Type 0) : Type 0 where
  upload_progress : FileProgress → Event E
  upload_success : (upload_id : String) → Event E
  upload_error : E → Event E

-- A file of Uppy's: its data, where it is a `Blob`.
pub record UppyFile (E : Type 0) : Type 0 where
  pub file_data : Option Bytes
  pub progress : FileProgress
  pub response : Option String
  pub error : Option E

abbrev pub added : {E : Type 0} → Option Bytes → UppyFile E
added file_data = record {
  file_data = file_data;
  progress = record {
    upload_complete = false;
    bytes_uploaded = 0;
    bytes_total = 0;
    percentage = 0;
  };
  response = none;
  error = none;
}

-- `Math.round((uploaded / size) * 100)`, halves up, without the rounding of floating-point numbers.
unfoldable pub percentage_of : ℕ → ℕ → ℕ
percentage_of uploaded size = min 100 ((200 * uploaded + size) / (2 * size))

abbrev pub size_of : Option Bytes → ℕ
size_of none = 0
size_of (some blob) = length blob

-- What a file's upload leaves: its state, the events, and what the promise rejects with.
pub record Report (E : Type 0) : Type 0 where
  pub file_state : UppyFile E
  pub events : List (Event E)
  pub thrown : Option E

module _ {E : Type 0} (s : Services E) where
  abbrev pub acknowledged : ℕ → Reply E ℕ → List (Event E) → List (Event E)
  acknowledged size (err e) events = events
  acknowledged size (ok uploaded) events =
      upload_progress (record {
        upload_complete = false;
        bytes_uploaded = uploaded;
        bytes_total = size;
        percentage = percentage_of uploaded size;
      })
      ∷ events

  -- The events of the loop; the chunk that the service refuses has none.
  unfoldable pub chunk_events : ℕ → List Chunk → List (Event E)
  unfolding percentage_of
  chunk_events size [] = []
  chunk_events size (chunk ∷ chunks) =
      acknowledged size (s.upload_chunk chunk) (chunk_events size chunks)

  unfoldable pub mark_complete : String → UppyFile E → UppyFile E
  mark_complete upload_id f = record f {
    progress = record {
      upload_complete = true;
      bytes_uploaded = size_of f.file_data;
      bytes_total = size_of f.file_data;
      percentage = 100;
    };
    response = some upload_id;
  }

  -- The `catch` of `uploadFile`.
  abbrev pub fail : E → UppyFile E → UppyFile E
  fail e f = record f { error = some e }

  abbrev pub settled : UppyFile E → List (Event E) → Reply E String → Report E
  settled f events (ok upload_id) = record {
    file_state = mark_complete upload_id f;
    events = events ++ upload_success upload_id ∷ [];
    thrown = none;
  }
  settled f events (err e) = record {
    file_state = fail e f;
    events = events ++ upload_error e ∷ [];
    thrown = some e;
  }

  abbrev reported : UppyFile E → Option (Uploaded E) → Option (Report E)
  reported f none = none
  reported f (some u) = some (settled f (chunk_events (size_of f.file_data) u.chunks) u.complete)

  -- One file, up to its end.
  unfoldable pub report : UppyFile E → Option (Report E)
  unfolding mark_complete chunk_events
  report f = reported f (upload_file s f.file_data)

  abbrev report_of : Option (UppyFile E) → Option (Report E)
  report_of none = none
  report_of (some f) = report f

  -- `upload`: a file that Uppy no longer has is passed over, and the rest run side by side.
  unfoldable pub upload : List (Option (UppyFile E)) → List (Option (Report E))
  unfolding report
  upload files = map report_of files

  abbrev threw : Option (Report E) → Bool
  threw none = false
  threw (some r) = elim r.thrown [ none ↦ false | some e ↦ true ]

  -- Whether `Promise.all` rejects.
  unfoldable pub is_rejected : List (Option (Report E)) → Bool
  is_rejected [] = false
  is_rejected (r ∷ reports) = threw r || is_rejected reports
