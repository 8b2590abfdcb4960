-- ===== src/Web/Queue.antt =====
-- The upload hook of web/src/modules/files/hooks/use-uppy-file-upload.ts, and what
-- web/src/modules/files/components/upload-drawer.tsx shows of it. Uppy is outside: its restrictions, its
-- events and the end of `uppy.upload()` are arguments or events. A handler sees the state as it is when
-- it is called. An upload's percentage is left out.
pub mod Errors
pub mod Shown
use Prim.Native.String
use dropbox_go_grpc_microser.Prelude.{
  ℕ, suc, ◌+◌, ◌-◌, String, Bool, true, false, not, ◌&&◌, ◌||◌, Option, none, some, List, [], ◌∷◌,
  ◌++◌, map, any, keep, length, take, ltb, leb, ◌==◌, truthy, str_eq, if◌then◌else◌,
}
use dropbox_go_grpc_microser.Exec.{Reply, ok, err}
use dropbox_go_grpc_microser.Text.{codes}

-- What is read of Uppy's file.
pub record UploadFile : Type 0 where
  pub id : String
  pub name : Option String
  pub upload_complete : Bool
  pub error : Option String

pub record UploadView : Type 0 where
  pub files : List UploadFile
  pub errors : List String
  pub is_dragging : Bool
  pub is_uploading : Bool
  -- The calls of `uppy.upload()` that have not ended.
  pub running : ℕ

abbrev pub init : UploadView
init = record { files = []; errors = []; is_dragging = false; is_uploading = false; running = 0 }

unfoldable pub push_error : String → UploadView → UploadView
push_error message v = record v { errors = take 1 (message ∷ v.errors) }

-- "upload-success"
unfoldable pub upload_success : UploadView → UploadView
upload_success v = record v { errors = [] }

-- `addFiles`: `restrict` is Uppy's answer to a file, with the message of "restriction-failed" where it
-- is not added.
unfoldable pub add_files :
    (List UploadFile → UploadFile → Option String) → List UploadFile → UploadView → UploadView
unfolding push_error
add_files restrict [] v = v
add_files restrict (f ∷ fs) v = add_files restrict fs (elim (restrict v.files f) [
  | none ↦ record v { files = v.files ++ f ∷ [] }
  | some message ↦ push_error message v
])

-- `uploadFiles`, up to its `await`.
unfoldable pub begin_upload : UploadView → UploadView
unfolding push_error
begin_upload v =
    if v.is_uploading
    then v
    else if length v.files == 0
    then push_error "Select at least one file before uploading" v
    else record v { errors = []; is_uploading = true; running = suc v.running }

abbrev message_or : Option String → String
message_or none = "Upload failed"
message_or (some message) = message

abbrev ended : Reply (Option String) Unit → UploadView → UploadView
ended (ok done) v = v
ended (err message) v = push_error (message_or message) v

-- What follows the `await`; an error has a message if it is an `Error`.
unfoldable pub end_upload : Reply (Option String) Unit → UploadView → UploadView
unfolding push_error
end_upload result v =
    if v.running == 0
    then v
    else (let after = ended result v in
        record after { is_uploading = false; running = v.running - 1 })

unfoldable pub remove_file : String → UploadView → UploadView
remove_file id v = record v { files = keep (λ f. not (str_eq f.id id)) v.files }

unfoldable pub clear_all : UploadView → UploadView
clear_all v = record v { files = []; errors = [] }

-- `onDragEnter`, `onDragLeave` and `onDrop`.
unfoldable pub drag : Bool → UploadView → UploadView
drag b v = record v { is_dragging = b }

unfoldable pub on_drop :
    (List UploadFile → UploadFile → Option String) → List UploadFile → UploadView → UploadView
on_drop restrict files v = add_files restrict files (drag false v)

-- `onChange` of the input, with the microtask that it queues.
unfoldable pub on_change :
    (List UploadFile → UploadFile → Option String)
    → Bool
    → List UploadFile
    → UploadView
    → UploadView
on_change restrict auto_proceed files v =
    let added = add_files restrict files v in if auto_proceed then begin_upload added else added

-- `toUpperCase` on ASCII.
abbrev upper : ℕ → ℕ
upper c = if leb b'a' c && leb c b'z' then c - 32 else c

-- name.split(".").pop()
abbrev pub last_part : List ℕ → List ℕ
last_part [] = []
last_part (c ∷ s) =
    let rest = last_part s in
    if any (λ d. d == b'.') s then rest else if c == b'.' then s else c ∷ s

abbrev text_of : Option String → List ℕ
text_of none = []
text_of (some name) = codes name

unfoldable pub file_type : UploadFile → List ℕ
file_type f =
    if any (λ d. d == b'.') (text_of f.name)
    then map upper (last_part (text_of f.name))
    else codes "FILE"

abbrev pub is_complete : UploadFile → Bool
is_complete f = f.upload_complete

abbrev pub is_failed : UploadFile → Bool
is_failed f = elim f.error [ none ↦ false | some error ↦ truthy error ]

pub record Counts : Type 0 where
  pub all : ℕ
  pub completed : ℕ
  pub failed : ℕ

unfoldable pub counts : UploadView → Counts
counts v = record {
  all = length v.files;
  completed = length (keep is_complete v.files);
  failed = length (keep is_failed v.files);
}

abbrev pub is_open_upload : UploadFile → Bool
is_open_upload f = not (is_complete f) && not (is_failed f)

unfoldable pub in_progress : UploadView → Bool
in_progress v = v.is_uploading || any is_open_upload v.files

pub data UploadTab : Type 0 where
  all_tab completed_tab failed_tab : UploadTab

abbrev shown_in : UploadTab → UploadFile → Bool
shown_in all_tab f = true
shown_in completed_tab f = is_complete f
shown_in failed_tab f = is_failed f

unfoldable pub filtered_files : UploadTab → UploadView → List UploadFile
filtered_files tab v = keep (shown_in tab) v.files

-- Whether the drawer says "Upload successful!".
unfoldable pub complete : UploadView → Bool
unfolding in_progress
complete v = ltb 0 (length v.files) && not (in_progress v)

-- What a row says of its file.
pub data RowStatus : Type 0 where
  failed_to_upload uploaded uploading : RowStatus

unfoldable pub row_status : UploadFile → RowStatus
row_status f =
    if is_failed f then failed_to_upload else if is_complete f then uploaded else uploading

pub record Drawer : Type 0 where
  pub is_open : Bool
  pub minimized : Bool
  pub tab : UploadTab

-- The effect of a change of the number of files or of `isUploading`.
unfoldable pub reveal : UploadView → Drawer → Drawer
reveal v d =
    if v.is_uploading && ltb 0 (length v.files)
    then record { is_open = true; minimized = false; tab = all_tab }
    else d
