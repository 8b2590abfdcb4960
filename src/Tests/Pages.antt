-- ===== src/Tests/Pages.antt =====
-- The pages of the web app on concrete inputs: a save of the edit page, a grid of two pages, a drop, the
-- trash, a rename, a download, a refresh that is shared, and an upload that fails.
use dropbox_go_grpc_microser.Prelude.{String, ◌≡◌, ◌⊎◌, true, false, none, some, List, [], ◌∷◌}
use dropbox_go_grpc_microser.Exec.{Reply, err}
use dropbox_go_grpc_microser.Rpc.{Code}
use dropbox_go_grpc_microser.Item
use dropbox_go_grpc_microser.Item.{Item}
use dropbox_go_grpc_microser.Web.Move.{MoveItemPayload, MoveItem}
use dropbox_go_grpc_microser.Web.Move
use dropbox_go_grpc_microser.Web.Trash.{DeletedItem, file_kind, folder_kind}
use dropbox_go_grpc_microser.Web.Edit.{
  EditSession, EditView, committed, is_saving, begin_save, settle, conclude, cancel_save,
  track_interaction, leave_edit,
}
use dropbox_go_grpc_microser.Web.Edit
use dropbox_go_grpc_microser.Web.Edit.Runs
use dropbox_go_grpc_microser.Web.Edit.Runs.{IsSteady, Reach-IsSteady}
use dropbox_go_grpc_microser.Web.Names.{Dialog}
use dropbox_go_grpc_microser.Web.Shared
use dropbox_go_grpc_microser.Web.Shared.{Requests, refresh_tokens}
use dropbox_go_grpc_microser.Web.Shared.Single
use dropbox_go_grpc_microser.Web.Shared.Single.{
  count, running_for, count_retries, has_token, refresh_tokens-shares,
}
use dropbox_go_grpc_microser.Web.Queue
use dropbox_go_grpc_microser.Web.Queue.{
  UploadFile, UploadView, begin_upload, end_upload, complete, counts,
}
use dropbox_go_grpc_microser.Web.Queue.Errors
use dropbox_go_grpc_microser.Web.Queue.Errors.{IsCalm, Reach-IsCalm}

abbrev session : EditSession
session = record {
  version = 3;
  block_size = 2;
  filename = "a.pdf";
  unavailable_reason = "";
  size_bytes = 3;
  max_edit_bytes = 10;
}

abbrev opened : EditView
opened = Edit.init (some session)

-- A save is committed and awaits its refetches.
abbrev saved_once : EditView
saved_once = settle 0 (committed 4 2) (begin_save opened)

Reach-IsSteady_example : IsSteady (begin_save saved_once)
Reach-IsSteady_example = Reach-IsSteady {session = some session} (
    Runs.next
      (Runs.next (Runs.next Runs.here (Runs.begins opened))
        (Runs.settles 0 (committed 4 2) (begin_save opened)))
      (Runs.begins saved_once))

abbrev note : Item
note = record {
  item_type = "file";
  item_id = "n";
  folder_id = "r";
  details = Item.file (record { file_id = "n"; filename = "n.txt" });
}

abbrev renamed_note : Item
renamed_note = record note { details = Item.file (record { file_id = "n"; filename = "m.txt" }) }

abbrev pages : List (List Item)
pages = (note ∷ []) ∷ (renamed_note ∷ []) ∷ []

abbrev moves : List MoveItemPayload
moves = record { item_id = "n"; item_type = Move.file } ∷ []

abbrev request : List MoveItem
request = record { item_id = "n"; item_type = Move.file; name = some "n.txt" } ∷ []

abbrev target : String
target = "t"

abbrev trash : List DeletedItem
trash =
    record { id = "d"; name = "Photos"; deleted_at = ""; kind = folder_kind }
    ∷ record { id = "n"; name = "n.txt"; deleted_at = ""; kind = file_kind }
    ∷ []

abbrev dialog : Dialog Code
dialog = record { is_open = true; field = " b.txt "; root_error = none; requests = [] }

abbrev refuses : String → Reply Code Unit
refuses name = err Code.already_exists

-- Two requests of the middleware present one token.
abbrev shared_once : Requests
shared_once = (refresh_tokens "r1" Shared.init).1

refresh_tokens-shares_example :
    (count "r1" (refresh_tokens "r1" shared_once).1.running ≡ 1)
    × (running_for "r1" (refresh_tokens "r1" shared_once).1.running
        ≡ some (refresh_tokens "r1" shared_once).0)
    × ((count_retries "r1" (refresh_tokens "r1" shared_once).1.retried ≡ 0)
        ⊎ (has_token "r1" (refresh_tokens "r1" shared_once).1.refused ≡ true))
refresh_tokens-shares_example =
    refresh_tokens-shares {s = shared_once} "r1"
      (Single.next Single.here (Single.asks "r1" Shared.init))

-- An upload of one file begins and fails.
abbrev upload : UploadFile
upload = record { id = "u"; name = some "u.txt"; upload_complete = false; error = some "Too large" }

abbrev chosen : UploadView
chosen = record Queue.init { files = upload ∷ [] }

abbrev uploading : UploadView
uploading = begin_upload chosen

Reach-IsCalm_example : IsCalm (end_upload (err none) uploading)
Reach-IsCalm_example = Reach-IsCalm (
    Errors.next
      (Errors.next (Errors.next Errors.here (Errors.updates (upload ∷ []) Queue.init))
        (Errors.begins chosen))
      (Errors.ends (err none) uploading))
