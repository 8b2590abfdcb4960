-- ===== src/Web/Edit/Request.antt =====
-- The `try` of `handleSave` in web/src/modules/files/views/file-edit-view.tsx: the bytes of the mounted
-- editor, the request, and how it ends.
use dropbox_go_grpc_microser.Prelude.{String, Bool, Option, none, some, str_eq, if◌then◌else◌}
use dropbox_go_grpc_microser.Exec.{Reply, ok, err}
use dropbox_go_grpc_microser.Web.Blocks.{Bytes}
use dropbox_go_grpc_microser.Web.Save.{Input, SaveResult, Services, Wire, save_edited_file}
use dropbox_go_grpc_microser.Web.Save
use dropbox_go_grpc_microser.Web.Edit.{
  EditSession, Outcome, committed, conflicted, cancelled, broken,
}

-- `EDITOR_NAMES[editorType] ?? "extend-editor"`
unfoldable pub editor_name : String → String
editor_name type =
    if str_eq type "pdf"
    then "extend-pdf-editor"
    else if str_eq type "docx"
    then "extend-docx-editor"
    else if str_eq type "xlsx"
    then "extend-xlsx-editor"
    else "extend-editor"

-- The editors that are mounted; the PDF editor may have no buffer yet.
pub record Handles (E : Type 0) : Type 0 where
  pub pdf : Option (Reply E (Option Bytes))
  pub docx : Option (Reply E Bytes)
  pub xlsx : Option (Reply E Bytes)

module _ {E : Type 0} (pdf_loading editor_loading : E) where
  abbrev buffer_of : Option (Reply E (Option Bytes)) → Reply E Bytes
  buffer_of none = err pdf_loading
  buffer_of (some (err e)) = err e
  buffer_of (some (ok none)) = err pdf_loading
  buffer_of (some (ok (some bytes))) = ok bytes

  abbrev bytes_of : Option (Reply E Bytes) → Reply E Bytes
  bytes_of none = err editor_loading
  bytes_of (some r) = r

  unfoldable pub collect_edited_bytes : String → Handles E → Reply E Bytes
  collect_edited_bytes type h =
      if str_eq type "pdf"
      then buffer_of h.pdf
      else bytes_of (if str_eq type "docx" then h.docx else h.xlsx)

-- What `saveEditedFile` is called with.
unfoldable pub save_input : String → EditSession → String → Bytes → Input
unfolding editor_name
save_input file_id session type bytes = record {
  file_id = file_id;
  base_version = session.version;
  block_size = session.block_size;
  filename = session.filename;
  editor = editor_name type;
  bytes = bytes;
}

abbrev message_or : Option String → String
message_or none = "The save failed."
message_or (some message) = message

unfoldable pub outcome_of :
    {E : Type 0} → (E → Bool) → (E → Option String) → Reply E SaveResult → Outcome
outcome_of is_aborted_error message_of (ok (Save.committed version hash reused total sent)) =
    committed version sent
outcome_of is_aborted_error message_of (ok (Save.conflict head_version hash)) =
    conflicted head_version
outcome_of is_aborted_error message_of (err e) =
    if is_aborted_error e then cancelled else broken (message_or (message_of e))

module _ {E : Type 0} (services : Services E) (file_id type : String) (session : EditSession) where
  abbrev pub sent_save : Reply E Bytes → Wire → Reply E SaveResult × Wire
  sent_save (err e) w = (err e, w)
  sent_save (ok bytes) w = save_edited_file services (save_input file_id session type bytes) w

-- The whole `try`, up to the change of the state that it ends with.
module _ {E : Type 0} (pdf_loading editor_loading : E) (is_aborted_error : E → Bool)
    (message_of : E → Option String) (services : Services E) (file_id type : String) where
  unfoldable pub attempt_save : EditSession → Handles E → Wire → Outcome × Wire
  attempt_save session h w =
      let (result, w') =
        sent_save services file_id type session
          (collect_edited_bytes pdf_loading editor_loading type h) w in
      (outcome_of is_aborted_error message_of result, w')
